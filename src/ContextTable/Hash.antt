-- ===== src/ContextTable/Hash.antt =====
-- `keyHash` of src/util/contextHashTable.c.
use inf01151_trabalho_final.Base.{ℕ, ◌+◌, ◌*◌, ◌%◌, ◌^◌, ◌<◌, [], ◌∷◌, arith, Bytes}
use inf01151_trabalho_final.ContextTable.{hash_from, key_hash, prime_hash, char_to_size}

hash_from-lt :
    (modulo : ℕ)
    → 0 < modulo
    → (hash : ℕ) (key : Bytes) → hash < modulo
    → hash_from modulo hash key < modulo
unfolding hash_from
hash_from-lt modulo pos hash [] h = h
hash_from-lt modulo pos hash (c ∷ key) h =
    hash_from-lt modulo pos ((prime_hash * hash + char_to_size c) % 2 ^ 64 % modulo) key
      (grind arith)

-- The hash of any key is an index of a table that has a bucket, also when the product wraps around
-- and when the key holds negative characters.
pub key_hash-lt : (key : Bytes) (modulo : ℕ) → 0 < modulo → key_hash key modulo < modulo
unfolding key_hash
key_hash-lt key modulo pos = hash_from-lt modulo pos 0 key pos
