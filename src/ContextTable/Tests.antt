-- ===== src/ContextTable/Tests.antt =====
-- Tests of the context table, and its theorems at concrete inputs. Values are numbers here.
use inf01151_trabalho_final.Base.{ℕ, ◌≡◌, refl, List, [], ◌∷◌, arith, Bytes, codes, str_eq}
use inf01151_trabalho_final.ContextTable.{
  found, null, fault, key_hash, create, insert, search, scan,
}
use inf01151_trabalho_final.ContextTable.Lookup.{newest, answer}
use inf01151_trabalho_final.ContextTable.History.{after, hashed_to, search-after}

-- `a` and `C` fall into one bucket of thirty, `b` into another.
colliding :
    (key_hash (codes "a") 30 ≡ 7) × (key_hash (codes "C") 30 ≡ 7) × (key_hash (codes "b") 30 ≡ 8)
unfolding key_hash
colliding = (refl, refl, refl)

negative_character : key_hash (195 ∷ []) 30 ≡ 15
unfolding key_hash
negative_character = refl

abbrev log : List (Bytes × ℕ)
log = (codes "a", 5) ∷ (codes "b", 4) ∷ []

three_searches :
    (search (after 30 log) (codes "b") ≡ found 4)
    × (search (after 30 log) (codes "d") ≡ null)
    × (search (after 30 log) (codes "C") ≡ fault)
unfolding search insert create key_hash scan str_eq
three_searches = (refl, refl, refl)

search-after_example :
    search (after 30 log) (codes "b")
    ≡ answer (hashed_to 30 (key_hash (codes "b") 30) log) (newest log (codes "b"))
search-after_example = search-after 30 log (codes "b") (omega arith)
