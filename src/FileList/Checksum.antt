-- ===== src/FileList/Checksum.antt =====
-- `crc32` of src/util/connectionManagement.c: the reads do not matter, and the result fits 32 bits.
use Prim.Native.Nat.{bit_xor, bit_xor-bitwise, digits, differ}
use inf01151_trabalho_final.Base.{
  ℕ, zero, suc, ◌/◌, ◌%◌, ◌^◌, ◌<◌, ◌≡◌, refl, ap, sym, ◌∙◌, subst, false, Option, none, some, [],
  ◌∷◌, ◌++◌, Bytes, length, take, drop, ◌==◌, arith, take-append-drop, length-take, length-drop,
  eqb_ne, All, Option-cases, inl, inr, Bool-cases,
}
use inf01151_trabalho_final.Files.{FileSystem, content_of}
use inf01151_trabalho_final.Transfer.{done}
use inf01151_trabalho_final.FileList.{crc_bit, crc_bits, crc_bytes, crc_reads, crc32}

crc_bytes-append :
    (crc : ℕ) (xs ys : Bytes) → crc_bytes crc (xs ++ ys) ≡ crc_bytes (crc_bytes crc xs) ys
unfolding crc_bytes
crc_bytes-append crc [] ys = refl
crc_bytes-append crc (b ∷ xs) ys = crc_bytes-append (crc_bits 8 (bit_xor crc b)) xs ys

-- The checksum of a whole content in one pass.
abbrev pub checksum : Bytes → ℕ
checksum content = bit_xor (crc_bytes 0xFFFFFFFF content) 0xFFFFFFFF

-- That of a file, which is 0 if it is not there.
abbrev pub checksum_of : FileSystem → Option Bytes → ℕ
checksum_of fs none = 0
checksum_of fs (some filepath) = elim (content_of fs filepath) [
  | none ↦ 0
  | some content ↦ checksum content
]

crc_reads_step :
    (fuel crc : ℕ) (rest : Bytes)
    → 0 < length rest
    → crc_reads (suc fuel) crc rest
      ≡ crc_reads fuel (crc_bytes crc (take 1024 rest)) (drop 1024 rest)
unfolding crc_reads
crc_reads_step fuel crc rest pos =
    let some_read : (length (take 1024 rest) == 0) ≡ false =
      eqb_ne (omega (arith, length-take 1024 rest)) in
    rw (some_read, crc_reads) refl

crc_reads_lem :
    (fuel crc : ℕ) (rest : Bytes)
    → length rest < fuel
    → crc_reads fuel crc rest ≡ done (crc_bytes crc rest)
unfolding crc_reads crc_bytes
crc_reads_lem zero crc rest h = absurd (omega arith)
crc_reads_lem (suc fuel) crc [] h = refl
crc_reads_lem (suc fuel) crc (b ∷ rest) h =
    crc_reads_step fuel crc (b ∷ rest) (omega arith)
    ∙ crc_reads_lem fuel _ (drop 1024 (b ∷ rest)) (omega (arith, length-drop 1024 (b ∷ rest)))
    ∙ ap done (
        sym (crc_bytes-append crc (take 1024 (b ∷ rest)) (drop 1024 (b ∷ rest)))
        ∙ ap (crc_bytes crc) (take-append-drop 1024 (b ∷ rest)))

-- The checksum of a file is always computed, and reading it in pieces of 1024 bytes gives the
-- checksum of the whole content in one pass; it is 0 for a file that cannot be opened.
pub crc32_lem : (fs : FileSystem) (path : Option Bytes) → crc32 fs path ≡ done (checksum_of fs path)
unfolding crc32
crc32_lem fs none = refl
crc32_lem fs (some filepath) = elim (Option-cases (content_of fs filepath)) [
  | inl e ↦ rw (e, checksum_of, crc32)
  | inr (content, e) ↦
      rw (e, checksum_of, crc32)
        (rw (crc_reads_lem (suc (length content)) 0xFFFFFFFF content (omega arith)))
]

differ-lt : (x y : ℕ) → x < 2 → y < 2 → differ x y < 2
differ-lt zero y hx hy = hy
differ-lt (suc zero) zero hx hy = omega arith
differ-lt (suc zero) (suc y) hx hy = omega arith
differ-lt (suc (suc x)) y hx hy = absurd (omega arith)

digits-lt : (n w a b : ℕ) → a < 2 ^ w → b < 2 ^ w → digits (λ b. b) differ n a b < 2 ^ w
digits-lt zero w a b ha hb = hb
digits-lt (suc n) w zero b ha hb = hb
digits-lt (suc n) zero (suc a) b ha hb = absurd (omega arith)
digits-lt (suc n) (suc w) (suc a) b ha hb = omega (
  arith,
  digits-lt n w (suc a / 2) (b / 2) (omega arith) (omega arith),
  differ-lt (suc a % 2) (b % 2) (omega arith) (omega arith),
)

pub bit_xor-lt : (w a b : ℕ) → a < 2 ^ w → b < 2 ^ w → bit_xor a b < 2 ^ w
bit_xor-lt w a b ha hb =
    subst (λ n. n < 2 ^ w) (sym (bit_xor-bitwise a b)) (digits-lt a w a b ha hb)

crc_bit-lt : (crc : ℕ) → crc < 2 ^ 32 → crc_bit crc < 2 ^ 32
crc_bit-lt crc h = elim (Bool-cases (crc % 2 == 1)) [
  | inl odd ↦ rw odd (bit_xor-lt 32 (crc / 2) 0xEDB88320 (omega arith) (omega arith))
  | inr even ↦ rw even (omega arith)
]

crc_bits-lt : (j crc : ℕ) → crc < 2 ^ 32 → crc_bits j crc < 2 ^ 32
unfolding crc_bits
crc_bits-lt zero crc h = h
crc_bits-lt (suc j) crc h = crc_bits-lt j (crc_bit crc) (crc_bit-lt crc h)

-- From a register of 32 bits, bytes never make the checksum exceed 32 bits.
pub crc_bytes-lt :
    (crc : ℕ) (buffer : Bytes)
    → crc < 2 ^ 32
    → All (λ b. b < 256) buffer
    → crc_bytes crc buffer < 2 ^ 32
unfolding crc_bytes
crc_bytes-lt crc [] h hb = h
crc_bytes-lt crc (b ∷ buffer) h hb =
    crc_bytes-lt (crc_bits 8 (bit_xor crc b)) buffer
      (crc_bits-lt 8 (bit_xor crc b) (bit_xor-lt 32 crc b h (omega (arith, hb.0)))) hb.1

-- The checksum of a file of bytes fits the `uint32_t` that keeps it.
pub checksum-lt : (content : Bytes) → All (λ b. b < 256) content → checksum content < 2 ^ 32
checksum-lt content h =
    bit_xor-lt 32 (crc_bytes 0xFFFFFFFF content) 0xFFFFFFFF
      (crc_bytes-lt 0xFFFFFFFF content (omega arith) h) (omega arith)
