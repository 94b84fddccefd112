-- ===== src/Text.antt =====
-- The functions of the C library by which the program writes and reads its text formats: `%d` of
-- printf, `atoi`, `%d` of sscanf, `strtok_r` with one delimiter, `inet_ntop` and `inet_pton` for
-- IPv4. An `int` is an integer of any size here; the values in the formats are small.
pub mod Decimal
pub mod Tokens
pub mod Ip
use inf01151_trabalho_final.Base.{
  ℕ, zero, suc, ◌+◌, ◌-◌, ◌*◌, ◌/◌, ◌%◌, Bool, true, false, ◌&&◌, ◌||◌, Option, none, some, List,
  [], ◌∷◌, ◌++◌, Bytes, leb, ltb, ◌==◌, if◌then◌else◌,
}

-- `negsuc n` is -(n + 1).
pub data ℤ : Type 0 where
  pos : ℕ → ℤ
  negsuc : ℕ → ℤ

abbrev pub is_digit : ℕ → Bool
is_digit c = leb b'0' c && leb c b'9'

-- The digits of `n` in front of `behind`, with fuel above `n`.
unfoldable pub digits : ℕ → ℕ → Bytes → Bytes
digits zero n behind = behind
digits (suc fuel) n behind =
    let digit = b'0' + n % 10 in
    elim (n / 10 == 0) [ true ↦ digit ∷ behind | false ↦ digits fuel (n / 10) (digit ∷ behind) ]

unfoldable pub print_nat : ℕ → Bytes
unfolding digits
print_nat n = digits (suc n) n []

-- printf("%d")
unfoldable pub print_int : ℤ → Bytes
unfolding print_nat
print_int (pos n) = print_nat n
print_int (negsuc n) = b'-' ∷ print_nat (suc n)

-- The number that the leading digits spell behind `n`, and the rest.
unfoldable pub scan_nat : Bytes → ℕ → ℕ × Bytes
scan_nat [] n = (n, [])
scan_nat (c ∷ s) n =
    let more = scan_nat s (n * 10 + (c - b'0')) in if is_digit c then more else (n, c ∷ s)

abbrev pub is_space : ℕ → Bool
is_space c = c == 32 || leb 9 c && leb c 13

unfoldable pub skip_space : Bytes → Bytes
skip_space [] = []
skip_space (c ∷ s) = if is_space c then skip_space s else c ∷ s

abbrev pub negated : ℕ → ℤ
negated zero = pos 0
negated (suc n) = negsuc n

-- What follows the white space: a sign, and digits. `none` if no digit is there.
unfoldable pub scan_unsigned : Bytes → Option (ℕ × Bytes)
unfolding scan_nat
scan_unsigned [] = none
scan_unsigned (c ∷ s) = if is_digit c then some (scan_nat (c ∷ s) 0) else none

abbrev pub with_sign : (ℕ → ℤ) → Option (ℕ × Bytes) → Option (ℤ × Bytes)
with_sign sign none = none
with_sign sign (some (n, rest)) = some (sign n, rest)

unfoldable pub scan_signed : Bytes → Option (ℤ × Bytes)
unfolding scan_unsigned
scan_signed [] = none
scan_signed (c ∷ s) =
    if c == b'-'
    then with_sign negated (scan_unsigned s)
    else if c == b'+'
    then with_sign pos (scan_unsigned s)
    else with_sign pos (scan_unsigned (c ∷ s))

-- `%d` of sscanf.
unfoldable pub scan_int : Bytes → Option (ℤ × Bytes)
unfolding scan_signed skip_space
scan_int s = scan_signed (skip_space s)

-- atoi is 0 where no number stands.
unfoldable pub atoi : Bytes → ℤ
atoi s = elim (scan_int s) [ none ↦ pos 0 | some (n, rest) ↦ n ]

unfoldable pub second_int : ℤ → Bytes → Option (ℤ × ℤ)
second_int a [] = none
second_int a (c ∷ s) =
    if c == b':' then (elim (scan_int s) [ none ↦ none | some (b, rest) ↦ some (a, b) ]) else none

-- sscanf(s, "%d:%d", …) == 2, with the two numbers.
unfoldable pub scan_pair : Bytes → Option (ℤ × ℤ)
scan_pair s = elim (scan_int s) [ none ↦ none | some (a, rest) ↦ second_int a rest ]

-- strtok_r skips delimiters, cuts at the next one, and goes on behind it.
unfoldable pub skip : ℕ → Bytes → Bytes
skip d [] = []
skip d (c ∷ s) = if c == d then skip d s else c ∷ s

unfoldable pub cut : ℕ → Bytes → Bytes × Bytes
cut d [] = ([], [])
cut d (c ∷ s) = let (token, rest) = cut d s in if c == d then ([], s) else (c ∷ token, rest)

abbrev pub token_of : ℕ → Bytes → Option (Bytes × Bytes)
token_of d [] = none
token_of d (c ∷ s) = some (cut d (c ∷ s))

unfoldable pub strtok : ℕ → Bytes → Option (Bytes × Bytes)
unfolding skip cut
strtok d s = token_of d (skip d s)

-- strchr(s, c): the text before the first `c`, and that behind it.
unfoldable pub strchr : ℕ → Bytes → Option (Bytes × Bytes)
strchr d [] = none
strchr d (c ∷ s) = elim (c == d) [
  | true ↦ some ([], s)
  | false ↦ elim (strchr d s) [ none ↦ none | some (before, behind) ↦ some (c ∷ before, behind) ]
]

-- An address of the network is the number below 2^32 whose first byte is the highest.
unfoldable pub inet_ntop : ℕ → Bytes
inet_ntop a =
    print_nat (a / 16777216 % 256)
    ++ b'.'
      ∷ (print_nat (a / 65536 % 256)
          ++ b'.' ∷ (print_nat (a / 256 % 256) ++ b'.' ∷ print_nat (a % 256)))

-- The loop of inet_pton: the octets begun, whether this one has a digit, its value, and the address
-- of those before it.
pub record IpState : Type 0 where
  pub octets : ℕ
  pub saw_digit : Bool
  pub octet : ℕ
  pub address : ℕ

unfoldable pub pton_digit : ℕ → IpState → Option IpState
pton_digit d s =
    let new = s.octet * 10 + d in
    if s.saw_digit && s.octet == 0
    then none
    else if ltb 255 new
    then none
    else if s.saw_digit
    then some (record s { octet = new })
    else if ltb 3 s.octets
    then none
    else some (record s { octets = s.octets + 1; saw_digit = true; octet = new })

unfoldable pub pton_dot : IpState → Option IpState
pton_dot s =
    if s.saw_digit
    then (if s.octets == 4
        then none
        else some (record s { saw_digit = false; octet = 0; address = s.address * 256 + s.octet }))
    else none

abbrev pub pton_step : ℕ → IpState → Option IpState
pton_step c s =
    if is_digit c then pton_digit (c - b'0') s else if c == b'.' then pton_dot s else none

unfoldable pub pton_from : Bytes → IpState → Option ℕ
unfolding pton_digit pton_dot
pton_from [] s = if ltb s.octets 4 then none else some (s.address * 256 + s.octet)
pton_from (c ∷ text) s = elim (pton_step c s) [ none ↦ none | some s' ↦ pton_from text s' ]

-- `none` is a return of 0, which leaves the destination alone.
unfoldable pub inet_pton : Bytes → Option ℕ
unfolding pton_from
inet_pton text = pton_from text (record { octets = 0; saw_digit = false; octet = 0; address = 0 })
