-- ===== src/Base/Text.antt =====
-- Byte strings. A C string is the list of its bytes before the terminating NUL.
use Prim.Native.Nat.{ℕ}
use Prim.Native.Char.{code}
use Prim.Native.String.{String}
use mathlib.Core.Path.{◌≡◌, refl, ap}
use mathlib.Core.Logic.{◌↔◌, ◌≢◌}
use mathlib.Core.Bool.{Bool, true, false}
use mathlib.Core.List.{List, [], ◌∷◌, ◌++◌}
use native.Mathlib.Omega.{arith}
use inf01151_trabalho_final.Base.Tests.{◌==◌, eqb_ne, if◌then◌else◌}
use inf01151_trabalho_final.Base.Lists.{All}

abbrev pub Bytes : Type 0
Bytes = List ℕ

-- The bytes of an ASCII literal.
abbrev pub codes : String → Bytes
codes String.[] = []
codes (String.◌∷◌ c s) = code c ∷ codes s

-- strcmp(s, t) == 0
unfoldable pub str_eq : Bytes → Bytes → Bool
str_eq [] [] = true
str_eq [] (c ∷ t) = false
str_eq (b ∷ s) [] = false
str_eq (b ∷ s) (c ∷ t) = if b == c then str_eq s t else false

pub str_eq_sound : (s t : Bytes) → str_eq s t ≡ true → s ≡ t
unfolding str_eq
str_eq_sound [] [] h = refl
str_eq_sound [] (c ∷ t) h = cc
str_eq_sound (b ∷ s) [] h = cc
str_eq_sound (b ∷ s) (c ∷ t) h = ground (arith, str_eq_sound s t)

pub str_eq_refl : (s : Bytes) → str_eq s s ≡ true
unfolding str_eq
str_eq_refl [] = refl
str_eq_refl (b ∷ s) = ground (arith, str_eq_refl s)

pub str_eq_iff : (s t : Bytes) → (str_eq s t ≡ true) ↔ (s ≡ t)
str_eq_iff s t = (str_eq_sound s t, λ e. rw e (str_eq_refl t))

-- The text holds no byte `b`.
abbrev pub Lacks : ℕ → Bytes → Type 0
Lacks b = All (λ c. c ≢ b)

-- The C string that begins an array: the bytes before the first NUL.
abbrev pub c_string : Bytes → Bytes
c_string [] = []
c_string (b ∷ bytes) = if b == 0 then [] else b ∷ c_string bytes

pub c_string-zero : (s after : Bytes) → Lacks 0 s → c_string (s ++ 0 ∷ after) ≡ s
c_string-zero [] after h = refl
c_string-zero (b ∷ s) after h = rw (eqb_ne h.0) (ap (λ t. b ∷ t) (c_string-zero s after h.1))

pub c_string_all : (s : Bytes) → Lacks 0 s → c_string s ≡ s
c_string_all [] h = refl
c_string_all (b ∷ s) h = rw (eqb_ne h.0) (ap (λ t. b ∷ t) (c_string_all s h.1))
