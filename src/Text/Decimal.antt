-- ===== src/Text/Decimal.antt =====
-- Decimal numbers are read back from their print, whatever text follows.
use native.Mathlib.Decide.{ℕ_discrete}
use mathlib.Core.List.{cons-ne-nil}
use inf01151_trabalho_final.Base.{
  ℕ, zero, suc, ◌+◌, ◌-◌, ◌*◌, ◌/◌, ◌%◌, ◌<◌, ◌≤◌, ◌≡◌, ◌≢◌, refl, sym, ap, ◌∙◌, false, some, [],
  ◌∷◌, ◌++◌, arith, Bytes, ◌==◌, All, Lacks, eqb_ne, append-nil,
}
use inf01151_trabalho_final.Text.{
  ℤ, pos, negsuc, is_digit, digits, print_nat, print_int, scan_nat, skip_space, scan_unsigned,
  scan_signed, scan_int, atoi, second_int, scan_pair, with_sign, negated,
}

abbrev pub IsDigit : ℕ → Type 0
IsDigit c = (b'0' ≤ c) × (c ≤ b'9')

-- The text does not go on with a digit.
abbrev pub EndsNumber : Bytes → Type 0
EndsNumber [] = Unit {0}
EndsNumber (c ∷ s) = is_digit c ≡ false

scan_nat_digit :
    (n : ℕ) (behind : Bytes) → scan_nat ((b'0' + n % 10) ∷ behind) (n / 10) ≡ scan_nat behind n
unfolding scan_nat
scan_nat_digit n behind =
    let back : n / 10 * 10 + (b'0' + n % 10 - b'0') ≡ n = omega arith in ground arith

scan_nat_end : (s : Bytes) (n : ℕ) → EndsNumber s → scan_nat s n ≡ (n, s)
unfolding scan_nat
scan_nat_end [] n h = refl
scan_nat_end (c ∷ s) n h = rw h

pub digits-append :
    (fuel n : ℕ) (behind after : Bytes)
    → digits fuel n behind ++ after ≡ digits fuel n (behind ++ after)
unfolding digits
digits-append zero n behind after = refl
digits-append (suc fuel) n behind after =
    ground (arith, digits-append fuel (n / 10) ((b'0' + n % 10) ∷ behind) after)

scan_nat-digits :
    (fuel n : ℕ) (behind : Bytes) → n < fuel → scan_nat (digits fuel n behind) 0 ≡ scan_nat behind n
unfolding digits
scan_nat-digits zero n behind h = absurd (omega arith)
scan_nat-digits (suc fuel) n behind h = elim (ℕ_discrete (n / 10) 0) [
  | yes last ↦ rw (ap (λ k. k == 0) last, digits) (rw (← last) (scan_nat_digit n behind))
  | no more ↦
      rw (eqb_ne more, digits)
        (scan_nat-digits fuel (n / 10) ((b'0' + n % 10) ∷ behind) (omega arith)
          ∙ scan_nat_digit n behind)
]

digits-All : (fuel n : ℕ) (behind : Bytes) → All IsDigit behind → All IsDigit (digits fuel n behind)
unfolding digits
digits-All zero n behind h = h
digits-All (suc fuel) n behind h =
    ground (arith, digits-All fuel (n / 10) ((b'0' + n % 10) ∷ behind))

pub print_nat-All : (n : ℕ) → All IsDigit (print_nat n)
unfolding print_nat
print_nat-All n = digits-All (suc n) n [] tt

pub All-Lacks : (b : ℕ) (s : Bytes) → ¬ IsDigit b → All IsDigit s → Lacks b s
All-Lacks b [] h a = tt
All-Lacks b (c ∷ s) h (d, a) = (λ e. h (rw e at d), All-Lacks b s h a)

-- The first digit, as a number is never printed empty.
digits_head :
    (fuel n : ℕ) (behind : Bytes)
    → n < fuel
    → (c : ℕ) × (rest : Bytes) × (digits fuel n behind ≡ c ∷ rest) × IsDigit c
unfolding digits
digits_head zero n behind h = absurd (omega arith)
digits_head (suc fuel) n behind h = elim (ℕ_discrete (n / 10) 0) [
  | yes last ↦
      (b'0' + n % 10, behind, rw (ap (λ k. k == 0) last, digits), (omega arith, omega arith))
  | no more ↦
      let (c, rest, e, d) = digits_head fuel (n / 10) ((b'0' + n % 10) ∷ behind) (omega arith) in
      (c, rest, rw (eqb_ne more, digits) e, d)
]

pub print_nat_head :
    (n : ℕ) (after : Bytes)
    → (c : ℕ) × (rest : Bytes) × (print_nat n ++ after ≡ c ∷ rest) × IsDigit c
unfolding print_nat
print_nat_head n after =
    let (c, rest, e, d) = digits_head (suc n) n after (omega arith) in
    (c, rest, digits-append (suc n) n [] after ∙ e, d)

pub scan_nat-print_nat :
    (n : ℕ) (after : Bytes) → EndsNumber after → scan_nat (print_nat n ++ after) 0 ≡ (n, after)
unfolding print_nat
scan_nat-print_nat n after h =
    rw (digits-append (suc n) n [] after, scan_nat-digits (suc n) n after (omega arith))
      (scan_nat_end after n h)

scan_unsigned_digit :
    (c : ℕ) (s : Bytes) → IsDigit c → scan_unsigned (c ∷ s) ≡ some (scan_nat (c ∷ s) 0)
unfolding scan_unsigned
scan_unsigned_digit c s d = ground arith

scan_unsigned-print_nat :
    (n : ℕ) (after : Bytes)
    → EndsNumber after
    → scan_unsigned (print_nat n ++ after) ≡ some (n, after)
scan_unsigned-print_nat n after h =
    let (c, rest, e, d) = print_nat_head n after in
    ap scan_unsigned e
    ∙ scan_unsigned_digit c rest d
    ∙ ap (λ s. some (scan_nat s 0)) (sym e)
    ∙ ap some (scan_nat-print_nat n after h)

scan_int_digit :
    (c : ℕ) (s : Bytes) → IsDigit c → scan_int (c ∷ s) ≡ with_sign pos (scan_unsigned (c ∷ s))
unfolding scan_int scan_signed skip_space
scan_int_digit c s d = ground arith

scan_int_minus : (s : Bytes) → scan_int (b'-' ∷ s) ≡ with_sign negated (scan_unsigned s)
unfolding scan_int scan_signed skip_space
scan_int_minus s = refl

-- An integer is read back from its print, in front of any text that does not go on with a digit.
pub scan_int-print_int :
    (n : ℤ) (after : Bytes) → EndsNumber after → scan_int (print_int n ++ after) ≡ some (n, after)
unfolding print_int
scan_int-print_int (pos n) after h =
    let (c, rest, e, d) = print_nat_head n after in
    ap scan_int e
    ∙ scan_int_digit c rest d
    ∙ ap (λ s. with_sign pos (scan_unsigned s)) (sym e)
    ∙ ap (with_sign pos) (scan_unsigned-print_nat n after h)
scan_int-print_int (negsuc n) after h =
    scan_int_minus (print_nat (suc n) ++ after)
    ∙ ap (with_sign negated) (scan_unsigned-print_nat (suc n) after h)

pub atoi-print_int : (n : ℤ) → atoi (print_int n) ≡ n
unfolding atoi
atoi-print_int n = ap atoi (sym (append-nil (print_int n))) ∙ rw (scan_int-print_int n [] tt, atoi)

-- Two integers written with `%d:%d` are the two that sscanf reads.
pub scan_pair-print :
    (a b : ℤ) (after : Bytes)
    → EndsNumber after
    → scan_pair (print_int a ++ b':' ∷ (print_int b ++ after)) ≡ some (a, b)
unfolding scan_pair second_int
scan_pair-print a b after h = rw (
  scan_int-print_int a (b':' ∷ (print_int b ++ after)) refl,
  scan_int-print_int b after h,
  scan_pair,
  second_int,
)

pub print_nat-ne-nil : (n : ℕ) → print_nat n ≢ []
print_nat-ne-nil n e =
    let (c, rest, shape, d) = print_nat_head n [] in
    cons-ne-nil c rest (sym shape ∙ append-nil (print_nat n) ∙ e)
