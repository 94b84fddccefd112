-- ===== src/Text/Ip.antt =====
-- IPv4 addresses are read back from their print.
use native.Mathlib.Decide.{ℕ_discrete}
use inf01151_trabalho_final.Base.{
  ℕ, zero, suc, ◌+◌, ◌*◌, ◌/◌, ◌%◌, ◌^◌, ◌<◌, ◌≡◌, ◌≢◌, sym, ap, ◌∙◌, true, false, some, [], ◌∷◌,
  ◌++◌, arith, Bytes, ◌==◌, All-append, Lacks, eqb_ne, append-nil,
}
use inf01151_trabalho_final.Text.{
  digits, print_nat, inet_ntop, inet_pton, IpState, pton_digit, pton_dot, pton_step, pton_from,
}
use inf01151_trabalho_final.Text.Decimal.{IsDigit, print_nat-All, All-Lacks, digits-append}

-- Before the digits of an octet, and behind them.
abbrev ready : ℕ → ℕ → IpState
ready octets address = record { octets = octets; saw_digit = false; octet = 0; address = address }

abbrev read : ℕ → ℕ → ℕ → IpState
read octets address n = record {
  octets = suc octets;
  saw_digit = true;
  octet = n;
  address = address;
}

pton_from_step :
    (c : ℕ) (text : Bytes) (s s' : IpState)
    → pton_step c s ≡ some s'
    → pton_from (c ∷ text) s ≡ pton_from text s'
unfolding pton_from
pton_from_step c text s s' e = rw (e, pton_from)

module _ (octets address : ℕ) (few : octets < 4) where
  first_step :
      (n : ℕ)
      → n < 10
      → pton_step (b'0' + n % 10) (ready octets address) ≡ some (read octets address n)
  unfolding pton_digit
  first_step n h = ground arith

  next_step :
      (n : ℕ)
      → n < 256
      → n / 10 ≢ 0
      → pton_step (b'0' + n % 10) (read octets address (n / 10)) ≡ some (read octets address n)
  unfolding pton_digit
  next_step n h ne = ground arith

  pton_first_digit :
      (n : ℕ) (behind : Bytes)
      → n < 10
      → pton_from ((b'0' + n % 10) ∷ behind) (ready octets address)
        ≡ pton_from behind (read octets address n)
  pton_first_digit n behind h =
      pton_from_step (b'0' + n % 10) behind (ready octets address) (read octets address n)
        (first_step n h)

  pton_next_digit :
      (n : ℕ) (behind : Bytes)
      → n < 256
      → n / 10 ≢ 0
      → pton_from ((b'0' + n % 10) ∷ behind) (read octets address (n / 10))
        ≡ pton_from behind (read octets address n)
  pton_next_digit n behind h ne =
      pton_from_step (b'0' + n % 10) behind (read octets address (n / 10)) (read octets address n)
        (next_step n h ne)

  pton-digits :
      (fuel n : ℕ) (behind : Bytes)
      → n < fuel
      → n < 256
      → pton_from (digits fuel n behind) (ready octets address)
        ≡ pton_from behind (read octets address n)
  unfolding digits
  pton-digits zero n behind h small = absurd (omega arith)
  pton-digits (suc fuel) n behind h small = elim (ℕ_discrete (n / 10) 0) [
    | yes last ↦ rw (ap (λ k. k == 0) last, digits) (pton_first_digit n behind (omega arith))
    | no more ↦
        rw (eqb_ne more, digits)
          (pton-digits fuel (n / 10) ((b'0' + n % 10) ∷ behind) (omega arith) (omega arith)
            ∙ pton_next_digit n behind small more)
  ]

  pton-print_nat :
      (n : ℕ) (behind : Bytes)
      → n < 256
      → pton_from (print_nat n ++ behind) (ready octets address)
        ≡ pton_from behind (read octets address n)
  unfolding print_nat
  pton-print_nat n behind small =
      rw (digits-append (suc n) n [] behind) (pton-digits (suc n) n behind (omega arith) small)

pton_dot_step :
    (octets address n : ℕ) (text : Bytes)
    → octets < 3
    → pton_from (b'.' ∷ text) (read octets address n)
      ≡ pton_from text (ready (suc octets) (address * 256 + n))
pton_dot_step octets address n text h =
    pton_from_step b'.' text (read octets address n) (ready (suc octets) (address * 256 + n))
      (unfold pton_dot in ground arith)

-- One octet and the dot behind it.
pton_octet :
    (octets address n : ℕ) (text : Bytes)
    → octets < 3
    → n < 256
    → pton_from (print_nat n ++ b'.' ∷ text) (ready octets address)
      ≡ pton_from text (ready (suc octets) (address * 256 + n))
pton_octet octets address n text h small =
    pton-print_nat octets address (omega arith) n (b'.' ∷ text) small
    ∙ pton_dot_step octets address n text h

pton_last :
    (address n : ℕ) → n < 256 → pton_from (print_nat n) (ready 3 address) ≡ some (address * 256 + n)
unfolding pton_from
pton_last address n small =
    ap (λ t. pton_from t (ready 3 address)) (sym (append-nil (print_nat n)))
    ∙ pton-print_nat 3 address (omega arith) n [] small

-- Every IPv4 address is read back from its print in dots.
pub inet_pton-ntop : (a : ℕ) → a < 2 ^ 32 → inet_pton (inet_ntop a) ≡ some a
unfolding inet_ntop inet_pton
inet_pton-ntop a h =
    pton_octet 0 0 (a / 16777216 % 256) _ (omega arith) (omega arith)
    ∙ pton_octet 1 _ (a / 65536 % 256) _ (omega arith) (omega arith)
    ∙ pton_octet 2 _ (a / 256 % 256) _ (omega arith) (omega arith)
    ∙ pton_last _ (a % 256) (omega arith)
    ∙ ap some (omega arith)

-- The print of an address holds digits and dots.
pub inet_ntop-Lacks : (a b : ℕ) → ¬ IsDigit b → b ≢ b'.' → Lacks b (inet_ntop a)
unfolding inet_ntop
inet_ntop-Lacks a b h dot =
    let octet : (n : ℕ) → Lacks b (print_nat n) =
      λ n. All-Lacks b (print_nat n) h (print_nat-All n) in
    let not_dot : b'.' ≢ b = λ e. dot (sym e) in
    All-append _ (print_nat (a / 16777216 % 256)) _ (octet _) (
      not_dot,
      All-append _ (print_nat (a / 65536 % 256)) _ (octet _) (
        not_dot,
        All-append _ (print_nat (a / 256 % 256)) _ (octet _) (not_dot, octet (a % 256)),
      ),
    )
