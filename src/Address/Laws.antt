-- ===== src/Address/Laws.antt =====
-- Addresses are read back from their print.
use native.Mathlib.Nat.{mod-eq_of_lt}
use mathlib.Core.List.{cons-ne-nil}
use inf01151_trabalho_final.Base.{
  ℕ, ◌/◌, ◌%◌, ◌^◌, ◌<◌, ◌≡◌, ◌≢◌, ap, sym, ◌∙◌, [], ◌∷◌, ◌++◌, arith, Lacks, All-append,
}
use inf01151_trabalho_final.Text.{pos, print_nat, atoi, inet_ntop, print_int}
use inf01151_trabalho_final.Text.Decimal.{
  IsDigit, print_nat-All, All-Lacks, atoi-print_int, print_nat_head,
}
use inf01151_trabalho_final.Text.Tokens.{strchr_at}
use inf01151_trabalho_final.Text.Ip.{inet_pton-ntop, inet_ntop-Lacks}
use inf01151_trabalho_final.Address.{SockaddrIn, af_inet, print_address, parse_address}

-- The fields fit the struct.
pub record IsAddress (a : SockaddrIn) : Type 0 where
  pub addr_fits : a.sin_addr < 2 ^ 32
  pub port_fits : a.sin_port < 2 ^ 16

atoi-print_nat : (n : ℕ) → atoi (print_nat n) ≡ pos n
atoi-print_nat n = unfold print_int in atoi-print_int (pos n)

pub parse_address-print :
    (a : SockaddrIn)
    → IsAddress a
    → parse_address (print_address a) ≡ record a { sin_family = af_inet }
unfolding parse_address print_address
parse_address-print a h =
    rw
      (
        strchr_at b':' (inet_ntop a.sin_addr) (print_nat a.sin_port)
            (inet_ntop-Lacks a.sin_addr b':' (λ d. absurd (omega arith)) (omega arith)),
        parse_address,
      )
      (rw (inet_pton-ntop a.sin_addr h.addr_fits, atoi-print_nat a.sin_port)
        (ap (λ p. record { sin_family = af_inet; sin_addr = a.sin_addr; sin_port = p })
          (mod-eq_of_lt h.port_fits)))

pub print_address-Lacks :
    (a : SockaddrIn) (b : ℕ) → ¬ IsDigit b → b ≢ b'.' → b ≢ b':' → Lacks b (print_address a)
unfolding print_address
print_address-Lacks a b h dot colon =
    All-append _ (inet_ntop a.sin_addr) _ (inet_ntop-Lacks a.sin_addr b h dot)
      ((λ e. colon (sym e)), All-Lacks b (print_nat a.sin_port) h (print_nat-All a.sin_port))

pub print_address-ne-nil : (a : SockaddrIn) → print_address a ≢ []
unfolding print_address inet_ntop
print_address-ne-nil a e =
    let (c, rest, shape, d) = print_nat_head (a.sin_addr / 16777216 % 256) _ in
    cons-ne-nil c (rest ++ b':' ∷ print_nat a.sin_port)
      (sym (ap (λ t. t ++ b':' ∷ print_nat a.sin_port) shape) ∙ e)
