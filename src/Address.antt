-- ===== src/Address.antt =====
-- `struct sockaddr_in`, and the text `ip:port` in which both event formats write it. Address and port
-- are the numbers that the network order stands for, so `htons` and `ntohs` convert nothing but the
-- width.
pub mod Laws
use inf01151_trabalho_final.Base.{ℕ, suc, ◌-◌, ◌%◌, ◌^◌, Option, none, some, ◌∷◌, ◌++◌, Bytes}
use inf01151_trabalho_final.Text.{ℤ, pos, negsuc, print_nat, atoi, strchr, inet_ntop, inet_pton}

pub record SockaddrIn : Type 0 where
  pub sin_family : ℕ
  pub sin_addr : ℕ
  pub sin_port : ℕ

-- AF_INET
abbrev pub af_inet : ℕ
af_inet = 2

-- All bytes zero, as `memset` leaves it.
abbrev pub no_address : SockaddrIn
no_address = record { sin_family = 0; sin_addr = 0; sin_port = 0 }

-- An `int` that becomes a `uint16_t`.
abbrev pub to_u16 : ℤ → ℕ
to_u16 (pos n) = n % 2 ^ 16
to_u16 (negsuc n) = 2 ^ 16 - suc (n % 2 ^ 16)

-- `%s:%d` of the address.
unfoldable pub print_address : SockaddrIn → Bytes
print_address a = inet_ntop a.sin_addr ++ b':' ∷ print_nat a.sin_port

-- What a failing inet_pton leaves of the zeroed address.
abbrev pub or_zero : Option ℕ → ℕ
or_zero none = 0
or_zero (some a) = a

-- A token with no colon leaves the address zeroed.
unfoldable pub parse_address : Bytes → SockaddrIn
parse_address token = elim (strchr b':' token) [
  | none ↦ no_address
  | some (ip, port) ↦ record {
    sin_family = af_inet;
    sin_addr = or_zero (inet_pton ip);
    sin_port = to_u16 (atoi port);
  }
]
