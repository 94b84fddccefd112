-- ===== src/Events/RoundTrip.antt =====
-- A backup reads the event that the manager wrote: `serialize_replica_event` and
-- `deserialize_replica_event` of src/server/replica.c.
use inf01151_trabalho_final.Base.{
  suc, ◌≡◌, ◌≢◌, ap, ◌∙◌, false, Option, none, some, [], ◌∷◌, ◌++◌, arith, Bytes, Lacks, str_eq,
  str_eq_sound, Bool-cases, inl, inr,
}
use inf01151_trabalho_final.Text.{ℤ, pos, negsuc, print_nat, atoi, print_int, strtok}
use inf01151_trabalho_final.Text.Decimal.{
  print_nat-All, All-Lacks, atoi-print_int, print_nat-ne-nil,
}
use inf01151_trabalho_final.Text.Tokens.{strtok_at, strtok_all, strtok_skip, strtok-nil}
use inf01151_trabalho_final.Address.{SockaddrIn, af_inet, print_address, parse_address}
use inf01151_trabalho_final.Address.Laws.{
  IsAddress, parse_address-print, print_address-Lacks, print_address-ne-nil,
}
use inf01151_trabalho_final.Events.{
  ReplicaEvent, or_empty, serialize_replica_event, deserialize_replica_event, parse_event_address,
  parse_names, text_token,
}

-- A text that a field of an event can carry.
abbrev pub IsName : Bytes → Type 0
IsName s = (s ≢ []) × Lacks b'|' s

-- A file path comes with a user name.
abbrev pub HasNames : Option Bytes → Option Bytes → Type 0
HasNames none none = Unit {0}
HasNames none (some filepath) = ⊥
HasNames (some username) none = IsName username
HasNames (some username) (some filepath) = IsName username × IsName filepath

-- What an event can carry across the wire.
pub record IsEvent (e : ReplicaEvent) : Type 0 where
  pub address : IsAddress e.device_address
  pub names : HasNames e.username e.filepath

str_eq-nil : (s : Bytes) → s ≢ [] → str_eq s [] ≡ false
str_eq-nil s ne = elim (Bool-cases (str_eq s [])) [
  | inl e ↦ absurd (ne (str_eq_sound s [] e))
  | inr e ↦ e
]

-- A found token is copied, as it is not empty.
text_token_of :
    (s token rest : Bytes)
    → token ≢ []
    → strtok b'|' s ≡ some (token, rest)
    → text_token s ≡ (some token, rest)
unfolding text_token
text_token_of s token rest ne e = rw (e, text_token) (rw (str_eq-nil token ne))

text_token-none : (s : Bytes) → strtok b'|' s ≡ none → text_token s ≡ (none, s)
unfolding text_token
text_token-none s e = rw (e, text_token)

text_token_at : (s rest : Bytes) → IsName s → text_token (s ++ b'|' ∷ rest) ≡ (some s, rest)
text_token_at s rest h = text_token_of (s ++ b'|' ∷ rest) s rest h.0 (strtok_at b'|' s rest h.0 h.1)

text_token_all : (s : Bytes) → IsName s → text_token s ≡ (some s, [])
text_token_all s h = text_token_of s s [] h.0 (strtok_all b'|' s h.0 h.1)

text_token_bar : text_token (b'|' ∷ []) ≡ (none, b'|' ∷ [])
text_token_bar = text_token-none (b'|' ∷ []) (strtok_skip b'|' [] ∙ strtok-nil b'|')

-- The two tokens of `parse_names`, one after the other.
two_tokens :
    (type : ℤ) (address : SockaddrIn) (s rest rest' : Bytes) (username filepath : Option Bytes)
    → text_token s ≡ (username, rest)
    → text_token rest ≡ (filepath, rest')
    → parse_names type address s
      ≡ record { type = type; device_address = address; username = username; filepath = filepath }
unfolding parse_names
two_tokens type address s rest rest' username filepath e f =
    ap (built (λ t. t.0) (λ t. (text_token t.1).0)) e ∙ ap (built (λ t. username) (λ t. t.0)) f
  where
    built :
        (Option Bytes × Bytes → Option Bytes)
        → (Option Bytes × Bytes → Option Bytes)
        → Option Bytes × Bytes
        → ReplicaEvent
    built u p t = record { type = type; device_address = address; username = u t; filepath = p t }

parse_names_lem :
    (type : ℤ) (address : SockaddrIn) (username filepath : Option Bytes)
    → HasNames username filepath
    → parse_names type address (or_empty username ++ b'|' ∷ or_empty filepath)
      ≡ record { type = type; device_address = address; username = username; filepath = filepath }
parse_names_lem type address none none h =
    two_tokens type address _ _ _ none none text_token_bar text_token_bar
parse_names_lem type address none (some f) h = absurd h
parse_names_lem type address (some u) none h =
    two_tokens type address _ _ _ (some u) none (text_token_at u [] h)
      (text_token-none [] (strtok-nil b'|'))
parse_names_lem type address (some u) (some f) h =
    two_tokens type address _ _ _ (some u) (some f) (text_token_at u f h.0) (text_token_all f h.1)

pub print_int-IsName : (n : ℤ) → IsName (print_int n)
unfolding print_int
print_int-IsName (pos n) =
    (print_nat-ne-nil n, All-Lacks b'|' (print_nat n) (λ d. absurd (omega arith)) (print_nat-All n))
print_int-IsName (negsuc n) = (
  cc,
  (
    omega arith,
    All-Lacks b'|' (print_nat (suc n)) (λ d. absurd (omega arith)) (print_nat-All (suc n)),
  ),
)

pub print_address-IsName : (a : SockaddrIn) → IsName (print_address a)
print_address-IsName a = (
  print_address-ne-nil a,
  print_address-Lacks a b'|' (λ d. absurd (omega arith)) (omega arith) (omega arith),
)

parse_first :
    (s token rest : Bytes)
    → strtok b'|' s ≡ some (token, rest)
    → deserialize_replica_event s ≡ parse_event_address (atoi token) rest
unfolding deserialize_replica_event
parse_first s token rest e = rw (e, deserialize_replica_event)

parse_second :
    (type : ℤ) (s token rest : Bytes)
    → strtok b'|' s ≡ some (token, rest)
    → parse_event_address type s ≡ parse_names type (parse_address token) rest
unfolding parse_event_address
parse_second type s token rest e = rw (e, parse_event_address)

-- The fields before the names.
parse_head :
    (type : ℤ) (address : SockaddrIn) (behind : Bytes)
    → IsAddress address
    → deserialize_replica_event (print_int type ++ b'|' ∷ (print_address address ++ b'|' ∷ behind))
      ≡ parse_names type (record address { sin_family = af_inet }) behind
parse_head type address behind h =
    let (some_type, no_bar) = print_int-IsName type in
    let (some_address, no_bar') = print_address-IsName address in
    parse_first _ (print_int type) _
      (strtok_at b'|' (print_int type) (print_address address ++ b'|' ∷ behind) some_type no_bar)
    ∙ ap (λ n. parse_event_address n (print_address address ++ b'|' ∷ behind)) (atoi-print_int type)
    ∙ parse_second type _ (print_address address) behind
        (strtok_at b'|' (print_address address) behind some_address no_bar')
    ∙ ap (λ a. parse_names type a behind) (parse_address-print address h)

-- Every event whose names are not empty and hold no bar is read back from its text, with AF_INET for
-- its address family: connections, disconnections, uploads, deletions, new replicas and heartbeats.
pub deserialize-serialize :
    (e : ReplicaEvent)
    → IsEvent e
    → deserialize_replica_event (serialize_replica_event e)
      ≡ record e { device_address = record e.device_address { sin_family = af_inet } }
unfolding serialize_replica_event
deserialize-serialize e h =
    parse_head e.type e.device_address (or_empty e.username ++ b'|' ∷ or_empty e.filepath) h.address
    ∙ parse_names_lem e.type (record e.device_address { sin_family = af_inet }) e.username
        e.filepath h.names

-- A file whose name holds a bar is replicated under another name: a backup reads the part before
-- the first bar.
pub deserialize_cuts_name :
    (type : ℤ) (address : SockaddrIn) (username before behind : Bytes)
    → IsAddress address
    → IsName username
    → IsName before
    → deserialize_replica_event (
        serialize_replica_event (record {
          type = type;
          device_address = address;
          username = some username;
          filepath = some (before ++ b'|' ∷ behind);
        }))
      ≡ record {
        type = type;
        device_address = record address { sin_family = af_inet };
        username = some username;
        filepath = some before;
      }
unfolding serialize_replica_event
deserialize_cuts_name type address username before behind h hu hb =
    parse_head type address (username ++ b'|' ∷ (before ++ b'|' ∷ behind)) h
    ∙ two_tokens type (record address { sin_family = af_inet }) _ _ _ (some username) (some before)
        (text_token_at username (before ++ b'|' ∷ behind) hu) (text_token_at before behind hb)
