-- ===== src/Election/RoundTrip.antt =====
-- A server reads the election message that another wrote: src/server/election.c.
use inf01151_trabalho_final.Base.{
  ◌^◌, ◌<◌, ◌≡◌, ap, ◌∙◌, some, List, [], ◌∷◌, ◌++◌, arith, Bytes, Lacks, All-append, length,
  c_string,
}
use inf01151_trabalho_final.Text.{ℤ, print_int, atoi, strtok}
use inf01151_trabalho_final.Text.Decimal.{atoi-print_int}
use inf01151_trabalho_final.Text.Tokens.{strtok_at, strtok_all}
use inf01151_trabalho_final.Address.{SockaddrIn, af_inet, print_address, parse_address}
use inf01151_trabalho_final.Address.Laws.{IsAddress, parse_address-print, print_address-Lacks}
use inf01151_trabalho_final.Events.RoundTrip.{print_int-IsName, print_address-IsName}
use inf01151_trabalho_final.Events.Delivery.{print_int-Lacks-zero}
use inf01151_trabalho_final.Packet.Socket.{Event}
use inf01151_trabalho_final.Packet.{Packet, packet, read_packet, packet_replica_msg, image}
use inf01151_trabalho_final.Packet.Stream.{arriving, IsStream}
use inf01151_trabalho_final.Packet.Framing.{packet_of, create_packet_lem, read_packet-text}
use inf01151_trabalho_final.Election.{
  ElectionEvent, serialize_election_event, deserialize_election_event, parse_election_address,
  parse_election_id,
}

module _ (s token rest : Bytes) where
  first_token :
      strtok b'|' s ≡ some (token, rest)
      → deserialize_election_event s ≡ parse_election_address (atoi token) rest
  unfolding deserialize_election_event
  first_token e = rw (e, deserialize_election_event)

  second_token :
      (type : ℤ)
      → strtok b'|' s ≡ some (token, rest)
      → parse_election_address type s ≡ parse_election_id type (parse_address token) rest
  unfolding parse_election_address
  second_token type e = rw (e, parse_election_address)

  third_token :
      (type : ℤ) (address : SockaddrIn)
      → strtok b'|' s ≡ some (token, rest)
      → parse_election_id type address s
        ≡ record { type = type; id = atoi token; device_address = address }
  unfolding parse_election_id
  third_token type address e = rw (e, parse_election_id)

-- Every election message is read back from its text, with AF_INET for its address family.
pub deserialize_election-serialize :
    (e : ElectionEvent)
    → IsAddress e.device_address
    → deserialize_election_event (serialize_election_event e)
      ≡ record e { device_address = record e.device_address { sin_family = af_inet } }
unfolding serialize_election_event
deserialize_election-serialize e h =
    let (some_type, type_bar) = print_int-IsName e.type in
    let (some_address, address_bar) = print_address-IsName e.device_address in
    let (some_id, id_bar) = print_int-IsName e.id in
    let behind = print_address e.device_address ++ b'|' ∷ print_int e.id in
    first_token _ (print_int e.type) _ (strtok_at b'|' (print_int e.type) behind some_type type_bar)
    ∙ ap (λ n. parse_election_address n behind) (atoi-print_int e.type)
    ∙ second_token behind (print_address e.device_address) (print_int e.id) e.type
        (strtok_at b'|' (print_address e.device_address) (print_int e.id) some_address address_bar)
    ∙ ap (λ a. parse_election_id e.type a (print_int e.id)) (parse_address-print e.device_address h)
    ∙ third_token (print_int e.id) (print_int e.id) [] e.type _
        (strtok_all b'|' (print_int e.id) some_id id_bar)
    ∙ ap
        (λ n. record e {
          id = n;
          device_address = record e.device_address { sin_family = af_inet };
        })
        (atoi-print_int e.id)

serialize_election-Lacks-zero : (e : ElectionEvent) → Lacks 0 (serialize_election_event e)
unfolding serialize_election_event
serialize_election-Lacks-zero e = All-append _ (print_int e.type) _ (print_int-Lacks-zero e.type) (
  omega arith,
  All-append _ (print_address e.device_address) _
      (print_address-Lacks e.device_address 0 (λ d. absurd (omega arith)) (omega arith)
        (omega arith))
      (omega arith, print_int-Lacks-zero e.id),
)

-- An election message that fits a packet is read from the stream as it was sent, with AF_INET for its
-- address family, however the stream is cut into reads.
pub election_delivered :
    (e : ElectionEvent) (after : Bytes) (events : List Event)
    → IsAddress e.device_address
    → length (serialize_election_event e) < 2 ^ 16
    → IsStream events
    → arriving events ≡ image (packet_of packet_replica_msg (serialize_election_event e)) ++ after
    → (p : Packet) × ((read_packet events).0 ≡ packet p)
      × (arriving (read_packet events).1 ≡ after)
      × (deserialize_election_event (c_string p.body)
          ≡ record e { device_address = record e.device_address { sin_family = af_inet } })
election_delivered e after events h fits s arrives =
    let text = serialize_election_event e in
    let (result, rest, _, _, string, _) =
      read_packet-text packet_replica_msg text after events fits (serialize_election-Lacks-zero e)
        (create_packet_lem packet_replica_msg text fits) s arrives in
    (
      packet_of packet_replica_msg text,
      result,
      rest,
      ap deserialize_election_event string ∙ deserialize_election-serialize e h,
    )
