-- ===== src/Events/Delivery.antt =====
-- A replicated event across a connection: `send_event` of src/server/replica.c at the manager, and
-- `read_packet` with `deserialize_replica_event` at a backup (`connect_to_server_and_await` of
-- src/server/serverRoles.c).
use inf01151_trabalho_final.Base.{
  suc, ◌^◌, ◌<◌, ◌≡◌, ap, ◌∙◌, List, ◌++◌, arith, Bytes, length, Lacks, All-append, c_string,
}
use inf01151_trabalho_final.Text.{ℤ, pos, negsuc, print_nat, print_int}
use inf01151_trabalho_final.Text.Decimal.{print_nat-All, All-Lacks}
use inf01151_trabalho_final.Address.{af_inet, print_address}
use inf01151_trabalho_final.Address.Laws.{print_address-Lacks}
use inf01151_trabalho_final.Packet.Socket.{Event}
use inf01151_trabalho_final.Packet.{
  Packet, packet, read_packet, packet_replica_msg, image, type_code,
}
use inf01151_trabalho_final.Packet.Stream.{arriving, IsStream}
use inf01151_trabalho_final.Packet.Framing.{packet_of, create_packet_lem, read_packet-text}
use inf01151_trabalho_final.Events.{
  ReplicaEvent, or_empty, serialize_replica_event, deserialize_replica_event,
}
use inf01151_trabalho_final.Events.RoundTrip.{IsEvent, deserialize-serialize}

-- The texts are C strings.
abbrev pub HasStrings : ReplicaEvent → Type 0
HasStrings e = Lacks 0 (or_empty e.username) × Lacks 0 (or_empty e.filepath)

pub print_int-Lacks-zero : (n : ℤ) → Lacks 0 (print_int n)
unfolding print_int
print_int-Lacks-zero (pos n) =
    All-Lacks 0 (print_nat n) (λ d. absurd (omega arith)) (print_nat-All n)
print_int-Lacks-zero (negsuc n) = (
  omega arith,
  All-Lacks 0 (print_nat (suc n)) (λ d. absurd (omega arith)) (print_nat-All (suc n)),
)

pub serialize-Lacks-zero : (e : ReplicaEvent) → HasStrings e → Lacks 0 (serialize_replica_event e)
unfolding serialize_replica_event
serialize-Lacks-zero e h = All-append _ (print_int e.type) _ (print_int-Lacks-zero e.type) (
  omega arith,
  All-append _ (print_address e.device_address) _
      (print_address-Lacks e.device_address 0 (λ d. absurd (omega arith)) (omega arith)
        (omega arith))
      (omega arith, All-append _ (or_empty e.username) _ h.0 (omega arith, h.1)),
)

-- An event whose text fits a packet, sent by the manager and read by a backup however the stream is
-- cut into reads, is read as one packet of replication, leaves the bytes behind it, and is the event
-- that was sent, with AF_INET for its address family.
pub event_delivered :
    (e : ReplicaEvent) (after : Bytes) (events : List Event)
    → IsEvent e
    → HasStrings e
    → length (serialize_replica_event e) < 2 ^ 16
    → IsStream events
    → arriving events ≡ image (packet_of packet_replica_msg (serialize_replica_event e)) ++ after
    → (p : Packet) × ((read_packet events).0 ≡ packet p)
      × (p.type ≡ type_code packet_replica_msg)
      × (arriving (read_packet events).1 ≡ after)
      × (deserialize_replica_event (c_string p.body)
          ≡ record e { device_address = record e.device_address { sin_family = af_inet } })
      × IsStream (read_packet events).1
event_delivered e after events h hs fits s arrives =
    let text = serialize_replica_event e in
    let (result, rest, type, _, string, stream) =
      read_packet-text packet_replica_msg text after events fits (serialize-Lacks-zero e hs)
        (create_packet_lem packet_replica_msg text fits) s arrives in
    (
      packet_of packet_replica_msg text,
      result,
      type,
      rest,
      ap deserialize_replica_event string ∙ deserialize-serialize e h,
      stream,
    )
