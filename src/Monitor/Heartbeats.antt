-- ===== src/Monitor/Heartbeats.antt =====
-- A heartbeat from the manager to a backup's monitor: `manage_replicas`, `connect_to_server_thread` and
-- `heartbeat_monitor_thread_main` of src/server/serverRoles.c.
use inf01151_trabalho_final.Base.{
  ℕ, ◌+◌, ◌-◌, ◌^◌, ◌≤◌, ◌<◌, ◌≡◌, refl, ap, sym, ◌∙◌, true, false, Option, none, some, List, [],
  ◌++◌, arith, Bytes, length, drop, drop-append, c_string, le→ltb,
}
use inf01151_trabalho_final.Text.{ℤ, pos, print_int, print_nat, digits, inet_ntop}
use inf01151_trabalho_final.Address.{print_address}
use inf01151_trabalho_final.Files.{FileSystem}
use inf01151_trabalho_final.Packet.Socket.{Event, Link}
use inf01151_trabalho_final.Packet.{packet_replica_msg, read_packet, image, SendCode, ok}
use inf01151_trabalho_final.Packet.Stream.{arriving, IsStream}
use inf01151_trabalho_final.Packet.Framing.{packet_of}
use inf01151_trabalho_final.Transfer.{done}
use inf01151_trabalho_final.Transfer.Sending.{open_link, send_new_lem}
use inf01151_trabalho_final.Events.{
  ReplicaEvent, create_heartbeat_event, serialize_replica_event, deserialize_replica_event,
}
use inf01151_trabalho_final.Events.RoundTrip.{IsEvent}
use inf01151_trabalho_final.Events.Delivery.{HasStrings, event_delivered}
use inf01151_trabalho_final.Replicas.{send_event}
use inf01151_trabalho_final.Election.{ElectionState}
use inf01151_trabalho_final.Roles.{Moment, Backup, handle_replica_event, backup_turn}
use inf01151_trabalho_final.Roles.Upload.{turn_step}
use inf01151_trabalho_final.Monitor.{watch, monitor_turn}
use inf01151_trabalho_final.Monitor.Silence.{IsCalm, nothing_heard, turn_calm}

pub heartbeat_text : Bytes
heartbeat_text = serialize_replica_event create_heartbeat_event

text_fits : length heartbeat_text < 2 ^ 16
unfolding heartbeat_text serialize_replica_event create_heartbeat_event print_int print_nat digits
    inet_ntop print_address
text_fits = omega arith

pub heartbeat_sent :
    (fs : FileSystem) (out : Bytes)
    → send_event fs create_heartbeat_event (open_link out)
      ≡ some (ok, open_link (out ++ image (packet_of packet_replica_msg heartbeat_text)))
unfolding send_event create_heartbeat_event heartbeat_text
heartbeat_sent fs out = ap some (send_new_lem out packet_replica_msg _ text_fits)

heartbeat-IsEvent : IsEvent create_heartbeat_event
unfolding create_heartbeat_event
heartbeat-IsEvent = record {
  address = record { addr_fits = omega arith; port_fits = omega arith };
  names = tt;
}

heartbeat-HasStrings : HasStrings create_heartbeat_event
unfolding create_heartbeat_event
heartbeat-HasStrings = (tt, tt)

handles_heartbeat :
    (id : ℤ) (e : ReplicaEvent) (m : Moment) (events : List Event) (b : Backup)
    → e.type ≡ pos 4
    → handle_replica_event id e m events b ≡ done (record b { last_heartbeat = m.now }, events)
unfolding handle_replica_event
handles_heartbeat id e m events b type = rw (type, handle_replica_event) refl

heartbeat_type : create_heartbeat_event.type ≡ pos 4
unfolding create_heartbeat_event
heartbeat_type = refl

abbrev sent_after : Bytes → Option (SendCode × Link) → Bytes
sent_after out none = []
sent_after out (some (code, link)) = drop (length out) link.out

-- A heartbeat that the manager sends on a connection makes a backup that reads it, however the stream
-- is cut into reads, note the time, and change nothing else; what follows on the stream is left. For
-- the next five seconds a turn of its monitor holds no election and changes nothing, when no election
-- is running or decided.
pub heartbeat_lem :
    (fs : FileSystem) (out bytes after : Bytes) (id : ℤ) (m : Moment) (events : List Event)
    (b : Backup) (now : ℕ) (st : ElectionState)
    → send_event fs create_heartbeat_event (open_link out) ≡ some (ok, open_link (out ++ bytes))
    → IsStream events
    → arriving events ≡ bytes ++ after
    → IsCalm st
    → now ≤ m.now + 5
    → (left : List Event) × (b' : Backup) × (backup_turn id m events b ≡ done (b', left))
      × (b' ≡ record b { last_heartbeat = m.now })
      × (arriving left ≡ after)
      × (monitor_turn id nothing_heard (watch b'.last_heartbeat now) st ≡ (true, st))
unfolding heartbeat_text
heartbeat_lem fs out bytes after id m events b now st sends s arrives calm soon =
    let same : bytes ≡ image (packet_of packet_replica_msg heartbeat_text) =
      sym (drop-append out bytes)
      ∙ ap (sent_after out) (sym sends ∙ heartbeat_sent fs out)
      ∙ drop-append out (image (packet_of packet_replica_msg heartbeat_text)) in
    let (p, read, type, rest, parsed, _) =
      event_delivered create_heartbeat_event after events heartbeat-IsEvent heartbeat-HasStrings
        text_fits s (arrives ∙ ap (λ t. t ++ after) same) in
    (
      (read_packet events).1,
      record b { last_heartbeat = m.now },
      turn_step id p m events (read_packet events).1 b (record b { last_heartbeat = m.now }) read
          type
          (handles_heartbeat id (deserialize_replica_event (c_string p.body)) m
            (read_packet events).1 b (ap (λ e. e.type) parsed ∙ heartbeat_type)),
      refl,
      rest,
      turn_calm id m.now now st false calm (le→ltb 5 (now - m.now) (omega arith)),
    )
