-- ===== src/Events/Tests.antt =====
-- Tests of the replicated events, and their theorems at concrete inputs.
use inf01151_trabalho_final.Base.{
  ◌^◌, ◌<◌, length, ◌≡◌, refl, List, [], ◌∷◌, ◌++◌, arith, codes, c_string, to_le,
}
use inf01151_trabalho_final.Text.{print_int, print_nat, digits, inet_ntop}
use inf01151_trabalho_final.Address.{SockaddrIn, af_inet, print_address}
use inf01151_trabalho_final.Address.Laws.{IsAddress}
use inf01151_trabalho_final.Packet.Socket.{Event, data_in}
use inf01151_trabalho_final.Packet.{
  Packet, packet, read_packet, image, packet_replica_msg, type_code,
}
use inf01151_trabalho_final.Packet.Stream.{arriving, IsStream}
use inf01151_trabalho_final.Packet.Framing.{packet_of}
use inf01151_trabalho_final.Events.{
  ReplicaEvent, create_file_upload_event, serialize_replica_event, deserialize_replica_event,
}
use inf01151_trabalho_final.Events.RoundTrip.{IsEvent, IsName, deserialize-serialize}
use inf01151_trabalho_final.Events.Delivery.{HasStrings, event_delivered}

-- 10.0.0.7, port 4000
abbrev device : SockaddrIn
device = record { sin_family = 2; sin_addr = 167772167; sin_port = 4000 }

abbrev upload_of_a : ReplicaEvent
unfolding create_file_upload_event
upload_of_a = create_file_upload_event (codes "ana") device (codes "a.txt")

upload_text : serialize_replica_event upload_of_a ≡ codes "2|10.0.0.7:4000|ana|a.txt"
unfolding serialize_replica_event print_int print_nat digits inet_ntop print_address upload_of_a
upload_text = refl

device-IsAddress : IsAddress device
device-IsAddress = record { addr_fits = omega arith; port_fits = omega arith }

ana-IsName : IsName (codes "ana")
ana-IsName = (cc, (omega arith, (omega arith, (omega arith, tt))))

file-IsName : IsName (codes "a.txt")
file-IsName = (cc, (omega arith, (omega arith, (omega arith, (omega arith, (omega arith, tt))))))

upload-IsEvent : IsEvent upload_of_a
unfolding upload_of_a
upload-IsEvent = record { address = device-IsAddress; names = (ana-IsName, file-IsName) }

upload-HasStrings : HasStrings upload_of_a
unfolding upload_of_a
upload-HasStrings = (
  (omega arith, (omega arith, (omega arith, tt))),
  (omega arith, (omega arith, (omega arith, (omega arith, (omega arith, tt))))),
)

deserialize-serialize_example :
    deserialize_replica_event (serialize_replica_event upload_of_a) ≡ record upload_of_a {
      device_address = record upload_of_a.device_address { sin_family = af_inet };
    }
deserialize-serialize_example = deserialize-serialize upload_of_a upload-IsEvent

abbrev arrived : List Event
unfolding image to_le serialize_replica_event print_int print_nat digits inet_ntop print_address
    upload_of_a
arrived =
    data_in (image (packet_of packet_replica_msg (serialize_replica_event upload_of_a)) ++ 1 ∷ [])
    ∷ []

arrived-IsStream : IsStream arrived
unfolding arrived
arrived-IsStream = (cc, tt)

arrived_is :
    arriving arrived
    ≡ image (packet_of packet_replica_msg (serialize_replica_event upload_of_a)) ++ 1 ∷ []
unfolding arrived
arrived_is = refl

upload_fits : length (serialize_replica_event upload_of_a) < 2 ^ 16
unfolding serialize_replica_event print_int print_nat digits inet_ntop print_address upload_of_a
upload_fits = omega arith

event_delivered_example :
    (p : Packet) × ((read_packet arrived).0 ≡ packet p)
    × (p.type ≡ type_code packet_replica_msg)
    × (arriving (read_packet arrived).1 ≡ 1 ∷ [])
    × (deserialize_replica_event (c_string p.body) ≡ record upload_of_a {
      device_address = record upload_of_a.device_address { sin_family = af_inet };
    })
    × IsStream (read_packet arrived).1
event_delivered_example =
    event_delivered upload_of_a (1 ∷ []) arrived upload-IsEvent upload-HasStrings upload_fits
      arrived-IsStream arrived_is
