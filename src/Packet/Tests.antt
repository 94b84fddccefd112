-- ===== src/Packet/Tests.antt =====
-- Tests of packets on the wire, and the framing theorems at concrete inputs.
use inf01151_trabalho_final.Base.{◌≡◌, refl, none, some, List, [], ◌∷◌, ◌++◌, arith, codes, to_le}
use inf01151_trabalho_final.Packet.Socket.{Event, data_in, end_of_stream, recv}
use inf01151_trabalho_final.Packet.{
  packet, waits, closed_packet, image, read_packet, create_packet, packet_replica_msg,
  packet_delete, packet_exit, send_packet, socket_closed,
}
use inf01151_trabalho_final.Packet.Stream.{arriving, IsStream}
use inf01151_trabalho_final.Packet.Framing.{packet_of, packet_of-IsPacket, read_packet-image}

-- A payload of `ab` in two reads, with the first byte of what follows.
abbrev cut : List Event
cut = data_in (6 ∷ 0 ∷ 0 ∷ 0 ∷ 2 ∷ 0 ∷ 97 ∷ []) ∷ data_in (98 ∷ 0 ∷ 0 ∷ 5 ∷ []) ∷ []

image_ab :
    image (packet_of packet_replica_msg (codes "ab")) ≡ 6 ∷ 0 ∷ 0 ∷ 0 ∷ 2 ∷ 0 ∷ 97 ∷ 98 ∷ 0 ∷ 0 ∷ []
unfolding image to_le
image_ab = refl

null_payload : create_packet packet_delete 3 none ≡ none
unfolding create_packet
null_payload = refl

no_payload :
    create_packet packet_exit 0 none ≡ some (record { type = 5; length = 0; body = 0 ∷ 0 ∷ [] })
unfolding create_packet
no_payload = refl

peer_gone : (read_packet (data_in (6 ∷ 0 ∷ []) ∷ end_of_stream ∷ [])).0 ≡ packet closed_packet
unfolding read_packet recv
peer_gone = refl

still_waiting : (read_packet (data_in (6 ∷ 0 ∷ []) ∷ [])).0 ≡ waits
unfolding read_packet recv
still_waiting = refl

null_is_socket_closed : (send_packet (record { outcomes = []; out = [] }) none).0 ≡ socket_closed
unfolding send_packet
null_is_socket_closed = refl

cut-IsStream : IsStream cut
cut-IsStream = (cc, (cc, tt))

cut_arrives : arriving cut ≡ image (packet_of packet_replica_msg (codes "ab")) ++ 5 ∷ []
unfolding image to_le
cut_arrives = refl

read_packet-image_example :
    ((read_packet cut).0 ≡ packet (packet_of packet_replica_msg (codes "ab")))
    × (arriving (read_packet cut).1 ≡ 5 ∷ [])
    × IsStream (read_packet cut).1
read_packet-image_example =
    read_packet-image (packet_of packet_replica_msg (codes "ab")) (5 ∷ []) cut
      (packet_of-IsPacket packet_replica_msg (codes "ab") (omega arith)) cut-IsStream cut_arrives
