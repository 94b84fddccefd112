-- ===== src/Election/Tests.antt =====
-- Tests of elections, and their theorems at concrete inputs.
use inf01151_trabalho_final.Base.{
  ℕ, ◌^◌, ◌<◌, ◌≡◌, refl, true, false, List, [], ◌∷◌, ◌++◌, arith, Bytes, codes, c_string, length,
  replicate, to_le, ◌==◌,
}
use inf01151_trabalho_final.Text.{pos, print_int, print_nat, digits, inet_ntop}
use inf01151_trabalho_final.Address.{SockaddrIn, no_address, print_address}
use inf01151_trabalho_final.Packet.Socket.{Event, data_in, transmit}
use inf01151_trabalho_final.Packet.{
  Packet, packet, read_packet, packet_replica_msg, image, send_packet, create_packet,
}
use inf01151_trabalho_final.Packet.Framing.{packet_of}
use inf01151_trabalho_final.Packet.Stream.{arriving, IsStream}
use inf01151_trabalho_final.Transfer.{send_new}
use inf01151_trabalho_final.Transfer.Sending.{open_link}
use inf01151_trabalho_final.Replicas.{ReplicaNode, find_node}
use inf01151_trabalho_final.Replicas.Invariant.{IsValid}
use inf01151_trabalho_final.Election.{
  ElectionEvent, ElectionState, create_election_event, create_election_answer_event,
  create_coordinator_event, serialize_election_event, deserialize_election_event,
  run_election_start, send_election_msg, elect_nodes, run_election_end, handle_election_event,
  hostname_of,
}
use inf01151_trabalho_final.Election.Votes.{Started, run_election_start_lem, stale_answer}
use inf01151_trabalho_final.Election.Answer.{reply}
use inf01151_trabalho_final.Election.Announced.{Follows, coordinator_followed}

abbrev node : ℕ → ReplicaNode
node n = record { id = pos n; socketfd = n; listener_port = pos 4000; device_address = no_address }

-- Server 3 of the servers 2 to 5, with an answer noted.
abbrev three : ElectionState
three = record {
  manager = false;
  is_election_running = true;
  new_leader_decided = false;
  election_answer_received = true;
  replicas = record {
    head = node 5 ∷ node 2 ∷ node 4 ∷ [];
    replica_count = 3;
    links = λ fd. open_link [];
    closed = [];
  };
}

three-IsValid : IsValid three.replicas
unfolding find_node
three-IsValid = record { distinct = (refl, (refl, (refl, tt))); counted = refl }

-- Only servers 4 and 5 are sent something.
who_is_asked :
    let links = (run_election_start (pos 3) three).1.replicas.links in
    (((links 2).out) ≡ [])
    × ((length (links 4).out == 0) ≡ false)
    × ((length (links 5).out == 0) ≡ false)
unfolding run_election_start send_election_msg elect_nodes send_new send_packet create_packet
    transmit serialize_election_event create_election_event print_int print_nat digits inet_ntop
    print_address image to_le
who_is_asked = (refl, refl, refl)

run_election_start_lem_example :
    Started (pos 3) three (run_election_start (pos 3) three).1 (run_election_start (pos 3) three).0
run_election_start_lem_example = run_election_start_lem (pos 3) three three-IsValid

stale_answer_example :
    (run_election_end (run_election_start (pos 3) three).1).manager ≡ three.manager
stale_answer_example = stale_answer (pos 3) three three-IsValid refl refl

-- 10.0.0.7, port 4003
abbrev leader : SockaddrIn
leader = record { sin_family = 2; sin_addr = 167772167; sin_port = 4003 }

abbrev coordinator : ElectionEvent
unfolding create_coordinator_event
coordinator = create_coordinator_event (pos 5) leader

coordinator_text : serialize_election_event coordinator ≡ codes "2|10.0.0.7:4003|5"
unfolding serialize_election_event coordinator print_int print_nat digits inet_ntop print_address
coordinator_text = refl

-- The host name of an address of 15 characters goes on with what the memory holds.
long_hostname :
    hostname_of (codes "192.168.100.100") (replicate 256 b'x')
    ≡ codes "192.168.100.100" ++ replicate 240 b'x'
long_hostname = refl

abbrev asks : ElectionEvent
unfolding create_election_event
asks = create_election_event (pos 3)

abbrev answer_bytes : Bytes
unfolding send_new send_packet create_packet transmit serialize_election_event
    create_election_answer_event print_int print_nat digits inet_ntop print_address image to_le asks
    handle_election_event
answer_bytes = reply (pos 5) asks [] [] three

abbrev events : List Event
events = data_in answer_bytes ∷ []

abbrev leader_bytes : Bytes
unfolding image to_le serialize_election_event create_coordinator_event print_int print_nat digits
    inet_ntop print_address
leader_bytes = image (
    packet_of packet_replica_msg
      (serialize_election_event (create_coordinator_event (pos 5) leader)))

abbrev announcing : List Event
announcing = data_in leader_bytes ∷ []

announcing-IsStream : IsStream announcing
unfolding leader_bytes
announcing-IsStream = (cc, tt)

announcing_arrives :
    arriving announcing
    ≡ image (
        packet_of packet_replica_msg
          (serialize_election_event (create_coordinator_event (pos 5) leader)))
      ++ []
unfolding leader_bytes image to_le serialize_election_event create_coordinator_event print_int
    print_nat digits inet_ntop print_address
announcing_arrives = refl

short_address : length (inet_ntop leader.sin_addr) < 15
unfolding inet_ntop print_nat digits
short_address = omega arith

announcement_fits :
    length (serialize_election_event (create_coordinator_event (pos 5) leader)) < 2 ^ 16
unfolding serialize_election_event create_coordinator_event print_int print_nat digits inet_ntop
    print_address
announcement_fits = omega arith

coordinator_followed_example :
    (p : Packet) × ((read_packet announcing).0 ≡ packet p)
    × (arriving (read_packet announcing).1 ≡ [])
    × Follows (pos 5) leader (open_link []) three (
        handle_election_event
          (pos 3)
          (deserialize_election_event (c_string p.body))
          []
          (open_link [])
          three)
coordinator_followed_example =
    coordinator_followed (pos 5) (pos 3) leader [] [] announcing (open_link []) three
      (record { addr_fits = omega arith; port_fits = omega arith }) short_address announcement_fits
      announcing-IsStream announcing_arrives
