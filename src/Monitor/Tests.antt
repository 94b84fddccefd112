-- ===== src/Monitor/Tests.antt =====
-- Tests of the monitor and the heartbeats, and their theorems at concrete inputs.
use inf01151_trabalho_final.Base.{
  ℕ, ◌≡◌, refl, none, true, false, List, [], ◌∷◌, Bytes, arith, to_le,
}
use inf01151_trabalho_final.Text.{pos}
use inf01151_trabalho_final.Address.{no_address}
use inf01151_trabalho_final.Files.{FileSystem}
use inf01151_trabalho_final.Packet.Socket.{Event, data_in}
use inf01151_trabalho_final.Packet.{packet_replica_msg, image}
use inf01151_trabalho_final.Packet.Framing.{packet_of}
use inf01151_trabalho_final.Packet.Stream.{arriving, IsStream}
use inf01151_trabalho_final.Transfer.{done}
use inf01151_trabalho_final.Transfer.Sending.{open_link}
use inf01151_trabalho_final.Replicas.{ReplicaNode, find_node}
use inf01151_trabalho_final.Replicas.Invariant.{IsValid}
use inf01151_trabalho_final.Election.{ElectionState}
use inf01151_trabalho_final.Roles.{Moment, Backup, backup_turn, is_manager_running}
use inf01151_trabalho_final.Commands.Samples.{srv}
use inf01151_trabalho_final.Monitor.{watch, monitor_turn, monitor_turns}
use inf01151_trabalho_final.Monitor.Silence.{IsCalm, nothing_heard, silence_lem}
use inf01151_trabalho_final.Monitor.Heartbeats.{heartbeat_text, heartbeat_sent, heartbeat_lem}

abbrev higher : ReplicaNode
higher = record { id = pos 5; socketfd = 7; listener_port = pos 4000; device_address = no_address }

-- Server 3 with a server 5 in its list.
abbrev three : ElectionState
three = record {
  manager = false;
  is_election_running = false;
  new_leader_decided = false;
  election_answer_received = false;
  replicas = record {
    head = higher ∷ [];
    replica_count = 1;
    links = λ fd. open_link [];
    closed = [];
  };
}

three-IsValid : IsValid three.replicas
unfolding find_node
three-IsValid = record { distinct = (refl, tt); counted = refl }

three-IsCalm : IsCalm three
three-IsCalm = record { backup = refl; undecided = refl; idle = refl; unanswered = refl }

abbrev times : List ℕ
times = 101 ∷ 102 ∷ 103 ∷ 104 ∷ 105 ∷ 106 ∷ []

silence_lem_example : (monitor_turns (pos 3) nothing_heard 100 times three).manager ≡ true
silence_lem_example =
    silence_lem (pos 3) 100 times three three-IsValid three-IsCalm (omega arith) (omega arith)

-- Five turns are not enough.
not_yet :
    (monitor_turns (pos 3) nothing_heard 100 (101 ∷ 102 ∷ 103 ∷ 104 ∷ 105 ∷ []) three).manager
    ≡ false
unfolding monitor_turns monitor_turn is_manager_running
not_yet = refl

abbrev no_files : FileSystem
no_files = record { files = []; writable = λ p. true }

abbrev heartbeat_bytes : Bytes
heartbeat_bytes = image (packet_of packet_replica_msg heartbeat_text)

abbrev moment : Moment
moment = record { now = 200; memory = []; socket = none; allocated = true }

abbrev backup : Backup
backup = record { server = srv; last_heartbeat = 190; has_connection_closed = false }

abbrev events : List Event
events = data_in heartbeat_bytes ∷ []

events-IsStream : IsStream events
unfolding image to_le
events-IsStream = (cc, tt)

heartbeat_lem_example :
    (left : List Event) × (b' : Backup) × (backup_turn (pos 3) moment events backup
      ≡ done (b', left))
    × (b' ≡ record backup { last_heartbeat = 200 })
    × (arriving left ≡ [])
    × (monitor_turn (pos 3) nothing_heard (watch b'.last_heartbeat 205) three ≡ (true, three))
heartbeat_lem_example =
    heartbeat_lem no_files [] heartbeat_bytes [] (pos 3) moment events backup 205 three
      (heartbeat_sent no_files []) events-IsStream refl three-IsCalm (omega arith)
