-- ===== src/Replicas/Tests.antt =====
-- Tests of the list of replicas, and its theorems at concrete inputs.
use inf01151_trabalho_final.Base.{ℕ, ◌≡◌, refl, false, some, [], ◌∷◌, ◌==◌, if◌then◌else◌}
use inf01151_trabalho_final.Text.{pos, print_int, digits, print_nat, inet_ntop}
use inf01151_trabalho_final.Address.{no_address, print_address}
use inf01151_trabalho_final.Files.{FileSystem}
use inf01151_trabalho_final.Packet.Socket.{broken_pipe, send_failed, transmit}
use inf01151_trabalho_final.Packet.{send_packet, create_packet}
use inf01151_trabalho_final.Transfer.{send_new}
use inf01151_trabalho_final.Events.{create_heartbeat_event, serialize_replica_event}
use inf01151_trabalho_final.Replicas.{
  ReplicaNode, Replicas, find_node, remove_replica_by_id, replica_list_destroy, notify_replicas,
  unlink_id,
}
use inf01151_trabalho_final.Replicas.Invariant.{IsValid, replica_list_destroy-IsValid}
use inf01151_trabalho_final.Replicas.Survivors.{reached, survivors, closed_after}
use inf01151_trabalho_final.Replicas.Notify.{notify_replicas_lem}

abbrev node : ℕ → ReplicaNode
node n = record { id = pos n; socketfd = n; listener_port = pos 4000; device_address = no_address }

-- Three replicas: the connection of 4 is closed, and that of 3 fails.
abbrev three : Replicas
three = record {
  head = node 5 ∷ node 4 ∷ node 3 ∷ [];
  replica_count = 3;
  links = λ fd.
      if fd == 4
      then record { outcomes = broken_pipe ∷ []; out = [] }
      else if fd == 3
      then record { outcomes = send_failed ∷ []; out = [] }
      else record { outcomes = []; out = [] };
  closed = [];
}

abbrev no_files : FileSystem
no_files = record { files = []; writable = λ p. false }

three-IsValid : IsValid three
unfolding find_node
three-IsValid = record { distinct = (refl, (refl, (refl, tt))); counted = refl }

removed_four : (remove_replica_by_id (pos 4) three).1.head ≡ node 5 ∷ node 3 ∷ []
unfolding remove_replica_by_id unlink_id
removed_four = refl

replica_list_destroy-IsValid_example : IsValid (replica_list_destroy three)
replica_list_destroy-IsValid_example = replica_list_destroy-IsValid three

told : reached create_heartbeat_event three.links three.head ≡ 1
unfolding send_packet transmit create_packet send_new create_heartbeat_event serialize_replica_event
    print_int print_nat digits inet_ntop print_address
told = refl

kept : survivors create_heartbeat_event three.links three.head ≡ node 5 ∷ node 3 ∷ []
unfolding send_packet transmit create_packet send_new create_heartbeat_event serialize_replica_event
    print_int print_nat digits inet_ntop print_address
kept = refl

notify_replicas_lem_example :
    (r' : Replicas) × (notify_replicas no_files create_heartbeat_event three
      ≡ some (reached create_heartbeat_event three.links three.head, r'))
    × IsValid r'
    × (r'.head ≡ survivors create_heartbeat_event three.links three.head)
    × (r'.closed ≡ closed_after create_heartbeat_event three.links three.head three.closed)
notify_replicas_lem_example =
    notify_replicas_lem no_files create_heartbeat_event three three-IsValid
