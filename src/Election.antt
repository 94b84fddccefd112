-- ===== src/Election.antt =====
-- The election of a new manager among the backups: src/server/election.c. Each handler and each part
-- of an election between two sleeps is one step.
pub mod RoundTrip
pub mod Asking
pub mod Votes
pub mod Answer
pub mod Announced
mod Tests
use inf01151_trabalho_final.Base.{
  ℕ, ◌-◌, Bool, true, false, not, Option, none, some, List, [], ◌∷◌, ◌++◌, Bytes, length, take,
  drop, replicate, ltb, c_string, if◌then◌else◌,
}
use inf01151_trabalho_final.Text.{ℤ, pos, negsuc, print_int, atoi, strtok, inet_ntop}
use inf01151_trabalho_final.Address.{SockaddrIn, no_address, print_address, parse_address}
use inf01151_trabalho_final.Packet.Socket.{Link}
use inf01151_trabalho_final.Packet.{packet_replica_msg, SendCode}
use inf01151_trabalho_final.Transfer.{send_new}
use inf01151_trabalho_final.Replicas.{ReplicaNode, Replicas, update, int_eq, remove_replica_by_id}

pub data ElectionMsgType : Type 0 where
  msg_election msg_election_answer msg_coordinator : ElectionMsgType

-- The enumerator's value.
abbrev pub msg_code : ElectionMsgType → ℕ
msg_code msg_election = 0
msg_code msg_election_answer = 1
msg_code msg_coordinator = 2

-- The type is the integer that the member holds.
pub record ElectionEvent : Type 0 where
  pub type : ℤ
  pub id : ℤ
  pub device_address : SockaddrIn

unfoldable pub create_election_event : ℤ → ElectionEvent
create_election_event sender_id = record {
  type = pos (msg_code msg_election);
  id = sender_id;
  device_address = no_address;
}

unfoldable pub create_election_answer_event : ℤ → ElectionEvent
create_election_answer_event sender_id = record {
  type = pos (msg_code msg_election_answer);
  id = sender_id;
  device_address = no_address;
}

unfoldable pub create_coordinator_event : ℤ → SockaddrIn → ElectionEvent
create_coordinator_event leader_id leader_address = record {
  type = pos (msg_code msg_coordinator);
  id = leader_id;
  device_address = leader_address;
}

-- "%d|%s:%d|%d"
unfoldable pub serialize_election_event : ElectionEvent → Bytes
serialize_election_event e =
    print_int e.type ++ b'|' ∷ (print_address e.device_address ++ b'|' ∷ print_int e.id)

-- The fields that are there; the others stay zero.
unfoldable pub parse_election_id : ℤ → SockaddrIn → Bytes → ElectionEvent
parse_election_id type address s = elim (strtok b'|' s) [
  | none ↦ record { type = type; id = pos 0; device_address = address }
  | some (token, rest) ↦ record { type = type; id = atoi token; device_address = address }
]

unfoldable pub parse_election_address : ℤ → Bytes → ElectionEvent
parse_election_address type s = elim (strtok b'|' s) [
  | none ↦ record { type = type; id = pos 0; device_address = no_address }
  | some (token, rest) ↦ parse_election_id type (parse_address token) rest
]

unfoldable pub deserialize_election_event : Bytes → ElectionEvent
deserialize_election_event s = elim (strtok b'|' s) [
  | none ↦ record { type = pos 0; id = pos 0; device_address = no_address }
  | some (token, rest) ↦ parse_election_address (atoi token) rest
]

abbrev pub send_election_event : ElectionEvent → Link → SendCode × Link
send_election_event e link = send_new link packet_replica_msg (serialize_election_event e)

abbrev pub int_lt : ℤ → ℤ → Bool
int_lt (pos a) (pos b) = ltb a b
int_lt (pos a) (negsuc b) = false
int_lt (negsuc a) (pos b) = true
int_lt (negsuc a) (negsuc b) = ltb b a

-- What the servers of this process share: global_server_mode == BACKUP_MANAGER, the flags of the
-- election, and the list of replicas.
pub record ElectionState : Type 0 where
  pub manager : Bool
  pub is_election_running : Bool
  pub new_leader_decided : Bool
  pub election_answer_received : Bool
  pub replicas : Replicas

-- The loop of `send_coordinator_msg`.
unfoldable pub coordinate_nodes : ElectionEvent → List ReplicaNode → (ℕ → Link) → ℕ → Link
coordinate_nodes e [] links = links
coordinate_nodes e (n ∷ nodes) links =
    coordinate_nodes e nodes (update links n.socketfd (send_election_event e (links n.socketfd)).1)

unfoldable pub send_coordinator_msg : ℤ → SockaddrIn → Replicas → Replicas
send_coordinator_msg my_id new_manager_address r = record r {
  links = coordinate_nodes (create_coordinator_event my_id new_manager_address) r.head r.links;
}

-- The loop of `send_election_msg`, with `sent_to_higher_id` so far.
unfoldable pub elect_nodes : ℤ → List ReplicaNode → Bool → (ℕ → Link) → Bool × (ℕ → Link)
elect_nodes my_id [] sent links = (sent, links)
elect_nodes my_id (n ∷ nodes) sent links = elim (int_lt my_id n.id) [
  | true ↦ elect_nodes my_id nodes true (
      update links n.socketfd
        (send_election_event (create_election_event my_id) (links n.socketfd)).1)
  | false ↦ elect_nodes my_id nodes sent links
]

unfoldable pub send_election_msg : ℤ → Replicas → Bool × Replicas
send_election_msg my_id r =
    let (sent, links) = elect_nodes my_id r.head false r.links in (sent, record r { links = links })

-- The server takes the manager's role.
abbrev pub won : ElectionState → ElectionState
won st = record st { manager = true; is_election_running = false; new_leader_decided = true }

-- `run_election` up to its sleep; the Boolean says whether it sleeps.
unfoldable pub run_election_start : ℤ → ElectionState → Bool × ElectionState
run_election_start my_id st =
    let (sent, replicas) = send_election_msg my_id st.replicas in
    if sent
    then (true, record st { replicas = replicas })
    else (false, won (record st { replicas = replicas }))

-- The rest of it, after the time-out.
abbrev pub run_election_result : Bool → ElectionState → ElectionState
run_election_result true st = record st { is_election_running = false }
run_election_result false st = won st

unfoldable pub run_election_end : ElectionState → ElectionState
run_election_end st =
    run_election_result st.election_answer_received (record st { election_answer_received = false })

-- The thread that a handler starts.
pub data Starts : Type 0 where
  nothing : Starts
  election : Starts
  backup : Bytes → ℕ → Starts

-- strncpy(hostname, ip, 15) into the memory of an allocation of 256 bytes, whose last byte becomes
-- NUL: an address of 15 characters gets no NUL of its own.
abbrev pub hostname_of : Bytes → Bytes → Bytes
hostname_of ip memory =
    c_string (take 15 (ip ++ replicate 15 0) ++ (take 240 (drop 15 memory) ++ 0 ∷ []))

-- A message on the connection of an election listener. `memory` is what the allocation of the
-- arguments of a backup holds.
unfoldable pub handle_election_event :
    ℤ → ElectionEvent → Bytes → Link → ElectionState → ElectionState × Link × Starts
handle_election_event id e memory link st =
    if int_eq e.type (pos (msg_code msg_election))
    then (
      record st { is_election_running = true },
      (send_election_event (create_election_answer_event id) link).1,
      (if st.is_election_running then nothing else election),
    )
    else if int_eq e.type (pos (msg_code msg_election_answer))
    then (record st { election_answer_received = true }, link, nothing)
    else if int_eq e.type (pos (msg_code msg_coordinator))
    then (
      record st {
        election_answer_received = true;
        new_leader_decided = true;
        replicas = (remove_replica_by_id e.id st.replicas).1;
      },
      link,
      backup (hostname_of (inet_ntop e.device_address.sin_addr) memory) e.device_address.sin_port,
    )
    else (st, link, nothing)
