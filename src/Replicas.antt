-- ===== src/Replicas.antt =====
-- The manager's list of replicas and the notification of its members: src/server/replica.c up to
-- `notify_replicas`. The mutex is held through each operation, so an operation is one step; the
-- counter is an `int`, kept modulo 2^32.
pub mod Invariant
pub mod Survivors
pub mod Notify
mod Tests
use inf01151_trabalho_final.Base.{
  ℕ, suc, ◌+◌, ◌-◌, ◌%◌, ◌^◌, Bool, true, false, Option, none, some, List, [], ◌∷◌, ◌++◌, Bytes,
  codes, ◌==◌, if◌then◌else◌,
}
use inf01151_trabalho_final.Text.{ℤ, pos, negsuc}
use inf01151_trabalho_final.Address.{SockaddrIn}
use inf01151_trabalho_final.Files.{FileSystem}
use inf01151_trabalho_final.Packet.Socket.{Link}
use inf01151_trabalho_final.Packet.{
  packet_replica_msg, packet_delete, SendCode, ok, socket_closed, error,
}
use inf01151_trabalho_final.Transfer.{send_new, send_file}
use inf01151_trabalho_final.Events.{
  ReplicaEvent, event_code, event_file_uploaded, event_file_deleted, create_replica_added_event,
  or_empty, serialize_replica_event, ReplicaEventType,
}

pub record ReplicaNode : Type 0 where
  pub id : ℤ
  pub socketfd : ℕ
  pub listener_port : ℤ
  pub device_address : SockaddrIn

-- The list with its counter, the connections by descriptor, and the descriptors closed so far.
pub record Replicas : Type 0 where
  pub head : List ReplicaNode
  pub replica_count : ℕ
  pub links : ℕ → Link
  pub closed : List ℕ

abbrev pub int_eq : ℤ → ℤ → Bool
int_eq (pos a) (pos b) = a == b
int_eq (negsuc a) (negsuc b) = a == b
int_eq _ _ = false

-- Whether a node of that descriptor is in the list.
unfoldable pub find_node : List ReplicaNode → ℕ → Bool
find_node [] socketfd = false
find_node (n ∷ nodes) socketfd = if n.socketfd == socketfd then true else find_node nodes socketfd

unfoldable pub replica_list_contains : Replicas → ℕ → Bool
replica_list_contains r socketfd = find_node r.head socketfd

abbrev pub increment : ℕ → ℕ
increment count = (count + 1) % 2 ^ 32

abbrev pub decrement : ℕ → ℕ
decrement count = (count + (2 ^ 32 - 1)) % 2 ^ 32

-- The last argument says whether the allocation of the node succeeds.
unfoldable pub add_replica : ℕ → ℤ → ℤ → SockaddrIn → Bool → Replicas → Bool × Replicas
add_replica socketfd id listener_port device_address allocated r =
    if find_node r.head socketfd
    then (false, r)
    else if allocated
    then (
      true,
      record r {
        head =
            record {
              id = id;
              socketfd = socketfd;
              listener_port = listener_port;
              device_address = device_address;
            }
            ∷ r.head;
        replica_count = increment r.replica_count;
      },
    )
    else (false, r)

-- What `replica_list_remove_node` does beside unlinking the node.
abbrev pub drop_node : ReplicaNode → Replicas → Replicas
drop_node n r = record r {
  closed = n.socketfd ∷ r.closed;
  replica_count = decrement r.replica_count;
}

-- The first node of an id, and the list without it.
unfoldable pub unlink_id : ℤ → List ReplicaNode → Option (ReplicaNode × List ReplicaNode)
unlink_id id [] = none
unlink_id id (n ∷ nodes) = elim (int_eq n.id id) [
  | true ↦ some (n, nodes)
  | false ↦ elim (unlink_id id nodes) [ none ↦ none | some (m, rest) ↦ some (m, n ∷ rest) ]
]

unfoldable pub remove_replica_by_id : ℤ → Replicas → Bool × Replicas
remove_replica_by_id id r = elim (unlink_id id r.head) [
  | none ↦ (false, r)
  | some (n, rest) ↦ (true, drop_node n (record r { head = rest }))
]

abbrev pub close_all : List ReplicaNode → List ℕ → List ℕ
close_all [] closed = closed
close_all (n ∷ nodes) closed =
    close_all nodes (if n.socketfd == 0 then closed else n.socketfd ∷ closed)

-- A descriptor is closed if it is above 0.
unfoldable pub replica_list_destroy : Replicas → Replicas
replica_list_destroy r = record r {
  head = [];
  replica_count = 0;
  closed = close_all r.head r.closed;
}

-- `get_user_folder` of src/server/server.c
abbrev pub get_user_folder : Bytes → Bytes
get_user_folder username = codes "user files" ++ b'/' ∷ username

abbrev pub is_type : ℤ → ReplicaEventType → Bool
is_type n type = int_eq n (pos (event_code type))

-- The code is that of the event's own packet. An upload is followed by the file and a deletion by a
-- packet with the name; both events carry a user and a path.
unfoldable pub send_event : FileSystem → ReplicaEvent → Link → Option (SendCode × Link)
send_event fs e link =
    let (code, link') = send_new link packet_replica_msg (serialize_replica_event e) in
    elim (is_type e.type event_file_uploaded) [
      | true ↦
          elim (send_file link' (or_empty e.filepath) (get_user_folder (or_empty e.username)) fs) [
            | none ↦ none
            | some link'' ↦ some (code, link'')
          ]
      | false ↦ elim (is_type e.type event_file_deleted) [
        | true ↦ some (code, (send_new link' packet_delete (or_empty e.filepath)).1)
        | false ↦ some (code, link')
      ]
    ]

abbrev pub update : (ℕ → Link) → ℕ → Link → ℕ → Link
update links i link j = if j == i then link else links j

abbrev pub with_link : ReplicaNode → Link → Replicas → Replicas
with_link n link r = record r { links = update r.links n.socketfd link }

-- The loop of `notify_replicas` over the nodes that are left: how many it counts, those that stay in
-- the list, and the state. A node whose connection is closed is unlinked and its descriptor closed.
unfoldable pub notify_nodes :
    FileSystem
    → ReplicaEvent
    → List ReplicaNode
    → Replicas
    → Option (ℕ × List ReplicaNode × Replicas)
notify_nodes fs e [] r = some (0, [], r)
notify_nodes fs e (n ∷ nodes) r = elim (send_event fs e (r.links n.socketfd)) [
  | none ↦ none
  | some (code, link) ↦ elim code [
    | ok ↦ elim (notify_nodes fs e nodes (with_link n link r)) [
      | none ↦ none
      | some (k, kept, r') ↦ some (suc k, n ∷ kept, r')
    ]
    | socket_closed ↦ notify_nodes fs e nodes (drop_node n (with_link n link r))
    | error ↦ elim (notify_nodes fs e nodes (with_link n link r)) [
      | none ↦ none
      | some (k, kept, r') ↦ some (k, n ∷ kept, r')
    ]
  ]
]

unfoldable pub notify_replicas : FileSystem → ReplicaEvent → Replicas → Option (ℕ × Replicas)
notify_replicas fs e r = elim (notify_nodes fs e r.head r) [
  | none ↦ none
  | some (notified, kept, r') ↦ some (notified, record r' { head = kept })
]

-- The loop of `send_replicas_data_to_new_replica`, on the new replica's connection.
unfoldable pub send_replicas_data : FileSystem → List ReplicaNode → Link → Option Link
send_replicas_data fs [] link = some link
send_replicas_data fs (n ∷ nodes) link =
    elim (send_event fs (create_replica_added_event n.id n.listener_port n.device_address) link) [
      | none ↦ none
      | some (code, link') ↦ send_replicas_data fs nodes link'
    ]
