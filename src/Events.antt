-- ===== src/Events.antt =====
-- The events by which the manager replicates to the backups, and their text: src/server/replica.c from
-- `free_event` on, with the types of src/server/serverCommon.h.
pub mod RoundTrip
pub mod Delivery
mod Tests
use inf01151_trabalho_final.Base.{
  ℕ, Option, none, some, List, [], ◌∷◌, ◌++◌, Bytes, str_eq, if◌then◌else◌,
}
use inf01151_trabalho_final.Text.{ℤ, pos, print_int, atoi, strtok}
use inf01151_trabalho_final.Address.{SockaddrIn, no_address, print_address, parse_address}

pub data ReplicaEventType : Type 0 where
  event_client_connected event_client_disconnected event_file_uploaded : ReplicaEventType
  event_replica_added event_heartbeat event_file_deleted : ReplicaEventType

-- The enumerator's value.
abbrev pub event_code : ReplicaEventType → ℕ
event_code event_client_connected = 0
event_code event_client_disconnected = 1
event_code event_file_uploaded = 2
event_code event_replica_added = 3
event_code event_heartbeat = 4
event_code event_file_deleted = 5

-- The type is the integer that the member holds: a message may bring one of no enumerator.
pub record ReplicaEvent : Type 0 where
  pub type : ℤ
  pub device_address : SockaddrIn
  pub username : Option Bytes
  pub filepath : Option Bytes

abbrev pub event_of : ReplicaEventType → SockaddrIn → Option Bytes → Option Bytes → ReplicaEvent
event_of type device_address username filepath = record {
  type = pos (event_code type);
  device_address = device_address;
  username = username;
  filepath = filepath;
}

unfoldable pub create_client_connected_event : Bytes → SockaddrIn → ReplicaEvent
create_client_connected_event username device_address =
    event_of event_client_connected device_address (some username) none

unfoldable pub create_client_disconnected_event : Bytes → SockaddrIn → ReplicaEvent
create_client_disconnected_event username device_address =
    event_of event_client_disconnected device_address (some username) none

-- The text `id:port` travels in the place of the user's name.
unfoldable pub create_replica_added_event : ℤ → ℤ → SockaddrIn → ReplicaEvent
create_replica_added_event id listener_port device_address =
    event_of event_replica_added device_address
      (some (print_int id ++ b':' ∷ print_int listener_port)) none

unfoldable pub create_file_upload_event : Bytes → SockaddrIn → Bytes → ReplicaEvent
create_file_upload_event username device_address filepath =
    event_of event_file_uploaded device_address (some username) (some filepath)

unfoldable pub create_file_delete_event : Bytes → SockaddrIn → Bytes → ReplicaEvent
create_file_delete_event username device_address filepath =
    event_of event_file_deleted device_address (some username) (some filepath)

unfoldable pub create_heartbeat_event : ReplicaEvent
create_heartbeat_event = event_of event_heartbeat no_address none none

-- (p != NULL) ? p : ""
abbrev pub or_empty : Option Bytes → Bytes
or_empty none = []
or_empty (some s) = s

-- "%d|%s:%d|%s|%s"
unfoldable pub serialize_replica_event : ReplicaEvent → Bytes
serialize_replica_event e =
    print_int e.type
    ++ b'|'
      ∷ (print_address e.device_address
          ++ b'|' ∷ (or_empty e.username ++ b'|' ∷ or_empty e.filepath))

abbrev pub no_event : ReplicaEvent
no_event = event_of event_client_connected no_address none none

-- A token as the code copies it, and what is left for the next: `strtok_r` that found none stays
-- where it was.
unfoldable pub text_token : Bytes → Option Bytes × Bytes
text_token s = elim (strtok b'|' s) [
  | none ↦ (none, s)
  | some (token, rest) ↦ (if str_eq token [] then none else some token, rest)
]

-- The fields behind the address.
unfoldable pub parse_names : ℤ → SockaddrIn → Bytes → ReplicaEvent
parse_names type address s =
    let (username, rest) = text_token s in
    record {
      type = type;
      device_address = address;
      username = username;
      filepath = (text_token rest).0;
    }

unfoldable pub parse_event_address : ℤ → Bytes → ReplicaEvent
parse_event_address type s = elim (strtok b'|' s) [
  | none ↦ record no_event { type = type }
  | some (token, rest) ↦ parse_names type (parse_address token) rest
]

unfoldable pub deserialize_replica_event : Bytes → ReplicaEvent
deserialize_replica_event s = elim (strtok b'|' s) [
  | none ↦ no_event
  | some (token, rest) ↦ parse_event_address (atoi token) rest
]
