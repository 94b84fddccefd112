-- ===== src/Packet.antt =====
-- Packets and how they cross a TCP connection: the first half of src/util/communication.c and its
-- header. The connection is a parameter: what each `read` and `send` of the kernel does is a list
-- of events that the environment chooses.
pub mod Socket
pub mod Stream
pub mod Framing
mod Tests
use inf01151_trabalho_final.Base.{
  ℕ, ◌+◌, ◌-◌, ◌%◌, ◌^◌, Option, none, some, List, [], ◌∷◌, ◌++◌, Bytes, length, take, drop, to_le,
  from_le, ◌==◌, if◌then◌else◌,
}
use Socket.{
  Event, Link, sent, broken_pipe, send_failed, transmit, recv, complete, eof, failed, blocked,
}

pub data PacketTypes : Type 0 where
  packet_data packet_send packet_list packet_download packet_delete packet_exit : PacketTypes
  packet_replica_msg packet_connection_closed packet_error packet_reconnect : PacketTypes

-- The enumerator's value.
abbrev pub type_code : PacketTypes → ℕ
type_code packet_data = 0
type_code packet_send = 1
type_code packet_list = 2
type_code packet_download = 3
type_code packet_delete = 4
type_code packet_exit = 5
type_code packet_replica_msg = 6
type_code packet_connection_closed = 7
type_code packet_error = 8
type_code packet_reconnect = 9

-- The struct in memory. `payload` starts at offset 6 and `sizeof(Packet)` is 8, because the struct
-- is padded to a multiple of four; so an allocation of `sizeof(Packet) + length` bytes has
-- `length + 2` bytes from `payload` on, and they are `body`. The type is the integer that the
-- memory holds, which a peer may set to no enumerator.
pub record Packet : Type 0 where
  pub type : ℕ
  pub length : ℕ
  pub body : Bytes

-- The `length` bytes of the payload.
abbrev pub payload : Packet → Bytes
payload p = take p.length p.body

-- `none`: the process exits. `length` is converted to `uint16_t` by the call, and `calloc` leaves
-- the two last bytes zero.
unfoldable pub create_packet : PacketTypes → ℕ → Option Bytes → Option Packet
create_packet type size content =
    let length = size % 2 ^ 16 in
    if length == 0
    then some (record { type = type_code type; length = 0; body = 0 ∷ 0 ∷ [] })
    else elim content [
      | none ↦ none
      | some bytes ↦ some (record {
        type = type_code type;
        length = length;
        body = take length bytes ++ 0 ∷ 0 ∷ [];
      })
    ]

-- The bytes of the struct, which `send` is given: `sizeof(Packet) + length` of them.
unfoldable pub image : Packet → Bytes
image p = to_le 4 p.type ++ to_le 2 p.length ++ p.body

-- SOCKET_CLOSED is 0, OK is 1, any other error is -1.
pub data SendCode : Type 0 where
  socket_closed ok error : SendCode

-- A NULL packet gives 0, the value of SOCKET_CLOSED.
unfoldable pub send_packet : Link → Option Packet → SendCode × Link
unfolding image
send_packet link none = (socket_closed, link)
send_packet link (some p) =
    let (outcome, link') = transmit link (image p) in
    elim outcome [
      | sent ↦ (ok, link')
      | broken_pipe ↦ (socket_closed, link')
      | send_failed ↦ (error, link')
    ]

-- What `read_packet` returns, if it returns.
pub data Read : Type 0 where
  packet : Packet → Read
  null : Read
  waits : Read

abbrev pub closed_packet : Packet
closed_packet = record { type = 7; length = 0; body = 0 ∷ 0 ∷ [] }

-- The second loop, once the header is there: `length` more bytes to offset 8.
unfoldable pub read_body : Bytes → List Event → Read × List Event
read_body header events =
    let length = from_le (take 2 (drop 4 header)) in
    let (outcome, rest) = recv length [] events in
    elim outcome [
      | complete bytes ↦ (
        packet (record {
          type = from_le (take 4 header);
          length = length;
          body = drop 6 header ++ bytes;
        }),
        rest,
      )
      | eof ↦ (packet closed_packet, rest)
      | failed ↦ (null, rest)
      | blocked ↦ (waits, rest)
    ]

unfoldable pub read_packet : List Event → Read × List Event
unfolding read_body
read_packet events =
    let (outcome, rest) = recv 8 [] events in
    elim outcome [
      | complete header ↦ read_body header rest
      | eof ↦ (packet closed_packet, rest)
      | failed ↦ (null, rest)
      | blocked ↦ (waits, rest)
    ]
