-- ===== src/Transfer.antt =====
-- Sending and receiving whole files: `send_file`, `receive_file`, `delete_file` and
-- `handle_send_delete` of src/util/communication.c.
pub mod Sending
pub mod Total
pub mod Receiving
pub mod RoundTrip
pub mod Deleting
mod Tests
use inf01151_trabalho_final.Base.{
  ℕ, zero, suc, ◌+◌, ◌-◌, ◌/◌, ◌%◌, ◌^◌, Bool, true, false, Option, none, some, List, [], ◌∷◌, ◌++◌,
  Bytes, length, take, drop, to_le, from_le, ltb, ◌==◌, if◌then◌else◌, c_string,
}
use inf01151_trabalho_final.Files.{FileSystem, content_of, write_file, remove_file, create_filepath}
use inf01151_trabalho_final.Packet.Socket.{Event, Link}
use inf01151_trabalho_final.Packet.{
  Packet, PacketTypes, packet_data, packet_send, create_packet, SendCode, ok, socket_closed, error,
  send_packet, Read, packet, null, waits, read_packet, payload,
}

-- FILE_CHUNK_SIZE
abbrev pub file_chunk_size : ℕ
file_chunk_size = 1000

-- A call that returns, one that blocks for good on what has arrived, and one that reads memory which
-- it does not own.
pub data Io {ℓ} (A : Type ℓ) : Type ℓ where
  done : A → Io A
  waiting : Io A
  crash : Io A

infixl 5 ◌>>=◌
abbrev pub ◌>>=◌ {ℓ κ} : {A : Type ℓ} {B : Type κ} → Io A → (A → Io B) → Io B
done a >>= f = f a
waiting >>= f = waiting
crash >>= f = crash

-- A packet of a payload that is there, and its size; such a call of `create_packet` does not exit.
unfoldable pub send_new : Link → PacketTypes → Bytes → SendCode × Link
send_new link type bytes = send_packet link (create_packet type (length bytes) (some bytes))

-- file_size / FILE_CHUNK_SIZE + (file_size % FILE_CHUNK_SIZE ? 1 : 0)
unfoldable pub packet_amount : ℕ → ℕ
packet_amount file_size =
    file_size / file_chunk_size + (if file_size % file_chunk_size == 0 then 0 else 1)

-- A `size_t` stored in an `int`, and that in a `uint64_t`.
abbrev pub through_int : ℕ → ℕ
through_int n = let low = n % 2 ^ 32 in if ltb low (2 ^ 31) then low else 2 ^ 64 + low - 2 ^ 32

-- The struct FileAnnoucement.
unfoldable pub announcement : ℕ → Bytes → Bytes
announcement num_packets filename = to_le 8 num_packets ++ to_le 8 (length filename) ++ filename

-- while (!feof(file)): a chunk that is shorter than it may be sets the end-of-file mark. `none`: out
-- of fuel.
unfoldable pub send_chunks : ℕ → Bytes → Link → Option Link
send_chunks zero rest link = none
send_chunks (suc fuel) rest link =
    let chunk = take file_chunk_size rest in
    elim (length chunk == 0) [
      | true ↦ some link
      | false ↦
          let (code, link') = send_new link packet_data chunk in
          elim code [
            | ok ↦ elim (ltb (length chunk) file_chunk_size) [
              | true ↦ some link'
              | false ↦ send_chunks fuel (drop file_chunk_size rest) link'
            ]
            | _ ↦ some link'
          ]
    ]

-- With the file's content, once it is open.
unfoldable pub send_content : Link → Bytes → Bytes → Option Link
send_content link filename content =
    let total_packet_amount = through_int (packet_amount (length content)) in
    let (code, link') = send_new link packet_send (announcement total_packet_amount filename) in
    elim code [ ok ↦ send_chunks (suc (length content)) content link' | _ ↦ some link' ]

-- A path that is NULL cannot be opened.
unfoldable pub send_file : Link → Bytes → Bytes → FileSystem → Option Link
send_file link filename basepath fs = elim (create_filepath basepath filename) [
  | none ↦ some link
  | some filepath ↦ elim (content_of fs filepath) [
    | none ↦ some link
    | some content ↦ send_content link filename content
  ]
]

-- The loop of `write_packets_to_file`: what is written, and the stream behind it.
unfoldable pub write_packets : ℕ → Bytes → List Event → Io (Bytes × List Event)
write_packets zero written events = done (written, events)
write_packets (suc i) written events =
    let (r, rest) = read_packet events in
    elim r [
      | packet p ↦ write_packets i (written ++ payload p) rest
      | null ↦ crash
      | waits ↦ waiting
    ]

unfoldable pub write_packets_to_file :
    Option Bytes → ℕ → FileSystem → List Event → Io (FileSystem × List Event)
write_packets_to_file none num_packets fs events = done (fs, events)
write_packets_to_file (some filepath) num_packets fs events =
    if fs.writable filepath
    then (do
      (written, rest) ← write_packets num_packets [] events
      done (write_file fs filepath written, rest))
    else done (fs, events)

-- `announcement->filename_length` is not checked against the packet: a name that ends behind the
-- packet is read from memory that is not its own.
unfoldable pub receive_file :
    Packet → Bytes → FileSystem → List Event → Io (Bytes × FileSystem × List Event)
receive_file p path fs events =
    let num_packets = from_le (take 8 p.body) in
    let filename_length = from_le (take 8 (drop 8 p.body)) in
    if ltb (length p.body) (16 + filename_length) then crash else (do
      let filename = c_string (take filename_length (drop 16 p.body))
      (fs', rest) ← write_packets_to_file (create_filepath path filename) num_packets fs events
      done (filename, fs', rest))

unfoldable pub delete_file : Packet → Bytes → FileSystem → Bytes × FileSystem
delete_file p path fs =
    let filename = c_string (payload p) in
    elim (create_filepath path filename) [
      | none ↦ (filename, fs)
      | some filepath ↦ (filename, remove_file fs filepath)
    ]

-- The name of the file, or NULL.
unfoldable pub handle_send_delete :
    Packet → Bytes → FileSystem → List Event → Io (Option Bytes × FileSystem × List Event)
handle_send_delete p path fs events =
    if p.type == 1
    then (if p.length == 0 then done (none, fs, events) else (do
      (filename, fs', rest) ← receive_file p path fs events
      done (some filename, fs', rest)))
    else if p.type == 4
    then (let (filename, fs') = delete_file p path fs in done (some filename, fs', events))
    else done (none, fs, events)
