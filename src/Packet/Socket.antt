-- ===== src/Packet/Socket.antt =====
-- A TCP connection as the program sees it, and the loop that both parts of `read_packet` in
-- src/util/communication.c run.
use inf01151_trabalho_final.Base.{
  ℕ, ◌-◌, true, false, List, [], ◌∷◌, ◌++◌, Bytes, length, take, drop, leb, ◌==◌, if◌then◌else◌,
}

-- What the next calls of `read` meet: bytes that have arrived, the end of the stream, or an error.
-- With no event left a call blocks.
pub data Event : Type 0 where
  data_in : Bytes → Event
  end_of_stream : Event
  read_error : Event

-- How a call of `send` ends.
pub data Outcome : Type 0 where
  sent broken_pipe send_failed : Outcome

-- The sending side: the outcomes of the next calls (all `sent` when the list is used up), and what
-- the peer is sent.
pub record Link : Type 0 where
  pub outcomes : List Outcome
  pub out : Bytes

unfoldable pub transmit : Link → Bytes → Outcome × Link
transmit link bytes = elim link.outcomes [
  | [] ↦ (sent, record link { out = link.out ++ bytes })
  | o ∷ rest ↦ elim o [
    | sent ↦ (sent, record link { outcomes = rest; out = link.out ++ bytes })
    | broken_pipe ↦ (broken_pipe, record link { outcomes = rest })
    | send_failed ↦ (send_failed, record link { outcomes = rest })
  ]
]

pub data Received : Type 0 where
  complete : Bytes → Received
  eof failed blocked : Received

-- while (total_read < n) total_read += read(fd, buffer + total_read, n - total_read), with `n` bytes
-- still to come and `got` the bytes so far. A `read` takes at most what it asks for and leaves the
-- rest of what has arrived; 0 is the end of the stream, which stays so.
unfoldable pub recv : ℕ → Bytes → List Event → Received × List Event
recv n got [] = if n == 0 then (complete got, []) else (blocked, [])
recv n got (e ∷ events) = elim (n == 0) [
  | true ↦ (complete got, e ∷ events)
  | false ↦ elim e [
    | end_of_stream ↦ (eof, end_of_stream ∷ events)
    | read_error ↦ (failed, events)
    | data_in bytes ↦ elim (leb (length bytes) n) [
      | true ↦ recv (n - length bytes) (got ++ bytes) events
      | false ↦ (complete (got ++ take n bytes), data_in (drop n bytes) ∷ events)
    ]
  ]
]
