-- ===== src/Election/Answer.antt =====
-- An ELECTION message and its answer across a connection: the listener of src/server/election.c at
-- the server that is asked, and that of the server that asks.
use inf01151_trabalho_final.Base.{
  ◌^◌, ◌<◌, ◌≡◌, refl, ap, true, ◌++◌, Bytes, length, drop, if◌then◌else◌,
}
use inf01151_trabalho_final.Text.{ℤ, pos}
use inf01151_trabalho_final.Packet.{Packet, packet_replica_msg, image}
use inf01151_trabalho_final.Packet.Framing.{packet_of}
use inf01151_trabalho_final.Transfer.Sending.{open_link, send_new_lem}
use inf01151_trabalho_final.Election.{
  ElectionEvent, ElectionState, nothing, election, serialize_election_event,
  create_election_answer_event, handle_election_event,
}

-- An answer as it arrives.
abbrev answer_text : ℤ → Bytes
answer_text id = serialize_election_event (create_election_answer_event id)

-- What the server that is asked does.
pub handles_election :
    (id : ℤ) (memory out : Bytes) (st : ElectionState) (e : ElectionEvent)
    → e.type ≡ pos 0
    → length (answer_text id) < 2 ^ 16
    → let (st', link, starts) = handle_election_event id e memory (open_link out) st in
      (link ≡ open_link (out ++ image (packet_of packet_replica_msg (answer_text id))))
      × (st'.is_election_running ≡ true)
      × (starts ≡ (if st.is_election_running then nothing else election))
unfolding handle_election_event
handles_election id memory out st e type fits =
    rw (type, handle_election_event)
      (ap (λ r. r.1) (send_new_lem out packet_replica_msg (answer_text id) fits), refl, refl)

-- What a server puts on a connection when it handles a message.
abbrev pub reply : ℤ → ElectionEvent → Bytes → Bytes → ElectionState → Bytes
reply id e memory out st =
    drop (length out) (handle_election_event id e memory (open_link out) st).1.out
