-- ===== src/Election/Announced.antt =====
-- A COORDINATOR message at a backup: handle_election_event of src/server/election.c.
use inf01151_trabalho_final.Base.{
  ℕ, zero, suc, ◌^◌, ◌<◌, ◌≡◌, refl, ap, subst, sym, true, List, [], ◌∷◌, ◌++◌, arith, Bytes, Lacks,
  eqb_ne, length, take, drop, replicate, c_string,
}
use inf01151_trabalho_final.Text.{ℤ, pos, inet_ntop}
use inf01151_trabalho_final.Text.Ip.{inet_ntop-Lacks}
use inf01151_trabalho_final.Address.{SockaddrIn, af_inet}
use inf01151_trabalho_final.Address.Laws.{IsAddress}
use inf01151_trabalho_final.Packet.Socket.{Event, Link}
use inf01151_trabalho_final.Packet.{Packet, packet, read_packet, packet_replica_msg, image}
use inf01151_trabalho_final.Packet.Stream.{arriving, IsStream}
use inf01151_trabalho_final.Packet.Framing.{packet_of}
use inf01151_trabalho_final.Replicas.{remove_replica_by_id}
use inf01151_trabalho_final.Election.{
  ElectionEvent, ElectionState, Starts, backup, serialize_election_event,
  deserialize_election_event, create_coordinator_event, handle_election_event, hostname_of,
}
use inf01151_trabalho_final.Election.RoundTrip.{election_delivered}

-- A text that leaves room for a NUL is copied with it.
copied :
    (s zeros rest : Bytes) (n : ℕ)
    → length s < n
    → Lacks 0 s
    → c_string (take n (s ++ 0 ∷ zeros) ++ rest) ≡ s
copied [] zeros rest zero h lacks = absurd (omega arith)
copied [] zeros rest (suc n) h lacks = refl
copied (b ∷ s) zeros rest zero h lacks = absurd (omega arith)
copied (b ∷ s) zeros rest (suc n) h lacks =
    rw (eqb_ne lacks.0) (ap (λ t. b ∷ t) (copied s zeros rest n (omega arith) lacks.1))

hostname_of-inet_ntop :
    (a : ℕ) (memory : Bytes)
    → length (inet_ntop a) < 15
    → hostname_of (inet_ntop a) memory ≡ inet_ntop a
hostname_of-inet_ntop a memory h =
    copied (inet_ntop a) (replicate 14 0) (take 240 (drop 15 memory) ++ 0 ∷ []) 15 h
      (inet_ntop-Lacks a 0 (λ d. absurd (omega arith)) (omega arith))

-- What a backup has done when it follows the leader at an address.
pub record Follows (leader : ℤ) (address : SockaddrIn) (link : Link) (st : ElectionState)
    (result : ElectionState × Link × Starts) : Type 0 where
  pub starts_backup : result.2 ≡ backup (inet_ntop address.sin_addr) address.sin_port
  pub link_kept : result.1 ≡ link
  pub leader_removed : result.0.replicas ≡ (remove_replica_by_id leader st.replicas).1
  pub decided : result.0.new_leader_decided ≡ true
  pub answer_noted : result.0.election_answer_received ≡ true
  pub same_role : result.0.manager ≡ st.manager
  pub same_running : result.0.is_election_running ≡ st.is_election_running

handles_coordinator :
    (id : ℤ) (memory : Bytes) (link : Link) (st : ElectionState) (e : ElectionEvent)
    → e.type ≡ pos 2
    → length (inet_ntop e.device_address.sin_addr) < 15
    → Follows e.id e.device_address link st (handle_election_event id e memory link st)
unfolding handle_election_event
handles_coordinator id memory link st e type short =
    rw (type, handle_election_event)
      (record {
        starts_backup =
            ap (λ host. backup host e.device_address.sin_port)
              (hostname_of-inet_ntop e.device_address.sin_addr memory short);
        link_kept = refl;
        leader_removed = refl;
        decided = refl;
        answer_noted = refl;
        same_role = refl;
        same_running = refl;
      })

-- A backup that reads the COORDINATOR message of a leader, however the stream is cut into reads,
-- starts the thread that makes it a backup of the announced address and port, when the address has
-- at most 14 characters. It takes the leader off its list of replicas, notes that a leader is
-- decided and that an answer has come, sends nothing, and keeps its role and whether its own
-- election runs. The address is one of 32 bits and the port one of 16, and the message fits a
-- packet.
pub coordinator_followed :
    (leader my_id : ℤ) (address : SockaddrIn) (memory after : Bytes) (events : List Event)
    (link : Link) (st : ElectionState)
    → IsAddress address
    → length (inet_ntop address.sin_addr) < 15
    → length (serialize_election_event (create_coordinator_event leader address)) < 2 ^ 16
    → IsStream events
    → arriving events
      ≡ image (
          packet_of packet_replica_msg
            (serialize_election_event (create_coordinator_event leader address)))
        ++ after
    → (p : Packet) × ((read_packet events).0 ≡ packet p)
      × (arriving (read_packet events).1 ≡ after)
      × Follows leader address link st (
          handle_election_event my_id (deserialize_election_event (c_string p.body)) memory link st)
unfolding create_coordinator_event
coordinator_followed leader my_id address memory after events link st h short fits s arrives =
    let e = create_coordinator_event leader address in
    let (p, read, rest, parsed) = election_delivered e after events h fits s arrives in
    let follows =
      handles_coordinator my_id memory link st
        (record e { device_address = record address { sin_family = af_inet } }) refl short in
    (
      p,
      read,
      rest,
      subst (λ m. Follows leader address link st (handle_election_event my_id m memory link st))
          (sym parsed)
          (record {
            starts_backup = follows.starts_backup;
            link_kept = follows.link_kept;
            leader_removed = follows.leader_removed;
            decided = follows.decided;
            answer_noted = follows.answer_noted;
            same_role = follows.same_role;
            same_running = follows.same_running;
          }),
    )
