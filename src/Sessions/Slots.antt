-- ===== src/Sessions/Slots.antt =====
-- The slots of a context: the limit on sessions, the search by address, and the queues.
use inf01151_trabalho_final.Base.{
  ℕ, sym, zero, suc, ◌+◌, ◌<◌, ◌≡◌, ◌≢◌, refl, ap, subst, true, false, Option, none, some, List, [],
  ◌∷◌, ◌++◌, arith, Bytes, length, get_elem?, set, Bool-cases, Option-cases, inl, inr, All,
  get_elem?-set_self, get_elem?-set_ne,
}
use inf01151_trabalho_final.Address.{SockaddrIn}
use inf01151_trabalho_final.Transfer.{done}
use inf01151_trabalho_final.SyncBuffer.{
  FileEntryType, FileSyncBuffer, add_file_to_sync_buffer, entry_for, file_sync_buffer_size,
}
use inf01151_trabalho_final.SyncBuffer.Refine.{IsValid, contents, add_lem, add_waits}
use inf01151_trabalho_final.Sessions.{
  Session, UserContext, slot, free_slot, session_by_address, same_endpoint, send_file_to_session,
}

abbrev pub IsTaken : Option Session → Type 0
IsTaken none = ⊥
IsTaken (some session) = Unit

-- What a search for a free slot from `i` on finds.
abbrev pub FreeSlot : List (Option Session) → ℕ → Option ℕ → Type 0
FreeSlot sessions i none = All IsTaken sessions
FreeSlot sessions i (some j) =
    (before : List (Option Session)) × (behind : List (Option Session)) × (sessions
      ≡ before ++ none ∷ behind)
    × All IsTaken before
    × (j ≡ i + length before)

-- The first slot without a session is found, and -1 is returned only if every slot has one.
pub free_slot_lem :
    (sessions : List (Option Session)) (i : ℕ) → FreeSlot sessions i (free_slot sessions i)
unfolding free_slot
free_slot_lem [] i = tt
free_slot_lem (none ∷ sessions) i = ([], sessions, refl, tt, omega arith)
free_slot_lem (some session ∷ sessions) i =
    behind_taken (free_slot sessions (suc i)) (free_slot_lem sessions (suc i))
  where
    behind_taken :
        (o : Option ℕ) → FreeSlot sessions (suc i) o → FreeSlot (some session ∷ sessions) i o
    behind_taken none h = (tt, h)
    behind_taken (some j) (before, behind, whole, taken, index) = (
      some session ∷ before,
      behind,
      ap (λ t. some session ∷ t) whole,
      (tt, taken),
      omega (arith, index),
    )

-- A slot that does not hold a session of the address.
abbrev pub IsElsewhere : SockaddrIn → Option Session → Type 0
IsElsewhere target none = Unit
IsElsewhere target (some session) = same_endpoint session.device_address target ≡ false

abbrev pub ByAddress : List (Option Session) → SockaddrIn → ℕ → Option (ℕ × Session) → Type 0
ByAddress sessions target i none = All (IsElsewhere target) sessions
ByAddress sessions target i (some (j, session)) =
    (before : List (Option Session)) × (behind : List (Option Session)) × (sessions
      ≡ before ++ some session ∷ behind)
    × All (IsElsewhere target) before
    × (same_endpoint session.device_address target ≡ true)
    × (j ≡ i + length before)

pub ByAddress-behind :
    (s : Option Session) (sessions : List (Option Session)) (target : SockaddrIn) (i : ℕ)
    (o : Option (ℕ × Session))
    → IsElsewhere target s
    → ByAddress sessions target (suc i) o
    → ByAddress (s ∷ sessions) target i o
ByAddress-behind s sessions target i none e h = (e, h)
ByAddress-behind s sessions target i (some (j, session)) e
      (before, behind, whole, apart, same, index) =
    (s ∷ before, behind, ap (λ t. s ∷ t) whole, (e, apart), same, omega (arith, index))

-- The search by address finds the first session with that IP address and port, whatever the address
-- family, and finds none only if no session has them.
pub session_by_address_lem :
    (sessions : List (Option Session)) (target : SockaddrIn) (i : ℕ)
    → ByAddress sessions target i (session_by_address sessions target i)
unfolding session_by_address
session_by_address_lem [] target i = tt
session_by_address_lem (none ∷ sessions) target i =
    ByAddress-behind none sessions target i _ tt (session_by_address_lem sessions target (suc i))
session_by_address_lem (some session ∷ sessions) target i =
    elim (Bool-cases (same_endpoint session.device_address target)) [
      | inl same ↦ rw same ([], sessions, refl, tt, same, omega arith)
      | inr other ↦ rw other (
          ByAddress-behind (some session) sessions target i _ other
            (session_by_address_lem sessions target (suc i)))
    ]

pub slot-set-none :
    (sessions : List (Option Session)) (i : ℕ)
    → (elim (get_elem? (set sessions i none) i) as (λ x. Option Session) [
      | none ↦ none
      | some s ↦ s
    ])
      ≡ none
slot-set-none [] i = refl
slot-set-none (s ∷ sessions) zero = refl
slot-set-none (s ∷ sessions) (suc i) = slot-set-none sessions i

-- A free slot, or a session whose queue is valid and not full.
abbrev pub HasRoom : Option Session → Type 0
HasRoom none = Unit
HasRoom (some session) =
    IsValid session.sync_buffer × (length (contents session.sync_buffer) < file_sync_buffer_size)

-- A slot before and after an entry was queued for it: the queue has the entry at its end, and nothing
-- else of the session changes. A free slot stays free.
abbrev pub Enqueued : Bytes → Bytes → FileEntryType → Option Session → Option Session → Type 0
Enqueued username filename type none s' = s' ≡ none
Enqueued username filename type (some session) s' =
    (b : FileSyncBuffer) × (s' ≡ some (record session { sync_buffer = b }))
    × IsValid b
    × (contents b
        ≡ contents session.sync_buffer
          ++ entry_for username session.session_index filename type ∷ [])

-- What sending a file to the session at slot `i` makes of the context.
pub record SentTo (i : ℕ) (filename : Bytes) (type : FileEntryType) (context context' : UserContext)
    : Type 0 where
  pub queued : Enqueued context.username filename type (slot context i) (slot context' i)
  pub others : (j : ℕ) → i ≢ j → slot context' j ≡ slot context j
  pub same_user : context'.username ≡ context.username
  pub same_files : context'.file_list ≡ context.file_list

slot-lt :
    (sessions : List (Option Session)) (i : ℕ) (session : Session)
    → (elim (get_elem? sessions i) as (λ x. Option Session) [ none ↦ none | some s ↦ s ])
      ≡ some session
    → i < length sessions
slot-lt [] i session e = cc
slot-lt (s ∷ sessions) zero session e = omega arith
slot-lt (s ∷ sessions) (suc i) session e = omega (arith, slot-lt sessions i session e)

room_in_queue :
    (username : Bytes) (session : Session) (filename : Bytes) (type : FileEntryType)
    → IsValid session.sync_buffer
    → length (contents session.sync_buffer) < file_sync_buffer_size
    → (b : FileSyncBuffer) × (add_file_to_sync_buffer username session.session_index filename type
          session.sync_buffer
        ≡ some b)
room_in_queue username session filename type v room =
    elim (Option-cases
      (add_file_to_sync_buffer username session.session_index filename type session.sync_buffer)) [
        | inl e ↦ absurd (
            omega (
              arith,
              (add_waits username session.session_index filename type session.sync_buffer).0 e,
            ))
        | inr added ↦ added
      ]

send_to_free :
    (i : ℕ) (filename : Bytes) (type : FileEntryType) (context : UserContext)
    → slot context i ≡ none
    → send_file_to_session i filename type context ≡ done context
unfolding send_file_to_session
send_to_free i filename type context e = rw (e, send_file_to_session)

send_to_session :
    (i : ℕ) (filename : Bytes) (type : FileEntryType) (context : UserContext) (session : Session)
    (b : FileSyncBuffer)
    → slot context i ≡ some session
    → add_file_to_sync_buffer context.username session.session_index filename type
        session.sync_buffer
      ≡ some b
    → send_file_to_session i filename type context
      ≡ done (record context {
        sessions = set context.sessions i (some (record session { sync_buffer = b }));
      })
unfolding send_file_to_session
send_to_session i filename type context session b e added = rw (e, send_file_to_session) (rw added)

-- Sending a file to a slot with room returns; it adds the entry at the end of the session's queue
-- if the slot has a session, and changes nothing else.
pub send_file_to_session_lem :
    (i : ℕ) (filename : Bytes) (type : FileEntryType) (context : UserContext)
    → HasRoom (slot context i)
    → (context' : UserContext) × (send_file_to_session i filename type context ≡ done context')
      × SentTo i filename type context context'
send_file_to_session_lem i filename type context h = elim (Option-cases (slot context i)) [
  | inl free ↦ (
    context,
    send_to_free i filename type context free,
    record { queued = rw free refl; others = λ j ne. refl; same_user = refl; same_files = refl },
  )
  | inr (session, taken) ↦
      let (v, room) = subst HasRoom taken h in
      let (b, added) = room_in_queue context.username session filename type v room in
      let (v', queued) = add_lem context.username session.session_index filename type v added in
      (
        _,
        send_to_session i filename type context session b taken added,
        record {
          queued =
              subst
                (λ o. Enqueued context.username filename type o (
                  slot
                    (record context {
                      sessions = set context.sessions i (some (record session { sync_buffer = b }));
                    })
                    i))
                (sym taken)
                (
                  b,
                  rw (
                    get_elem?-set_self context.sessions i
                        (some (record session { sync_buffer = b }))
                        (slot-lt context.sessions i session taken),
                    slot,
                  ),
                  v',
                  queued,
                );
          others = λ j ne. rw (
            get_elem?-set_ne context.sessions (some (record session { sync_buffer = b })) ne,
            slot,
          );
          same_user = refl;
          same_files = refl;
        },
      )
]
