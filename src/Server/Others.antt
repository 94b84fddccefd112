-- ===== src/Server/Others.antt =====
-- The loop of src/server/server.c that queues a file for the other sessions of a user.
use native.Mathlib.Decide.{ℕ_discrete}
use inf01151_trabalho_final.Base.{
  ℕ, zero, suc, ◌+◌, ◌≤◌, ◌<◌, ◌≡◌, ◌≢◌, refl, subst, sym, ◌∙◌, Option, true, Bytes, ◌==◌, eqb_refl,
  eqb_ne, arith,
}
use inf01151_trabalho_final.Transfer.{done}
use inf01151_trabalho_final.SyncBuffer.{FileEntryType}
use inf01151_trabalho_final.Sessions.{Session, UserContext, slot, send_file_to_session}
use inf01151_trabalho_final.Sessions.Slots.{HasRoom, Enqueued, SentTo, send_file_to_session_lem}
use inf01151_trabalho_final.Server.{send_to_others}

-- The slots that the loop from `i` over `n` slots sends to.
abbrev pub IsTold : ℕ → ℕ → ℕ → ℕ → Type 0
IsTold n i own j = (i ≤ j) × (j < i + n) × (j ≢ own)

-- What the loop makes of the context.
pub record Spread (n i own : ℕ) (filename : Bytes) (type : FileEntryType)
    (context context' : UserContext) : Type 0 where
  pub told :
      (j : ℕ)
      → IsTold n i own j
      → Enqueued context.username filename type (slot context j) (slot context' j)
  pub kept : (j : ℕ) → ¬ IsTold n i own j → slot context' j ≡ slot context j
  pub same_user : context'.username ≡ context.username
  pub same_files : context'.file_list ≡ context.file_list

Enqueued-subst :
    {u u' : Bytes} {s s' t t' : Option Session} (filename : Bytes) (type : FileEntryType)
    → u ≡ u'
    → s ≡ s'
    → t ≡ t'
    → Enqueued u filename type s t
    → Enqueued u' filename type s' t'
Enqueued-subst {u} {u'} {s} {s'} {t} {t'} filename type eu es et h =
    subst (λ x. Enqueued u' filename type s' x) et
      (subst (λ x. Enqueued u' filename type x t) es
        (subst (λ x. Enqueued x filename type s t) eu h))

module _ (n i own : ℕ) (filename : Bytes) (type : FileEntryType) (context : UserContext) where
  others_skip :
      i ≡ own
      → send_to_others (suc n) i own filename type context
        ≡ send_to_others n (suc i) own filename type context
  unfolding send_to_others
  others_skip e = rw (subst (λ k. (i == k) ≡ true) e (eqb_refl i), send_to_others) refl

  others_send :
      (context' : UserContext)
      → i ≢ own
      → send_file_to_session i filename type context ≡ done context'
      → send_to_others (suc n) i own filename type context
        ≡ send_to_others n (suc i) own filename type context'
  unfolding send_to_others
  others_send context' ne sent = rw (eqb_ne ne, send_to_others) (rw sent)

  skip-Spread :
      (context' : UserContext)
      → i ≡ own
      → Spread n (suc i) own filename type context context'
      → Spread (suc n) i own filename type context context'
  skip-Spread context' e rest = record {
    told = λ j t. rest.told j (omega arith, omega arith, t.2);
    kept = λ j t. rest.kept j (λ u. t (omega arith, omega arith, u.2));
    same_user = rest.same_user;
    same_files = rest.same_files;
  }

  send-Spread :
      (middle context' : UserContext)
      → i ≢ own
      → SentTo i filename type context middle
      → Spread n (suc i) own filename type middle context'
      → Spread (suc n) i own filename type context context'
  send-Spread middle context' ne sent rest = record {
    told = λ j t. elim (ℕ_discrete i j) [
      | yes e ↦
          subst (λ k. Enqueued context.username filename type (slot context k) (slot context' k)) e
            (Enqueued-subst filename type refl refl
              (sym (rest.kept i (λ u. absurd (omega (arith, u.0))))) sent.queued)
      | no apart ↦
          Enqueued-subst filename type sent.same_user (sent.others j apart) refl
            (rest.told j (omega (arith, t.0), omega (arith, t.1), t.2))
    ];
    kept = λ j t. elim (ℕ_discrete i j) [
      | yes e ↦ absurd (t (omega arith, omega arith, λ o. ne (e ∙ o)))
      | no apart ↦
          rest.kept j (λ u. t (omega (arith, u.0), omega (arith, u.1), u.2)) ∙ sent.others j apart
    ];
    same_user = rest.same_user ∙ sent.same_user;
    same_files = rest.same_files ∙ sent.same_files;
  }

-- If every other session has room in its queue, the loop returns: each of the other slots that it
-- goes over has the entry at the end of its session's queue, if there is one, and the session's own
-- slot and the list of files are as before.
pub send_to_others_lem :
    (n i own : ℕ) (filename : Bytes) (type : FileEntryType) (context : UserContext)
    → ((j : ℕ) → IsTold n i own j → HasRoom (slot context j))
    → (context' : UserContext) × (send_to_others n i own filename type context ≡ done context')
      × Spread n i own filename type context context'
unfolding send_to_others
send_to_others_lem zero i own filename type context room = (
  context,
  refl,
  record {
    told = λ j t. absurd (omega (arith, t.0, t.1));
    kept = λ j t. refl;
    same_user = refl;
    same_files = refl;
  },
)
send_to_others_lem (suc n) i own filename type context room = elim (ℕ_discrete i own) [
  | yes e ↦
      let (context', returns, rest) =
        send_to_others_lem n (suc i) own filename type context
          (λ j t. room j (omega (arith, t.0), omega (arith, t.1), t.2)) in
      (
        context',
        others_skip n i own filename type context e ∙ returns,
        skip-Spread n i own filename type context context' e rest,
      )
  | no ne ↦
      let (middle, first, sent) =
        send_file_to_session_lem i filename type context (room i (omega arith, omega arith, ne)) in
      let (context', returns, rest) = send_to_others_lem n (suc i) own filename type middle (λ j t.
        subst HasRoom (sym (sent.others j (omega (arith, t.0))))
          (room j (omega (arith, t.0), omega (arith, t.1), t.2))) in
      (
        context',
        others_send n i own filename type context middle ne first ∙ returns,
        send-Spread n i own filename type context middle context' ne sent rest,
      )
]
