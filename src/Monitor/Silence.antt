-- ===== src/Monitor/Silence.antt =====
-- A backup whose manager falls silent: the loop of `heartbeat_monitor_thread_main` of
-- src/server/serverRoles.c.
use inf01151_trabalho_final.Base.{
  ℕ, suc, ◌+◌, ◌-◌, ◌≤◌, ◌<◌, ◌≡◌, refl, ap, sym, ◌∙◌, Bool, true, false, ◌||◌, not, List, [], ◌∷◌,
  arith, length, ltb, if◌then◌else◌, Bool-cases, inl, inr,
}
use inf01151_trabalho_final.Text.{ℤ}
use inf01151_trabalho_final.Replicas.Invariant.{IsValid}
use inf01151_trabalho_final.Election.{ElectionState, run_election_start, run_election_end}
use inf01151_trabalho_final.Election.Votes.{run_election_start_lem}
use inf01151_trabalho_final.Roles.{is_manager_running}
use inf01151_trabalho_final.Monitor.{
  finish_election, run_election, watch, monitor_turn, monitor_turns,
}

within : (now last : ℕ) → ltb 5 (now - last) ≡ false → now - last ≤ 5
within now last h = ground arith

-- Each turn is at least a second after the one before.
abbrev pub Ticks : ℕ → List ℕ → Type 0
Ticks before [] = Unit
Ticks before (now ∷ times) = (before < now) × Ticks now times

-- Nothing but the election itself happens during the time-out.
abbrev pub nothing_heard : ElectionState → ElectionState
nothing_heard st = st

-- No flag of an election is set.
pub record IsCalm (st : ElectionState) : Type 0 where
  pub backup : st.manager ≡ false
  pub undecided : st.new_leader_decided ≡ false
  pub idle : st.is_election_running ≡ false
  pub unanswered : st.election_answer_received ≡ false

module _ (id : ℤ) where
  ends_as_manager :
      (b : Bool) (st : ElectionState)
      → (b ≡ false → st.manager ≡ true)
      → (b ≡ true → st.election_answer_received ≡ false)
      → (finish_election nothing_heard b st).manager ≡ true
  unfolding run_election_end
  ends_as_manager true st alone asked = rw (asked refl) refl
  ends_as_manager false st alone asked = alone refl

  -- An election that nobody answers is won.
  run_election-wins :
      (st : ElectionState)
      → IsValid st.replicas
      → st.election_answer_received ≡ false
      → (run_election id nothing_heard st).manager ≡ true
  unfolding run_election
  run_election-wins st v unanswered =
      let started = run_election_start_lem id st v in
      ends_as_manager (run_election_start id st).0 (run_election_start id st).1
        (λ e. ap (λ s. s.manager) (started.wins_alone (sym started.asks ∙ e)))
        (λ e.
          ap (λ s. s.election_answer_received) (started.keeps_role (sym started.asks ∙ e))
          ∙ unanswered)

  turns_step :
      (last now : ℕ) (times : List ℕ) (st st' : ElectionState)
      → monitor_turn id nothing_heard (watch last now) st ≡ (true, st')
      → monitor_turns id nothing_heard last (now ∷ times) st
        ≡ monitor_turns id nothing_heard last times st'
  unfolding monitor_turns
  turns_step last now times st st' e =
      ap
        (λ (r : Bool × ElectionState). elim (r.0) as (λ _. ElectionState) [
          | false ↦ r.1
          | true ↦ monitor_turns id nothing_heard last times r.1
        ])
        e

  turns_stop :
      (last now : ℕ) (times : List ℕ) (st st' : ElectionState)
      → monitor_turn id nothing_heard (watch last now) st ≡ (false, st')
      → monitor_turns id nothing_heard last (now ∷ times) st ≡ st'
  unfolding monitor_turns
  turns_stop last now times st st' e =
      ap
        (λ (r : Bool × ElectionState). elim (r.0) as (λ _. ElectionState) [
          | false ↦ r.1
          | true ↦ monitor_turns id nothing_heard last times r.1
        ])
        e

  -- A manager's monitor leaves its loop.
  turn_manager :
      (last now : ℕ) (st : ElectionState)
      → st.manager ≡ true
      → monitor_turn id nothing_heard (watch last now) st ≡ (false, st)
  unfolding monitor_turn
  turn_manager last now st m =
      ap
        (λ (b : Bool).
          if b
          then (false, st)
          else if is_manager_running last st.new_leader_decided st.is_election_running now
          then (true, st)
          else (true, run_election id nothing_heard (record st { is_election_running = true })))
        m

  running :
      (last now : ℕ) (st : ElectionState)
      → IsCalm st
      → is_manager_running last st.new_leader_decided st.is_election_running now
        ≡ not (ltb 5 (now - last))
  unfolding is_manager_running
  running last now st c =
      ap (λ b. not (ltb 5 (now - last) || (b || st.is_election_running))) c.undecided
      ∙ ap (λ b. not (ltb 5 (now - last) || b)) c.idle
      ∙ or_false (ltb 5 (now - last))
    where
      or_false : (b : Bool) → not (b || false) ≡ not b
      or_false true = refl
      or_false false = refl

  -- The turn of a calm backup holds an election exactly if the last heartbeat is more than five
  -- seconds old.
  pub turn_calm :
      (last now : ℕ) (st : ElectionState) (silent : Bool)
      → IsCalm st
      → ltb 5 (now - last) ≡ silent
      → monitor_turn id nothing_heard (watch last now) st ≡ (
        true,
        (if silent
            then run_election id nothing_heard (record st { is_election_running = true })
            else st),
      )
  unfolding monitor_turn
  turn_calm last now st silent c e =
      ap
        (λ (b : Bool).
          if b
          then (false, st)
          else if is_manager_running last st.new_leader_decided st.is_election_running now
          then (true, st)
          else (true, run_election id nothing_heard (record st { is_election_running = true })))
        c.backup
      ∙ ap
          (λ (b : Bool).
            if b
            then (true, st)
            else (true, run_election id nothing_heard (record st { is_election_running = true })))
          (running last now st c ∙ ap not e)
      ∙ by_cases silent
    where
      by_cases :
          (b : Bool)
          → ◌≡◌ {A = Bool × ElectionState}
              (if not b then (true, st) else (
                true,
                run_election id nothing_heard (record st { is_election_running = true }),
              ))
              (
                true,
                (if b
                    then run_election id nothing_heard (record st { is_election_running = true })
                    else st),
              )
      by_cases true = refl
      by_cases false = refl

  manager_stays :
      (last : ℕ) (times : List ℕ) (st : ElectionState)
      → st.manager ≡ true
      → (monitor_turns id nothing_heard last times st).manager ≡ true
  unfolding monitor_turns
  manager_stays last [] st m = m
  manager_stays last (now ∷ times) st m =
      ap (λ s. s.manager) (turns_stop last now times st st (turn_manager last now st m)) ∙ m

  -- `k` seconds of silence have passed.
  after_silence :
      (last before k : ℕ) (times : List ℕ) (st : ElectionState)
      → IsValid st.replicas
      → IsCalm st
      → Ticks before times
      → last + k ≤ before
      → k ≤ 5
      → 6 ≤ k + length times
      → (monitor_turns id nothing_heard last times st).manager ≡ true
  after_silence last before k [] st v c ticks past small enough = absurd (omega arith)
  after_silence last before k (now ∷ times) st v c ticks past small enough =
      elim (Bool-cases (ltb 5 (now - last))) [
        | inl silent ↦
            ap (λ s. s.manager)
              (turns_step last now times st _ (turn_calm last now st true c silent))
            ∙ manager_stays last times _
                (run_election-wins (record st { is_election_running = true }) v c.unanswered)
        | inr heard ↦
            ap (λ s. s.manager)
              (turns_step last now times st st (turn_calm last now st false c heard))
            ∙ after_silence last now (suc k) times st v c ticks.1 (omega arith) (small_still heard)
                (omega arith)
      ]
    where
      small_still : ltb 5 (now - last) ≡ false → suc k ≤ 5
      small_still heard = omega (arith, within now last heard, ticks.0, past)

-- A backup that hears nothing, neither heartbeats nor an answer to the election that it holds,
-- becomes the manager by the sixth turn of its monitor, whatever identifiers are listed, when each
-- turn is at least a second after the one before.
pub silence_lem :
    (id : ℤ) (last_heartbeat : ℕ) (times : List ℕ) (st : ElectionState)
    → IsValid st.replicas
    → IsCalm st
    → Ticks last_heartbeat times
    → 6 ≤ length times
    → (monitor_turns id nothing_heard last_heartbeat times st).manager ≡ true
silence_lem id last_heartbeat times st v c ticks enough =
    after_silence id last_heartbeat last_heartbeat 0 times st v c ticks (omega arith) (omega arith)
      (omega arith)
