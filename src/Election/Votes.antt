-- ===== src/Election/Votes.antt =====
-- Whom an election asks and how it ends: `run_election` of src/server/election.c.
use inf01151_trabalho_final.Base.{
  ◌≡◌, ◌⊎◌, subst, refl, ap, sym, ◌∙◌, Bool, true, false, All, Bool-cases, inl, inr,
}
use inf01151_trabalho_final.Text.{ℤ}
use inf01151_trabalho_final.Replicas.{Replicas}
use inf01151_trabalho_final.Replicas.Invariant.{IsValid}
use inf01151_trabalho_final.Election.{
  ElectionState, elect_nodes, send_election_msg, run_election_start, run_election_end,
  run_election_result, won,
}
use inf01151_trabalho_final.Election.Asking.{
  any_higher, asked, true-ne-false, Agrees-self, elect_nodes_sent, elect_nodes-asked,
}

module _ (my_id : ℤ) where
  -- The first part of an election.
  pub record Started (st st' : ElectionState) (sleeps : Bool) : Type 0 where
    pub asks : sleeps ≡ any_higher my_id st.replicas.head
    pub asked_only :
        All (λ n. st'.replicas.links n.socketfd ≡ asked my_id st.replicas.links n) st.replicas.head
    pub same_list : st'.replicas.head ≡ st.replicas.head
    pub wins_alone :
        any_higher my_id st.replicas.head ≡ false
        → st' ≡ won (record st { replicas = st'.replicas })
    pub keeps_role :
        any_higher my_id st.replicas.head ≡ true → st' ≡ record st { replicas = st'.replicas }

  module _ (st : ElectionState) where
    -- The list once the servers are asked.
    abbrev asked_list : Replicas
    asked_list = record st.replicas {
      links = (elect_nodes my_id st.replicas.head false st.replicas.links).1;
    }

    start_asks :
        (elect_nodes my_id st.replicas.head false st.replicas.links).0 ≡ true
        → run_election_start my_id st ≡ (true, record st { replicas = asked_list })
    unfolding run_election_start send_election_msg
    start_asks e = rw e refl

    start_alone :
        (elect_nodes my_id st.replicas.head false st.replicas.links).0 ≡ false
        → run_election_start my_id st ≡ (false, won (record st { replicas = asked_list }))
    unfolding run_election_start send_election_msg
    start_alone e = rw e refl

    -- An election sends its message to exactly the listed servers of a higher identifier, and to each
    -- of them once. With none of them the server takes the manager's role at once; otherwise it
    -- changes no role and waits for an answer.
    pub run_election_start_lem :
        IsValid st.replicas
        → Started st (run_election_start my_id st).1 (run_election_start my_id st).0
    run_election_start_lem v =
        let head = st.replicas.head in
        let sent = elect_nodes_sent my_id head false st.replicas.links in
        let asks =
          elect_nodes-asked my_id head false st.replicas.links st.replicas.links v.distinct
            (Agrees-self st.replicas.links head) in
        elim (Bool-cases (any_higher my_id head)) [
          | inl higher ↦
              subst (λ r. Started st r.1 r.0) (sym (start_asks (sent ∙ higher)))
                (record {
                  asks = sym higher;
                  asked_only = asks;
                  same_list = refl;
                  wins_alone = λ e. absurd (true-ne-false (sym higher ∙ e));
                  keeps_role = λ e. refl;
                })
          | inr highest ↦
              subst (λ r. Started st r.1 r.0) (sym (start_alone (sent ∙ highest)))
                (record {
                  asks = sym highest;
                  asked_only = asks;
                  same_list = refl;
                  wins_alone = λ e. refl;
                  keeps_role = λ e. absurd (true-ne-false (sym e ∙ highest));
                })
        ]

-- How an election that waited ends.
abbrev pub Ends : Bool → ElectionState → ElectionState → Type 0
Ends answered st st' =
    (((answered ≡ true) × (st'.manager ≡ st.manager))
      ⊎ ((answered ≡ false) × (st'.manager ≡ true) × (st'.new_leader_decided ≡ true)))
    × (st'.is_election_running ≡ false)
    × (st'.election_answer_received ≡ st.election_answer_received)

result_lem :
    (answered : Bool) (st : ElectionState) → Ends answered st (run_election_result answered st)
result_lem true st = (inl (refl, refl), refl, refl)
result_lem false st = (inr (refl, refl, refl), refl, refl)

-- An election that waited takes the manager's role exactly if no answer is noted; in both cases no
-- election runs any more and no answer stays noted.
pub run_election_end_lem :
    (st : ElectionState)
    → Ends st.election_answer_received
        (record st { election_answer_received = false })
        (run_election_end st)
unfolding run_election_end
run_election_end_lem st =
    result_lem st.election_answer_received (record st { election_answer_received = false })

lost :
    (answered : Bool) (st : ElectionState)
    → answered ≡ true
    → (run_election_result answered st).manager ≡ st.manager
lost true st e = refl
lost false st e = cc

-- An election that starts while an answer is still noted, as a COORDINATOR message leaves it, is lost
-- if a server of a higher identifier is listed, although nobody answers.
pub stale_answer :
    (my_id : ℤ) (st : ElectionState)
    → IsValid st.replicas
    → any_higher my_id st.replicas.head ≡ true
    → st.election_answer_received ≡ true
    → (run_election_end (run_election_start my_id st).1).manager ≡ st.manager
unfolding run_election_end
stale_answer my_id st v higher noted =
    let kept = (run_election_start_lem my_id st v).keeps_role higher in
    lost (run_election_start my_id st).1.election_answer_received _
      (ap (λ s. s.election_answer_received) kept ∙ noted)
    ∙ ap (λ s. s.manager) kept
