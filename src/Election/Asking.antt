-- ===== src/Election/Asking.antt =====
-- Whom an election asks: the loop of `run_election` of src/server/election.c.
use inf01151_trabalho_final.Base.{
  ℕ, ◌≡◌, subst, refl, ap, sym, ◌∙◌, Bool, true, false, List, [], ◌∷◌, arith, if◌then◌else◌, All,
  Bool-cases, inl, inr, eqb_refl,
}
use inf01151_trabalho_final.Text.{ℤ}
use inf01151_trabalho_final.Packet.Socket.{Link}
use inf01151_trabalho_final.Replicas.{ReplicaNode, find_node, update}
use inf01151_trabalho_final.Replicas.Invariant.{IsDistinct}
use inf01151_trabalho_final.Election.{
  int_lt, elect_nodes, send_election_event, create_election_event,
}

-- Whether a server of a higher identifier is listed.
abbrev pub any_higher : ℤ → List ReplicaNode → Bool
any_higher my_id [] = false
any_higher my_id (n ∷ nodes) = if int_lt my_id n.id then true else any_higher my_id nodes

-- A connection after the election has asked its server, or not.
abbrev pub asked : ℤ → (ℕ → Link) → ReplicaNode → Link
asked my_id links n =
    if int_lt my_id n.id
    then (send_election_event (create_election_event my_id) (links n.socketfd)).1
    else links n.socketfd

pub true-ne-false : ◌≡◌ {A = Bool} true false → ⊥
true-ne-false e = cc

pub if_same : (b : Bool) → (if b then true else true) ≡ true
if_same true = refl
if_same false = refl

module _ (n : ReplicaNode) (nodes : List ReplicaNode) (links : ℕ → Link) (link : Link)
    (fd : ℕ) where
  update_other : find_node (n ∷ nodes) fd ≡ false → update links n.socketfd link fd ≡ links fd
  unfolding find_node
  update_other h = ground arith

  find_node-tail : find_node (n ∷ nodes) fd ≡ false → find_node nodes fd ≡ false
  unfolding find_node
  find_node-tail h = ground arith

-- The connections of the nodes are those of before.
abbrev pub Agrees : (ℕ → Link) → (ℕ → Link) → List ReplicaNode → Type 0
Agrees now before = All (λ n. now n.socketfd ≡ before n.socketfd)

Agrees-update :
    (now before : ℕ → Link) (fd : ℕ) (link : Link) (nodes : List ReplicaNode)
    → find_node nodes fd ≡ false
    → Agrees now before nodes
    → Agrees (update now fd link) before nodes
unfolding find_node
Agrees-update now before fd link [] h a = tt
Agrees-update now before fd link (m ∷ nodes) h a =
    ground (arith, Agrees-update now before fd link nodes)

pub Agrees-self : (links : ℕ → Link) (nodes : List ReplicaNode) → Agrees links links nodes
Agrees-self links [] = tt
Agrees-self links (n ∷ nodes) = (refl, Agrees-self links nodes)

module _ (my_id : ℤ) where
  pub elect_nodes_sent :
      (nodes : List ReplicaNode) (sent : Bool) (links : ℕ → Link)
      → (elect_nodes my_id nodes sent links).0 ≡ (if sent then true else any_higher my_id nodes)
  unfolding elect_nodes
  elect_nodes_sent [] sent links = ground arith
  elect_nodes_sent (n ∷ nodes) sent links = elim (Bool-cases (int_lt my_id n.id)) [
    | inl higher ↦ rw (higher, elect_nodes) (elect_nodes_sent nodes true _ ∙ sym (if_same sent))
    | inr lower ↦ rw (lower, elect_nodes) (elect_nodes_sent nodes sent links)
  ]

  elect_untouched :
      (nodes : List ReplicaNode) (sent : Bool) (links : ℕ → Link) (fd : ℕ)
      → find_node nodes fd ≡ false
      → (elect_nodes my_id nodes sent links).1 fd ≡ links fd
  unfolding elect_nodes find_node
  elect_untouched [] sent links fd h = refl
  elect_untouched (n ∷ nodes) sent links fd h = elim (Bool-cases (int_lt my_id n.id)) [
    | inl higher ↦
        rw (higher, elect_nodes)
          (elect_untouched nodes true _ fd (find_node-tail n nodes links (links fd) fd h)
            ∙ update_other n nodes links _ fd h)
    | inr lower ↦
        rw (lower, elect_nodes)
          (elect_untouched nodes sent links fd (find_node-tail n nodes links (links fd) fd h))
  ]

  update_here : (links : ℕ → Link) (fd : ℕ) (link : Link) → update links fd link fd ≡ link
  update_here links fd link = rw (eqb_refl fd)

  module _ (n : ReplicaNode) (nodes : List ReplicaNode) (sent : Bool) (links : ℕ → Link) where
    abbrev link_asked : Link
    link_asked = (send_election_event (create_election_event my_id) (links n.socketfd)).1

    elect_higher :
        int_lt my_id n.id ≡ true
        → elect_nodes my_id (n ∷ nodes) sent links
          ≡ elect_nodes my_id nodes true (update links n.socketfd link_asked)
    unfolding elect_nodes
    elect_higher higher = rw (higher, elect_nodes) refl

    elect_lower :
        int_lt my_id n.id ≡ false
        → elect_nodes my_id (n ∷ nodes) sent links ≡ elect_nodes my_id nodes sent links
    unfolding elect_nodes
    elect_lower lower = rw (lower, elect_nodes) refl

    asked_higher : int_lt my_id n.id ≡ true → asked my_id links n ≡ link_asked
    asked_higher higher = rw (higher, asked) refl

    asked_lower : int_lt my_id n.id ≡ false → asked my_id links n ≡ links n.socketfd
    asked_lower lower = rw (lower, asked) refl

  -- Exactly the servers of a higher identifier are asked, each once.
  pub elect_nodes-asked :
      (nodes : List ReplicaNode) (sent : Bool) (links before : ℕ → Link)
      → IsDistinct nodes
      → Agrees links before nodes
      → All (λ n. (elect_nodes my_id nodes sent links).1 n.socketfd ≡ asked my_id before n) nodes
  elect_nodes-asked [] sent links before d a = tt
  elect_nodes-asked (n ∷ nodes) sent links before d a = elim (Bool-cases (int_lt my_id n.id)) [
    | inl higher ↦
        subst (λ r. All (λ m. r.1 m.socketfd ≡ asked my_id before m) (n ∷ nodes))
          (sym (elect_higher n nodes sent links higher))
          (
            elect_untouched nodes true (update links n.socketfd (link_asked n nodes sent links))
                  n.socketfd d.0
                ∙ update_here links n.socketfd (link_asked n nodes sent links)
                ∙ ap (λ l. (send_election_event (create_election_event my_id) l).1) a.0
                ∙ sym (asked_higher n nodes sent before higher),
            elect_nodes-asked nodes true (update links n.socketfd (link_asked n nodes sent links))
                before d.1
                (Agrees-update links before n.socketfd (link_asked n nodes sent links) nodes d.0
                  a.1),
          )
    | inr lower ↦
        subst (λ r. All (λ m. r.1 m.socketfd ≡ asked my_id before m) (n ∷ nodes))
          (sym (elect_lower n nodes sent links lower))
          (
            elect_untouched nodes sent links n.socketfd d.0
                ∙ a.0
                ∙ sym (asked_lower n nodes sent before lower),
            elect_nodes-asked nodes sent links before d.1 a.1,
          )
  ]
