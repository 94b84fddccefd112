-- ===== src/Failover/Told.antt =====
-- Whom `send_packet_all_users` of src/util/connectionManagement.c reaches when every connection can
-- be made.
use inf01151_trabalho_final.Base.{
  ℕ, suc, zero, ◌≡◌, refl, ap, subst, sym, ◌∙◌, Bool, true, Option, none, some, List, [], ◌∷◌,
  Bytes, length, get_elem?, get_elem?-some, get_elem?-grow, get_elem?-last, All, ◌==◌, Bool-cases,
  inl, inr, ==_iff,
}
use inf01151_trabalho_final.Address.{SockaddrIn}
use inf01151_trabalho_final.Packet.Socket.{Link}
use inf01151_trabalho_final.Packet.{Packet, send_packet}
use inf01151_trabalho_final.Transfer.{Io, done}
use inf01151_trabalho_final.Transfer.Sending.{open_link}
use inf01151_trabalho_final.Sessions.{Session, UserContext}
use inf01151_trabalho_final.Sessions.Disconnect.{listed, listed_in, InHeap}
use inf01151_trabalho_final.Failover.{
  notification_port, Notices, dial_and_send, send_to_sessions, send_to_chain, send_to_buckets,
}

-- Where a session's client is told.
abbrev pub client_of : Session → SockaddrIn
client_of session = record session.device_address { sin_port = notification_port }

-- A connection on which just the packet was sent.
abbrev pub notice : Option Packet → Link
notice p = (send_packet (open_link []) p).1

-- The packet has been sent to the address.
abbrev pub Has : Notices → SockaddrIn → Option Packet → Type 0
Has n address p = (j : ℕ) × (get_elem? n.sent j ≡ some (address, notice p))

pub record Grows (n n' : Notices) : Type 0 where
  pub all_connect : n'.dials ≡ []
  pub keeps :
      (j : ℕ) (s : SockaddrIn × Link) → get_elem? n.sent j ≡ some s → get_elem? n'.sent j ≡ some s

Grows-trans : {a b c : Notices} → Grows a b → Grows b c → Grows a c
Grows-trans g h = record {
  all_connect = h.all_connect;
  keeps = λ j s e. h.keeps j s (g.keeps j s e);
}

Grows-Has :
    {n n' : Notices} (a : SockaddrIn) (p : Option Packet) → Grows n n' → Has n a p → Has n' a p
Grows-Has a p g (j, e) = (j, g.keeps j _ e)

module _ (p : Option Packet) where
  dial-Grows : (a : SockaddrIn) (n : Notices) → n.dials ≡ [] → Grows n (dial_and_send n.dials p a n)
  unfolding dial_and_send
  dial-Grows a n e =
      subst (λ d. Grows n (dial_and_send d p a n)) (sym e)
        (record { all_connect = e; keeps = λ j s at. get_elem?-grow n.sent j s (a, notice p) at })

  dial-Has : (a : SockaddrIn) (n : Notices) → n.dials ≡ [] → Has (dial_and_send n.dials p a n) a p
  unfolding dial_and_send
  dial-Has a n e =
      subst (λ d. Has (dial_and_send d p a n) a p) (sym e)
        (length n.sent, get_elem?-last n.sent (a, notice p))

  sessions-Grows :
      (sessions : List (Option Session)) (n : Notices)
      → n.dials ≡ []
      → Grows n (send_to_sessions p sessions n)
  unfolding send_to_sessions
  sessions-Grows [] n e = record { all_connect = e; keeps = λ j s at. at }
  sessions-Grows (none ∷ sessions) n e = sessions-Grows sessions n e
  sessions-Grows (some session ∷ sessions) n e =
      let first = dial-Grows (client_of session) n e in
      Grows-trans first (sessions-Grows sessions _ first.all_connect)

  sessions-Has :
      (sessions : List (Option Session)) (n : Notices) (i : ℕ) (session : Session)
      → n.dials ≡ []
      → get_elem? sessions i ≡ some (some session)
      → Has (send_to_sessions p sessions n) (client_of session) p
  unfolding send_to_sessions
  sessions-Has [] n i session e at = cc
  sessions-Has (none ∷ sessions) n zero session e at = cc
  sessions-Has (none ∷ sessions) n (suc i) session e at = sessions-Has sessions n i session e at
  sessions-Has (some first ∷ sessions) n zero session e at =
      let same : first ≡ session = cc at in
      let after = dial-Grows (client_of first) n e in
      subst (λ s. Has (send_to_sessions p (some first ∷ sessions) n) (client_of s) p) same
        (Grows-Has (client_of first) p (sessions-Grows sessions _ after.all_connect)
          (dial-Has (client_of first) n e))
  sessions-Has (some first ∷ sessions) n (suc i) session e at =
      sessions-Has sessions _ i session (dial-Grows (client_of first) n e).all_connect at

  -- Every session of the tested contexts is told.
  pub record Reaches (test : ℕ → Bool) (heap : List UserContext) (n : Notices) (result : Io Notices)
      : Type 0 where
    pub after : Notices
    pub returns : result ≡ done after
    pub grows : Grows n after
    pub told :
        (c i : ℕ) (context : UserContext) (session : Session)
        → test c ≡ true
        → get_elem? heap c ≡ some context
        → get_elem? context.sessions i ≡ some (some session)
        → Has after (client_of session) p

  chain_step :
      (username : Bytes) (c : ℕ) (node : List (Bytes × ℕ)) (heap : List UserContext) (n : Notices)
      (context : UserContext)
      → get_elem? heap c ≡ some context
      → send_to_chain p heap ((username, c) ∷ node) n
        ≡ send_to_chain p heap node (send_to_sessions p context.sessions n)
  unfolding send_to_chain
  chain_step username c node heap n context at = rw (at, send_to_chain) refl

  chain-Reaches :
      (heap : List UserContext) (chain : List (Bytes × ℕ)) (n : Notices)
      → n.dials ≡ []
      → InHeap (length heap) chain
      → Reaches (λ j. listed j chain) heap n (send_to_chain p heap chain n)
  unfolding send_to_chain
  chain-Reaches heap [] n e h = record {
    after = n;
    returns = refl;
    grows = record { all_connect = e; keeps = λ j s at. at };
    told = λ c i context session t at sat. cc t;
  }
  chain-Reaches heap ((username, c) ∷ node) n e h =
      let (context, at) = get_elem?-some heap c h.0 in
      let first = sessions-Grows context.sessions n e in
      let rest =
        chain-Reaches heap node (send_to_sessions p context.sessions n) first.all_connect h.1 in
      record {
        after = rest.after;
        returns = chain_step username c node heap n context at ∙ rest.returns;
        grows = Grows-trans first rest.grows;
        told = λ d i context' session t at' sat. elim (Bool-cases (c == d)) [
          | inl same ↦
              let here : context' ≡ context =
                cc (sym at', ap (get_elem? heap) ((==_iff c d).0 same), at) in
              Grows-Has (client_of session) p rest.grows (
                sessions-Has context.sessions n i session e
                  (ap (λ x. get_elem? x.sessions i) (sym here) ∙ sat))
          | inr other ↦ rest.told d i context' session (rw other at t) at' sat
        ];
      }

  buckets_step :
      (chain : List (Bytes × ℕ)) (array : List (List (Bytes × ℕ))) (heap : List UserContext)
      (n n' : Notices)
      → send_to_chain p heap chain n ≡ done n'
      → send_to_buckets p heap (chain ∷ array) n ≡ send_to_buckets p heap array n'
  unfolding send_to_buckets
  buckets_step chain array heap n n' e = rw (e, send_to_buckets) refl

  pub buckets-Reaches :
      (heap : List UserContext) (array : List (List (Bytes × ℕ))) (n : Notices)
      → n.dials ≡ []
      → All (InHeap (length heap)) array
      → Reaches (λ j. listed_in j array) heap n (send_to_buckets p heap array n)
  unfolding send_to_buckets
  buckets-Reaches heap [] n e h = record {
    after = n;
    returns = refl;
    grows = record { all_connect = e; keeps = λ j s at. at };
    told = λ c i context session t at sat. cc t;
  }
  buckets-Reaches heap (chain ∷ array) n e h =
      let first = chain-Reaches heap chain n e h.0 in
      let rest = buckets-Reaches heap array first.after first.grows.all_connect h.1 in
      record {
        after = rest.after;
        returns = buckets_step chain array heap n first.after first.returns ∙ rest.returns;
        grows = Grows-trans first.grows rest.grows;
        told = λ d i context session t at sat. elim (Bool-cases (listed d chain)) [
          | inl here ↦
              Grows-Has (client_of session) p rest.grows
                (first.told d i context session here at sat)
          | inr later ↦ rest.told d i context session (rw later at t) at sat
        ];
      }
