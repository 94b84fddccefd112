-- ===== src/Server/Connect.antt =====
-- A new connection of a user: `initialize_user_session_and_threads` of src/server/server.c.
use inf01151_trabalho_final.Base.{
  ℕ, ◌≡◌, ◌≢◌, ◌⊎◌, inl, inr, refl, subst, ◌∙◌, Bool, true, false, some, none, List, Bytes,
  Option-cases, get_elem?, set, get_elem?-set_ne, All,
}
use inf01151_trabalho_final.Address.{SockaddrIn}
use inf01151_trabalho_final.Transfer.{Io, done}
use inf01151_trabalho_final.SyncBuffer.{FileEntry}
use inf01151_trabalho_final.ContextTable.{fault, search}
use inf01151_trabalho_final.Events.{ReplicaEvent, create_client_connected_event}
use inf01151_trabalho_final.Replicas.{Replicas}
use inf01151_trabalho_final.Replicas.Invariant as ReplicaList
use inf01151_trabalho_final.Sessions.{
  SessionSockets, UserContext, Contexts, find_free_session_index, create_session,
  get_or_create_context,
}
use inf01151_trabalho_final.Sessions.Slots.{IsTaken, FreeSlot, free_slot_lem}
use inf01151_trabalho_final.Sessions.Users.{IsConsistent, HasContext, get_or_create_context_lem}
use inf01151_trabalho_final.Server.{
  Server, with_context, with_replicas, tell_if, open_session, initialize_user_session,
}
use inf01151_trabalho_final.Server.Incoming.{tell_replicas_lem}
use inf01151_trabalho_final.Server.Telling.{context_at-with}

pub tell_if_lem :
    (manager : Bool) (e : ReplicaEvent) (srv : Server)
    → ReplicaList.IsValid srv.replicas
    → (replicas : Replicas) × (tell_if manager e srv ≡ done (with_replicas replicas srv))
      × ReplicaList.IsValid replicas
unfolding tell_if
tell_if_lem false e srv v = (srv.replicas, refl, v)
tell_if_lem true e srv v = tell_replicas_lem e srv v

module _ (device_address : SockaddrIn) (sockets : SessionSockets) (username : Bytes)
    (memory : List FileEntry) where
  -- What a connection makes of the user's context: the first free slot has a new session, or every
  -- slot was taken and nothing changes.
  abbrev pub Opens : UserContext → UserContext → Type 0
  Opens context context' =
      (All IsTaken context.sessions × (context' ≡ context))
      ⊎ ((i : ℕ) × FreeSlot context.sessions 0 (some i)
          × (context' ≡ record context {
            sessions =
                set context.sessions i (some (create_session i sockets device_address memory));
          }))

  -- What the call does, with the contexts as `get_or_create_context` leaves them.
  pub record Connected (srv : Server) (result : Io Server) : Type 0 where
    pub state : Server
    pub c : ℕ
    pub contexts : Contexts
    pub context : UserContext
    pub context_after : UserContext
    pub returns : result ≡ done state
    pub has_context : HasContext username c srv.contexts contexts
    pub found_context : get_elem? contexts.heap c ≡ some context
    pub named : context.username ≡ username
    pub opens : Opens context context_after
    pub holds : get_elem? state.contexts.heap c ≡ some context_after
    pub others : (d : ℕ) → c ≢ d → get_elem? state.contexts.heap d ≡ get_elem? contexts.heap d
    pub same_table : state.contexts.table ≡ contexts.table
    pub replicas : ReplicaList.IsValid state.replicas

  module _ (c : ℕ) (context : UserContext) (srv : Server) where
    open_full :
        find_free_session_index context ≡ none
        → open_session c context device_address sockets username memory srv ≡ done srv
    unfolding open_session
    open_full e = rw (e, open_session)

    abbrev opened : ℕ → UserContext
    opened i = record context {
      sessions = set context.sessions i (some (create_session i sockets device_address memory));
    }

    open_free :
        (i : ℕ) (told : Server)
        → find_free_session_index context ≡ some i
        → tell_if srv.manager (create_client_connected_event username device_address) srv
          ≡ done told
        → open_session c context device_address sockets username memory srv
          ≡ done (with_context c (opened i) told)
    unfolding open_session
    open_free i told e t = rw (e, open_session) (rw t)

  connect_steps :
      (srv : Server) (c : ℕ) (contexts : Contexts) (context : UserContext)
      → get_or_create_context username srv.contexts ≡ done (c, contexts)
      → get_elem? contexts.heap c ≡ some context
      → initialize_user_session device_address sockets username memory srv
        ≡ open_session c context device_address sockets username memory
            (record srv { contexts = contexts })
  unfolding initialize_user_session
  connect_steps srv c contexts context e at = rw (e, initialize_user_session) (rw at refl)

  -- A connection of a user whose search does not fault returns. The user's context is the one that
  -- the table has from then on; the first of its two slots that is free holds a new active session
  -- of that index, and if there is none nothing is changed. Contexts of other users and their
  -- sessions stay, and the list of replicas stays consistent.
  pub initialize_user_session_lem :
      (srv : Server)
      → IsConsistent srv.contexts
      → search srv.contexts.table username ≢ fault
      → ReplicaList.IsValid srv.replicas
      → Connected srv (initialize_user_session device_address sockets username memory srv)
  initialize_user_session_lem srv consistent ok v =
      let (c, contexts, e, has) = get_or_create_context_lem username srv.contexts consistent ok in
      let (context, at, named) = has.consistent.bound username c has.registered in
      let steps = connect_steps srv c contexts context e at in
      let srv' : Server = record srv { contexts = contexts } in
      elim (Option-cases (find_free_session_index context)) [
        | inl full ↦ record {
          state = srv';
          c = c;
          contexts = contexts;
          context = context;
          context_after = context;
          returns = steps ∙ open_full c context srv' full;
          has_context = has;
          found_context = at;
          named = named;
          opens =
              inl
                (subst (FreeSlot context.sessions 0) full (free_slot_lem context.sessions 0), refl);
          holds = at;
          others = λ d ne. refl;
          same_table = refl;
          replicas = v;
        }
        | inr (i, free) ↦
            let (replicas, told, valid) =
              tell_if_lem srv'.manager (create_client_connected_event username device_address) srv'
                v in
            record {
              state = with_context c (opened c context srv' i) (with_replicas replicas srv');
              c = c;
              contexts = contexts;
              context = context;
              context_after = opened c context srv' i;
              returns = steps ∙ open_free c context srv' i (with_replicas replicas srv') free told;
              has_context = has;
              found_context = at;
              named = named;
              opens = inr (
                i,
                subst (FreeSlot context.sessions 0) free (free_slot_lem context.sessions 0),
                refl,
              );
              holds = context_at-with c context (opened c context srv' i) srv' at;
              others = λ d ne. get_elem?-set_ne contexts.heap (opened c context srv' i) ne;
              same_table = refl;
              replicas = valid;
            }
      ]
