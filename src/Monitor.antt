-- ===== src/Monitor.antt =====
-- The loops that keep the roles of the servers apart: `heartbeat_monitor_thread_main`,
-- `manage_replicas` and `run_as_backup` of src/server/serverRoles.c. A turn of a loop is a step. The
-- monitor waits for its election, so that is part of its turn.

pub mod Silence
pub mod Heartbeats
mod Tests
use inf01151_trabalho_final.Base.{
  ℕ, Bool, true, false, not, ◌||◌, Option, none, some, List, [], ◌∷◌, if◌then◌else◌,
}
use inf01151_trabalho_final.Text.{ℤ}
use inf01151_trabalho_final.Transfer.{Io, done, ◌>>=◌}
use inf01151_trabalho_final.Events.{create_heartbeat_event}
use inf01151_trabalho_final.Election.{ElectionState, run_election_start, run_election_end}
use inf01151_trabalho_final.Server.{Server, tell_replicas}
use inf01151_trabalho_final.Roles.{is_manager_running}

-- The rest of `run_election` if it sleeps: the other threads do `meanwhile` before the time-out.
abbrev pub finish_election : (ElectionState → ElectionState) → Bool → ElectionState → ElectionState
finish_election meanwhile true st = run_election_end (meanwhile st)
finish_election meanwhile false st = st

-- A whole run of `run_election`.
unfoldable pub run_election : ℤ → (ElectionState → ElectionState) → ElectionState → ElectionState
run_election my_id meanwhile st =
    let (sleeps, st') = run_election_start my_id st in finish_election meanwhile sleeps st'

-- The flags that the monitor's turn reads: global_shutdown_flag, the time of the last heartbeat, and
-- the clock.
pub record Watch : Type 0 where
  pub global_shutdown_flag : Bool
  pub last_heartbeat : ℕ
  pub now : ℕ

-- The Boolean says whether the loop goes on. A server that is not the manager is a backup.
unfoldable pub monitor_turn :
    ℤ → (ElectionState → ElectionState) → Watch → ElectionState → Bool × ElectionState
monitor_turn id meanwhile w st =
    if w.global_shutdown_flag || st.manager
    then (false, st)
    else if is_manager_running w.last_heartbeat st.new_leader_decided st.is_election_running w.now
    then (true, st)
    else (true, run_election id meanwhile (record st { is_election_running = true }))

abbrev pub watch : ℕ → ℕ → Watch
watch last_heartbeat now = record {
  global_shutdown_flag = false;
  last_heartbeat = last_heartbeat;
  now = now;
}

-- The turns at these times, with no shutdown and no heartbeat in between.
unfoldable pub monitor_turns :
    ℤ → (ElectionState → ElectionState) → ℕ → List ℕ → ElectionState → ElectionState
monitor_turns id meanwhile last_heartbeat [] st = st
monitor_turns id meanwhile last_heartbeat (now ∷ times) st =
    let (goes_on, st') = monitor_turn id meanwhile (watch last_heartbeat now) st in
    elim goes_on [ false ↦ st' | true ↦ monitor_turns id meanwhile last_heartbeat times st' ]

-- A turn of the loop of `manage_replicas`; `none` leaves the loop.
unfoldable pub manager_turn : Bool → Server → Io (Option Server)
manager_turn global_shutdown_flag srv =
    if global_shutdown_flag || not srv.manager
    then done none
    else (do srv' ← tell_replicas create_heartbeat_event srv; done (some srv'))

-- What `manage_replicas` does first.
abbrev pub begin_managing : ElectionState → ElectionState
begin_managing st = record st { manager = true; new_leader_decided = false }

-- Whether the loop of `run_as_backup` goes on.
abbrev pub stays_backup : Bool → ElectionState → Bool
stays_backup global_shutdown_flag st =
    not (global_shutdown_flag || (st.manager || st.new_leader_decided))
