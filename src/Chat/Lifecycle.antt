-- ===== src/Chat/Lifecycle.antt =====
-- `Shutdown` of internal/chat/coordinator.go: the locked region that stops the coordinator, the waits
-- that the deadline may end, and the locked region that releases what it owns.
use excelsior.Common.{
  String, Bool, true, false, not, ◌&&◌, ◌||◌, ◌==◌, List, [], ◌∷◌, map, Option, none, some, Map,
  Result, ok, err, if◌then◌else◌, str_eq,
}
use excelsior.Chat.Subscription.{close_queue}
use excelsior.Chat.State.{Coordinator, Env, ActiveRun, Subscriber, ChatError, shutdown_incomplete}
use excelsior.Chat.Runs.{is_persisting}

unfoldable pub stop_run : ActiveRun → ActiveRun
unfolding is_persisting
stop_run run = if is_persisting run.state then run else record run { canceled = true }

unfoldable pub stop_runs : Map ActiveRun → Map ActiveRun
unfolding stop_run
stop_runs [] = []
stop_runs ((key, run) ∷ rest) = (key, stop_run run) ∷ stop_runs rest

abbrev pub run_ids : Map ActiveRun → List String
run_ids [] = []
run_ids ((key, run) ∷ rest) = run.id ∷ run_ids rest

-- From here on no run starts; the result is the runs to wait for.
unfoldable pub begin_shutdown : {S : Type 0} → Coordinator S → Coordinator S × List String
unfolding stop_runs
begin_shutdown c = (record c { stopped = true; runs = stop_runs c.runs }, run_ids c.runs)

abbrev pub has_id : String → Map ActiveRun → Bool
has_id id [] = false
has_id id ((key, run) ∷ rest) = str_eq run.id id || has_id id rest

-- `finish` closes a run's `done` in the step that takes the run out of the registry.
unfoldable pub all_done : List String → Map ActiveRun → Bool
all_done [] runs = true
all_done (id ∷ ids) runs = not (has_id id runs) && all_done ids runs

unfoldable pub close_subscriber : Subscriber → Subscriber
close_subscriber e =
    if e.registered then record e { registered = false; sub = close_queue e.sub } else e

module _ {S : Type 0} (env : Env S) where
  abbrev close_store : Option S → Option S
  close_store none = none
  close_store (some s) = some (env.store.close s)

  -- The last region. The opened stores are closed and forgotten.
  unfoldable pub release : Coordinator S → Coordinator S
  unfolding close_subscriber
  release c = record c {
    subscribers = map close_subscriber c.subscribers;
    stores = [];
    session_store = close_store c.session_store;
  }

  -- What follows the first region: with the deadline passed while a run or a listing goes on, the
  -- coordinator keeps what it owns. `late` is a `select` that picks the deadline although what it
  -- waits for is over as well.
  unfoldable pub end_shutdown :
      Bool → List String → Coordinator S → Coordinator S × Result ChatError (Unit {0})
  unfolding release all_done
  end_shutdown late ids c =
      if not late && all_done ids c.runs && (c.list_workers == 0)
      then (release c, ok tt)
      else (c, err shutdown_incomplete)
