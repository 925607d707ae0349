-- ===== src/Chat/Machine.antt =====
-- The coordinator as a state machine: how one run may move, and how the registry of runs and the kept
-- snapshots may move with it. Which call makes which move is shown in the modules below.
pub mod Moves
pub mod Commands
pub mod Refines
pub mod Soundness
pub mod Kept
pub mod Invariant
pub mod Ended
pub mod Continuity
pub mod Projection
pub mod Queues
use excelsior.Common.{
  ℕ, ◌+◌, ◌≤◌, ◌<◌, ◌≡◌, String, Bool, true, false, List, [], Option, none, some, lookup, insert,
  erase,
}
use excelsior.Llm.{Message}
use excelsior.Chat.Event.{Event, Outcome, PendingInteraction, Json, message_bytes, event_bytes}
use excelsior.Chat.Workspace.{session_key}
use excelsior.Chat.Retention.{drop_terminal, retain, max_projection_bytes}
use excelsior.Chat.State.{
  Coordinator, Env, ActiveRun, preparing, running, waiting_for_interaction, persisting,
}
use excelsior.Chat.Stores.Frame.{SameCore}
use excelsior.Chat.Runs.{coalesce, is_persisting, terminal_snapshot}
use excelsior.Chat.Turn.{turn_outcome, runner_creation_failed}
use excelsior.Chat.Lifecycle.{stop_runs}
use excelsior.Chat.Steps.{Call, settles, fails_creation}

pub data RunStep (json : Json) (run run' : ActiveRun) : Type 0 where
  begins : run' ≡ record run { state = running } → RunStep json run run'
  emits :
      (ev : Event)
      → run.projection_failed ≡ false
      → run.projection_bytes + event_bytes json ev ≤ max_projection_bytes
      → run' ≡ record run {
        projection_bytes = run.projection_bytes + event_bytes json ev;
        events = coalesce run.events ev;
      }
      → RunStep json run run'
  overflows :
      (ev : Event)
      → run.projection_failed ≡ false
      → max_projection_bytes < run.projection_bytes + event_bytes json ev
      → run' ≡ record run { projection_failed = true; canceled = true }
      → RunStep json run run'
  asks :
      (pi : PendingInteraction)
      → run.canceled ≡ false
      → run' ≡ record run { state = waiting_for_interaction; pending = some pi; response = pi.id }
      → RunStep json run run'
  answered :
      (pi : PendingInteraction)
      → run.pending ≡ some pi
      → run.canceled ≡ false
      → run' ≡ record run { pending = none; state = running }
      → RunStep json run run'
  persists : run.canceled ≡ false → run' ≡ record run { state = persisting } → RunStep json run run'
  cancels :
      is_persisting run.state ≡ false
      → run' ≡ record run { canceled = true }
      → RunStep json run run'

-- A run as `ReserveTurn` makes it.
pub record IsFresh {S : Type 0} (env : Env S) (key : String) (run : ActiveRun) : Type 0 where
  pub keyed : session_key env.platform run.workspace run.session_id ≡ key
  pub state : run.state ≡ preparing
  pub live : run.canceled ≡ false
  pub events : run.events ≡ []
  pub pending : run.pending ≡ none
  pub bytes : run.projection_bytes ≡ message_bytes env.json run.messages
  pub budget : run.projection_bytes ≤ max_projection_bytes

-- Which runs a call ends, with which outcome and which messages of the runner's result.
abbrev pub Ending : Type 1
Ending = String → ActiveRun → Outcome → Option (List Message) → Type 0

-- The end of a turn, with the outcome of its own classification, and a runner that was not created.
abbrev pub EndedBy : Bool → Call → Ending
EndedBy ephemeral (settles k answer e) key run o result =
    (k ≡ key) × (o ≡ turn_outcome ephemeral run e) × (result ≡ answer)
EndedBy ephemeral (fails_creation k text) key run o result =
    (k ≡ key) × (o ≡ runner_creation_failed run text) × (result ≡ none)
EndedBy ephemeral call key run o result = ⊥

pub data CoreStep {S : Type 0} (env : Env S) (ends : Ending) (c d : Coordinator S) : Type 0 where
  same : SameCore c d → CoreStep env ends c d
  moves :
      (key : String) (run run' : ActiveRun)
      → lookup key c.runs ≡ some run
      → RunStep env.json run run'
      → d.runs ≡ insert key run' c.runs
      → d.retained ≡ c.retained
      → d.stopped ≡ c.stopped
      → CoreStep env ends c d
  starts :
      (key : String) (run : ActiveRun)
      → c.stopped ≡ false
      → lookup key c.runs ≡ none
      → IsFresh env key run
      → d.runs ≡ insert key run c.runs
      → d.retained ≡ drop_terminal env.json key c.retained
      → d.stopped ≡ c.stopped
      → CoreStep env ends c d
  finishes :
      (key : String) (run : ActiveRun) (o : Outcome) (result : Option (List Message))
      → ends key run o result
      → lookup key c.runs ≡ some run
      → d.runs ≡ erase key c.runs
      → d.retained ≡ retain env.json key (terminal_snapshot run o result) c.retained
      → d.stopped ≡ c.stopped
      → CoreStep env ends c d
  discards :
      (key : String)
      → c.stopped ≡ false
      → lookup key c.runs ≡ none
      → d.runs ≡ c.runs
      → d.retained ≡ drop_terminal env.json key c.retained
      → d.stopped ≡ c.stopped
      → CoreStep env ends c d
  stops :
      d.runs ≡ stop_runs c.runs → d.retained ≡ c.retained → d.stopped ≡ true → CoreStep env ends c d
