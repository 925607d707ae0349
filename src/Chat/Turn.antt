-- ===== src/Chat/Turn.antt =====
-- A turn from its runner's return to its outcome: `RunPrepared` of internal/chat/service.go behind the
-- call of the runner, and the end of `ExecuteTurn` in coordinator.go. The runner is a parameter: what
-- it returns is an argument. Between the parts other steps of the coordinator may come.
pub mod Classification
pub mod Barrier
use Prim.Native.String
use excelsior.Common.{
  ℕ, String, Bool, true, false, not, ◌&&◌, ◌||◌, List, [], Option, none, some, Result, ok, err,
  lookup, if◌then◌else◌, str_eq, ◌==◌,
}
use excelsior.Llm.{Message}
use excelsior.Session.Types.{Record, SessionError, Store}
use excelsior.Agent.{StreamEvent}
use excelsior.Chat.Event.{
  Event, Outcome, OutcomeStatus, succeeded, failed, canceled, persistence_failed,
}
use excelsior.Chat.State.{Coordinator, Env, ActiveRun, ChatError}
use excelsior.Chat.Stores.{with_store}
use excelsior.Chat.Runs.{on_persist, finish, is_persisting, without_system_messages}

-- Why `RunPrepared` returns an error, with the error's text where the source takes it from elsewhere.
pub data TurnError : Type 0 where
  runner_failed : String → TurnError
  no_result : TurnError
  turn_canceled : TurnError
  save_failed : String → TurnError

unfoldable pub error_text : TurnError → String
error_text (runner_failed text) = text
error_text no_result = "runner returned no result"
error_text turn_canceled = "context canceled"
error_text (save_failed text) = String.◌++◌ "persistence failed: " text

-- The runner's events as `RunPrepared` passes them on; the coordinator fills in the identifiers.
unfoldable pub turn_event : String → String → StreamEvent → Event
turn_event session_id run_id ev = record {
  session_id = session_id;
  run_id = run_id;
  type = if str_eq ev.type "done" then "generation" else ev.type;
  text = ev.text;
  reasoning = ev.reasoning;
  tool_name = ev.tool_name;
  tool_call_id = ev.tool_call_id;
  tool_args = ev.tool_args;
  tool_result = ev.tool_result;
  finish_reason = ev.finish_reason;
  usage = ev.usage;
}

-- The tests in front of persistence, on the runner's messages (`none` is a nil result) and error.
-- `ok none` is a result that is not to be saved.
unfoldable pub check_result :
    Bool
    → Bool
    → String
    → Option (List Message)
    → Option String
    → Result TurnError (Option (List Message))
check_result ctx_done no_store session_id result (some text) = err (runner_failed text)
check_result ctx_done no_store session_id none none = err no_result
check_result ctx_done no_store session_id (some messages) none =
    if ctx_done
    then err turn_canceled
    else if no_store || str_eq session_id ""
    then ok none
    else ok (some messages)

-- The record that is saved.
unfoldable pub turn_record : ℕ → String → Record → List Message → Record
unfolding without_system_messages
turn_record now session_id rec messages = record rec {
  id = if str_eq rec.id "" then session_id else rec.id;
  created_at = if rec.created_at == 0 then now else rec.created_at;
  messages = without_system_messages messages;
}

-- The `switch` of `ExecuteTurn`.
abbrev pub is_save_failure : Option TurnError → Bool
is_save_failure (some (save_failed text)) = true
is_save_failure _ = false

unfoldable pub turn_outcome : Bool → ActiveRun → Option TurnError → Outcome
unfolding error_text is_persisting
turn_outcome ephemeral run e =
    let base : Outcome = record {
      session_id = run.session_id;
      run_id = run.id;
      status = failed;
      persisted = false;
      error = elim e [ none ↦ "" | some why ↦ error_text why ];
      code = "";
    } in
    if run.projection_failed
    then record base {
      error = "run projection exceeded 4 MiB; start a shorter turn";
      code = "projection_limit";
    }
    else if is_save_failure e
    then record base { status = persistence_failed; code = "persistence_failed" }
    else if not (is_persisting run.state) && run.canceled
    then record base { status = canceled; error = "run canceled"; code = "canceled" }
    else elim e [
      | some why ↦ record base { code = "execution_failed" }
      | none ↦ record base { status = succeeded; persisted = not ephemeral }
    ]

abbrev pub runner_creation_failed : ActiveRun → String → Outcome
runner_creation_failed run text = record {
  session_id = run.session_id;
  run_id = run.id;
  status = failed;
  persisted = false;
  error = text;
  code = "runner_creation_failed";
}

module _ {S : Type 0} (env : Env S) where
  -- `newAgent` failed, or there is none.
  unfoldable pub fail_creation : String → String → Coordinator S → Coordinator S
  unfolding finish
  fail_creation key text c = elim (lookup key c.runs) [
    | none ↦ c
    | some run ↦ finish env key (runner_creation_failed run text) none c
  ]

  abbrev pub after_save :
      String → Coordinator S × Option SessionError → Coordinator S × Option TurnError
  after_save text (c, none) = (c, none)
  after_save text (c, some e) = (c, some (save_failed text))

  -- `s.Store.Save(rec)`, outside the coordinator's lock. `text` is the text of an error.
  unfoldable pub save_turn :
      ℕ → String → ActiveRun → List Message → Coordinator S → Coordinator S × Option TurnError
  unfolding turn_record with_store
  save_turn now text run messages c = after_save text (
      with_store env run.workspace
        (λ s. env.store.save s now (turn_record now run.session_id run.session_record messages)) c)

  -- The classification and `finish`.
  unfoldable pub settle :
      String → Option (List Message) → Option TurnError → Coordinator S → Coordinator S
  unfolding turn_outcome finish
  settle key result e c = elim (lookup key c.runs) [
    | none ↦ c
    | some run ↦ finish env key (turn_outcome c.ephemeral run e) result c
  ]
