-- ===== src/Chat/Runs.antt =====
-- The life of a run in internal/chat/coordinator.go: `ReserveTurn`, the locked regions of
-- `ExecuteTurn`, `appendAndBroadcastEvent`, `finish` and `Cancel`. What `newID` and `time.Now` return
-- are arguments. An operation on a run that the registry does not hold changes nothing.
pub mod Exclusive
pub mod Fragments
use Prim.Native.String
use excelsior.Common.{
  ℕ, ◌+◌, String, Bool, true, false, not, ◌&&◌, ◌||◌, List, [], ◌∷◌, ◌++◌, Option, none, some,
  Result, ok, err, Map, lookup, insert, erase, if◌then◌else◌, str_eq, ltb, is_some,
}
use excelsior.Llm.{Message}
use excelsior.Session.Types.{Record}
use excelsior.Chat.Event.{
  Event, Outcome, OutcomeStatus, succeeded, persistence_failed, Snapshot, Notice, snapshot, event,
  outcome, clone_event, clone_messages, message_bytes, event_bytes,
}
use excelsior.Chat.Workspace.{canonical_workspace, session_key}
use excelsior.Chat.Retention.{drop_terminal, retain, max_projection_bytes}
use excelsior.Chat.State.{
  Coordinator, Env, ActiveRun, RunState, preparing, running, persisting, ChatError, session_busy,
  engine_stopped, run_not_found, projection_limit, no_messages, context_canceled,
}
use excelsior.Chat.Stores.{with_store, load_or_create, history_from}
use excelsior.Chat.Subscribers.{publish, announce, run_snapshot}

-- The fields of `RunHandle` that are not the run's own context and channel.
pub record RunHandle : Type 0 where
  pub id : String
  pub workspace : String
  pub session_id : String

unfoldable pub is_persisting : RunState → Bool
is_persisting persisting = true
is_persisting _ = false

-- `withoutSystemMessages` of service.go.
unfoldable pub without_system_messages : List Message → List Message
without_system_messages [] = []
without_system_messages (m ∷ ms) =
    if not (str_eq m.role "system")
    then m ∷ without_system_messages ms
    else without_system_messages ms

abbrev pub new_run : String → String → String → Record → List Message → ℕ → ActiveRun
new_run run_id ws id rec messages bytes = record {
  id = run_id;
  workspace = ws;
  session_id = id;
  state = preparing;
  canceled = false;
  messages = messages;
  session_record = rec;
  events = [];
  pending = none;
  response = "";
  projection_bytes = bytes;
  projection_failed = false;
}

-- A write to the run that the registry holds at the key.
unfoldable pub update_run :
    {S : Type 0} → String → (ActiveRun → ActiveRun) → Coordinator S → Coordinator S
update_run key change c = elim (lookup key c.runs) [
  | none ↦ c
  | some run ↦ record c { runs = insert key (change run) c.runs }
]

-- A fragment of the kind of the last event is appended to that event.
abbrev pub is_fragment : Event → Bool
is_fragment ev = str_eq ev.type "text" || str_eq ev.type "reasoning"

abbrev pub join_text : Event → Event → Event
join_text last ev = record last {
  text = String.◌++◌ last.text ev.text;
  reasoning = String.◌++◌ last.reasoning ev.reasoning;
}

unfoldable pub coalesce : List Event → Event → List Event
coalesce [] ev = ev ∷ []
coalesce (last ∷ []) ev =
    if is_fragment ev && str_eq last.type ev.type then join_text last ev ∷ [] else last ∷ ev ∷ []
coalesce (e ∷ f ∷ rest) ev = e ∷ coalesce (f ∷ rest) ev

abbrev pub shows_result : OutcomeStatus → Bool
shows_result succeeded = true
shows_result persistence_failed = true
shows_result _ = false

abbrev unsaved : OutcomeStatus → Bool
unsaved succeeded = false
unsaved _ = true

-- The snapshot that stays when the run is over; `result` has the messages of the runner's result.
unfoldable pub terminal_snapshot : ActiveRun → Outcome → Option (List Message) → Snapshot
unfolding run_snapshot without_system_messages
terminal_snapshot run o result =
    let snap = record (run_snapshot run) {
      running = false;
      pending = none;
      outcome = some o;
      unsaved_available = unsaved o.status;
    } in
    elim result [
      | none ↦ snap
      | some messages ↦
          if shows_result o.status
          then record snap {
            messages = clone_messages (without_system_messages messages);
            events = [];
          }
          else snap
    ]

module _ {S : Type 0} (env : Env S) where
  -- The end of `ReserveTurn`: the run joins the registry, and the subscribers learn of it.
  unfoldable pub start_run : String → ActiveRun → Coordinator S → Coordinator S
  start_run key run c =
      publish env.json key (announce (snapshot (run_snapshot run))) (record c {
        retained = drop_terminal env.json key c.retained;
        runs = insert key run c.runs;
      })

  unfoldable pub reserve_with :
      String
      → String
      → String
      → List Message
      → Coordinator S × Result ChatError Record
      → Coordinator S × Result ChatError RunHandle
  unfolding start_run
  reserve_with run_id ws id incoming (c, err e) = (c, err e)
  reserve_with run_id ws id incoming (c, ok rec) =
      let messages = clone_messages (history_from rec.messages ++ incoming) in
      let bytes = message_bytes env.json messages in
      if ltb max_projection_bytes bytes then (c, err projection_limit) else (
        start_run (session_key env.platform ws id) (new_run run_id ws id rec messages bytes) c,
        ok (record { id = run_id; workspace = ws; session_id = id }),
      )

  unfoldable pub reserve_session :
      ℕ
      → String
      → String
      → String
      → List Message
      → Coordinator S
      → Coordinator S × Result ChatError RunHandle
  unfolding reserve_with with_store
  reserve_session now run_id ws id incoming c =
      if c.stopped
      then (c, err engine_stopped)
      else if is_some (lookup (session_key env.platform ws id) c.runs)
      then (c, err session_busy)
      else reserve_with run_id ws id incoming
          (with_store env ws (load_or_create env now id incoming) c)

  -- `new_session_id` is drawn only where the command names no session.
  unfoldable pub reserve_turn :
      ℕ
      → String
      → String
      → String
      → String
      → List Message
      → Coordinator S
      → Coordinator S × Result ChatError RunHandle
  unfolding reserve_session
  reserve_turn now new_session_id run_id workspace session_id [] c = (c, err no_messages)
  reserve_turn now new_session_id run_id workspace session_id (m ∷ ms) c =
      let id = if str_eq session_id "" then new_session_id else session_id in
      reserve_session now run_id (canonical_workspace env.platform workspace) id (m ∷ ms) c

  -- `ExecuteTurn` once its runner is there.
  unfoldable pub begin_running : String → Coordinator S → Coordinator S
  unfolding update_run
  begin_running key = update_run key (λ run. record run { state = running })

  -- `appendAndBroadcastEvent`, with the identifiers that the run's event callback fills in.
  unfoldable pub append_event : String → ActiveRun → Event → Coordinator S → Coordinator S
  append_event key run ev c =
      let copy = clone_event ev in
      let size = event_bytes env.json copy in
      if run.projection_failed
      then c
      else if ltb max_projection_bytes (run.projection_bytes + size)
      then record c {
        runs = insert key (record run { projection_failed = true; canceled = true }) c.runs;
      }
      else publish env.json key (announce (event copy)) (record c {
        runs =
            insert key
              (record run {
                projection_bytes = run.projection_bytes + size;
                events = coalesce run.events copy;
              })
              c.runs;
      })

  unfoldable pub append_and_broadcast_event : String → Event → Coordinator S → Coordinator S
  unfolding append_event
  append_and_broadcast_event key ev c = elim (lookup key c.runs) [
    | none ↦ c
    | some run ↦ append_event key run (record ev { session_id = run.session_id; run_id = run.id }) c
  ]

  -- The `OnPersist` callback: past this point a run is no longer canceled.
  unfoldable pub on_persist : String → Coordinator S → Coordinator S × Result ChatError (Unit {0})
  on_persist key c = elim (lookup key c.runs) [
    | none ↦ (c, err context_canceled)
    | some run ↦
        if run.canceled
        then (c, err context_canceled)
        else (record c { runs = insert key (record run { state = persisting }) c.runs }, ok tt)
  ]

  -- `finish`: the snapshot is kept, the outcome goes out, and the session is free again.
  unfoldable pub finish : String → Outcome → Option (List Message) → Coordinator S → Coordinator S
  unfolding terminal_snapshot
  finish key o result c = elim (lookup key c.runs) [
    | none ↦ c
    | some run ↦
        let kept = record c {
          retained = retain env.json key (terminal_snapshot run o result) c.retained;
        } in
        let told = publish env.json key (announce (outcome o)) kept in
        record told { runs = erase key told.runs }
  ]

  unfoldable pub cancel :
      String → String → String → Coordinator S → Coordinator S × Result ChatError (Unit {0})
  unfolding is_persisting
  cancel ws id run_id c =
      let key = session_key env.platform ws id in
      elim (lookup key c.runs) [
        | none ↦ (c, err run_not_found)
        | some run ↦
            if str_eq run_id "" || not (str_eq run.id run_id)
            then (c, err run_not_found)
            else if is_persisting run.state
            then (c, ok tt)
            else (record c { runs = insert key (record run { canceled = true }) c.runs }, ok tt)
      ]
