-- ===== src/Engine/Reading.antt =====
-- A client can read the state of a session back from what it is sent.

use mathlib.Core.Option
use excelsior.Common.{
  ◌≡◌, refl, ap, String, List, [], ◌∷◌, map, Option, none, some, if◌then◌else◌, str_eq, arith,
}
use excelsior.Llm.{Usage}
use excelsior.Protocol.{Delta, DoneResp, Envelope, permission_req, ask_req, SessionDataResp}
use excelsior.Chat.Event.{
  Event, Outcome, OutcomeStatus, succeeded, failed, canceled, persistence_failed,
  PendingInteraction, InteractionKind, permission, ask, Snapshot,
}
use excelsior.Engine.{
  done_resp, pending_envelope, status_text, delta_from_event, interaction_envelope,
  session_data_from_snapshot,
}

abbrev read_status : String → OutcomeStatus
read_status s =
    if str_eq s "succeeded"
    then succeeded
    else if str_eq s "canceled"
    then canceled
    else if str_eq s "persistence_failed"
    then persistence_failed
    else failed

abbrev pub read_event : Delta → Event
read_event d = record {
  session_id = d.session_id;
  run_id = d.run_id;
  type = d.type;
  text = d.text;
  reasoning = d.reasoning;
  tool_name = d.tool_name;
  tool_call_id = d.tool_call_id;
  tool_args = d.tool_args;
  tool_result = d.tool_result;
  finish_reason = d.finish_reason;
  usage = some (record {
    prompt_tokens = d.prompt_tokens;
    completion_tokens = d.completion_tokens;
    total_tokens = d.total_tokens;
  });
}

abbrev read_outcome : DoneResp → Outcome
read_outcome r = record {
  session_id = r.session_id;
  run_id = r.run_id;
  status = read_status r.status;
  persisted = r.persisted;
  error = r.error;
  code = r.code;
}

abbrev read_pending : Envelope → PendingInteraction
read_pending (permission_req r) = record {
  id = r.interaction_id;
  kind = permission;
  session_id = r.session_id;
  run_id = r.run_id;
  permission_data =
      some (record {
        tool = r.tool;
        file_path = r.file_path;
        preview = r.preview;
        command = r.command;
      });
  ask_data = none;
}
read_pending (ask_req r) = record {
  id = r.interaction_id;
  kind = ask;
  session_id = r.session_id;
  run_id = r.run_id;
  permission_data = none;
  ask_data = some (record { question = r.question; options = r.options });
}

abbrev pub read_snapshot : SessionDataResp → Snapshot
read_snapshot r = record {
  session_id = r.id;
  run_id = r.run_id;
  running = r.running;
  messages = r.messages;
  events = map read_event r.events;
  pending = Option.map read_pending r.pending;
  outcome = Option.map read_outcome r.outcome;
  unsaved_available = r.unsaved_available;
  projection_unavailable = r.projection_unavailable;
}

-- What the protocol cannot tell apart: no usage and a usage of no tokens.
abbrev shown_usage : Option Usage → Option Usage
shown_usage none = some (record { prompt_tokens = 0; completion_tokens = 0; total_tokens = 0 })
shown_usage (some u) = some u

abbrev pub shown_event : Event → Event
shown_event ev = record ev { usage = shown_usage ev.usage }

abbrev shown_kind : PendingInteraction → InteractionKind → Option PendingInteraction
shown_kind pi permission = elim pi.permission_data [
  | none ↦ none
  | some p ↦ some (record pi { ask_data = none })
]
shown_kind pi ask = elim pi.ask_data [
  | none ↦ none
  | some a ↦ some (record pi { permission_data = none })
]

abbrev pub shown_pending : Option PendingInteraction → Option PendingInteraction
shown_pending none = none
shown_pending (some pi) = shown_kind pi pi.kind

read_event-delta : (ev : Event) → read_event (delta_from_event ev) ≡ shown_event ev
unfolding delta_from_event
read_event-delta ev = ground arith

read_events-delta :
    (evs : List Event) → map read_event (map delta_from_event evs) ≡ map shown_event evs
read_events-delta [] = refl
read_events-delta (ev ∷ evs) = ground (arith, read_event-delta ev, read_events-delta evs)

read_status-text : (s : OutcomeStatus) → read_status (status_text s) ≡ s
unfolding status_text
read_status-text succeeded = refl
read_status-text failed = refl
read_status-text canceled = refl
read_status-text persistence_failed = refl

read_pending-envelope :
    (pi : PendingInteraction)
    → Option.map read_pending (interaction_envelope pi) ≡ shown_kind pi pi.kind
unfolding interaction_envelope
read_pending-envelope pi = ground arith

read_outcomes-done : (o : Option Outcome) → Option.map read_outcome (Option.map done_resp o) ≡ o
read_outcomes-done none = refl
read_outcomes-done (some o) = ap (λ s. some (record o { status = s })) (read_status-text o.status)

read_pendings-envelope :
    (pi : Option PendingInteraction)
    → Option.map read_pending (pending_envelope pi) ≡ shown_pending pi
read_pendings-envelope none = refl
read_pendings-envelope (some pi) = read_pending-envelope pi

-- A client reads a session's snapshot back from the response: its identity, messages, flags and
-- outcome as they are, its events with a usage of no tokens where there is none, and its open
-- question with the data of its kind, where it has them.
pub read_snapshot-session_data :
    (snap : Snapshot)
    → read_snapshot (session_data_from_snapshot snap)
      ≡ record snap { events = map shown_event snap.events; pending = shown_pending snap.pending }
unfolding session_data_from_snapshot
read_snapshot-session_data snap =
    rw
      (
        read_events-delta snap.events,
        read_outcomes-done snap.outcome,
        read_pendings-envelope snap.pending,
      )
      refl
