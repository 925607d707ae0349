-- ===== src/Engine.antt =====
-- pkg/engine/runs.go: what a client is sent of a run's events, questions and snapshot.
pub mod Reading
pub mod Conn
pub mod Settings
pub mod Serving
pub mod Handlers
pub mod Token
pub mod Hub
use Prim.Native.String
use mathlib.Core.Option
use excelsior.Common.{ℕ, String, Bool, true, false, List, [], ◌∷◌, map, Option, none, some}
use excelsior.Llm.{Usage}
use excelsior.Protocol.{
  Delta, AskReq, PermissionReq, DoneResp, Envelope, permission_req, ask_req, SessionDataResp,
}
use excelsior.Chat.Event.{
  Event, Outcome, OutcomeStatus, succeeded, failed, canceled, persistence_failed, PermissionData,
  AskData, PendingInteraction, InteractionKind, permission, ask, Snapshot,
}

-- The values of the constants of event.go.
unfoldable pub status_text : OutcomeStatus → String
status_text succeeded = "succeeded"
status_text failed = "failed"
status_text canceled = "canceled"
status_text persistence_failed = "persistence_failed"

abbrev tokens_of : (Usage → ℕ) → Option Usage → ℕ
tokens_of f none = 0
tokens_of f (some u) = f u

unfoldable pub delta_from_event : Event → Delta
delta_from_event ev = record {
  run_id = ev.run_id;
  session_id = ev.session_id;
  type = ev.type;
  text = ev.text;
  reasoning = ev.reasoning;
  tool_name = ev.tool_name;
  tool_call_id = ev.tool_call_id;
  tool_args = ev.tool_args;
  tool_result = ev.tool_result;
  finish_reason = ev.finish_reason;
  prompt_tokens = tokens_of (λ u. u.prompt_tokens) ev.usage;
  completion_tokens = tokens_of (λ u. u.completion_tokens) ev.usage;
  total_tokens = tokens_of (λ u. u.total_tokens) ev.usage;
}

abbrev permission_envelope : PendingInteraction → PermissionData → Envelope
permission_envelope pi p = permission_req (record {
  run_id = pi.run_id;
  interaction_id = pi.id;
  session_id = pi.session_id;
  tool = p.tool;
  file_path = p.file_path;
  preview = p.preview;
  command = p.command;
})

abbrev ask_envelope : PendingInteraction → AskData → Envelope
ask_envelope pi a = ask_req (record {
  run_id = pi.run_id;
  interaction_id = pi.id;
  session_id = pi.session_id;
  question = a.question;
  options = a.options;
})

abbrev envelope_of : PendingInteraction → InteractionKind → Option Envelope
envelope_of pi permission = Option.map (permission_envelope pi) pi.permission_data
envelope_of pi ask = Option.map (ask_envelope pi) pi.ask_data

-- `none` where the data of the interaction's kind is missing.
unfoldable pub interaction_envelope : PendingInteraction → Option Envelope
interaction_envelope pi = envelope_of pi pi.kind

abbrev pub done_resp : Outcome → DoneResp
done_resp o = record {
  session_id = o.session_id;
  run_id = o.run_id;
  status = status_text o.status;
  persisted = o.persisted;
  error = o.error;
  code = o.code;
}

abbrev pub pending_envelope : Option PendingInteraction → Option Envelope
pending_envelope none = none
pending_envelope (some pi) = interaction_envelope pi

unfoldable pub session_data_from_snapshot : Snapshot → SessionDataResp
unfolding delta_from_event interaction_envelope status_text
session_data_from_snapshot snap = record {
  outcome = Option.map done_resp snap.outcome;
  unsaved_available = snap.unsaved_available;
  projection_unavailable = snap.projection_unavailable;
  run_id = snap.run_id;
  running = snap.running;
  status = elim snap.outcome [ none ↦ "" | some o ↦ status_text o.status ];
  persisted = elim snap.outcome [ none ↦ false | some o ↦ o.persisted ];
  events = map delta_from_event snap.events;
  pending = pending_envelope snap.pending;
  id = snap.session_id;
  messages = snap.messages;
}
