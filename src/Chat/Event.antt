-- ===== src/Chat/Event.antt =====
-- internal/chat/event.go, `Update` of subscription.go, and the sizes that the bounds are stated in.
-- encoding/json is a parameter: what it writes for a value, and what it reads back.
use Prim.Native.String.{len}
use excelsior.Common.{ℕ, String, Bool, false, List, [], map, Option, none, some, ◌≡◌}
use excelsior.Llm.{Message, Usage}

-- The kinds of an event's text fragments are the strings that the runner sends.
pub record Event : Type 0 where
  pub session_id : String
  pub run_id : String
  pub type : String
  pub text : String
  pub reasoning : String
  pub tool_name : String
  pub tool_call_id : String
  pub tool_args : String
  pub tool_result : String
  pub finish_reason : String
  pub usage : Option Usage

pub data OutcomeStatus : Type 0 where
  succeeded failed canceled persistence_failed : OutcomeStatus

pub record Outcome : Type 0 where
  pub session_id : String
  pub run_id : String
  pub status : OutcomeStatus
  pub persisted : Bool
  pub error : String
  pub code : String

pub data InteractionKind : Type 0 where
  permission ask : InteractionKind

pub record PermissionData : Type 0 where
  pub tool : String
  pub file_path : String
  pub preview : String
  pub command : String

pub record AskData : Type 0 where
  pub question : String
  pub options : List String

pub record PendingInteraction : Type 0 where
  pub id : String
  pub kind : InteractionKind
  pub session_id : String
  pub run_id : String
  pub permission_data : Option PermissionData
  pub ask_data : Option AskData

pub record Snapshot : Type 0 where
  pub session_id : String
  pub run_id : String
  pub running : Bool
  pub messages : List Message
  pub events : List Event
  pub pending : Option PendingInteraction
  pub outcome : Option Outcome
  pub unsaved_available : Bool
  pub projection_unavailable : Bool

-- An update carries one of the five pointers; the constructors of `Notice` are those that the
-- coordinator builds, and `nothing` is Go's zero value.
pub data Notice : Type 0 where
  snapshot : Snapshot → Notice
  event : Event → Notice
  interaction : PendingInteraction → Notice
  resolved : PendingInteraction → Notice
  outcome : Outcome → Notice
  nothing : Notice

pub record Update : Type 0 where
  pub request_id : String
  pub notice : Notice

abbrev pub zero_snapshot : Snapshot
zero_snapshot = record {
  session_id = "";
  run_id = "";
  running = false;
  messages = [];
  events = [];
  pending = none;
  outcome = none;
  unsaved_available = false;
  projection_unavailable = false;
}

abbrev pub zero_update : Update
zero_update = record { request_id = ""; notice = nothing }

-- `json.Marshal` and `json.Unmarshal` at the types that this package encodes; `none` is an error.
pub record Json : Type 0 where
  pub marshal_messages : List Message → Option String
  pub marshal_event : Event → Option String
  pub marshal_snapshot : Snapshot → Option String
  pub marshal_update : Update → Option String
  pub unmarshal_snapshot : String → Option Snapshot
  pub unmarshal_update : String → Option Update

-- Documented behaviour: what was encoded is read back as it was.
pub record RoundTrips (json : Json) : Type 0 where
  pub snapshots :
      (s : Snapshot) (b : String)
      → json.marshal_snapshot s ≡ some b
      → json.unmarshal_snapshot b ≡ some s
  pub updates :
      (u : Update) (b : String) → json.marshal_update u ≡ some b → json.unmarshal_update b ≡ some u

-- `len(b)` where the error is ignored: `b` is nil then.
abbrev pub byte_len : Option String → ℕ
byte_len none = 0
byte_len (some b) = len b

unfoldable pub message_bytes : Json → List Message → ℕ
message_bytes json m = byte_len (json.marshal_messages m)

unfoldable pub event_bytes : Json → Event → ℕ
event_bytes json e = byte_len (json.marshal_event e)

unfoldable pub snapshot_bytes : Json → Snapshot → ℕ
snapshot_bytes json s = byte_len (json.marshal_snapshot s)

-- The copies share nothing in Go; the values are those of the original.
abbrev pub clone_message : Message → Message
clone_message m = record m { tool_calls = m.tool_calls }

abbrev pub clone_messages : List Message → List Message
clone_messages = map clone_message

abbrev pub clone_event : Event → Event
clone_event e = record e { usage = e.usage }

abbrev pub clone_events : List Event → List Event
clone_events = map clone_event

-- `var out; _ = json.Unmarshal(b, &out)`: the zero value where decoding fails.
abbrev pub decoded_snapshot : Option Snapshot → Snapshot
decoded_snapshot none = zero_snapshot
decoded_snapshot (some s) = s

unfoldable pub clone_snapshot : Json → Snapshot → Snapshot
clone_snapshot json s = elim (json.marshal_snapshot s) [
  | none ↦ zero_snapshot
  | some b ↦ decoded_snapshot (json.unmarshal_snapshot b)
]
