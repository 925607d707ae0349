-- ===== src/Protocol/Frames.antt =====
-- What clients ask of the engine and what it answers: the request and response types of
-- pkg/protocol/protocol.go. A frame is an `Envelope` with its payload before encoding; its type is
-- the constructor of the payload, and the version is always `Ver`.
use excelsior.Common.{ℕ, String, Bool, List, Option, ℤ}
use excelsior.Llm.{Message}
use excelsior.Chat.Event.{Outcome}
use excelsior.Protocol.{Delta, Envelope, SessionDataResp}

abbrev pub protocol_ver : String
protocol_ver = "v1"

pub record ChatReq : Type 0 where
  pub session_id : String
  pub model : String
  pub messages : List Message

pub record AskResp : Type 0 where
  pub run_id : String
  pub interaction_id : String
  pub session_id : String
  pub selected : ℤ
  pub answer : String
  pub label : String

pub record PermissionResp : Type 0 where
  pub run_id : String
  pub interaction_id : String
  pub session_id : String
  pub approved : Bool

-- The fields that the engine fills in.
pub record SessionInfo : Type 0 where
  pub id : String
  pub title : String
  pub count : ℕ

pub record SettingsResp : Type 0 where
  pub permission : String
  pub allow_all : Bool

pub record SettingsSetReq : Type 0 where
  pub permission : Option String
  pub allow_all : Option Bool

-- The commands of a client. `undecodable` is a payload that `Decode` refuses, with the label of the
-- handler and the error's text.
pub data Command : Type 0 where
  chat_cancel : (session_id run_id : String) → Command
  chat_req : ChatReq → Command
  ask_resp : AskResp → Command
  permission_resp : PermissionResp → Command
  session_list workspace_status settings_get ping : Command
  session_data session_create session_delete : String → Command
  session_rename : (id title : String) → Command
  session_subscribe session_unsubscribe workspace_set : String → Command
  settings_set : SettingsSetReq → Command
  undecodable : (label text : String) → Command
  unknown_type : String → Command

-- What the read loop takes from the socket.
pub data Incoming : Type 0 where
  command : (id : String) → Command → Incoming
  bad_envelope : (text : String) → Incoming
  bad_version : (id ver : String) → Incoming

-- The payloads that the engine sends.
pub data Payload : Type 0 where
  session_data : SessionDataResp → Payload
  delta : Delta → Payload
  interaction : Envelope → Payload
  interaction_done : (session_id run_id interaction_id : String) → Payload
  done : Outcome → Payload
  error : (code text : String) → Payload
  canceled : (session_id run_id : String) → Payload
  ask_accepted permission_accepted pong : Payload
  session_list : List SessionInfo → Payload
  session_created session_deleted unsubscribed workspace_set workspace_status : String → Payload
  session_renamed : (id title : String) → Payload
  settings_get settings_set : SettingsResp → Payload

pub record Frame : Type 0 where
  pub workspace : String
  pub id : String
  pub payload : Payload

-- `NewEnvelopeWithID`, and `NewEnvelope` with the identifier "".
abbrev pub new_frame : String → Payload → Frame
new_frame id payload = record { workspace = ""; id = id; payload = payload }
