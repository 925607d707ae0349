-- ===== src/Protocol.antt =====
-- The payloads of pkg/protocol/protocol.go that the engine builds from runs. An envelope has its
-- payload before encoding. The frames of a connection are in Protocol/Frames.
pub mod Frames
use excelsior.Common.{ℕ, String, Bool, List, Option}
use excelsior.Llm.{Message}

pub record Delta : Type 0 where
  pub run_id : String
  pub session_id : String
  pub type : String
  pub text : String
  pub reasoning : String
  pub tool_name : String
  pub tool_call_id : String
  pub tool_args : String
  pub tool_result : String
  pub finish_reason : String
  pub prompt_tokens : ℕ
  pub completion_tokens : ℕ
  pub total_tokens : ℕ

pub record AskReq : Type 0 where
  pub run_id : String
  pub interaction_id : String
  pub session_id : String
  pub question : String
  pub options : List String

pub record PermissionReq : Type 0 where
  pub run_id : String
  pub interaction_id : String
  pub session_id : String
  pub tool : String
  pub file_path : String
  pub preview : String
  pub command : String

pub record DoneResp : Type 0 where
  pub session_id : String
  pub run_id : String
  pub status : String
  pub persisted : Bool
  pub error : String
  pub code : String

-- The two types of envelope, "permission.req" and "ask.req", with their payloads.
pub data Envelope : Type 0 where
  permission_req : PermissionReq → Envelope
  ask_req : AskReq → Envelope

pub record SessionDataResp : Type 0 where
  pub outcome : Option DoneResp
  pub unsaved_available : Bool
  pub projection_unavailable : Bool
  pub run_id : String
  pub running : Bool
  pub status : String
  pub persisted : Bool
  pub events : List Delta
  pub pending : Option Envelope
  pub id : String
  pub messages : List Message
