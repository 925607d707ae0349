-- ===== src/Llm.antt =====
-- pkg/llm/types.go: chat messages, tool calls and token usage. The counters of `Usage` are those
-- that a provider reports, taken to be natural numbers.
pub mod Errors
pub mod Client
use excelsior.Common.{ℕ, String, List, Option}

pub record FuncCall : Type 0 where
  pub name : String
  pub arguments : String

pub record ToolCall : Type 0 where
  pub id : String
  pub type : String
  pub function : FuncCall

pub record Message : Type 0 where
  pub role : String
  pub content : String
  pub reasoning_content : String
  pub tool_calls : List ToolCall
  pub tool_call_id : String
  pub name : String

pub record Usage : Type 0 where
  pub prompt_tokens : ℕ
  pub completion_tokens : ℕ
  pub total_tokens : ℕ

-- The fields of `Delta` that the agent reads.
pub record Delta : Type 0 where
  pub content : String
  pub reasoning_content : String
  pub usage : Option Usage
