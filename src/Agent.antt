-- ===== src/Agent.antt =====
-- The agent library: pkg/agent/agent.go, types.go and errors.go. The provider owns the tool loop and
-- is a parameter: what it calls back, in order, and what it returns. Lengths of texts are those of
-- their encoding in bytes.
pub mod Calls
pub mod Loop
use Prim.Native.String
use Prim.Native.String.{len}
use excelsior.Common.{
  ℕ, ◌+◌, String, Bool, true, false, not, ◌&&◌, ◌||◌, List, [], ◌∷◌, ◌++◌, Option, none, some,
  Result, ok, err, if◌then◌else◌, str_eq, ltb, ℤ, pos, negsuc, ltb_ℤ, sum_of, contains,
  remove_first,
}
use excelsior.Llm.{Message, ToolCall, Usage, Delta}
use excelsior.Util.{truncate}

pub data AgentError : Type 0 where
  context_too_large empty_messages llm_not_configured invalid_max_iterations : AgentError
  nil_llm_message : AgentError
  provider_failed : String → AgentError

pub record StreamEvent : Type 0 where
  pub type : String
  pub text : String
  pub reasoning : String
  pub tool_name : String
  pub tool_call_id : String
  pub tool_args : String
  pub tool_result : String
  pub finish_reason : String
  pub usage : Option Usage

abbrev pub zero_event : String → StreamEvent
zero_event type = record {
  type = type;
  text = "";
  reasoning = "";
  tool_name = "";
  tool_call_id = "";
  tool_args = "";
  tool_result = "";
  finish_reason = "";
  usage = none;
}

-- The constructors of types.go.
abbrev pub new_text_event : String → StreamEvent
new_text_event text = record (zero_event "text") { text = text }

abbrev pub new_reasoning_event : String → StreamEvent
new_reasoning_event reasoning = record (zero_event "reasoning") { reasoning = reasoning }

abbrev pub new_tool_start_event : String → String → String → StreamEvent
new_tool_start_event name call_id args = record (zero_event "tool_start") {
  tool_name = name;
  tool_call_id = call_id;
  tool_args = args;
}

abbrev pub new_tool_result_event : String → String → String → StreamEvent
new_tool_result_event name call_id result = record (zero_event "tool_result") {
  tool_name = name;
  tool_call_id = call_id;
  tool_result = result;
}

abbrev pub new_done_event : String → String → Option Usage → StreamEvent
new_done_event text finish_reason usage = record (zero_event "done") {
  text = text;
  finish_reason = finish_reason;
  usage = usage;
}

abbrev pub new_error_event : String → StreamEvent
new_error_event text = record (zero_event "error") { text = text }

-- The fields of `Agent` that decide; `llm` says whether a provider is configured.
pub record Agent : Type 0 where
  pub llm : Bool
  pub system : String
  pub max_iters : ℤ

abbrev default_max_iters : ℤ
default_max_iters = pos 100

abbrev pub max_tool_result : ℕ
max_tool_result = 20000

abbrev pub max_context_chars : ℕ
max_context_chars = 600000

-- `maxIters`: the provider's step limit.
unfoldable pub step_limit : Agent → ℤ
step_limit a = if ltb_ℤ (pos 0) a.max_iters then a.max_iters else default_max_iters

abbrev call_chars : ToolCall → ℕ
call_chars call = len call.id + len call.function.name + len call.function.arguments

abbrev message_chars : Message → ℕ
message_chars m = len m.content + len m.reasoning_content + sum_of call_chars m.tool_calls

unfoldable pub total_chars : List Message → ℕ
total_chars = sum_of message_chars

-- The error, if any.
unfoldable pub validate : Agent → Option AgentError
validate a =
    if not a.llm
    then some llm_not_configured
    else if ltb_ℤ a.max_iters (pos 0)
    then some invalid_max_iterations
    else none

unfoldable pub validate_run_options : Agent → List Message → Option AgentError
unfolding validate total_chars
validate_run_options a messages = elim (validate a) [
  | some e ↦ some e
  | none ↦ elim messages [
    | [] ↦ some empty_messages
    | m ∷ ms ↦ if ltb max_context_chars (total_chars (m ∷ ms)) then some context_too_large else none
  ]
]

-- The set `pending` of `sanitizeToolCalls`, without repetitions; Go ranges over it in some order.
unfoldable pub add_calls : List ToolCall → List String → List String
add_calls [] pending = pending
add_calls (call ∷ calls) pending =
    add_calls calls
      (if str_eq call.id "" || contains call.id pending then pending else pending ++ call.id ∷ [])

abbrev pub is_tool : Message → Bool
is_tool m = str_eq m.role "tool"

-- How one message changes the set.
unfoldable pub after_message : List String → Message → List String
unfolding add_calls
after_message pending m =
    let asked = if str_eq m.role "assistant" then add_calls m.tool_calls pending else pending in
    if is_tool m && not (str_eq m.tool_call_id "") then remove_first m.tool_call_id asked else asked

abbrev pub placeholder : String → Message
placeholder id = record {
  role = "tool";
  content = "(tool call cancelled)";
  reasoning_content = "";
  tool_calls = [];
  tool_call_id = id;
  name = "";
}

-- `flush`.
abbrev pub placeholders : List String → List Message
placeholders [] = []
placeholders (id ∷ ids) = placeholder id ∷ placeholders ids

unfoldable pub sanitize_from : List String → List Message → List Message
unfolding after_message
sanitize_from pending [] = placeholders pending
sanitize_from pending (m ∷ ms) =
    let kept = m ∷ sanitize_from (after_message pending m) ms in
    let flushed = m ∷ sanitize_from (after_message [] m) ms in
    if is_tool m then kept else placeholders pending ++ flushed

unfoldable pub sanitize_tool_calls : List Message → List Message
unfolding sanitize_from
sanitize_tool_calls messages = sanitize_from [] messages

abbrev pub system_message : String → Message
system_message content = record {
  role = "system";
  content = content;
  reasoning_content = "";
  tool_calls = [];
  tool_call_id = "";
  name = "";
}

abbrev starts_with_system : List Message → Bool
starts_with_system [] = false
starts_with_system (m ∷ ms) = str_eq m.role "system"

unfoldable pub prepare_messages : Agent → List Message → List Message
unfolding sanitize_tool_calls
prepare_messages a incoming =
    if not (str_eq a.system "") && not (starts_with_system incoming)
    then sanitize_tool_calls (system_message a.system ∷ incoming)
    else sanitize_tool_calls incoming
