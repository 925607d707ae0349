-- ===== src/Agent/Loop.antt =====
-- `RunWithHistory`, `runNativeToolLoop`, `usageAcc` and `truncateRunes` of pkg/agent/agent.go.
pub mod Totals
use Prim.Native.Char.{Char, code}
use Prim.Native.String
use excelsior.Common.{
  ℕ, ◌+◌, String, Bool, true, false, not, ◌==◌, List, [], ◌∷◌, ◌++◌, Option, none, some, Result, ok,
  err, if◌then◌else◌, str_eq,
}
use excelsior.Llm.{Message, ToolCall, Usage, Delta}
use excelsior.Util.{truncate}
use excelsior.Agent.{
  Agent, AgentError, nil_llm_message, provider_failed, StreamEvent, new_text_event,
  new_reasoning_event, new_tool_start_event, new_tool_result_event, new_done_event, new_error_event,
  max_tool_result, validate_run_options, prepare_messages,
}

-- What the provider calls back. A tool's error is its text.
pub data ProviderCall : Type 0 where
  delta : Delta → ProviderCall
  tool_start : ToolCall → ProviderCall
  tool_result : ToolCall → String → Option String → ProviderCall

-- What it returns: the final message, which may be nil, and the generated ones, or an error's text.
abbrev pub ProviderResult : Type 0
ProviderResult = Result String (Option Message × List Message)

pub record UsageAcc : Type 0 where
  pub prompt : ℕ
  pub completion : ℕ
  pub seen : Bool

abbrev pub zero_usage : UsageAcc
zero_usage = record { prompt = 0; completion = 0; seen = false }

unfoldable pub add_usage : UsageAcc → Usage → UsageAcc
add_usage acc u = record {
  prompt = acc.prompt + u.prompt_tokens;
  completion = acc.completion + u.completion_tokens;
  seen = true;
}

unfoldable pub sum_usage : UsageAcc → Option Usage
sum_usage acc =
    if acc.seen
    then some (record {
      prompt_tokens = acc.prompt;
      completion_tokens = acc.completion;
      total_tokens = acc.prompt + acc.completion;
    })
    else none

abbrev pub add_reported : UsageAcc → Option Usage → UsageAcc
add_reported acc none = acc
add_reported acc (some u) = add_usage acc u

unfoldable pub acc_usage : UsageAcc → List ProviderCall → UsageAcc
unfolding add_usage
acc_usage acc [] = acc
acc_usage acc (delta d ∷ calls) = acc_usage (add_reported acc d.usage) calls
acc_usage acc (tool_start call ∷ calls) = acc_usage acc calls
acc_usage acc (tool_result call output e ∷ calls) = acc_usage acc calls

-- `strings.TrimSuffix` with "…".
unfoldable pub trim_ellipsis : String → String
trim_ellipsis String.[] = String.[]
trim_ellipsis (String.◌∷◌ c String.[]) =
    if code c == 0x2026 then String.[] else String.◌∷◌ c String.[]
trim_ellipsis (String.◌∷◌ c (String.◌∷◌ d s)) = String.◌∷◌ c (trim_ellipsis (String.◌∷◌ d s))

unfoldable pub truncate_runes : String → ℕ → String
unfolding truncate trim_ellipsis
truncate_runes s n =
    let t = truncate s n in if str_eq t s then s else String.◌++◌ (trim_ellipsis t) "\n[truncated]"

abbrev if_any : String → (String → StreamEvent) → List StreamEvent
if_any text new = if str_eq text "" then [] else new text ∷ []

abbrev tool_output : String → Option String → String
tool_output output none = output
tool_output output (some e) = String.◌++◌ "error: " e

unfoldable pub call_events : ProviderCall → List StreamEvent
unfolding truncate_runes
call_events (delta d) =
    if_any d.reasoning_content (λ text. new_reasoning_event text)
    ++ if_any d.content (λ text. new_text_event text)
call_events (tool_start call) =
    new_tool_start_event call.function.name call.id call.function.arguments ∷ []
call_events (tool_result call output e) =
    new_tool_result_event call.function.name call.id
      (truncate_runes (tool_output output e) max_tool_result)
    ∷ []

unfoldable pub loop_events : List ProviderCall → List StreamEvent
unfolding call_events
loop_events [] = []
loop_events (call ∷ calls) = call_events call ++ loop_events calls

pub record RunResult : Type 0 where
  pub final_message : Message
  pub messages : List Message
  pub total_usage : Option Usage

abbrev pub ends_with_assistant : List Message → Bool
ends_with_assistant [] = false
ends_with_assistant (m ∷ []) = str_eq m.role "assistant"
ends_with_assistant (m ∷ n ∷ ms) = ends_with_assistant (n ∷ ms)

unfoldable pub full_history : List Message → List Message → Message → List Message
full_history messages generated final =
    if ends_with_assistant generated
    then messages ++ generated
    else (messages ++ generated) ++ final ∷ []

unfoldable pub run_native_tool_loop :
    List Message
    → List ProviderCall
    → ProviderResult
    → List StreamEvent × Result AgentError RunResult
unfolding loop_events acc_usage sum_usage full_history
run_native_tool_loop messages calls (err text) =
    (loop_events calls ++ new_error_event text ∷ [], err (provider_failed text))
run_native_tool_loop messages calls (ok (none, generated)) =
    (loop_events calls, err nil_llm_message)
run_native_tool_loop messages calls (ok (some final, generated)) =
    let usage = sum_usage (acc_usage zero_usage calls) in
    (
      loop_events calls ++ new_done_event final.content "stop" usage ∷ [],
      ok (record {
        final_message = final;
        messages = full_history messages generated final;
        total_usage = usage;
      }),
    )

-- The provider is called only where the options are valid.
unfoldable pub run_with_history :
    Agent
    → List Message
    → List ProviderCall
    → ProviderResult
    → List StreamEvent × Result AgentError RunResult
unfolding run_native_tool_loop validate_run_options prepare_messages
run_with_history a incoming calls result = elim (validate_run_options a incoming) [
  | some e ↦ ([], err e)
  | none ↦ run_native_tool_loop (prepare_messages a incoming) calls result
]
