-- ===== src/Agent/Loop/Totals.antt =====
-- What a run reports: its token usage, and the one event that ends it.

use excelsior.Common.{
  ℕ, ◌+◌, ◌≡◌, refl, sym, ap, ◌∙◌, Bool, false, ◌||◌, List, [], ◌∷◌, Option, none, some, Result, ok,
  err, if◌then◌else◌, str_eq, arith, sum_of, sum_of-append, option_cases, is_some,
}
use excelsior.Llm.{Message, Usage}
use excelsior.Agent.{
  Agent, AgentError, provider_failed, StreamEvent, validate_run_options, prepare_messages,
}
use excelsior.Agent.Loop.{
  ProviderCall, delta, tool_start, tool_result, ProviderResult, UsageAcc, add_reported, zero_usage,
  add_usage, sum_usage, acc_usage, call_events, loop_events, RunResult, run_native_tool_loop,
  run_with_history,
}

-- The usage that a callback reports.
abbrev pub reported : ProviderCall → Option Usage
reported (delta d) = d.usage
reported _ = none

abbrev pub tokens : (Usage → ℕ) → ProviderCall → ℕ
tokens f call = elim (reported call) [ none ↦ 0 | some u ↦ f u ]

abbrev pub any_reported : List ProviderCall → Bool
any_reported [] = false
any_reported (call ∷ calls) = is_some (reported call) || any_reported calls

acc_usage-sums :
    (acc : UsageAcc) (calls : List ProviderCall)
    → acc_usage acc calls ≡ record {
      prompt = acc.prompt + sum_of (tokens (λ u. u.prompt_tokens)) calls;
      completion = acc.completion + sum_of (tokens (λ u. u.completion_tokens)) calls;
      seen = acc.seen || any_reported calls;
    }
unfolding acc_usage add_usage
acc_usage-sums acc [] = ground arith
acc_usage-sums acc (delta d ∷ calls) =
    ground (arith, acc_usage-sums acc calls, acc_usage-sums (add_reported acc d.usage) calls)
acc_usage-sums acc (tool_start call ∷ calls) = ground (arith, acc_usage-sums acc calls)
acc_usage-sums acc (tool_result call output e ∷ calls) = ground (arith, acc_usage-sums acc calls)

-- The reported usage of a run is the sum over all callbacks, and nothing where none reported any.
sum_usage-totals :
    (calls : List ProviderCall)
    → sum_usage (acc_usage zero_usage calls) ≡ (
        if any_reported calls
        then some (record {
          prompt_tokens = sum_of (tokens (λ u. u.prompt_tokens)) calls;
          completion_tokens = sum_of (tokens (λ u. u.completion_tokens)) calls;
          total_tokens =
              sum_of (tokens (λ u. u.prompt_tokens)) calls
              + sum_of (tokens (λ u. u.completion_tokens)) calls;
        })
        else none)
unfolding sum_usage
sum_usage-totals calls = ground (arith, acc_usage-sums zero_usage calls)

-- An event that ends the run for its listeners.
abbrev pub terminal : StreamEvent → ℕ
terminal ev = if str_eq ev.type "done" || str_eq ev.type "error" then 1 else 0

abbrev pub expected_terminal : Result AgentError RunResult → ℕ
expected_terminal (ok r) = 1
expected_terminal (err (provider_failed text)) = 1
expected_terminal (err _) = 0

call_events-terminal : (call : ProviderCall) → sum_of terminal (call_events call) ≡ 0
unfolding call_events
call_events-terminal (delta d) = ground arith
call_events-terminal (tool_start call) = refl
call_events-terminal (tool_result call output e) = refl

loop_events-terminal : (calls : List ProviderCall) → sum_of terminal (loop_events calls) ≡ 0
unfolding loop_events
loop_events-terminal [] = refl
loop_events-terminal (call ∷ calls) = omega (
  arith,
  sum_of-append terminal (call_events call) (loop_events calls),
  call_events-terminal call,
  loop_events-terminal calls,
)

loop-terminal :
    (messages : List Message) (calls : List ProviderCall) (result : ProviderResult)
    → let r = run_native_tool_loop messages calls result in
      sum_of terminal r.0 ≡ expected_terminal r.1
unfolding run_native_tool_loop
loop-terminal messages calls (err text) =
    sum_of-append terminal (loop_events calls) _ ∙ ap (λ n. n + 1) (loop_events-terminal calls)
loop-terminal messages calls (ok (none, generated)) = loop_events-terminal calls
loop-terminal messages calls (ok (some final, generated)) =
    sum_of-append terminal (loop_events calls) _ ∙ ap (λ n. n + 1) (loop_events-terminal calls)

abbrev refusal : Option AgentError → ℕ
refusal none = 0
refusal (some e) = expected_terminal (err e)

validate-refusal :
    (a : Agent) (incoming : List Message) → refusal (validate_run_options a incoming) ≡ 0
unfolding validate_run_options
validate-refusal a [] = ground arith
validate-refusal a (m ∷ ms) = ground arith

-- A run emits exactly one terminal event, "done" or "error", where it succeeds or its provider
-- fails, and none where the options are refused or the provider returns no message.
pub one_terminal_event :
    (a : Agent) (incoming : List Message) (calls : List ProviderCall) (result : ProviderResult)
    → let r = run_with_history a incoming calls result in
      sum_of terminal r.0 ≡ expected_terminal r.1
unfolding run_with_history
one_terminal_event a incoming calls result =
    option_cases
      (λ (r : List StreamEvent × Result AgentError RunResult).
        sum_of terminal r.0 ≡ expected_terminal r.1)
      (validate_run_options a incoming) _ _
      (λ _. loop-terminal (prepare_messages a incoming) calls result)
      (λ e refused. sym (ap refusal (sym refused) ∙ validate-refusal a incoming))
