-- ===== src/Tests/Engine.antt =====
-- The theorems about the agent's loop and about what clients are sent, at concrete inputs.

use excelsior.Common.{◌≡◌, refl, true, List, [], ◌∷◌, map, some, ok, sum_of, pos}
use excelsior.Llm.{Message, ToolCall, Usage}
use excelsior.Agent.{Agent, sanitize_tool_calls}
use excelsior.Agent.Calls.Pending
use excelsior.Agent.Calls.Pending.{AllAnswered, IsPadded}
use excelsior.Agent.Calls.{answered-sanitize_tool_calls, sanitize_tool_calls-answered}
use excelsior.Agent.Loop.{ProviderCall, delta, tool_start, run_with_history}
use excelsior.Agent.Loop.Totals.{terminal, expected_terminal, one_terminal_event}
use excelsior.Chat.Event.{Snapshot, zero_snapshot}
use excelsior.Engine.{session_data_from_snapshot}
use excelsior.Engine.Reading.{read_snapshot, shown_event, shown_pending, read_snapshot-session_data}
use excelsior.Tests.Base.{hello, question}

abbrev call : ToolCall
call = record {
  id = "c1";
  type = "function";
  function = record { name = "bash"; arguments = "{}" };
}

abbrev asks : Message
asks = record hello { role = "assistant"; tool_calls = call ∷ [] }

abbrev answers : Message
answers = record hello { role = "tool"; tool_call_id = "c1" }

answered-sanitize_tool_calls_example :
    let out = sanitize_tool_calls (asks ∷ hello ∷ []) in
    AllAnswered out × IsPadded (asks ∷ hello ∷ []) out
answered-sanitize_tool_calls_example = answered-sanitize_tool_calls (asks ∷ hello ∷ [])

sanitize_tool_calls-answered_example :
    sanitize_tool_calls (asks ∷ answers ∷ hello ∷ []) ≡ asks ∷ answers ∷ hello ∷ []
unfolding Pending.answers
sanitize_tool_calls-answered_example =
    sanitize_tool_calls-answered (asks ∷ answers ∷ hello ∷ [])
      ((λ e. (λ named. refl, tt)), ((λ e. tt), ((λ e. tt), tt)))

abbrev used : Usage
used = record { prompt_tokens = 3; completion_tokens = 4; total_tokens = 7 }

abbrev calls : List ProviderCall
calls =
    delta (record { content = "hi"; reasoning_content = ""; usage = some used })
    ∷ tool_start call
    ∷ delta (record { content = ""; reasoning_content = ""; usage = some used })
    ∷ []

abbrev agent : Agent
agent = record { llm = true; system = "Be brief."; max_iters = pos 0 }

one_terminal_event_example :
    let r = run_with_history agent (hello ∷ []) calls (ok (some asks, [])) in
    sum_of terminal r.0 ≡ expected_terminal r.1
one_terminal_event_example = one_terminal_event agent (hello ∷ []) calls (ok (some asks, []))

abbrev waiting : Snapshot
waiting = record zero_snapshot { session_id = "s1"; running = true; pending = some question }

read_snapshot-session_data_example :
    read_snapshot (session_data_from_snapshot waiting) ≡ record waiting {
      events = map shown_event waiting.events;
      pending = shown_pending waiting.pending;
    }
read_snapshot-session_data_example = read_snapshot-session_data waiting
