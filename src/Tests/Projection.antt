-- ===== src/Tests/Projection.antt =====
-- The theorem about a run's projection at concrete calls.

use Prim.Native.String
use Prim.Native.String.{len, count}
use excelsior.Common.{
  List, [], ◌∷◌, lookup, insert, ◌+◌, ◌≤◌, ◌≡◌, refl, String, false, none, some, sum_of, arith,
}
use excelsior.Session.Memory.{MemoryStore, new_memory_store}
use excelsior.Chat.Event.{Event, Json, clone_event, message_bytes, event_bytes}
use excelsior.Chat.Retention.{max_projection_bytes}
use excelsior.Session.Memory.{memory_store}
use excelsior.Session.Id.{sanitize_id}
use excelsior.Agent.{new_text_event}
use excelsior.Chat.Workspace.{session_key, canonical_workspace}
use excelsior.Chat.State.{Env, ActiveRun, new_coordinator}
use excelsior.Chat.Stores.{load_or_create}
use excelsior.Chat.Subscribers.{publish}
use excelsior.Chat.Turn.{turn_event}
use excelsior.Chat.Runs.{reserve_turn, begin_running, append_and_broadcast_event, coalesce}
use excelsior.Chat.Steps.{Call, reserves, begins_running, emits, step, run_calls}
use excelsior.Chat.Machine.Projection.{text_size, len-append, IsVerbose, projection_bounded}
use excelsior.Tests.Base.{env, json, empty, hello, key}

abbrev texts : Json
texts = record json { marshal_event = λ ev. some (String.◌++◌ ev.text ev.reasoning) }

abbrev speaking : Env MemoryStore
speaking = record env { json = texts }

texts-IsVerbose : IsVerbose texts
unfolding event_bytes
texts-IsVerbose ev = omega (arith, len-append ev.text ev.reasoning)

abbrev fragment : String → Event
fragment text = turn_event "s1" "r1" (new_text_event text)

-- A run of two fragments, which are joined.
abbrev streaming : List Call
streaming =
    reserves 5 "" "r1" "/w" "s1" (hello ∷ [])
    ∷ begins_running key
    ∷ emits key (fragment "one ")
    ∷ emits key (fragment "two")
    ∷ []

streamed_run : (run : ActiveRun) × (lookup key (run_calls speaking empty streaming).runs ≡ some run)
unfolding run_calls lookup step reserve_turn new_coordinator load_or_create memory_store sanitize_id
    new_memory_store message_bytes publish insert session_key canonical_workspace begin_running
    append_and_broadcast_event event_bytes turn_event clone_event coalesce
streamed_run = (_, refl)

projection_bounded_example :
    message_bytes texts streamed_run.0.messages + sum_of text_size streamed_run.0.events
    ≤ max_projection_bytes
projection_bounded_example =
    projection_bounded speaking texts-IsVerbose none false new_memory_store streaming key
      streamed_run.0 streamed_run.1
