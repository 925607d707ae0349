-- ===== src/Tests/Runs.antt =====
-- The coordinator's theorems at concrete calls.

use Prim.Native.String
use excelsior.Common.{
  if◌then◌else◌, str_eq, List, ◌≡◌, refl, String, true, false, ◌⊎◌, ◌↔◌, [], ◌∷◌, none, some, ok,
  err, lookup, pos,
}
use excelsior.Session.Memory.{new_memory_store}
use excelsior.Chat.Event.{Event, succeeded, canceled, InteractionKind, permission}
use excelsior.Chat.Workspace.{canonical_workspace}
use excelsior.Chat.Workspace.Keys.{session_key_unique}
use excelsior.Chat.State.{
  InteractionResponse, ChatError, context_canceled, stale_interaction, new_coordinator,
}
use excelsior.Chat.Interactions.{reply, take_response}
use excelsior.Chat.Interactions.FirstReply.{first_reply_wins}
use excelsior.Chat.Lifecycle.{begin_shutdown}
use excelsior.Chat.Runs.{is_persisting, cancel, on_persist, reserve_turn}
use excelsior.Chat.Runs.Exclusive.{IsStable, IsTaken, one_run_per_session}
use excelsior.Chat.Steps.{Call, subscribes, cancels, settles, begins_shutdown, step, run_calls}
use excelsior.Chat.Turn.{turn_event, no_result, is_save_failure, turn_outcome}
use excelsior.Chat.Turn.Barrier.{cancel_or_persist}
use excelsior.Chat.Turn.Classification.{Reason, turn_outcome-classifies}
use excelsior.Chat.Machine.{CoreStep, EndedBy}
use excelsior.Chat.Machine.Refines.{step-CoreStep}
use excelsior.Chat.Machine.Invariant.{IsConsistent, always-IsConsistent}
use excelsior.Chat.Machine.Continuity.{Continues, run-Continues, stopped_starts_nothing}
use excelsior.Agent.{new_text_event}
use excelsior.Chat.Execution.{Runner, ran, execute_turn, execute_turn-frees}
use excelsior.Chat.Subscribers.Served.{AllServed}
use excelsior.Chat.Machine.Queues.{always-AllServed}
use excelsior.Chat.Runs.{coalesce}
use excelsior.Chat.Runs.Fragments.{streamed, coalesce-streamed}
use excelsior.Tests.Base.{
  platform, env, hello, empty, key, starting, asking, finishing, after, after-IsConsistent,
  running_run, running_run-named,
}

always-IsConsistent_example :
    IsConsistent env (run_calls env (new_coordinator none false new_memory_store) finishing)
always-IsConsistent_example = always-IsConsistent env none false new_memory_store finishing

run-Continues_example :
    Continues env
      (EndedBy (after starting).ephemeral (settles key none none))
      key
      running_run.0
      (step env (after starting) (settles key none none))
run-Continues_example =
    run-Continues env (after starting) (settles key none none) key running_run.0
      (after-IsConsistent starting) running_run.1

platform-IsStable : IsStable platform
unfolding canonical_workspace
platform-IsStable = record { again = λ ws. refl }

one_run_per_session_example :
    let r = reserve_turn env 5 "" "r1" "/w" "s1" (hello ∷ []) empty in
    ((e : ChatError) × (r.1 ≡ err e))
    ⊎ ((r.1
          ≡ ok (record {
            id = "r1";
            workspace = canonical_workspace platform "/w";
            session_id = "s1";
          }))
        × IsTaken env "/w" "s1" r.0)
one_run_per_session_example =
    one_run_per_session env 5 "" "r1" "/w" "/w" "s1" hello [] empty platform-IsStable refl refl

abbrev yes : InteractionResponse
yes = record { permission_approved = true; ask_selected = pos 0; ask_answer = ""; ask_label = "" }

first_reply_wins_example :
    let r = reply env "/w" "s1" "r1" "q1" permission yes (after asking) in
    ((e : ChatError) × (r ≡ (after asking, err e)))
    ⊎ ((r.1 ≡ ok tt)
        × ((take_response false false "q1" r.0).1 ≡ some (ok yes))
        × ((run_id' interaction_id' : String) (kind' : InteractionKind)
              (resp' : InteractionResponse)
            → reply env "/w" "s1" run_id' interaction_id' kind' resp' r.0
              ≡ (r.0, err stale_interaction)))
first_reply_wins_example =
    first_reply_wins env "/w" "s1" "r1" "q1" permission yes (after asking)
      (after-IsConsistent asking)

cancel_or_persist_example :
    ((is_persisting running_run.0.state ≡ true)
      × ((run_id : String) → (cancel env "/w" "s1" run_id (after starting)).0 ≡ after starting)
      × (lookup key (begin_shutdown (after starting)).0.runs ≡ some running_run.0))
    ⊎ ((is_persisting running_run.0.state ≡ false)
        × (let d = (cancel env "/w" "s1" running_run.0.id (after starting)).0 in
            on_persist env key d ≡ (d, err context_canceled)))
cancel_or_persist_example =
    cancel_or_persist env "/w" "s1" running_run.0 (after starting) running_run.1 running_run-named

turn_outcome-classifies_example :
    let o = turn_outcome false running_run.0 (some no_result) in
    ((o.status ≡ succeeded) ↔ Reason running_run.0 (some no_result))
    × ((o.persisted ≡ true) ↔ ((o.status ≡ succeeded) × (false ≡ false)))
    × ((o.status ≡ canceled) ↔ (
        (running_run.0.canceled ≡ true)
        × (is_persisting running_run.0.state ≡ false)
        × (running_run.0.projection_failed ≡ false)
        × (is_save_failure (some no_result) ≡ false)))
turn_outcome-classifies_example = turn_outcome-classifies false running_run.0 (some no_result)

stopped_starts_nothing_example :
    lookup "k" (run_calls env (step env empty begins_shutdown) (cancels "/w" "s1" "r1" ∷ [])).runs
    ≡ none
unfolding step new_coordinator begin_shutdown lookup
stopped_starts_nothing_example =
    stopped_starts_nothing env (step env empty begins_shutdown) (cancels "/w" "s1" "r1" ∷ []) "k"
      refl refl

step-CoreStep_example :
    CoreStep env (EndedBy false begins_shutdown) empty (step env empty begins_shutdown)
step-CoreStep_example = step-CoreStep env empty begins_shutdown

session_key_unique_example :
    (canonical_workspace platform "/w" ≡ canonical_workspace platform "/w")
    × (◌≡◌ {A = String} "s1" "s1")
unfolding canonical_workspace
session_key_unique_example = session_key_unique platform "/w" "/w" "s1" "s1" refl refl refl

abbrev answering : Runner
answering = ran (new_text_event "hi" ∷ []) (some (hello ∷ [])) none

execute_turn-frees_example :
    lookup key (execute_turn env 9 "disk full" key answering (after starting)).runs ≡ none
execute_turn-frees_example = execute_turn-frees env 9 "disk full" key answering (after starting)

abbrev watching : List Call
watching = subscribes "/w" "s1" "q" ∷ starting

always-AllServed_example :
    AllServed (run_calls env (new_coordinator none false new_memory_store) watching)
always-AllServed_example = always-AllServed env none false new_memory_store watching

abbrev fragment : Event
fragment = turn_event "s1" "r1" (new_text_event "hi")

coalesce-streamed_example :
    (streamed (λ e. e.text) "text" (coalesce (fragment ∷ []) fragment)
      ≡ String.◌++◌
          (streamed (λ e. e.text) "text" (fragment ∷ []))
          (if str_eq fragment.type "text" then fragment.text else ""))
    × (streamed (λ e. e.reasoning) "text" (coalesce (fragment ∷ []) fragment)
        ≡ String.◌++◌
            (streamed (λ e. e.reasoning) "text" (fragment ∷ []))
            (if str_eq fragment.type "text" then fragment.reasoning else ""))
coalesce-streamed_example = coalesce-streamed "text" (fragment ∷ []) fragment
