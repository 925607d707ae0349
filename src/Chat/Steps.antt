-- ===== src/Chat/Steps.antt =====
-- Every way in which the coordinator's state changes, as one step: the calls of connections, the
-- locked regions of running turns, and the reads of subscribers, in any order.
use excelsior.Common.{ℕ, String, Bool, List, [], ◌∷◌, Option, none, some, lookup}
use excelsior.Llm.{Message}
use excelsior.Chat.Event.{Event, PendingInteraction, InteractionKind}
use excelsior.Chat.State.{Coordinator, Env, InteractionResponse}
use excelsior.Chat.Stores.{create_session, delete_session, rename_session, begin_list, end_list}
use excelsior.Chat.Subscribers.{subscribe, resnapshot, unsubscribe, receive_next}
use excelsior.Chat.Runs.{
  reserve_turn, begin_running, append_and_broadcast_event, on_persist, cancel,
}
use excelsior.Chat.Interactions.{wait_interaction, reply, take_response}
use excelsior.Chat.Turn.{TurnError, fail_creation, save_turn, settle}
use excelsior.Chat.Lifecycle.{begin_shutdown, end_shutdown}

-- The arguments are those of the operations. `reserves` has the time, a new session's identifier and
-- the run's; a turn's own steps name their run by its key.
pub data Call : Type 0 where
  reserves : ℕ → String → String → String → String → List Message → Call
  cancels : String → String → String → Call
  replies : String → String → String → String → InteractionKind → InteractionResponse → Call
  subscribes : String → String → String → Call
  resnapshots : ℕ → String → Call
  unsubscribes : ℕ → Call
  reads : Bool → ℕ → Call
  creates renames : ℕ → String → String → String → Call
  deletes : String → String → Call
  begins_list ends_list : String → Call
  begins_running : String → Call
  emits : String → Event → Call
  waits : Bool → String → PendingInteraction → Call
  takes_response : Bool → Bool → String → Call
  persists : String → Call
  saves : ℕ → String → String → List Message → Call
  settles : String → Option (List Message) → Option TurnError → Call
  fails_creation : String → String → Call
  begins_shutdown : Call
  ends_shutdown : Bool → List String → Call

module _ {S : Type 0} (env : Env S) where
  unfoldable pub save_run : ℕ → String → String → List Message → Coordinator S → Coordinator S
  save_run now text key messages c = elim (lookup key c.runs) [
    | none ↦ c
    | some run ↦ (save_turn env now text run messages c).0
  ]

  unfoldable pub step : Coordinator S → Call → Coordinator S
  unfolding save_run
  step c (reserves now new_id run_id ws id ms) = (reserve_turn env now new_id run_id ws id ms c).0
  step c (cancels ws id run_id) = (cancel env ws id run_id c).0
  step c (replies ws id run_id pi kind resp) = (reply env ws id run_id pi kind resp c).0
  step c (subscribes ws id request) = (subscribe env ws id request c).0
  step c (resnapshots handle request) = (resnapshot env handle request c).0
  step c (unsubscribes handle) = unsubscribe handle c
  step c (reads ctx_done handle) = (receive_next ctx_done handle c).0
  step c (creates now ws id title) = (create_session env now ws id title c).0
  step c (renames now ws id title) = (rename_session env now ws id title c).0
  step c (deletes ws id) = (delete_session env ws id c).0
  step c (begins_list ws) = (begin_list env ws c).0
  step c (ends_list ws) = (end_list env ws c).0
  step c (begins_running key) = begin_running env key c
  step c (emits key ev) = append_and_broadcast_event env key ev c
  step c (waits ctx_done key pi) = (wait_interaction env ctx_done key pi c).0
  step c (takes_response ctx_done prefer id) = (take_response ctx_done prefer id c).0
  step c (persists key) = (on_persist env key c).0
  step c (saves now text key ms) = save_run now text key ms c
  step c (settles key result e) = settle env key result e c
  step c (fails_creation key text) = fail_creation env key text c
  step c begins_shutdown = (begin_shutdown c).0
  step c (ends_shutdown late ids) = (end_shutdown env late ids c).0

  unfoldable pub run_calls : Coordinator S → List Call → Coordinator S
  run_calls c [] = c
  run_calls c (call ∷ calls) = run_calls (step c call) calls
