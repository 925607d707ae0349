-- ===== src/Chat/Machine/Queues.antt =====
-- Every subscriber's queue, after any calls on the coordinator.
mod Commands
mod Moves
use excelsior.Common.{
  ℕ, suc, zero, ◌-◌, ◌≡◌, refl, sym, ap, ◌∙◌, subst, String, Bool, true, false, not, ◌&&◌, ◌||◌,
  ◌==◌, ◌⊎◌, inl, inr, List, [], ◌∷◌, ◌++◌, map, Option, none, some, Result, ok, err, All,
  All-append, arith, lookup, str_eq, ltb, is_some, if_cases, option_cases, Bool-cases, Option-cases,
  ◌+◌, length,
}
use excelsior.Llm.{Message}
use excelsior.Session.Types.{Record, SessionError}
use excelsior.Sessions
use excelsior.Chat.Event.{
  Event, Outcome, PendingInteraction, InteractionKind, Snapshot, Update, Json, message_bytes,
  clone_messages, event_bytes, clone_snapshot,
}
use excelsior.Chat.Workspace.{session_key, canonical_workspace}
use excelsior.Chat.Retention.{max_projection_bytes}
use excelsior.Chat.Subscription.{
  Subscription, Received, new_subscription, enqueue, next, close_queue,
}
use excelsior.Chat.Subscription.Bounds.{
  IsBounded, new_subscription-IsBounded, enqueue-IsBounded, next-IsBounded, close_queue-IsBounded,
}
use excelsior.Chat.State.{
  Coordinator, Env, ActiveRun, Subscriber, InteractionResponse, ChatError, new_coordinator,
}
use excelsior.Chat.Stores.{
  with_store, load_or_create, load_messages, history_from, mutate, leased, chat_result, listed,
  discarded, create_session, delete_session, rename_session, begin_list, end_list,
}
use excelsior.Chat.Stores.Frame.{subscribers-with_store}
use excelsior.Chat.Subscribers.{
  get_elem?, set, deliver, publish, snapshot_locked, subscribe, resnapshot, unsubscribe,
  receive_next,
}
use excelsior.Chat.Subscribers.Served.{
  IsServed, AllServed, map-All, with_store-AllServed, publish-AllServed, subscribe-AllServed,
  resnapshot-AllServed, unsubscribe-AllServed, receive_next-AllServed,
}
use excelsior.Chat.Machine.Queues.Commands.{
  reserve_turn-AllServed, mutate-AllServed, begin_list-AllServed, end_list-AllServed,
  take_response-AllServed, save_run-AllServed, end_shutdown-AllServed, begin_shutdown-AllServed,
}
use excelsior.Chat.Machine.Queues.Moves.{
  begin_running-AllServed, append_and_broadcast-AllServed, on_persist-AllServed, cancel-AllServed,
  wait_interaction-AllServed, reply-AllServed, settle-AllServed, fail_creation-AllServed,
}
use excelsior.Chat.Runs.{
  RunHandle, start_run, reserve_with, reserve_session, reserve_turn, begin_running, append_event,
  append_and_broadcast_event, on_persist, cancel, finish, is_persisting,
}
use excelsior.Chat.Interactions.{
  wait_interaction, reply_to, reply, bad_selection, same_kind, take_response,
}
use excelsior.Chat.Turn.{TurnError, fail_creation, after_save, save_turn, turn_record, settle}
use excelsior.Chat.Lifecycle.{begin_shutdown, close_subscriber, release, end_shutdown, all_done}
use excelsior.Chat.Steps.{Call, save_run, step, run_calls}
use excelsior.Chat.Machine.Moves.{Answer}

module _ {S : Type 0} (env : Env S) where
  step-AllServed : (c : Coordinator S) (call : Call) → AllServed c → AllServed (step env c call)
  unfolding step create_session delete_session rename_session
  step-AllServed c (Call.reserves now new_id run_id ws id ms) v =
      reserve_turn-AllServed env now new_id run_id ws id ms c v
  step-AllServed c (Call.cancels ws id run_id) v = cancel-AllServed env ws id run_id c v
  step-AllServed c (Call.replies ws id run_id pi kind resp) v =
      reply-AllServed env ws id run_id pi kind resp c v
  step-AllServed c (Call.subscribes ws id request) v = subscribe-AllServed env ws id request c v
  step-AllServed c (Call.resnapshots handle request) v = resnapshot-AllServed env handle request c v
  step-AllServed c (Call.unsubscribes handle) v = unsubscribe-AllServed handle c v
  step-AllServed c (Call.reads done handle) v = receive_next-AllServed done handle c v
  step-AllServed c (Call.creates now ws id title) v =
      mutate-AllServed env ws id true (Sessions.create env.store now id title) c v
  step-AllServed c (Call.renames now ws id title) v =
      mutate-AllServed env ws id false (Sessions.rename env.store now id title) c v
  step-AllServed c (Call.deletes ws id) v =
      mutate-AllServed env ws id true (Sessions.delete env.store id) c v
  step-AllServed c (Call.begins_list ws) v = begin_list-AllServed env ws c v
  step-AllServed c (Call.ends_list ws) v = end_list-AllServed env ws c v
  step-AllServed c (Call.begins_running key) v = begin_running-AllServed env key c v
  step-AllServed c (Call.emits key ev) v = append_and_broadcast-AllServed env key ev c v
  step-AllServed c (Call.waits done key pi) v = wait_interaction-AllServed env done key pi c v
  step-AllServed c (Call.takes_response done prefer id) v =
      take_response-AllServed env done prefer id c v
  step-AllServed c (Call.persists key) v = on_persist-AllServed env key c v
  step-AllServed c (Call.saves now text key ms) v = save_run-AllServed env now text key ms c v
  step-AllServed c (Call.settles key result e) v = settle-AllServed env key result e c v
  step-AllServed c (Call.fails_creation key text) v = fail_creation-AllServed env key text c v
  step-AllServed c Call.begins_shutdown v = begin_shutdown-AllServed env c v
  step-AllServed c (Call.ends_shutdown late ids) v = end_shutdown-AllServed env late ids c v

  run_calls-AllServed :
      (c : Coordinator S) (calls : List Call) → AllServed c → AllServed (run_calls env c calls)
  unfolding run_calls
  run_calls-AllServed c [] v = v
  run_calls-AllServed c (call ∷ calls) v =
      run_calls-AllServed (step env c call) calls (step-AllServed c call v)

  -- After any calls on a new coordinator, every subscriber's queue is within its capacity and within
  -- 16 MiB, its byte counter is what it holds unless it was declared slow, and the subscribers that
  -- the registry delivers to are open.
  pub always-AllServed :
      (session_store : Option S) (ephemeral : Bool) (memory : S) (calls : List Call)
      → AllServed (run_calls env (new_coordinator session_store ephemeral memory) calls)
  unfolding new_coordinator
  always-AllServed session_store ephemeral memory calls =
      run_calls-AllServed (new_coordinator session_store ephemeral memory) calls tt
