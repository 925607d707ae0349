-- ===== src/Chat/Machine/Refines.antt =====
-- Every call is a move of the machine.
use excelsior.Common.{true, false}
use excelsior.Sessions
use excelsior.Chat.State.{Coordinator, Env}
use excelsior.Chat.Stores.{create_session, delete_session, rename_session}
use excelsior.Chat.Subscribers.Frame.{
  subscribe-SameCore, resnapshot-SameCore, unsubscribe-SameCore, receive_next-SameCore,
}
use excelsior.Chat.Steps.{
  Call, step, reserves, cancels, replies, subscribes, resnapshots, unsubscribes, reads, creates,
  renames, deletes, begins_list, ends_list, begins_running, emits, waits, takes_response, persists,
  saves, settles, fails_creation, begins_shutdown, ends_shutdown,
}
use excelsior.Chat.Machine.{CoreStep, EndedBy, same}
use excelsior.Chat.Machine.Moves
use excelsior.Chat.Machine.Commands

-- Every call of a connection and every locked region of a turn moves the registry of runs and the
-- kept snapshots as the machine allows, or leaves both alone. A run is ended by its own end of turn,
-- with the outcome that this classifies, or by a runner that was not created.
pub step-CoreStep :
    {S : Type 0} (env : Env S) (c : Coordinator S) (call : Call)
    → CoreStep env (EndedBy c.ephemeral call) c (step env c call)
unfolding step create_session delete_session rename_session
step-CoreStep env c (reserves now new_id run_id ws id ms) =
    Commands.reserve_turn-CoreStep env _ c now new_id run_id ws id ms
step-CoreStep env c (cancels ws id run_id) = Moves.cancel-CoreStep env _ c ws id run_id
step-CoreStep env c (replies ws id run_id pi kind resp) =
    Moves.reply-CoreStep env _ c ws id run_id pi kind resp
step-CoreStep env c (subscribes ws id request) = same (subscribe-SameCore env ws id request c)
step-CoreStep env c (resnapshots handle request) = same (resnapshot-SameCore env handle request c)
step-CoreStep env c (unsubscribes handle) = same (unsubscribe-SameCore handle c)
step-CoreStep env c (reads done handle) = same (receive_next-SameCore done handle c)
step-CoreStep env c (creates now ws id title) =
    Commands.mutate-CoreStep env _ c ws id true (Sessions.create env.store now id title)
step-CoreStep env c (renames now ws id title) =
    Commands.mutate-CoreStep env _ c ws id false (Sessions.rename env.store now id title)
step-CoreStep env c (deletes ws id) =
    Commands.mutate-CoreStep env _ c ws id true (Sessions.delete env.store id)
step-CoreStep env c (begins_list ws) = Commands.begin_list-CoreStep env _ c ws
step-CoreStep env c (ends_list ws) = Commands.end_list-CoreStep env _ c ws
step-CoreStep env c (begins_running key) = Moves.begin_running-CoreStep env _ c key
step-CoreStep env c (emits key ev) = Moves.append_and_broadcast-CoreStep env _ c key ev
step-CoreStep env c (waits done key pi) = Moves.wait_interaction-CoreStep env _ c done key pi
step-CoreStep env c (takes_response done prefer id) =
    Commands.take_response-CoreStep env _ c done prefer id
step-CoreStep env c (persists key) = Moves.on_persist-CoreStep env _ c key
step-CoreStep env c (saves now text key ms) = Commands.save_run-CoreStep env _ c now text key ms
step-CoreStep env c (settles key result e) = Moves.settle-CoreStep env c key result e
step-CoreStep env c (fails_creation key text) = Moves.fail_creation-CoreStep env c key text
step-CoreStep env c begins_shutdown = Commands.begin_shutdown-CoreStep env _ c
step-CoreStep env c (ends_shutdown late ids) = Commands.end_shutdown-CoreStep env _ c late ids
