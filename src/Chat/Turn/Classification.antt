-- ===== src/Chat/Turn/Classification.antt =====
-- What the outcome of a turn says, and the point behind which a turn is no longer canceled.
use excelsior.Common.{◌≡◌, Bool, true, false, ◌⊎◌, ◌↔◌, Option, none, some, arith}
use excelsior.Chat.Event.{succeeded, canceled}
use excelsior.Chat.State.{ActiveRun}
use excelsior.Chat.Runs.{is_persisting}
use excelsior.Chat.Turn.{
  TurnError, save_failed, runner_failed, no_result, turn_canceled, is_save_failure, turn_outcome,
}

abbrev pub Reason : ActiveRun → Option TurnError → Type 0
Reason run e =
    (e ≡ none)
    × (run.projection_failed ≡ false)
    × ((is_persisting run.state ≡ true) ⊎ (run.canceled ≡ false))

-- A turn succeeded just when there was no error, its projection stayed within its limit, and it was
-- not canceled before it reached persistence. Its outcome says "persisted" just when it succeeded
-- and the coordinator is not ephemeral. It says "canceled" just when the run had been canceled
-- before it reached persistence, its projection within its limit and no save having failed.
pub turn_outcome-classifies :
    (ephemeral : Bool) (run : ActiveRun) (e : Option TurnError)
    → let o = turn_outcome ephemeral run e in
      ((o.status ≡ succeeded) ↔ Reason run e)
      × ((o.persisted ≡ true) ↔ ((o.status ≡ succeeded) × (ephemeral ≡ false)))
      × ((o.status ≡ canceled) ↔ (
          (run.canceled ≡ true)
          × (is_persisting run.state ≡ false)
          × (run.projection_failed ≡ false)
          × (is_save_failure e ≡ false)))
unfolding turn_outcome
turn_outcome-classifies ephemeral run none = ground arith
turn_outcome-classifies ephemeral run (some (runner_failed text)) = ground arith
turn_outcome-classifies ephemeral run (some no_result) = ground arith
turn_outcome-classifies ephemeral run (some turn_canceled) = ground arith
turn_outcome-classifies ephemeral run (some (save_failed text)) = ground arith
