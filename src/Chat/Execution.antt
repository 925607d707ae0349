-- ===== src/Chat/Execution.antt =====
-- `ExecuteTurn` of internal/chat/coordinator.go with `RunPrepared` of service.go, for a turn that no
-- other call comes between. The steps by themselves, in any order, are those of Steps.
use excelsior.Common.{
  ℕ, ◌≡◌, String, List, [], ◌∷◌, Option, none, some, Result, ok, err, lookup, lookup-erase_self,
  option_cases,
}
use excelsior.Llm.{Message}
use excelsior.Agent.{StreamEvent}
use excelsior.Chat.Event.{Outcome}
use excelsior.Chat.State.{Coordinator, Env, ActiveRun, ChatError}
use excelsior.Chat.Subscribers.{publish}
use excelsior.Chat.Runs.{begin_running, append_and_broadcast_event, on_persist, finish}
use excelsior.Chat.Turn.{
  TurnError, turn_canceled, turn_event, check_result, save_turn, settle, fail_creation,
}

-- What `newAgent` and the runner do: fail to be created, or send events and return messages (`none`
-- is a nil result) and perhaps an error.
pub data Runner : Type 0 where
  not_created : String → Runner
  ran : List StreamEvent → Option (List Message) → Option String → Runner

module _ {S : Type 0} (env : Env S) (now : ℕ) (save_error key : String) where
  unfoldable pub pass_events : ActiveRun → List StreamEvent → Coordinator S → Coordinator S
  unfolding turn_event
  pass_events run [] c = c
  pass_events run (ev ∷ evs) c =
      pass_events run evs
        (append_and_broadcast_event env key (turn_event run.session_id run.id ev) c)

  abbrev saved_turn : Option (List Message) → Coordinator S × Option TurnError → Coordinator S
  saved_turn result (c, e) = settle env key result e c

  -- `OnPersist`, then the save.
  abbrev persisted_turn :
      ActiveRun
      → List Message
      → Option (List Message)
      → Coordinator S × Result ChatError (Unit {0})
      → Coordinator S
  persisted_turn run messages result (c, err e) = settle env key result (some turn_canceled) c
  persisted_turn run messages result (c, ok _) =
      saved_turn result (save_turn env now save_error run messages c)

  abbrev checked_turn :
      ActiveRun
      → Option (List Message)
      → Coordinator S
      → Result TurnError (Option (List Message))
      → Coordinator S
  checked_turn run result c (err why) = settle env key result (some why) c
  checked_turn run result c (ok none) = settle env key result none c
  checked_turn run result c (ok (some messages)) =
      persisted_turn run messages result (on_persist env key c)

  abbrev after_runner : Option (List Message) → Option String → Coordinator S → Coordinator S
  after_runner result e c = elim (lookup key c.runs) [
    | none ↦ c
    | some run ↦
        checked_turn run result c (check_result run.canceled c.ephemeral run.session_id result e)
  ]

  unfoldable pub execute_turn : Runner → Coordinator S → Coordinator S
  unfolding pass_events check_result
  execute_turn (not_created text) c = fail_creation env key text c
  execute_turn (ran events result e) c = elim (lookup key c.runs) [
    | none ↦ c
    | some run ↦ after_runner result e (pass_events run events (begin_running env key c))
  ]

  abbrev IsFree : Coordinator S → Type 0
  IsFree c = lookup key c.runs ≡ none

  finish-IsFree :
      (o : Outcome) (result : Option (List Message)) (c : Coordinator S)
      → IsFree (finish env key o result c)
  unfolding finish publish
  finish-IsFree o result c =
      option_cases IsFree (lookup key c.runs) _ _ (λ e. e) (λ run e. lookup-erase_self key c.runs)

  settle-IsFree :
      (result : Option (List Message)) (e : Option TurnError) (c : Coordinator S)
      → IsFree (settle env key result e c)
  unfolding settle
  settle-IsFree result e c =
      option_cases IsFree (lookup key c.runs) _ _ (λ h. h) (λ run h. finish-IsFree _ result c)

  fail_creation-IsFree : (text : String) (c : Coordinator S) → IsFree (fail_creation env key text c)
  unfolding fail_creation
  fail_creation-IsFree text c =
      option_cases IsFree (lookup key c.runs) _ _ (λ h. h) (λ run h. finish-IsFree _ none c)

  saved_turn-IsFree :
      (result : Option (List Message)) (r : Coordinator S × Option TurnError)
      → IsFree (saved_turn result r)
  saved_turn-IsFree result (c, e) = settle-IsFree result e c

  persisted_turn-IsFree :
      (run : ActiveRun) (messages : List Message) (result : Option (List Message))
      (r : Coordinator S × Result ChatError (Unit {0}))
      → IsFree (persisted_turn run messages result r)
  persisted_turn-IsFree run messages result (c, err e) = settle-IsFree result (some turn_canceled) c
  persisted_turn-IsFree run messages result (c, ok _) =
      saved_turn-IsFree result (save_turn env now save_error run messages c)

  checked_turn-IsFree :
      (run : ActiveRun) (result : Option (List Message)) (c : Coordinator S)
      (r : Result TurnError (Option (List Message)))
      → IsFree (checked_turn run result c r)
  checked_turn-IsFree run result c (err why) = settle-IsFree result (some why) c
  checked_turn-IsFree run result c (ok none) = settle-IsFree result none c
  checked_turn-IsFree run result c (ok (some messages)) =
      persisted_turn-IsFree run messages result (on_persist env key c)

  -- Whatever the runner sends and returns, and whatever the store answers, after `ExecuteTurn` the
  -- session has no active run.
  pub execute_turn-frees :
      (runner : Runner) (c : Coordinator S) → lookup key (execute_turn runner c).runs ≡ none
  unfolding execute_turn
  execute_turn-frees (not_created text) c = fail_creation-IsFree text c
  execute_turn-frees (ran events result e) c =
      option_cases IsFree (lookup key c.runs) _ _ (λ h. h)
        λ run _.
          let d = pass_events run events (begin_running env key c) in
          option_cases IsFree (lookup key d.runs) _ _ (λ h. h)
            (λ run' _.
              checked_turn-IsFree run' result d
                (check_result run'.canceled d.ephemeral run'.session_id result e))
