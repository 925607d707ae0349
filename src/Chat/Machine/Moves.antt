-- ===== src/Chat/Machine/Moves.antt =====
-- The calls that move one run, or end it.
use mathlib.Core.Option.{some-injective}
use excelsior.Common.{
  ◌≡◌, refl, sym, subst, ◌∙◌, String, Bool, true, false, arith, not, ◌||◌, List, Option, none, some,
  Result, lookup, str_eq, ltb, ltb→ge, ltb→lt, ◌+◌, if_cases, option_cases,
}
use excelsior.Llm.{Message}
use excelsior.Chat.Event.{Event, Outcome, PendingInteraction, InteractionKind, event_bytes}
use excelsior.Chat.Workspace.{session_key}
use excelsior.Chat.Retention.{max_projection_bytes}
use excelsior.Chat.State.{Coordinator, Env, ActiveRun, InteractionResponse, ChatError}
use excelsior.Chat.Stores.Frame.{SameCore-refl}
use excelsior.Chat.Subscribers.{publish}
use excelsior.Chat.Runs.{
  begin_running, append_event, append_and_broadcast_event, on_persist, cancel, finish,
  is_persisting,
}
use excelsior.Chat.Interactions.{wait_interaction, reply_to, reply, bad_selection, same_kind}
use excelsior.Chat.Turn.{TurnError, fail_creation, settle, turn_outcome, runner_creation_failed}
use excelsior.Chat.Steps.{settles, fails_creation}
use excelsior.Chat.Machine.{
  begins, emits, overflows, asks, answered, persists, cancels, CoreStep, Ending, EndedBy, same,
  moves, finishes,
}

abbrev pub Answer : Type 0
Answer = Result ChatError (Unit {0})

module _ {S : Type 0} (env : Env S) (ends : Ending) (c : Coordinator S) where
  abbrev To : {A : Type 0} → Coordinator S × A → Type 0
  To r = CoreStep env ends c r.0

  stay : CoreStep env ends c c
  stay = same (SameCore-refl c)

  pub begin_running-CoreStep : (key : String) → CoreStep env ends c (begin_running env key c)
  unfolding begin_running
  begin_running-CoreStep key =
      option_cases (CoreStep env ends c) (lookup key c.runs) _ _ (λ _. stay)
        (λ run e. moves key run _ e (begins refl) refl refl refl)

  append_event-CoreStep :
      (key : String) (run : ActiveRun) (ev : Event)
      → lookup key c.runs ≡ some run
      → CoreStep env ends c (append_event env key run ev c)
  unfolding append_event publish
  append_event-CoreStep key run ev e =
      if_cases (CoreStep env ends c) run.projection_failed _ _ (λ _. stay)
        λ sound.
          if_cases (CoreStep env ends c)
            (ltb max_projection_bytes (run.projection_bytes + event_bytes env.json ev)) _ _
            (λ over. moves key run _ e (overflows ev sound (ltb→lt _ _ over) refl) refl refl refl)
            (λ fits. moves key run _ e (emits ev sound (ltb→ge _ _ fits) refl) refl refl refl)

  pub append_and_broadcast-CoreStep :
      (key : String) (ev : Event) → CoreStep env ends c (append_and_broadcast_event env key ev c)
  unfolding append_and_broadcast_event
  append_and_broadcast-CoreStep key ev =
      option_cases (CoreStep env ends c) (lookup key c.runs) _ _ (λ _. stay)
        (λ run e. append_event-CoreStep key run _ e)

  pub on_persist-CoreStep : (key : String) → CoreStep env ends c (on_persist env key c).0
  unfolding on_persist
  on_persist-CoreStep key =
      option_cases (To {A = Answer}) (lookup key c.runs) _ _ (λ _. stay)
        λ run e.
          if_cases (To {A = Answer}) run.canceled _ _ (λ _. stay)
            (λ live. moves key run _ e (persists live refl) refl refl refl)

  pub cancel-CoreStep : (ws id run_id : String) → CoreStep env ends c (cancel env ws id run_id c).0
  unfolding cancel
  cancel-CoreStep ws id run_id =
      let key = session_key env.platform ws id in
      option_cases (To {A = Answer}) (lookup key c.runs) _ _ (λ _. stay)
        λ run e.
          if_cases (To {A = Answer}) (str_eq run_id "" || not (str_eq run.id run_id)) _ _
            (λ _. stay)
            λ _.
              if_cases (To {A = Answer}) (is_persisting run.state) _ _ (λ _. stay)
                (λ before. moves key run _ e (cancels before refl) refl refl refl)

  pub wait_interaction-CoreStep :
      (done : Bool) (key : String) (pi : PendingInteraction)
      → CoreStep env ends c (wait_interaction env done key pi c).0
  unfolding wait_interaction publish
  wait_interaction-CoreStep done key pi =
      option_cases (To {A = Answer}) (lookup key c.runs) _ _ (λ _. stay)
        λ run e.
          if_cases (To {A = Answer}) (run.canceled || done) _ _ (λ _. stay)
            (λ live.
              moves key run _ e (asks pi (neither run.canceled done live) refl) refl refl refl)
    where
      neither : (a b : Bool) → (a || b) ≡ false → a ≡ false
      neither false b h = refl
      neither true b h = h

  reply_to-CoreStep :
      (key run_id interaction_id : String) (kind : InteractionKind) (resp : InteractionResponse)
      (run : ActiveRun)
      → lookup key c.runs ≡ some run
      → CoreStep env ends c (reply_to env key run_id interaction_id kind resp run c).0
  unfolding reply_to publish
  reply_to-CoreStep key run_id interaction_id kind resp run e =
      option_cases (To {A = Answer}) run.pending _ _ (λ _. stay)
        λ pi open_.
          if_cases (To {A = Answer})
            (not (str_eq run.id run_id)
              || not (str_eq pi.id interaction_id)
              || not (same_kind pi.kind kind)
              || run.canceled)
            _ _ (λ _. stay)
            λ valid.
              if_cases (To {A = Answer}) (bad_selection env kind pi resp.ask_selected) _ _
                (λ _. stay)
                (λ _.
                  moves key run _ e
                    (answered pi open_
                      (last (not (str_eq run.id run_id)) (not (str_eq pi.id interaction_id))
                        (not (same_kind pi.kind kind)) run.canceled valid)
                      refl)
                    refl refl refl)
    where
      last : (p q r s : Bool) → (p || q || r || s) ≡ false → s ≡ false
      last p q r s h = ground arith

  pub reply-CoreStep :
      (ws id run_id interaction_id : String) (kind : InteractionKind) (resp : InteractionResponse)
      → CoreStep env ends c (reply env ws id run_id interaction_id kind resp c).0
  unfolding reply
  reply-CoreStep ws id run_id interaction_id kind resp =
      let key = session_key env.platform ws id in
      option_cases (To {A = Answer}) (lookup key c.runs) _ _ (λ _. stay)
        (λ run e. reply_to-CoreStep key run_id interaction_id kind resp run e)

  finish-CoreStep :
      (key : String) (o : Outcome) (result : Option (List Message))
      → ((run : ActiveRun) → lookup key c.runs ≡ some run → ends key run o result)
      → CoreStep env ends c (finish env key o result c)
  unfolding finish publish
  finish-CoreStep key o result why =
      option_cases (CoreStep env ends c) (lookup key c.runs) _ _ (λ _. stay)
        (λ run e. finishes key run o result (why run e) e refl refl refl)

-- The two calls that end a run.
module _ {S : Type 0} (env : Env S) (c : Coordinator S) where
  -- Only one run stands at the key.
  same_run :
      (key : String) (run : ActiveRun) (P : ActiveRun → Type 0)
      → lookup key c.runs ≡ some run
      → P run
      → (other : ActiveRun) → lookup key c.runs ≡ some other
      → P other
  same_run key run P e h other e' = subst P (some-injective run other (sym e ∙ e')) h

  pub settle-CoreStep :
      (key : String) (result : Option (List Message)) (e : Option TurnError)
      → CoreStep env (EndedBy c.ephemeral (settles key result e)) c (settle env key result e c)
  unfolding settle
  settle-CoreStep key result e =
      let ends = EndedBy c.ephemeral (settles key result e) in
      option_cases (CoreStep env ends c) (lookup key c.runs) _ _ (λ _. same (SameCore-refl c))
        λ run found.
          let o = turn_outcome c.ephemeral run e in
          finish-CoreStep env ends c key o result
            (same_run key run (λ r. ends key r o result) found (refl, refl, refl))

  pub fail_creation-CoreStep :
      (key text : String)
      → CoreStep env
          (EndedBy c.ephemeral (fails_creation key text))
          c
          (fail_creation env key text c)
  unfolding fail_creation
  fail_creation-CoreStep key text =
      let ends = EndedBy c.ephemeral (fails_creation key text) in
      option_cases (CoreStep env ends c) (lookup key c.runs) _ _ (λ _. same (SameCore-refl c))
        λ run found.
          let o = runner_creation_failed run text in
          finish-CoreStep env ends c key o none
            (same_run key run (λ r. ends key r o none) found (refl, refl, refl))
