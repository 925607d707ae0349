-- ===== src/Chat/Machine/Queues/Moves.antt =====
-- The subscribers over the calls that move one run, or end it.
use excelsior.Common.{
  String, Bool, not, ◌||◌, List, Option, none, lookup, str_eq, ltb, if_cases, option_cases, ◌+◌,
}
use excelsior.Llm.{Message}
use excelsior.Chat.Event.{Event, Outcome, PendingInteraction, InteractionKind, event_bytes}
use excelsior.Chat.Workspace.{session_key}
use excelsior.Chat.Retention.{max_projection_bytes}
use excelsior.Chat.State.{Coordinator, Env, ActiveRun, InteractionResponse}
use excelsior.Chat.Subscribers.Served.{AllServed, publish-AllServed}
use excelsior.Chat.Runs.{
  begin_running, append_event, append_and_broadcast_event, on_persist, cancel, finish,
  is_persisting,
}
use excelsior.Chat.Interactions.{wait_interaction, reply_to, reply, bad_selection, same_kind}
use excelsior.Chat.Turn.{TurnError, fail_creation, settle}
use excelsior.Chat.Machine.Moves.{Answer}

module _ {S : Type 0} (env : Env S) where
  abbrev Serves : {A : Type 0} → Coordinator S × A → Type 0
  Serves r = AllServed r.0

  pub begin_running-AllServed :
      (key : String) (c : Coordinator S) → AllServed c → AllServed (begin_running env key c)
  unfolding begin_running
  begin_running-AllServed key c v =
      option_cases (λ (d : Coordinator S). AllServed d) (lookup key c.runs) _ _ (λ _. v)
        (λ run _. v)

  append_event-AllServed :
      (key : String) (run : ActiveRun) (ev : Event) (c : Coordinator S)
      → AllServed c
      → AllServed (append_event env key run ev c)
  unfolding append_event
  append_event-AllServed key run ev c v =
      if_cases (λ (d : Coordinator S). AllServed d) run.projection_failed _ _ (λ _. v)
        λ _.
          if_cases (λ (d : Coordinator S). AllServed d)
            (ltb max_projection_bytes (run.projection_bytes + event_bytes env.json ev)) _ _ (λ _. v)
            (λ _. publish-AllServed env (record c { runs = _ }) v key _)

  pub append_and_broadcast-AllServed :
      (key : String) (ev : Event) (c : Coordinator S)
      → AllServed c
      → AllServed (append_and_broadcast_event env key ev c)
  unfolding append_and_broadcast_event
  append_and_broadcast-AllServed key ev c v =
      option_cases (λ (d : Coordinator S). AllServed d) (lookup key c.runs) _ _ (λ _. v)
        (λ run _. append_event-AllServed key run _ c v)

  pub on_persist-AllServed :
      (key : String) (c : Coordinator S) → AllServed c → AllServed (on_persist env key c).0
  unfolding on_persist
  on_persist-AllServed key c v =
      option_cases (Serves {A = Answer}) (lookup key c.runs) _ _ (λ _. v)
        λ run _. if_cases (Serves {A = Answer}) run.canceled _ _ (λ _. v) (λ _. v)

  pub cancel-AllServed :
      (ws id run_id : String) (c : Coordinator S)
      → AllServed c
      → AllServed (cancel env ws id run_id c).0
  unfolding cancel
  cancel-AllServed ws id run_id c v =
      option_cases (Serves {A = Answer}) (lookup (session_key env.platform ws id) c.runs) _ _
        (λ _. v)
        λ run _.
          if_cases (Serves {A = Answer}) (str_eq run_id "" || not (str_eq run.id run_id)) _ _
            (λ _. v)
            λ _. if_cases (Serves {A = Answer}) (is_persisting run.state) _ _ (λ _. v) (λ _. v)

  pub wait_interaction-AllServed :
      (done : Bool) (key : String) (pi : PendingInteraction) (c : Coordinator S)
      → AllServed c
      → AllServed (wait_interaction env done key pi c).0
  unfolding wait_interaction
  wait_interaction-AllServed done key pi c v =
      option_cases (Serves {A = Answer}) (lookup key c.runs) _ _ (λ _. v)
        λ run _.
          if_cases (Serves {A = Answer}) (run.canceled || done) _ _ (λ _. v)
            (λ _. publish-AllServed env (record c { runs = _; response_channels = _ }) v key _)

  reply_to-AllServed :
      (key run_id interaction_id : String) (kind : InteractionKind) (resp : InteractionResponse)
      (run : ActiveRun) (c : Coordinator S)
      → AllServed c
      → AllServed (reply_to env key run_id interaction_id kind resp run c).0
  unfolding reply_to
  reply_to-AllServed key run_id interaction_id kind resp run c v =
      option_cases (Serves {A = Answer}) run.pending _ _ (λ _. v)
        λ pi _.
          if_cases (Serves {A = Answer})
            (not (str_eq run.id run_id)
              || not (str_eq pi.id interaction_id)
              || not (same_kind pi.kind kind)
              || run.canceled)
            _ _ (λ _. v)
            λ _.
              if_cases (Serves {A = Answer}) (bad_selection env kind pi resp.ask_selected) _ _
                (λ _. v) (λ _. publish-AllServed env (record c { runs = _ }) v key _)

  pub reply-AllServed :
      (ws id run_id interaction_id : String) (kind : InteractionKind) (resp : InteractionResponse)
      (c : Coordinator S)
      → AllServed c
      → AllServed (reply env ws id run_id interaction_id kind resp c).0
  unfolding reply
  reply-AllServed ws id run_id interaction_id kind resp c v =
      let key = session_key env.platform ws id in
      option_cases (Serves {A = Answer}) (lookup key c.runs) _ _ (λ _. v)
        (λ run _. reply_to-AllServed key run_id interaction_id kind resp run c v)

  finish-AllServed :
      (key : String) (o : Outcome) (result : Option (List Message)) (c : Coordinator S)
      → AllServed c
      → AllServed (finish env key o result c)
  unfolding finish
  finish-AllServed key o result c v =
      option_cases (λ (d : Coordinator S). AllServed d) (lookup key c.runs) _ _ (λ _. v)
        (λ run _. publish-AllServed env (record c { retained = _ }) v key _)

  pub settle-AllServed :
      (key : String) (result : Option (List Message)) (e : Option TurnError) (c : Coordinator S)
      → AllServed c
      → AllServed (settle env key result e c)
  unfolding settle
  settle-AllServed key result e c v =
      option_cases (λ (d : Coordinator S). AllServed d) (lookup key c.runs) _ _ (λ _. v)
        (λ run _. finish-AllServed key _ result c v)

  pub fail_creation-AllServed :
      (key text : String) (c : Coordinator S)
      → AllServed c
      → AllServed (fail_creation env key text c)
  unfolding fail_creation
  fail_creation-AllServed key text c v =
      option_cases (λ (d : Coordinator S). AllServed d) (lookup key c.runs) _ _ (λ _. v)
        (λ run _. finish-AllServed key _ none c v)
