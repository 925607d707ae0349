-- ===== src/Chat/Machine/Queues/Commands.antt =====
-- The subscribers over the calls that start runs, work on sessions or stop the coordinator.
use excelsior.Common.{
  not, ℕ, ◌-◌, refl, String, Bool, ◌&&◌, ◌==◌, inl, List, [], ◌∷◌, ◌++◌, Option, none, some, Result,
  ok, err, lookup, ltb, is_some, if_cases, option_cases,
}
use excelsior.Llm.{Message}
use excelsior.Session.Types.{Record, SessionError}
use excelsior.Sessions
use excelsior.Chat.Event.{message_bytes, clone_messages}
use excelsior.Chat.Workspace.{session_key}
use excelsior.Chat.Retention.{max_projection_bytes}
use excelsior.Chat.Subscription.Bounds.{close_queue-IsBounded}
use excelsior.Chat.State.{Coordinator, Env, ActiveRun, Subscriber, InteractionResponse, ChatError}
use excelsior.Chat.Stores.{
  with_store, load_or_create, history_from, mutate, leased, chat_result, listed, discarded,
  begin_list, end_list,
}
use excelsior.Chat.Subscribers.Served.{
  IsServed, AllServed, map-All, with_store-AllServed, publish-AllServed,
}
use excelsior.Chat.Runs.{RunHandle, start_run, reserve_with, reserve_session, reserve_turn}
use excelsior.Chat.Interactions.{take_response}
use excelsior.Chat.Turn.{after_save, save_turn, turn_record}
use excelsior.Chat.Lifecycle.{begin_shutdown, close_subscriber, release, end_shutdown, all_done}
use excelsior.Chat.Steps.{save_run}
use excelsior.Chat.Machine.Moves.{Answer}

module _ {S : Type 0} (env : Env S) where
  abbrev Serves : {A : Type 0} → Coordinator S × A → Type 0
  Serves r = AllServed r.0

  start_run-AllServed :
      (key : String) (run : ActiveRun) (c : Coordinator S)
      → AllServed c
      → AllServed (start_run env key run c)
  unfolding start_run
  start_run-AllServed key run c v =
      publish-AllServed env (record c { runs = _; retained = _ }) v key _

  reserve_with-AllServed :
      (run_id ws id : String) (ms : List Message) (r : Coordinator S × Result ChatError Record)
      → AllServed r.0
      → AllServed (reserve_with env run_id ws id ms r).0
  unfolding reserve_with
  reserve_with-AllServed run_id ws id ms (d, err e) v = v
  reserve_with-AllServed run_id ws id ms (d, ok rec) v =
      let messages = clone_messages (history_from rec.messages ++ ms) in
      if_cases (Serves {A = Result ChatError RunHandle})
        (ltb max_projection_bytes (message_bytes env.json messages)) _ _ (λ _. v)
        (λ _. start_run-AllServed _ _ d v)

  reserve_session-AllServed :
      (now : ℕ) (run_id ws id : String) (ms : List Message) (c : Coordinator S)
      → AllServed c
      → AllServed (reserve_session env now run_id ws id ms c).0
  unfolding reserve_session
  reserve_session-AllServed now run_id ws id ms c v =
      if_cases (Serves {A = Result ChatError RunHandle}) c.stopped _ _ (λ _. v)
        λ _.
          if_cases (Serves {A = Result ChatError RunHandle})
            (is_some (lookup (session_key env.platform ws id) c.runs)) _ _ (λ _. v)
            (λ _.
              reserve_with-AllServed run_id ws id ms
                (with_store env ws (load_or_create env now id ms) c)
                (with_store-AllServed env c v ws (load_or_create env now id ms)))

  pub reserve_turn-AllServed :
      (now : ℕ) (new_id run_id ws id : String) (ms : List Message) (c : Coordinator S)
      → AllServed c
      → AllServed (reserve_turn env now new_id run_id ws id ms c).0
  unfolding reserve_turn
  reserve_turn-AllServed now new_id run_id ws id [] c v = v
  reserve_turn-AllServed now new_id run_id ws id (m ∷ ms) c v =
      reserve_session-AllServed now run_id _ _ (m ∷ ms) c v

  discarded-AllServed :
      (key : String) (discard : Bool) (r : Coordinator S × Answer)
      → AllServed r.0
      → AllServed (discarded env key discard r).0
  discarded-AllServed key discard (d, err e) v = v
  discarded-AllServed key discard (d, ok _) v =
      if_cases (Serves {A = Answer}) discard _ _ (λ _. v) (λ _. v)

  pub mutate-AllServed :
      (ws id : String) (discard : Bool) (change : S → S × Option SessionError) (c : Coordinator S)
      → AllServed c
      → AllServed (mutate env ws id discard change c).0
  unfolding mutate
  mutate-AllServed ws id discard change c v =
      if_cases (Serves {A = Answer}) c.stopped _ _ (λ _. v)
        λ _.
          if_cases (Serves {A = Answer}) (is_some (lookup (session_key env.platform ws id) c.runs))
            _ _ (λ _. v)
            (λ _.
              discarded-AllServed _ discard
                (with_store env ws (leased env (λ s. chat_result env (change s))) c)
                (with_store-AllServed env c v ws (leased env (λ s. chat_result env (change s)))))

  pub begin_list-AllServed :
      (ws : String) (c : Coordinator S) → AllServed c → AllServed (begin_list env ws c).0
  unfolding begin_list
  begin_list-AllServed ws c v =
      if_cases (Serves {A = Answer}) c.stopped _ _ (λ _. v)
        (λ _. with_store-AllServed env c v {A = Unit {0}} ws (λ s. (s, tt)))

  pub end_list-AllServed :
      (ws : String) (c : Coordinator S) → AllServed c → AllServed (end_list env ws c).0
  unfolding end_list
  end_list-AllServed ws c v =
      with_store-AllServed env (record c { list_workers = c.list_workers - 1 }) v ws
        (leased env (λ s. listed env (Sessions.list env.store s)))

  pub take_response-AllServed :
      (done prefer : Bool) (id : String) (c : Coordinator S)
      → AllServed c
      → AllServed (take_response done prefer id c).0
  unfolding take_response
  take_response-AllServed done prefer id c v =
      option_cases (Serves {A = Option (Result ChatError InteractionResponse)})
        (lookup id c.response_channels) _ _ (λ _. v)
        λ resp _.
          if_cases (Serves {A = Option (Result ChatError InteractionResponse)}) (done && prefer) _ _
            (λ _. v) (λ _. v)

  after_save-AllServed :
      (text : String) (r : Coordinator S × Option SessionError)
      → AllServed r.0
      → AllServed (after_save env text r).0
  after_save-AllServed text (d, none) v = v
  after_save-AllServed text (d, some e) v = v

  pub save_run-AllServed :
      (now : ℕ) (text key : String) (ms : List Message) (c : Coordinator S)
      → AllServed c
      → AllServed (save_run env now text key ms c)
  unfolding save_run save_turn
  save_run-AllServed now text key ms c v =
      option_cases (λ (d : Coordinator S). AllServed d) (lookup key c.runs) _ _ (λ _. v)
        λ run _.
          let save = λ (s : S).
            env.store.save s now (turn_record now run.session_id run.session_record ms) in
          after_save-AllServed text (with_store env run.workspace save c)
            (with_store-AllServed env c v run.workspace save)

  close_subscriber-IsServed : (e : Subscriber) → IsServed e → IsServed (close_subscriber e)
  unfolding close_subscriber
  close_subscriber-IsServed e v =
      if_cases IsServed e.registered _ _
        (λ _. record { bounded = close_queue-IsBounded e.sub v.bounded; open_ = inl refl }) (λ _. v)

  pub end_shutdown-AllServed :
      (late : Bool) (ids : List String) (c : Coordinator S)
      → AllServed c
      → AllServed (end_shutdown env late ids c).0
  unfolding end_shutdown release
  end_shutdown-AllServed late ids c v =
      if_cases (Serves {A = Answer}) (not late && all_done ids c.runs && (c.list_workers == 0)) _ _
        (λ _. map-All IsServed close_subscriber c.subscribers close_subscriber-IsServed v) (λ _. v)

  pub begin_shutdown-AllServed : (c : Coordinator S) → AllServed c → AllServed (begin_shutdown c).0
  unfolding begin_shutdown
  begin_shutdown-AllServed c v = v
