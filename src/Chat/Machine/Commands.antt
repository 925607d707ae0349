-- ===== src/Chat/Machine/Commands.antt =====
-- The calls that start a run, work on sessions, subscribe, or stop the coordinator.
use excelsior.Common.{
  not, ℕ, ◌-◌, ◌≡◌, refl, ap, String, Bool, false, ◌&&◌, ◌==◌, List, [], ◌∷◌, ◌++◌, Option, none,
  some, Result, ok, err, lookup, insert, str_eq, is_some, ltb, ltb→ge, if◌then◌else◌, if_cases,
  option_cases,
}
use excelsior.Llm.{Message}
use excelsior.Session.Types.{Record, SessionError}
use excelsior.Sessions
use excelsior.Chat.Event.{message_bytes, clone_messages}
use excelsior.Chat.Workspace.{session_key, canonical_workspace}
use excelsior.Chat.Retention.{max_projection_bytes, drop_terminal}
use excelsior.Chat.State.{Coordinator, Env, ActiveRun, InteractionResponse, ChatError}
use excelsior.Chat.Stores.{
  with_store, load_or_create, history_from, mutate, leased, chat_result, listed, discarded,
  begin_list, end_list,
}
use excelsior.Chat.Stores.Frame.{SameCore, SameCore-refl, with_store-SameCore}
use excelsior.Chat.Subscribers.{publish}
use excelsior.Chat.Runs.{RunHandle, start_run, reserve_with, reserve_session, reserve_turn, new_run}
use excelsior.Chat.Interactions.{take_response}
use excelsior.Chat.Turn.{after_save, save_turn, turn_record}
use excelsior.Chat.Lifecycle.{begin_shutdown, end_shutdown, all_done}
use excelsior.Chat.Steps.{save_run}
use excelsior.Chat.Machine.{CoreStep, Ending, same, starts, discards, stops}
use excelsior.Chat.Machine.Moves.{Answer}

none_of_is_some {ℓ} : {A : Type ℓ} (o : Option A) → is_some o ≡ false → o ≡ none
none_of_is_some none h = refl
none_of_is_some (some a) h = cc

module _ {S : Type 0} (env : Env S) (ends : Ending) (c : Coordinator S) where
  abbrev To : {A : Type 0} → Coordinator S × A → Type 0
  To r = CoreStep env ends c r.0

  stay : CoreStep env ends c c
  stay = same (SameCore-refl c)

  reserve_with-CoreStep :
      (run_id ws id : String) (ms : List Message) (r : Coordinator S × Result ChatError Record)
      → c.stopped ≡ false
      → lookup (session_key env.platform ws id) c.runs ≡ none
      → SameCore c r.0
      → CoreStep env ends c (reserve_with env run_id ws id ms r).0
  unfolding reserve_with start_run publish
  reserve_with-CoreStep run_id ws id ms (d, err e) open_ free s = same s
  reserve_with-CoreStep run_id ws id ms (d, ok rec) open_ free s =
      let messages = clone_messages (history_from rec.messages ++ ms) in
      let key = session_key env.platform ws id in
      let run = new_run run_id ws id rec messages (message_bytes env.json messages) in
      if_cases (To {A = Result ChatError RunHandle})
        (ltb max_projection_bytes (message_bytes env.json messages)) _ _ (λ _. same s)
        (λ fits.
          starts key run open_ free
            (record {
              keyed = refl;
              state = refl;
              live = refl;
              events = refl;
              pending = refl;
              bytes = refl;
              budget = ltb→ge _ _ fits;
            })
            (ap (insert key run) s.runs) (ap (drop_terminal env.json key) s.retained) s.stopped)

  reserve_session-CoreStep :
      (now : ℕ) (run_id ws id : String) (ms : List Message)
      → CoreStep env ends c (reserve_session env now run_id ws id ms c).0
  unfolding reserve_session
  reserve_session-CoreStep now run_id ws id ms =
      let found = lookup (session_key env.platform ws id) c.runs in
      if_cases (To {A = Result ChatError RunHandle}) c.stopped _ _ (λ _. stay)
        λ open_.
          if_cases (To {A = Result ChatError RunHandle}) (is_some found) _ _ (λ _. stay)
            (λ free.
              reserve_with-CoreStep run_id ws id ms
                (with_store env ws (load_or_create env now id ms) c) open_
                (none_of_is_some found free)
                (with_store-SameCore env ws (load_or_create env now id ms) c))

  pub reserve_turn-CoreStep :
      (now : ℕ) (new_id run_id ws id : String) (ms : List Message)
      → CoreStep env ends c (reserve_turn env now new_id run_id ws id ms c).0
  unfolding reserve_turn
  reserve_turn-CoreStep now new_id run_id ws id [] = stay
  reserve_turn-CoreStep now new_id run_id ws id (m ∷ ms) =
      reserve_session-CoreStep now run_id (canonical_workspace env.platform ws)
        (if str_eq id "" then new_id else id) (m ∷ ms)

  discarded-CoreStep :
      (key : String) (discard : Bool) (r : Coordinator S × Answer)
      → c.stopped ≡ false
      → lookup key c.runs ≡ none
      → SameCore c r.0
      → CoreStep env ends c (discarded env key discard r).0
  discarded-CoreStep key discard (d, err e) open_ free s = same s
  discarded-CoreStep key discard (d, ok _) open_ free s =
      if_cases (To {A = Answer}) discard _ _
        (λ _. discards key open_ free s.runs (ap (drop_terminal env.json key) s.retained) s.stopped)
        (λ _. same s)

  pub mutate-CoreStep :
      (ws id : String) (discard : Bool) (change : S → S × Option SessionError)
      → CoreStep env ends c (mutate env ws id discard change c).0
  unfolding mutate
  mutate-CoreStep ws id discard change =
      let key = session_key env.platform ws id in
      if_cases (To {A = Answer}) c.stopped _ _ (λ _. stay)
        λ open_.
          if_cases (To {A = Answer}) (is_some (lookup key c.runs)) _ _ (λ _. stay)
            (λ free.
              discarded-CoreStep key discard
                (with_store env ws (leased env (λ s. chat_result env (change s))) c) open_
                (none_of_is_some (lookup key c.runs) free)
                (with_store-SameCore env ws (leased env (λ s. chat_result env (change s))) c))

  pub begin_list-CoreStep : (ws : String) → CoreStep env ends c (begin_list env ws c).0
  unfolding begin_list
  begin_list-CoreStep ws =
      let s = with_store-SameCore env {A = Unit {0}} ws (λ s. (s, tt)) c in
      if_cases (To {A = Answer}) c.stopped _ _ (λ _. stay)
        (λ _. same (record { runs = s.runs; retained = s.retained; stopped = s.stopped }))

  pub end_list-CoreStep : (ws : String) → CoreStep env ends c (end_list env ws c).0
  unfolding end_list
  end_list-CoreStep ws =
      let s =
        with_store-SameCore env ws (leased env (λ s. listed env (Sessions.list env.store s)))
          (record c { list_workers = c.list_workers - 1 }) in
      same (record { runs = s.runs; retained = s.retained; stopped = s.stopped })

  pub take_response-CoreStep :
      (done prefer : Bool) (id : String) → CoreStep env ends c (take_response done prefer id c).0
  unfolding take_response
  take_response-CoreStep done prefer id =
      option_cases (To {A = Option (Result ChatError InteractionResponse)})
        (lookup id c.response_channels) _ _ (λ _. stay)
        λ resp _.
          if_cases (To {A = Option (Result ChatError InteractionResponse)}) (done && prefer) _ _
            (λ _. stay) (λ _. same (record { runs = refl; retained = refl; stopped = refl }))

  after_save-CoreStep :
      (text : String) (r : Coordinator S × Option SessionError)
      → SameCore c r.0
      → CoreStep env ends c (after_save env text r).0
  after_save-CoreStep text (d, none) s = same s
  after_save-CoreStep text (d, some e) s = same s

  save_turn-CoreStep :
      (now : ℕ) (text : String) (run : ActiveRun) (ms : List Message)
      → CoreStep env ends c (save_turn env now text run ms c).0
  unfolding save_turn
  save_turn-CoreStep now text run ms =
      let save =
        λ (s : S). env.store.save s now (turn_record now run.session_id run.session_record ms) in
      after_save-CoreStep text (with_store env run.workspace save c)
        (with_store-SameCore env run.workspace save c)

  pub save_run-CoreStep :
      (now : ℕ) (text key : String) (ms : List Message)
      → CoreStep env ends c (save_run env now text key ms c)
  unfolding save_run
  save_run-CoreStep now text key ms =
      option_cases (CoreStep env ends c) (lookup key c.runs) _ _ (λ _. stay)
        (λ run _. save_turn-CoreStep now text run ms)

  pub begin_shutdown-CoreStep : CoreStep env ends c (begin_shutdown c).0
  unfolding begin_shutdown
  begin_shutdown-CoreStep = stops refl refl refl

  pub end_shutdown-CoreStep :
      (late : Bool) (ids : List String) → CoreStep env ends c (end_shutdown env late ids c).0
  unfolding end_shutdown
  end_shutdown-CoreStep late ids =
      if_cases (To {A = Answer}) (not late && all_done ids c.runs && (c.list_workers == 0)) _ _
        (λ _. same (record { runs = refl; retained = refl; stopped = refl })) (λ _. stay)
