-- ===== src/Chat/Turn/Barrier.antt =====
-- Cancellation against persistence: whichever comes first under the lock wins.
use excelsior.Common.{
  ◌≡◌, refl, String, true, false, not, ◌||◌, [], ◌∷◌, some, Map, err, lookup, lookup-insert_self,
  str_eq, eq_refl, arith, if_cases, Bool-cases, ◌⊎◌, inl, inr,
}
use excelsior.Chat.Workspace.{session_key}
use excelsior.Chat.State.{Coordinator, Env, ActiveRun, context_canceled}
use excelsior.Chat.Runs.{is_persisting, on_persist, cancel}
use excelsior.Chat.Lifecycle.{stop_run, stop_runs, begin_shutdown}
use excelsior.Chat.Machine.Moves.{Answer}

lookup-stop_runs_persisting :
    (runs : Map ActiveRun) (key : String) (run : ActiveRun)
    → lookup key runs ≡ some run
    → is_persisting run.state ≡ true
    → lookup key (stop_runs runs) ≡ some run
unfolding stop_runs lookup stop_run
lookup-stop_runs_persisting [] key run e h = cc
lookup-stop_runs_persisting ((j, r) ∷ rest) key run e h =
    ground (arith, lookup-stop_runs_persisting rest key run)

module _ {S : Type 0} (env : Env S) (ws id : String) (run : ActiveRun) (c : Coordinator S) where
  abbrev key : String
  key = session_key env.platform ws id

  cancel-persisting :
      (run_id : String)
      → lookup key c.runs ≡ some run
      → is_persisting run.state ≡ true
      → (cancel env ws id run_id c).0 ≡ c
  unfolding cancel
  cancel-persisting run_id e h =
      rw (cancel, e)
        (if_cases (λ (r : Coordinator S × Answer). r.0 ≡ c)
          (str_eq run_id "" || not (str_eq run.id run_id)) _ _ (λ _. refl) (λ _. rw h refl))

  cancel-live :
      lookup key c.runs ≡ some run
      → is_persisting run.state ≡ false
      → str_eq run.id "" ≡ false
      → lookup key (cancel env ws id run.id c).0.runs ≡ some (record run { canceled = true })
  unfolding cancel
  cancel-live e h named = rw (cancel, e, named, eq_refl run.id, h) (lookup-insert_self key _ c.runs)

  on_persist-canceled :
      (d : Coordinator S) (r : ActiveRun)
      → lookup key d.runs ≡ some r
      → r.canceled ≡ true
      → on_persist env key d ≡ (d, err context_canceled)
  unfolding on_persist
  on_persist-canceled d r e h = rw (on_persist, e, h) refl

  -- An active run with an identifier is persisting, and then a cancellation of the session changes
  -- nothing and a shutdown leaves the run as it is. Or it is not, and then after its cancellation
  -- its attempt to persist is refused and changes nothing.
  pub cancel_or_persist :
      lookup key c.runs ≡ some run
      → str_eq run.id "" ≡ false
      → ((is_persisting run.state ≡ true)
          × ((run_id : String) → (cancel env ws id run_id c).0 ≡ c)
          × (lookup key (begin_shutdown c).0.runs ≡ some run))
        ⊎ ((is_persisting run.state ≡ false)
            × (let d = (cancel env ws id run.id c).0 in
                on_persist env key d ≡ (d, err context_canceled)))
  unfolding begin_shutdown
  cancel_or_persist e named = elim (Bool-cases (is_persisting run.state)) [
    | inl h ↦
        inl (
          h,
          λ run_id. cancel-persisting run_id e h,
          lookup-stop_runs_persisting c.runs key run e h,
        )
    | inr h ↦
        inr (h, on_persist-canceled (cancel env ws id run.id c).0 _ (cancel-live e h named) refl)
  ]
