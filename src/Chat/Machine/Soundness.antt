-- ===== src/Chat/Machine/Soundness.antt =====
-- What holds of one active run, and of each run of a registry.
use excelsior.Common.{
  ◌≤◌, ◌≡◌, refl, sym, subst, String, inl, inr, [], ◌∷◌, Option, none, some, Map, lookup, insert,
  erase, lookup-insert, lookup-erase, str_eq, eq_iff, Bool-cases, if_cases, arith,
}
use excelsior.Chat.Event.{PendingInteraction, message_bytes}
use excelsior.Chat.Workspace.{session_key}
use excelsior.Chat.Retention.{max_projection_bytes}
use excelsior.Chat.State.{Env, ActiveRun}
use excelsior.Chat.Runs.{is_persisting}
use excelsior.Chat.Lifecycle.{stop_run, stop_runs}
use excelsior.Chat.Machine.{
  RunStep, begins, emits, overflows, asks, answered, persists, cancels, IsFresh,
}

-- A property of the value, where there is one.
abbrev pub Holds {ℓ} : {A : Type ℓ} → (A → Type 0) → Option A → Type 0
Holds P none = Unit {0}
Holds P (some a) = P a

abbrev pub WaitsFor : String → Option PendingInteraction → Type 0
WaitsFor channel none = Unit {0}
WaitsFor channel (some pi) = pi.id ≡ channel

module _ {S : Type 0} (env : Env S) where
  -- The run stands under its session's key, the counter of its projection has the bytes of its
  -- messages at least and is within the limit, and an open question is answered on that question's
  -- channel.
  pub record IsSound (key : String) (run : ActiveRun) : Type 0 where
    pub keyed : session_key env.platform run.workspace run.session_id ≡ key
    pub budget : run.projection_bytes ≤ max_projection_bytes
    pub counted : message_bytes env.json run.messages ≤ run.projection_bytes
    pub channel : WaitsFor run.response run.pending

  abbrev pub AllSound : Map ActiveRun → Type 0
  AllSound runs = (key : String) → Holds (IsSound key) (lookup key runs)

  pub IsSound-lookup :
      (key : String) (runs : Map ActiveRun) {run : ActiveRun}
      → AllSound runs
      → lookup key runs ≡ some run
      → IsSound key run
  IsSound-lookup key runs v e = subst (Holds (IsSound key)) e (v key)

  pub RunStep-IsSound :
      (key : String) (run run' : ActiveRun)
      → IsSound key run
      → RunStep env.json run run'
      → IsSound key run'
  RunStep-IsSound key run run' s (begins e) =
      subst (IsSound key) (sym e)
        (record { keyed = s.keyed; budget = s.budget; counted = s.counted; channel = s.channel })
  RunStep-IsSound key run run' s (emits ev ok_ fits e) = subst (IsSound key) (sym e) (record {
    keyed = s.keyed;
    budget = fits;
    counted = omega (arith, s.counted);
    channel = s.channel;
  })
  RunStep-IsSound key run run' s (overflows ev ok_ over e) =
      subst (IsSound key) (sym e)
        (record { keyed = s.keyed; budget = s.budget; counted = s.counted; channel = s.channel })
  RunStep-IsSound key run run' s (asks pi live e) =
      subst (IsSound key) (sym e)
        (record { keyed = s.keyed; budget = s.budget; counted = s.counted; channel = refl })
  RunStep-IsSound key run run' s (answered pi open_ live e) =
      subst (IsSound key) (sym e)
        (record { keyed = s.keyed; budget = s.budget; counted = s.counted; channel = tt })
  RunStep-IsSound key run run' s (persists live e) =
      subst (IsSound key) (sym e)
        (record { keyed = s.keyed; budget = s.budget; counted = s.counted; channel = s.channel })
  RunStep-IsSound key run run' s (cancels before e) =
      subst (IsSound key) (sym e)
        (record { keyed = s.keyed; budget = s.budget; counted = s.counted; channel = s.channel })

  pub IsFresh-IsSound : (key : String) (run : ActiveRun) → IsFresh env key run → IsSound key run
  IsFresh-IsSound key run f = record {
    keyed = f.keyed;
    budget = f.budget;
    counted = omega (arith, f.bytes);
    channel = subst (WaitsFor run.response) (sym f.pending) tt;
  }

  pub AllSound-insert :
      (key : String) (run : ActiveRun) (runs : Map ActiveRun)
      → AllSound runs
      → IsSound key run
      → AllSound (insert key run runs)
  AllSound-insert key run runs v s j = elim (Bool-cases (str_eq key j)) [
    | inl e ↦
        rw (lookup-insert key j run runs, e) (subst (λ k. IsSound k run) ((eq_iff key j).0 e) s)
    | inr e ↦ rw (lookup-insert key j run runs, e) (v j)
  ]

  pub AllSound-erase :
      (key : String) (runs : Map ActiveRun) → AllSound runs → AllSound (erase key runs)
  AllSound-erase key runs v j = elim (Bool-cases (str_eq key j)) [
    | inl e ↦ rw (lookup-erase key j runs, e) tt
    | inr e ↦ rw (lookup-erase key j runs, e) (v j)
  ]

  stop_run-IsSound : (key : String) (run : ActiveRun) → IsSound key run → IsSound key (stop_run run)
  unfolding stop_run
  stop_run-IsSound key run s =
      if_cases (IsSound key) (is_persisting run.state) _ _ (λ _. s)
        (λ _. record {
          keyed = s.keyed;
          budget = s.budget;
          counted = s.counted;
          channel = s.channel;
        })

  pub AllSound-stop_runs :
      (runs : Map ActiveRun) (key : String)
      → Holds (IsSound key) (lookup key runs)
      → Holds (IsSound key) (lookup key (stop_runs runs))
  unfolding stop_runs lookup
  AllSound-stop_runs [] key h = tt
  AllSound-stop_runs ((j, run) ∷ rest) key h = elim (Bool-cases (str_eq j key)) [
    | inl e ↦ rw e (stop_run-IsSound key run (rw e at h))
    | inr e ↦ rw e (AllSound-stop_runs rest key (rw e at h))
  ]
