-- ===== src/Chat/Machine/Invariant.antt =====
-- What holds of the coordinator after any calls.
use excelsior.Common.{
  ◌≡◌, refl, sym, subst, Bool, inl, inr, List, [], ◌∷◌, Option, arith, Map, lookup,
}
use excelsior.Chat.Retention.{Retained}
use excelsior.Chat.Retention.Accounting.{IsAccounted, drop_terminal-IsAccounted}
use excelsior.Chat.Retention.Bounds.{retain-IsAccounted}
use excelsior.Chat.State.{Coordinator, Env, ActiveRun, new_coordinator}
use excelsior.Chat.Steps.{Call, step, run_calls}
use excelsior.Chat.Machine.{CoreStep, Ending, same, moves, starts, finishes, discards, stops}
use excelsior.Chat.Machine.Refines.{step-CoreStep}
use excelsior.Chat.Machine.Kept.{
  IsWithin, Exclusive, drop_terminal-IsWithin, retain-IsWithin, Exclusive-move, Exclusive-start,
  Exclusive-discard, Exclusive-finish, lookup-stop_runs,
}
use excelsior.Chat.Machine.Soundness.{
  AllSound, IsSound-lookup, RunStep-IsSound, IsFresh-IsSound, AllSound-insert, AllSound-erase,
  AllSound-stop_runs,
}

module _ {S : Type 0} (env : Env S) where
  pub record IsConsistent (c : Coordinator S) : Type 0 where
    pub runs : AllSound env c.runs
    pub accounted : IsAccounted env.json c.retained
    pub within : IsWithin c.retained
    pub exclusive : Exclusive c.runs c.terminal

  -- The same for a registry and kept snapshots by themselves, to be moved along equations.
  abbrev AreConsistent : Map ActiveRun → Retained → Type 0
  AreConsistent runs r =
      AllSound env runs × IsAccounted env.json r × IsWithin r × Exclusive runs r.terminal

  build :
      (d : Coordinator S) {runs : Map ActiveRun} {r : Retained}
      → d.runs ≡ runs
      → d.retained ≡ r
      → AreConsistent runs r
      → IsConsistent d
  build d {runs} {r} p q h =
      let moved =
        subst (λ x. AreConsistent d.runs x) (sym q) (subst (λ x. AreConsistent x r) (sym p) h) in
      record { runs = moved.0; accounted = moved.1; within = moved.2; exclusive = moved.3 }

  CoreStep-IsConsistent :
      {ends : Ending} (c d : Coordinator S)
      → IsConsistent c
      → CoreStep env ends c d
      → IsConsistent d
  CoreStep-IsConsistent c d v (same s) =
      build d s.runs s.retained (v.runs, v.accounted, v.within, v.exclusive)
  CoreStep-IsConsistent c d v (moves key run run' e m p q t) = build d p q (
    AllSound-insert env key run' c.runs v.runs
        (RunStep-IsSound env key run run' (IsSound-lookup env key c.runs v.runs e) m),
    v.accounted,
    v.within,
    Exclusive-move key run run' c.runs c.terminal e v.exclusive,
  )
  CoreStep-IsConsistent c d v (starts key run open_ free f p q t) = build d p q (
    AllSound-insert env key run c.runs v.runs (IsFresh-IsSound env key run f),
    drop_terminal-IsAccounted env.json key c.retained v.accounted,
    drop_terminal-IsWithin env.json key c.retained v.within,
    Exclusive-start env.json key run c.runs c.retained v.exclusive,
  )
  CoreStep-IsConsistent c d v (finishes key run o result why e p q t) = build d p q (
    AllSound-erase env key c.runs v.runs,
    retain-IsAccounted env.json key _ c.retained v.accounted,
    retain-IsWithin env.json key _ c.retained v.accounted,
    Exclusive-finish env.json key _ c.runs c.retained v.accounted v.exclusive,
  )
  CoreStep-IsConsistent c d v (discards key open_ free p q t) = build d p q (
    v.runs,
    drop_terminal-IsAccounted env.json key c.retained v.accounted,
    drop_terminal-IsWithin env.json key c.retained v.within,
    Exclusive-discard env.json key c.runs c.retained v.exclusive,
  )
  CoreStep-IsConsistent c d v (stops p q t) = build d p q (
    (λ key. AllSound-stop_runs env c.runs key (v.runs key)),
    v.accounted,
    v.within,
    (λ key. elim (v.exclusive key) [ inl e ↦ inl (lookup-stop_runs c.runs key e) | inr e ↦ inr e ]),
  )

  run_calls-IsConsistent :
      (c : Coordinator S) (calls : List Call)
      → IsConsistent c
      → IsConsistent (run_calls env c calls)
  unfolding run_calls
  run_calls-IsConsistent c [] v = v
  run_calls-IsConsistent c (call ∷ calls) v =
      run_calls-IsConsistent (step env c call) calls
        (CoreStep-IsConsistent c (step env c call) v (step-CoreStep env c call))

  new_coordinator-IsConsistent :
      (session_store : Option S) (ephemeral : Bool) (memory : S)
      → IsConsistent (new_coordinator session_store ephemeral memory)
  unfolding new_coordinator lookup
  new_coordinator-IsConsistent session_store ephemeral memory = record {
    runs = λ key. tt;
    accounted = record { listed = λ k. refl; distinct = tt; counted = refl };
    within = record { count = omega arith; bytes = inl (omega arith) };
    exclusive = λ key. inl refl;
  }

  -- After any calls on a new coordinator: a run stands under its own session's key, the counter of
  -- its projection has the bytes of its messages at least and is within the limit of 4 MiB, and an
  -- open question is answered on its own channel. The
  -- kept snapshots are listed once each and counted by their bytes; there are at most
  -- 64, within 32 MiB unless one alone is larger. No session is active and kept at once.
  pub always-IsConsistent :
      (session_store : Option S) (ephemeral : Bool) (memory : S) (calls : List Call)
      → IsConsistent (run_calls env (new_coordinator session_store ephemeral memory) calls)
  always-IsConsistent session_store ephemeral memory calls =
      run_calls-IsConsistent (new_coordinator session_store ephemeral memory) calls
        (new_coordinator-IsConsistent session_store ephemeral memory)
