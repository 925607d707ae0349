-- ===== src/Chat/Machine/Continuity.antt =====
-- A run from its reservation to its outcome: it is one run throughout, and it leaves the registry in
-- no other way than with its outcome kept.
use mathlib.Core.Path.{subst₂}
use mathlib.Core.Option.{some-injective}
use excelsior.Common.{
  ◌≡◌, refl, sym, subst, ap, ◌∙◌, String, true, false, ◌⊎◌, inl, inr, List, [], ◌∷◌, Option, none,
  some, arith, Map, lookup, erase, lookup-insert, lookup-erase, lookup-erase_self, str_eq, eq_iff,
  Bool-cases,
}
use excelsior.Llm.{Message}
use excelsior.Chat.Event.{Outcome, Snapshot}
use excelsior.Chat.Retention.{Retained, strip_oversized, retain}
use excelsior.Chat.Retention.Bounds.{retain-parts}
use excelsior.Chat.State.{Coordinator, Env, ActiveRun}
use excelsior.Chat.Runs.{terminal_snapshot}
use excelsior.Chat.Lifecycle.{stop_run, stop_runs}
use excelsior.Chat.Steps.{Call, step, run_calls}
use excelsior.Chat.Machine.{
  RunStep, begins, emits, overflows, asks, answered, persists, cancels, CoreStep, Ending, EndedBy,
  same, moves, starts, finishes, discards, stops,
}
use excelsior.Chat.Machine.Refines.{step-CoreStep}
use excelsior.Chat.Machine.Kept.{lookup-stop_runs}
use excelsior.Chat.Machine.Ended.{IsKeptOf, strip_oversized-IsKeptOf, terminal_snapshot-IsKeptOf}
use excelsior.Chat.Machine.Invariant.{IsConsistent}

-- What no move changes, and that a canceled run stays canceled.
pub record IsSameRun (run run' : ActiveRun) : Type 0 where
  pub id : run'.id ≡ run.id
  pub workspace : run'.workspace ≡ run.workspace
  pub session_id : run'.session_id ≡ run.session_id
  pub messages : run'.messages ≡ run.messages
  pub session_record : run'.session_record ≡ run.session_record
  pub canceled : (run.canceled ≡ false) ⊎ (run'.canceled ≡ true)

same_fields : (run : ActiveRun) → IsSameRun run run
same_fields run = record {
  id = refl;
  workspace = refl;
  session_id = refl;
  messages = refl;
  session_record = refl;
  canceled = elim (Bool-cases run.canceled) [ inl e ↦ inr e | inr e ↦ inl e ];
}

module _ {S : Type 0} (env : Env S) where
  RunStep-IsSameRun : {run run' : ActiveRun} → RunStep env.json run run' → IsSameRun run run'
  RunStep-IsSameRun {run} (begins e) = subst (IsSameRun run) (sym e) (ground arith)
  RunStep-IsSameRun {run} (emits ev ok_ fits e) = subst (IsSameRun run) (sym e) (ground arith)
  RunStep-IsSameRun {run} (overflows ev ok_ over e) = subst (IsSameRun run) (sym e) (ground arith)
  RunStep-IsSameRun {run} (asks pi live e) = subst (IsSameRun run) (sym e) (ground arith)
  RunStep-IsSameRun {run} (answered pi open_ live e) = subst (IsSameRun run) (sym e) (ground arith)
  RunStep-IsSameRun {run} (persists live e) = subst (IsSameRun run) (sym e) (ground arith)
  RunStep-IsSameRun {run} (cancels before e) = subst (IsSameRun run) (sym e) (ground arith)

  stop_run-IsSameRun : (run : ActiveRun) → IsSameRun run (stop_run run)
  unfolding stop_run
  stop_run-IsSameRun run = ground arith

  lookup-stop_runs-some :
      (runs : Map ActiveRun) (key : String) (run : ActiveRun)
      → lookup key runs ≡ some run
      → lookup key (stop_runs runs) ≡ some (stop_run run)
  unfolding stop_runs lookup
  lookup-stop_runs-some [] key run e = cc
  lookup-stop_runs-some ((j, r) ∷ rest) key run e =
      ground (arith, lookup-stop_runs-some rest key run)

  -- The run at a key goes on as the same run, or is over with the outcome of the call kept.
  abbrev pub Continues : Ending → String → ActiveRun → Coordinator S → Type 0
  Continues ends key run d =
      ((run' : ActiveRun) × (lookup key d.runs ≡ some run') × IsSameRun run run')
      ⊎ ((o : Outcome) × (result : Option (List Message)) × (snap : Snapshot) × ends key run o
            result
          × (lookup key d.runs ≡ none)
          × (lookup key d.terminal ≡ some snap)
          × IsKeptOf env run o snap)

  finished :
      (ends : Ending) (c d : Coordinator S) (key : String) (run : ActiveRun) (o : Outcome)
      (result : Option (List Message))
      → ends key run o result
      → IsConsistent env c
      → d.runs ≡ erase key c.runs
      → d.retained ≡ retain env.json key (terminal_snapshot run o result) c.retained
      → Continues ends key run d
  finished ends c d key run o result why v p q =
      let snap = terminal_snapshot run o result in
      let (evicted, split, order, newest, kept) =
        retain-parts env.json key snap c.retained v.accounted in
      inr (
        o,
        result,
        strip_oversized env.json snap,
        why,
        ap (lookup key) p ∙ lookup-erase_self key c.runs,
        ap (λ (r : Retained). lookup key r.terminal) q ∙ newest,
        strip_oversized-IsKeptOf env run o snap (terminal_snapshot-IsKeptOf env run o result),
      )

  CoreStep-Continues :
      {ends : Ending} (c d : Coordinator S) (key : String) (run : ActiveRun)
      → IsConsistent env c
      → lookup key c.runs ≡ some run
      → CoreStep env ends c d
      → Continues ends key run d
  CoreStep-Continues c d key run v e (same s) =
      inl (run, ap (lookup key) s.runs ∙ e, same_fields run)
  CoreStep-Continues c d key run v e (moves j r r' e' m p q t) = elim (Bool-cases (str_eq j key)) [
    | inl hit ↦
        let at : j ≡ key = (eq_iff j key).0 hit in
        inl (
          r',
          ap (lookup key) p ∙ lookup-insert j key r' c.runs ∙ rw hit,
          subst (λ x. IsSameRun x r')
              (some-injective r run (sym e' ∙ ap (λ k. lookup k c.runs) at ∙ e))
              (RunStep-IsSameRun m),
        )
    | inr miss ↦
        inl (run, ap (lookup key) p ∙ lookup-insert j key r' c.runs ∙ rw miss e, same_fields run)
  ]
  CoreStep-Continues c d key run v e (starts j r open_ free f p q t) =
      elim (Bool-cases (str_eq j key)) [
        | inl hit ↦ let at : j ≡ key = (eq_iff j key).0 hit in cc (ap (λ k. lookup k c.runs) at)
        | inr miss ↦
            inl (run, ap (lookup key) p ∙ lookup-insert j key r c.runs ∙ rw miss e, same_fields run)
      ]
  CoreStep-Continues {ends} c d key run v e (finishes j r o result why e' p q t) =
      elim (Bool-cases (str_eq j key)) [
        | inl hit ↦
            let at : j ≡ key = (eq_iff j key).0 hit in
            let this : r ≡ run = some-injective r run (sym e' ∙ ap (λ k. lookup k c.runs) at ∙ e) in
            subst₂ (λ k x. Continues ends k x d) at this (finished ends c d j r o result why v p q)
        | inr miss ↦
            inl (run, ap (lookup key) p ∙ lookup-erase j key c.runs ∙ rw miss e, same_fields run)
      ]
  CoreStep-Continues c d key run v e (discards j open_ free p q t) =
      inl (run, ap (lookup key) p ∙ e, same_fields run)
  CoreStep-Continues c d key run v e (stops p q t) = inl (
    stop_run run,
    ap (lookup key) p ∙ lookup-stop_runs-some c.runs key run e,
    stop_run-IsSameRun run,
  )

  -- From a consistent state, whatever the call, an active run goes on under its key as the same run,
  -- with the identity, messages and record that it was reserved with, or it is over. It is over only
  -- by the end of its own turn, or by a runner that was not created, and then the kept snapshot of
  -- its session has the run's identity and the outcome that this call gave the run.
  pub run-Continues :
      (c : Coordinator S) (call : Call) (key : String) (run : ActiveRun)
      → IsConsistent env c
      → lookup key c.runs ≡ some run
      → Continues (EndedBy c.ephemeral call) key run (step env c call)
  run-Continues c call key run v e =
      CoreStep-Continues c (step env c call) key run v e (step-CoreStep env c call)

  -- A stopped coordinator stays stopped, and no session of it becomes active.
  CoreStep-stopped :
      {ends : Ending} (c d : Coordinator S)
      → c.stopped ≡ true
      → CoreStep env ends c d
      → (d.stopped ≡ true) × ((key : String) → lookup key c.runs ≡ none → lookup key d.runs ≡ none)
  CoreStep-stopped c d h (same s) = (s.stopped ∙ h, λ key e. ap (lookup key) s.runs ∙ e)
  CoreStep-stopped c d h (moves j r r' e' m p q t) = (
    t ∙ h,
    λ key e. ap (lookup key) p ∙ ground (arith, lookup-insert j key r' c.runs, eq_iff j key),
  )
  CoreStep-stopped c d h (starts j r open_ free f p q t) = absurd (cc)
  CoreStep-stopped c d h (finishes j r o result why e' p q t) =
      (t ∙ h, λ key e. ap (lookup key) p ∙ ground (arith, lookup-erase j key c.runs))
  CoreStep-stopped c d h (discards j open_ free p q t) = absurd (cc)
  CoreStep-stopped c d h (stops p q t) =
      (t, λ key e. ap (lookup key) p ∙ lookup-stop_runs c.runs key e)

  -- After the coordinator is stopped, no calls make a session active that was not.
  pub stopped_starts_nothing :
      (c : Coordinator S) (calls : List Call) (key : String)
      → c.stopped ≡ true
      → lookup key c.runs ≡ none
      → lookup key (run_calls env c calls).runs ≡ none
  unfolding run_calls
  stopped_starts_nothing c [] key h e = e
  stopped_starts_nothing c (call ∷ calls) key h e =
      let (h', still) = CoreStep-stopped c (step env c call) h (step-CoreStep env c call) in
      stopped_starts_nothing (step env c call) calls key h' (still key e)
