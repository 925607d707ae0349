-- ===== src/Chat/Machine/Projection.antt =====
-- What a run's projection holds is within its limit: the counter that is checked covers it.
use Prim.Native.Char.{len_utf8}
use Prim.Native.String
use Prim.Native.String.{len}
use Prim.Native.String.len.{cons}
use text.Mathlib.TextLemmas.{nil-append, cons-append}
use mathlib.Core.Option.{some-injective}
use excelsior.Common.{
  ℕ, ◌+◌, ◌≤◌, ◌≡◌, refl, sym, subst, ap, ◌∙◌, String, Bool, ◌&&◌, if◌then◌else◌, str_eq, inl, inr,
  List, [], ◌∷◌, Option, none, some, Map, lookup, lookup-insert, lookup-erase, sum_of, Bool-cases,
  if_cases, arith,
}
use excelsior.Chat.Event.{Event, Json, message_bytes, event_bytes}
use excelsior.Chat.Retention.{max_projection_bytes}
use excelsior.Chat.State.{Coordinator, Env, ActiveRun, new_coordinator}
use excelsior.Chat.Runs.{coalesce, is_fragment, is_persisting}
use excelsior.Chat.Lifecycle.{stop_run, stop_runs}
use excelsior.Chat.Steps.{Call, step, run_calls}
use excelsior.Chat.Machine.{
  RunStep, begins, emits, overflows, asks, answered, persists, cancels, CoreStep, Ending, same,
  moves, starts, finishes, discards, stops,
}
use excelsior.Chat.Machine.Refines.{step-CoreStep}

pub len-append : (s t : String) → len (String.◌++◌ s t) ≡ len s + len t
len-append String.[] t = ap len (nil-append t) ∙ omega arith
len-append (String.◌∷◌ c s) t =
    let whole : len (String.◌∷◌ c (String.◌++◌ s t)) ≡ len_utf8 c + len (String.◌++◌ s t) =
      cons c (String.◌++◌ s t) in
    let head : len (String.◌∷◌ c s) ≡ len_utf8 c + len s = cons c s in
    ap len (cons-append c s t) ∙ omega (arith, whole, head, len-append s t)

-- The bytes of an event's texts.
abbrev pub text_size : Event → ℕ
text_size ev = len ev.text + len ev.reasoning

-- encoding/json writes the texts of an event, and escapes only make them longer.
abbrev pub IsVerbose : Json → Type 0
IsVerbose json = (ev : Event) → text_size ev ≤ event_bytes json ev

-- Joining a fragment to the last event loses no text and adds none.
sum_of-coalesce :
    (evs : List Event) (ev : Event)
    → sum_of text_size (coalesce evs ev) ≡ sum_of text_size evs + text_size ev
unfolding coalesce
sum_of-coalesce [] ev = omega arith
sum_of-coalesce (last ∷ []) ev =
    if_cases (λ out. sum_of text_size out ≡ sum_of text_size (last ∷ []) + text_size ev)
      (is_fragment ev && str_eq last.type ev.type) _ _
      (λ _. omega (arith, len-append last.text ev.text, len-append last.reasoning ev.reasoning))
      (λ _. omega arith)
sum_of-coalesce (e ∷ f ∷ rest) ev = omega (arith, sum_of-coalesce (f ∷ rest) ev)

module _ {S : Type 0} (env : Env S) where
  -- The counter is within the limit, and covers the messages and the texts of the events.
  abbrev IsCovered : ActiveRun → Type 0
  IsCovered run =
      (message_bytes env.json run.messages + sum_of text_size run.events ≤ run.projection_bytes)
      × (run.projection_bytes ≤ max_projection_bytes)

  RunStep-IsCovered :
      (run run' : ActiveRun)
      → IsVerbose env.json
      → RunStep env.json run run'
      → IsCovered run
      → IsCovered run'
  RunStep-IsCovered run run' V (begins e) v = subst IsCovered (sym e) v
  RunStep-IsCovered run run' V (emits ev ok_ fits e) v =
      subst IsCovered (sym e) (omega (arith, v.0, V ev, sum_of-coalesce run.events ev), fits)
  RunStep-IsCovered run run' V (overflows ev ok_ over e) v = subst IsCovered (sym e) v
  RunStep-IsCovered run run' V (asks pi live e) v = subst IsCovered (sym e) v
  RunStep-IsCovered run run' V (answered pi open_ live e) v = subst IsCovered (sym e) v
  RunStep-IsCovered run run' V (persists live e) v = subst IsCovered (sym e) v
  RunStep-IsCovered run run' V (cancels before e) v = subst IsCovered (sym e) v

  abbrev AllCovered : Map ActiveRun → Type 0
  AllCovered runs = (key : String) (run : ActiveRun) → lookup key runs ≡ some run → IsCovered run

  at_key :
      (key j : String) (run : ActiveRun) (c d : Coordinator S) (after : Option ActiveRun)
      → lookup j d.runs ≡ (if str_eq key j then after else lookup j c.runs)
      → ((r : ActiveRun) → after ≡ some r → IsCovered r)
      → AllCovered c.runs
      → lookup j d.runs ≡ some run
      → IsCovered run
  at_key key j run c d after e here v found = elim (Bool-cases (str_eq key j)) [
    | inl h ↦ here run (sym (e ∙ rw h refl) ∙ found)
    | inr h ↦ v j run (sym (e ∙ rw h refl) ∙ found)
  ]

  abbrev CoveredAt : String → Map ActiveRun → Type 0
  CoveredAt key runs = (run : ActiveRun) → lookup key runs ≡ some run → IsCovered run

  stop_run-IsCovered : (run : ActiveRun) → IsCovered run → IsCovered (stop_run run)
  unfolding stop_run
  stop_run-IsCovered run v = if_cases IsCovered (is_persisting run.state) _ _ (λ _. v) (λ _. v)

  stop_runs-CoveredAt :
      (runs : Map ActiveRun) (key : String) → CoveredAt key runs → CoveredAt key (stop_runs runs)
  unfolding stop_runs lookup
  stop_runs-CoveredAt [] key v = λ run found. absurd cc
  stop_runs-CoveredAt ((j, r) ∷ rest) key v = elim (Bool-cases (str_eq j key)) [
    | inl e ↦ rw e (λ run h.
        subst IsCovered (some-injective (stop_run r) run h)
          (stop_run-IsCovered r (v r (rw e refl))))
    | inr e ↦ rw e (stop_runs-CoveredAt rest key (rw e at v))
  ]

  CoreStep-AllCovered :
      {ends : Ending} (c d : Coordinator S)
      → IsVerbose env.json
      → CoreStep env ends c d
      → AllCovered c.runs
      → AllCovered d.runs
  CoreStep-AllCovered c d V (same s) v j run found = v j run (sym (ap (lookup j) s.runs) ∙ found)
  CoreStep-AllCovered c d V (moves key r r' e m p q t) v j run found =
      at_key key j run c d (some r') (ap (lookup j) p ∙ lookup-insert key j r' c.runs)
        (λ x h. subst IsCovered (some-injective r' x h) (RunStep-IsCovered r r' V m (v key r e))) v
        found
  CoreStep-AllCovered c d V (starts key r open_ free f p q t) v j run found =
      at_key key j run c d (some r) (ap (lookup j) p ∙ lookup-insert key j r c.runs)
        (λ x h.
          subst IsCovered (some-injective r x h)
            (omega (arith, f.bytes, ap (sum_of text_size) f.events), f.budget))
        v found
  CoreStep-AllCovered c d V (finishes key r o result why e p q t) v j run found =
      at_key key j run c d none (ap (lookup j) p ∙ lookup-erase key j c.runs) (λ x h. absurd cc) v
        found
  CoreStep-AllCovered c d V (discards key open_ free p q t) v j run found =
      v j run (sym (ap (lookup j) p) ∙ found)
  CoreStep-AllCovered c d V (stops p q t) v j run found =
      stop_runs-CoveredAt c.runs j (v j) run (sym (ap (lookup j) p) ∙ found)

  run_calls-AllCovered :
      (c : Coordinator S) (calls : List Call)
      → IsVerbose env.json
      → AllCovered c.runs
      → AllCovered (run_calls env c calls).runs
  unfolding run_calls
  run_calls-AllCovered c [] V v = v
  run_calls-AllCovered c (call ∷ calls) V v =
      run_calls-AllCovered (step env c call) calls V
        (CoreStep-AllCovered c (step env c call) V (step-CoreStep env c call) v)

  new-AllCovered :
      (session_store : Option S) (ephemeral : Bool) (memory : S)
      → AllCovered (new_coordinator session_store ephemeral memory).runs
  unfolding new_coordinator lookup
  new-AllCovered session_store ephemeral memory key run found = absurd cc

  -- After any calls on a new coordinator, the messages of an active run, as they are encoded, and all
  -- the text and reasoning that its events have streamed are together within 4 MiB.
  -- The encoding of an event is at least as long as its texts.
  pub projection_bounded :
      IsVerbose env.json
      → (session_store : Option S) (ephemeral : Bool) (memory : S) (calls : List Call)
        (key : String) (run : ActiveRun)
      → lookup key (run_calls env (new_coordinator session_store ephemeral memory) calls).runs
        ≡ some run
      → message_bytes env.json run.messages + sum_of text_size run.events ≤ max_projection_bytes
  projection_bounded V session_store ephemeral memory calls key run found =
      let c = new_coordinator session_store ephemeral memory in
      let v =
        run_calls-AllCovered c calls V (new-AllCovered session_store ephemeral memory) key run
          found in
      omega (arith, v.0, v.1)
