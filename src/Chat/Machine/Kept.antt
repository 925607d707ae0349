-- ===== src/Chat/Machine/Kept.antt =====
-- What holds of the kept snapshots, beside the active runs.
use excelsior.Common.{
  ◌≤◌, ◌≡◌, refl, ap, ◌∙◌, String, ◌⊎◌, inl, inr, [], ◌∷◌, none, some, arith, Map, lookup, insert,
  erase, lookup-insert, lookup-erase, str_eq, eq_iff, Bool-cases, length, length-remove_first,
}
use excelsior.Chat.Event.{Snapshot, Json}
use excelsior.Chat.Retention.{
  Retained, drop_terminal, retain, max_retained_bytes, max_retained_sessions,
}
use excelsior.Chat.Retention.Accounting.{IsAccounted, lookup-drop_terminal}
use excelsior.Chat.Retention.Bounds.{retain_bounds, retain-parts}
use excelsior.Chat.State.{ActiveRun}
use excelsior.Chat.Lifecycle.{stop_runs}

-- At most 64 kept sessions, within 32 MiB; one snapshot alone may be larger.
pub record IsWithin (r : Retained) : Type 0 where
  pub count : length r.retained_order ≤ max_retained_sessions
  pub bytes : (r.retained_bytes ≤ max_retained_bytes) ⊎ (length r.retained_order ≤ 1)

pub drop_terminal-IsWithin :
    (json : Json) (key : String) (r : Retained) → IsWithin r → IsWithin (drop_terminal json key r)
unfolding drop_terminal
drop_terminal-IsWithin json key r v = ground (arith, length-remove_first key r.retained_order)

pub retain-IsWithin :
    (json : Json) (key : String) (snap : Snapshot) (r : Retained)
    → IsAccounted json r
    → IsWithin (retain json key snap r)
retain-IsWithin json key snap r v =
    let (count, bytes) = retain_bounds json key snap r v in
    record {
      count = count;
      bytes = elim bytes [
        | inl fits ↦ inl fits
        | inr (alone, over) ↦ inr (omega (arith, ap length alone))
      ];
    }

-- A session is not active and kept at once.
abbrev pub Exclusive : Map ActiveRun → Map Snapshot → Type 0
Exclusive runs terminal = (key : String) → (lookup key runs ≡ none) ⊎ (lookup key terminal ≡ none)

pub Exclusive-move :
    (key : String) (run run' : ActiveRun) (runs : Map ActiveRun) (t : Map Snapshot)
    → lookup key runs ≡ some run
    → Exclusive runs t
    → Exclusive (insert key run' runs) t
Exclusive-move key run run' runs t e x j =
    ground (arith, lookup-insert key j run' runs, x j, x key, eq_iff key j)

pub Exclusive-start :
    (json : Json) (key : String) (run : ActiveRun) (runs : Map ActiveRun) (r : Retained)
    → Exclusive runs r.terminal
    → Exclusive (insert key run runs) (drop_terminal json key r).terminal
Exclusive-start json key run runs r x j =
    ground (arith, lookup-insert key j run runs, lookup-drop_terminal json key j r, x j)

pub Exclusive-discard :
    (json : Json) (key : String) (runs : Map ActiveRun) (r : Retained)
    → Exclusive runs r.terminal
    → Exclusive runs (drop_terminal json key r).terminal
Exclusive-discard json key runs r x j = ground (arith, lookup-drop_terminal json key j r, x j)

pub Exclusive-finish :
    (json : Json) (key : String) (snap : Snapshot) (runs : Map ActiveRun) (r : Retained)
    → IsAccounted json r
    → Exclusive runs r.terminal
    → Exclusive (erase key runs) (retain json key snap r).terminal
Exclusive-finish json key snap runs r v x j =
    let (evicted, split, order, newest, kept) = retain-parts json key snap r v in
    elim (Bool-cases (str_eq key j)) [
      | inl e ↦ inl (lookup-erase key j runs ∙ rw e)
      | inr e ↦ ground (arith, lookup-erase key j runs, kept j e, x j)
    ]

pub lookup-stop_runs :
    (runs : Map ActiveRun) (key : String)
    → lookup key runs ≡ none
    → lookup key (stop_runs runs) ≡ none
unfolding stop_runs lookup
lookup-stop_runs [] key e = refl
lookup-stop_runs ((j, run) ∷ rest) key e = ground (arith, lookup-stop_runs rest key)
