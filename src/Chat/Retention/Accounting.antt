-- ===== src/Chat/Retention/Accounting.antt =====
-- The order lists exactly the retained sessions, each once, and the byte counter is their sum.
use excelsior.Common.{
  ℕ, zero, suc, ◌+◌, ◌≡◌, refl, sym, ap, ◌∙◌, true, false, inl, inr, List, [], ◌∷◌, ◌++◌, String,
  Option, none, some, arith, Map, lookup, insert, erase, lookup-erase, lookup-insert, contains,
  Distinct, remove_first, contains-remove_first, remove_first-Distinct, if◌then◌else◌, str_eq,
  eq_iff, eq_refl, is_some, Option-cases, Bool-cases,
}
use excelsior.Chat.Event.{Snapshot, Json, snapshot_bytes}
use excelsior.Chat.Retention.{Retained, drop_terminal, must_evict, make_room}

-- What the loop leaves: a tail of the order, whose snapshots are as they were.
pub record Evicted (r r' : Retained) : Type 0 where
  pub evicted : List String
  pub split : evicted ++ r'.retained_order ≡ r.retained_order
  pub kept :
      (j : String)
      → lookup j r'.terminal ≡ (if contains j evicted then none else lookup j r.terminal)

module _ (json : Json) where
  abbrev pub size_at : Option Snapshot → ℕ
  size_at none = 0
  size_at (some snap) = snapshot_bytes json snap

  -- The bytes of the snapshots that the keys name.
  abbrev pub total : Map Snapshot → List String → ℕ
  total t [] = 0
  total t (k ∷ ks) = size_at (lookup k t) + total t ks

  pub record IsAccounted (r : Retained) : Type 0 where
    pub listed : (k : String) → contains k r.retained_order ≡ is_some (lookup k r.terminal)
    pub distinct : Distinct r.retained_order
    pub counted : r.retained_bytes ≡ total r.terminal r.retained_order

  total-erase_other :
      (k : String) (t : Map Snapshot) (ks : List String)
      → contains k ks ≡ false
      → total (erase k t) ks ≡ total t ks
  total-erase_other k t [] h = refl
  total-erase_other k t (x ∷ ks) h =
      ground (arith, total-erase_other k t ks, lookup-erase k x t, eq_iff x k, eq_iff k x)

  pub total-insert_other :
      (k : String) (s : Snapshot) (t : Map Snapshot) (ks : List String)
      → contains k ks ≡ false
      → total (insert k s t) ks ≡ total t ks
  total-insert_other k s t [] h = refl
  total-insert_other k s t (x ∷ ks) h =
      ground (arith, total-insert_other k s t ks, lookup-insert k x s t, eq_iff x k, eq_iff k x)

  total-remove_first :
      (k : String) (t : Map Snapshot) (ks : List String)
      → contains k ks ≡ true
      → total t (remove_first k ks) + size_at (lookup k t) ≡ total t ks
  total-remove_first k t [] h = cc
  total-remove_first k t (x ∷ ks) h = elim (Bool-cases (str_eq x k)) [
    | inl e ↦
        let same : x ≡ k = (eq_iff x k).0 e in
        rw e (omega (arith, ap (λ j. size_at (lookup j t)) same))
    | inr e ↦ rw e (omega (arith, total-remove_first k t ks (ground arith)))
  ]

  remove_first_absent :
      (k : String) (ks : List String) → contains k ks ≡ false → remove_first k ks ≡ ks
  remove_first_absent k [] h = refl
  remove_first_absent k (x ∷ ks) h = ground (arith, remove_first_absent k ks)

  pub total-append :
      (t : Map Snapshot) (xs ys : List String) → total t (xs ++ ys) ≡ total t xs + total t ys
  total-append t [] ys = omega arith
  total-append t (x ∷ xs) ys = omega (arith, total-append t xs ys)

  -- `dropTerminalLocked` forgets one session, and its bytes.
  pub drop_terminal-IsAccounted :
      (k : String) (r : Retained) → IsAccounted r → IsAccounted (drop_terminal json k r)
  unfolding drop_terminal
  drop_terminal-IsAccounted k r v = elim (Option-cases (lookup k r.terminal)) [
    | inl e ↦
        rw (e, drop_terminal)
          (rw (remove_first_absent k r.retained_order (v.listed k ∙ ap is_some e)) v)
    | inr (s, e) ↦
        rw (e, drop_terminal)
          (record {
            listed = λ j. ground (
              arith,
              contains-remove_first k j r.retained_order v.distinct,
              lookup-erase k j r.terminal,
              v.listed j,
            );
            distinct = remove_first-Distinct k r.retained_order v.distinct;
            counted = omega (
              arith,
              v.counted,
              total-remove_first k r.terminal r.retained_order (v.listed k ∙ ap is_some e),
              total-erase_other k r.terminal (remove_first k r.retained_order)
                  (gone k r.retained_order v.distinct),
              ap size_at e,
            );
          })
  ]
    where
      gone : (k : String) (ks : List String) → Distinct ks → contains k (remove_first k ks) ≡ false
      gone k ks d = rw (contains-remove_first k k ks d, eq_refl k)

  -- The bytes of a session that is forgotten were counted.
  pub drop_terminal-bytes :
      (k : String) (snap : Snapshot) (r : Retained)
      → IsAccounted r
      → lookup k r.terminal ≡ some snap
      → (drop_terminal json k r).retained_bytes + snapshot_bytes json snap ≡ r.retained_bytes
  unfolding drop_terminal
  drop_terminal-bytes k snap r v e =
      rw (drop_terminal, e)
        (omega (
          arith,
          v.counted,
          total-remove_first k r.terminal r.retained_order (v.listed k ∙ ap is_some e),
          ap size_at e,
        ))

  -- One round of the loop, by the shape of the order.
  pub make_room-nil :
      (fuel size : ℕ) (r : Retained) → r.retained_order ≡ [] → make_room fuel json size r ≡ r
  unfolding make_room
  make_room-nil zero size r e = refl
  make_room-nil (suc fuel) size r e = ground arith

  pub make_room-cons :
      (fuel size : ℕ) (r : Retained) (oldest : String) (rest : List String)
      → r.retained_order ≡ oldest ∷ rest
      → make_room (suc fuel) json size r
        ≡ (if must_evict r size then make_room fuel json size (drop_terminal json oldest r) else r)
  unfolding make_room
  make_room-cons fuel size r oldest rest e = ground arith

  -- The oldest key leaves the order.
  pub order-drop_oldest :
      (r : Retained) (oldest : String) (rest : List String)
      → r.retained_order ≡ oldest ∷ rest
      → (drop_terminal json oldest r).retained_order ≡ rest
  unfolding drop_terminal
  order-drop_oldest r oldest rest e = ground (arith, eq_refl oldest)

  pub lookup-drop_terminal :
      (k j : String) (r : Retained)
      → lookup j (drop_terminal json k r).terminal
        ≡ (if str_eq k j then none else lookup j r.terminal)
  unfolding drop_terminal
  lookup-drop_terminal k j r = elim (Option-cases (lookup k r.terminal)) [
    | inl e ↦ ground (arith, eq_iff k j)
    | inr (s, e) ↦ ground (arith, lookup-erase k j r.terminal)
  ]

  pub lookup-drop_terminal_self :
      (k : String) (r : Retained) → lookup k (drop_terminal json k r).terminal ≡ none
  lookup-drop_terminal_self k r = rw (lookup-drop_terminal k k r, eq_refl k)

  pub make_room-Evicted :
      (fuel size : ℕ) (r : Retained) (ks : List String)
      → r.retained_order ≡ ks
      → Evicted r (make_room fuel json size r)
  unfolding make_room
  make_room-Evicted zero size r ks e = record { evicted = []; split = refl; kept = λ j. refl }
  make_room-Evicted (suc fuel) size r [] e =
      rw (make_room-nil (suc fuel) size r e)
        (record { evicted = []; split = refl; kept = λ j. refl })
  make_room-Evicted (suc fuel) size r (oldest ∷ rest) e = elim (Bool-cases (must_evict r size)) [
    | inl more ↦
        let w =
          make_room-Evicted fuel size (drop_terminal json oldest r) rest
            (order-drop_oldest r oldest rest e) in
        rw (make_room-cons fuel size r oldest rest e, more)
          (record {
            evicted = oldest ∷ w.evicted;
            split = ap (◌∷◌ oldest) (w.split ∙ order-drop_oldest r oldest rest e) ∙ sym e;
            kept = λ j. ground (arith, w.kept j, lookup-drop_terminal oldest j r);
          })
    | inr done ↦
        rw (make_room-cons fuel size r oldest rest e, done)
          (record { evicted = []; split = refl; kept = λ j. refl })
  ]
