-- ===== src/Chat/Retention/Bounds.antt =====
-- Keeping one more finished session: the bounds on their number and bytes, and who has to go.
use excelsior.Common.{
  ℕ, zero, suc, ◌≤◌, ◌<◌, ◌≡◌, refl, ap, ◌∙◌, false, ◌⊎◌, inl, inr, List, [], ◌∷◌, ◌++◌, String,
  none, some, arith, lookup, insert, lookup-insert, lookup-insert_self, contains, contains-append,
  append-Distinct, remove_first, length, length-append, if◌then◌else◌, str_eq, is_some, Bool-cases,
}
use excelsior.Chat.Event.{Snapshot, Json, snapshot_bytes}
use excelsior.Chat.Retention.{
  Retained, drop_terminal, must_evict, make_room, strip_oversized, append_retained, retain,
  max_retained_bytes, max_retained_sessions,
}
use excelsior.Chat.Retention.Accounting.{
  IsAccounted, Evicted, drop_terminal-IsAccounted, make_room-nil, make_room-cons, make_room-Evicted,
  order-drop_oldest, lookup-drop_terminal, total-append, total-insert_other, total, size_at,
  lookup-drop_terminal_self,
}

module _ (json : Json) where
  make_room-IsAccounted :
      (fuel size : ℕ) (r : Retained) (ks : List String)
      → r.retained_order ≡ ks
      → IsAccounted json r
      → IsAccounted json (make_room fuel json size r)
  unfolding make_room
  make_room-IsAccounted zero size r ks e v = v
  make_room-IsAccounted (suc fuel) size r [] e v = rw (make_room-nil json (suc fuel) size r e) v
  make_room-IsAccounted (suc fuel) size r (oldest ∷ rest) e v =
      let ih =
        make_room-IsAccounted fuel size (drop_terminal json oldest r) rest
          (order-drop_oldest json r oldest rest e) (drop_terminal-IsAccounted json oldest r v) in
      elim (Bool-cases (must_evict r size)) [
        | inl more ↦ rw (make_room-cons json fuel size r oldest rest e, more) ih
        | inr done ↦ rw (make_room-cons json fuel size r oldest rest e, done) v
      ]

  -- With a round for each key the loop ends by its own condition.
  pub make_room_ends :
      (fuel size : ℕ) (r : Retained) (ks : List String)
      → r.retained_order ≡ ks
      → length ks ≤ fuel
      → let q = make_room fuel json size r in (q.retained_order ≡ []) ⊎ (must_evict q size ≡ false)
  unfolding make_room
  make_room_ends zero size r [] e h = inl e
  make_room_ends zero size r (k ∷ ks) e h = absurd (omega arith)
  make_room_ends (suc fuel) size r [] e h = rw (make_room-nil json (suc fuel) size r e) (inl e)
  make_room_ends (suc fuel) size r (oldest ∷ rest) e h = elim (Bool-cases (must_evict r size)) [
    | inl more ↦
        rw (make_room-cons json fuel size r oldest rest e, more)
          (make_room_ends fuel size (drop_terminal json oldest r) rest
            (order-drop_oldest json r oldest rest e) (omega arith))
    | inr done ↦ rw (make_room-cons json fuel size r oldest rest e, done) (inr done)
  ]

  append_retained-IsAccounted :
      (key : String) (snap : Snapshot) (r : Retained)
      → contains key r.retained_order ≡ false
      → IsAccounted json r
      → IsAccounted json (append_retained json key snap r)
  unfolding append_retained
  append_retained-IsAccounted key snap r absent v = record {
    listed = λ j. ground (
      arith,
      contains-append j r.retained_order (key ∷ []),
      lookup-insert key j snap r.terminal,
      v.listed j,
    );
    distinct = append-Distinct key r.retained_order v.distinct absent;
    counted = omega (
      arith,
      v.counted,
      total-append json (insert key snap r.terminal) r.retained_order (key ∷ []),
      total-insert_other json key snap r.terminal r.retained_order absent,
      ap (size_at json) (lookup-insert_self key snap r.terminal),
    );
  }

  -- The state in front of the last step of `retainLocked`, with what the step relies on.
  abbrev pub room_for : String → Snapshot → Retained → Retained
  room_for key snap r =
      let dropped = drop_terminal json key r in
      make_room (length dropped.retained_order) json
        (snapshot_bytes json (strip_oversized json snap)) dropped

  room-Evicted :
      (key : String) (snap : Snapshot) (r : Retained)
      → Evicted (drop_terminal json key r) (room_for key snap r)
  room-Evicted key snap r =
      make_room-Evicted json (length (drop_terminal json key r).retained_order)
        (snapshot_bytes json (strip_oversized json snap)) (drop_terminal json key r)
        (drop_terminal json key r).retained_order refl

  pub order-drop_terminal :
      (key : String) (r : Retained)
      → (drop_terminal json key r).retained_order ≡ remove_first key r.retained_order
  unfolding drop_terminal
  order-drop_terminal key r = ground arith

  dropped_absent :
      (key : String) (r : Retained)
      → IsAccounted json r
      → contains key (drop_terminal json key r).retained_order ≡ false
  dropped_absent key r v =
      (drop_terminal-IsAccounted json key r v).listed key
      ∙ ap is_some (lookup-drop_terminal_self json key r)

  room_absent :
      (key : String) (snap : Snapshot) (r : Retained)
      → IsAccounted json r
      → contains key (room_for key snap r).retained_order ≡ false
  room_absent key snap r v =
      let w = room-Evicted key snap r in
      ground (
        arith,
        dropped_absent key r v,
        ap (contains key) w.split,
        contains-append key w.evicted (room_for key snap r).retained_order,
      )

  -- `retainLocked` keeps the order, the table and the counter in agreement.
  pub retain-IsAccounted :
      (key : String) (snap : Snapshot) (r : Retained)
      → IsAccounted json r
      → IsAccounted json (retain json key snap r)
  unfolding retain
  retain-IsAccounted key snap r v =
      append_retained-IsAccounted key (strip_oversized json snap) (room_for key snap r)
        (room_absent key snap r v)
        (make_room-IsAccounted _ _ (drop_terminal json key r) _ refl
          (drop_terminal-IsAccounted json key r v))

  pub retain-parts :
      (key : String) (snap : Snapshot) (r : Retained)
      → IsAccounted json r
      → let r' = retain json key snap r in
        let rest = (room_for key snap r).retained_order in
        (evicted : List String) × (evicted ++ rest ≡ remove_first key r.retained_order)
        × (r'.retained_order ≡ rest ++ key ∷ [])
        × (lookup key r'.terminal ≡ some (strip_oversized json snap))
        × ((j : String)
            → str_eq key j ≡ false
            → lookup j r'.terminal ≡ (if contains j evicted then none else lookup j r.terminal))
  unfolding retain append_retained
  retain-parts key snap r v =
      let w = room-Evicted key snap r in
      (
        w.evicted,
        w.split ∙ order-drop_terminal key r,
        refl,
        lookup-insert_self key (strip_oversized json snap) (room_for key snap r).terminal,
        λ j other. ground (
          arith,
          lookup-insert key j (strip_oversized json snap) (room_for key snap r).terminal,
          w.kept j,
          lookup-drop_terminal json key j r,
        ),
      )

  -- The last step, on a state that the loop has left.
  append_bounds :
      (key : String) (kept : Snapshot) (room : Retained)
      → IsAccounted json room
      → (room.retained_order ≡ []) ⊎ (must_evict room (snapshot_bytes json kept) ≡ false)
      → let r' = append_retained json key kept room in
        (length r'.retained_order ≤ max_retained_sessions)
        × ((r'.retained_bytes ≤ max_retained_bytes)
            ⊎ ((r'.retained_order ≡ key ∷ []) × (max_retained_bytes < snapshot_bytes json kept)))
  unfolding append_retained must_evict
  append_bounds key kept room v (inl empty) =
      let none_left : room.retained_bytes ≡ 0 = v.counted ∙ ap (total json room.terminal) empty in
      ground (
        arith,
        none_left,
        length-append room.retained_order (key ∷ []),
        ap length empty,
        ap (λ (ks : List String). ks ++ key ∷ []) empty,
      )
  append_bounds key kept room v (inr fits) =
      ground (arith, length-append room.retained_order (key ∷ []))

  -- Given an accounted state, at most 64 sessions are kept. Their bytes are within the limit, or
  -- the new snapshot, its outcome alone over the limit, is the only one left.
  pub retain_bounds :
      (key : String) (snap : Snapshot) (r : Retained)
      → IsAccounted json r
      → let r' = retain json key snap r in
        (length r'.retained_order ≤ max_retained_sessions)
        × ((r'.retained_bytes ≤ max_retained_bytes)
            ⊎ ((r'.retained_order ≡ key ∷ [])
                × (max_retained_bytes < snapshot_bytes json (strip_oversized json snap))))
  unfolding retain
  retain_bounds key snap r v =
      let dropped = drop_terminal json key r in
      let size = snapshot_bytes json (strip_oversized json snap) in
      append_bounds key (strip_oversized json snap) (room_for key snap r)
        (make_room-IsAccounted (length dropped.retained_order) size dropped dropped.retained_order
          refl (drop_terminal-IsAccounted json key r v))
        (make_room_ends (length dropped.retained_order) size dropped dropped.retained_order refl
          (omega arith))
