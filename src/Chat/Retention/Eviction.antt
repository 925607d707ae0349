-- ===== src/Chat/Retention/Eviction.antt =====
-- What is kept of a session, and which sessions have to go for it.
use excelsior.Common.{
  ℕ, zero, suc, ◌+◌, ◌≤◌, ◌<◌, ◌≡◌, refl, sym, subst, ap, ◌∙◌, true, false, ◌⊎◌, inl, inr, List, [],
  ◌∷◌, ◌++◌, String, none, some, arith, lookup, contains, remove_first, length, length-append,
  if◌then◌else◌, str_eq, eq_iff, eq_refl, is_some, Bool-cases, Option-cases, ltb,
}
use excelsior.Chat.Event.{Snapshot, Json, snapshot_bytes}
use excelsior.Chat.Retention.{
  Retained, drop_terminal, must_evict, make_room, strip_oversized, append_retained, retain,
  max_projection_bytes, max_retained_bytes, max_retained_sessions,
}
use excelsior.Chat.Retention.Accounting.{
  IsAccounted, drop_terminal-IsAccounted, drop_terminal-bytes, make_room-nil, make_room-cons,
  order-drop_oldest, lookup-drop_terminal,
}
use excelsior.Chat.Retention.Bounds.{room_for, order-drop_terminal, retain-parts}

-- What stands in a table behind a drop stood there before it.
still_there :
    (json : Json) (r : Retained) (k j : String) (snap : Snapshot)
    → lookup j (drop_terminal json k r).terminal ≡ some snap
    → lookup j r.terminal ≡ some snap
still_there json r k j snap found = elim (Bool-cases (str_eq k j)) [
  | inl h ↦
      let gone : none ≡ some snap = sym (lookup-drop_terminal json k j r ∙ rw h refl) ∙ found in
      absurd cc
  | inr h ↦ sym (lookup-drop_terminal json k j r ∙ rw h refl) ∙ found
]

module _ (json : Json) where
  -- A snapshot of at most 4 MiB is kept whole, a larger one without its messages and events.
  pub record IsCut (snap kept : Snapshot) : Type 0 where
    pub whole : snapshot_bytes json snap ≤ max_projection_bytes → kept ≡ snap
    pub cut :
        max_projection_bytes < snapshot_bytes json snap
        → kept ≡ record {
          session_id = snap.session_id;
          run_id = snap.run_id;
          running = snap.running;
          messages = [];
          events = [];
          pending = snap.pending;
          outcome = snap.outcome;
          unsaved_available = false;
          projection_unavailable = true;
        }

  strip_oversized-IsCut : (snap : Snapshot) → IsCut snap (strip_oversized json snap)
  unfolding strip_oversized
  strip_oversized-IsCut snap =
      elim (Bool-cases (ltb max_projection_bytes (snapshot_bytes json snap))) [
        | inl h ↦
            rw (strip_oversized, h)
              (record { whole = λ small. absurd (ground (arith, h, small)); cut = λ _. refl })
        | inr h ↦
            rw (strip_oversized, h)
              (record { whole = λ _. refl; cut = λ large. absurd (ground (arith, h, large)) })
      ]

  -- The loop dropped nothing, or the session that it dropped last had no room beside what is left.
  abbrev IsNeeded : ℕ → Retained → Retained → Type 0
  IsNeeded size r q =
      (q ≡ r)
      ⊎ ((before : List String) × (last : String) × (snap : Snapshot) × (r.retained_order
            ≡ before ++ last ∷ q.retained_order)
          × (lookup last r.terminal ≡ some snap)
          × ((max_retained_sessions ≤ suc (length q.retained_order))
              ⊎ (max_retained_bytes < snapshot_bytes json snap + q.retained_bytes + size)))

  first-IsNeeded :
      (size : ℕ) (r : Retained) (oldest : String) (rest : List String)
      → r.retained_order ≡ oldest ∷ rest
      → IsAccounted json r
      → must_evict r size ≡ true
      → IsNeeded size r (drop_terminal json oldest r)
  unfolding must_evict
  first-IsNeeded size r oldest rest e v more = elim (Option-cases (lookup oldest r.terminal)) [
    | inl h ↦
        let here : contains oldest r.retained_order ≡ true =
          ap (contains oldest) e ∙ rw (eq_refl oldest) refl in
        absurd (ground (arith, here, v.listed oldest, ap is_some h))
    | inr (snap, h) ↦
        let order = order-drop_oldest json r oldest rest e in
        inr (
          [],
          oldest,
          snap,
          e ∙ ap (λ ks. oldest ∷ ks) (sym order),
          h,
          ground (
            arith,
            more,
            ap length e,
            ap length order,
            drop_terminal-bytes json oldest snap r v h,
          ),
        )
  ]

  later-IsNeeded :
      (size : ℕ) (r q : Retained) (oldest : String) (rest : List String)
      → r.retained_order ≡ oldest ∷ rest
      → IsAccounted json r
      → must_evict r size ≡ true
      → IsNeeded size (drop_terminal json oldest r) q
      → IsNeeded size r q
  later-IsNeeded size r q oldest rest e v more (inl same) =
      subst (IsNeeded size r) (sym same) (first-IsNeeded size r oldest rest e v more)
  later-IsNeeded size r q oldest rest e v more (inr (before, last, snap, split, found, full)) =
      inr (
        oldest ∷ before,
        last,
        snap,
        e ∙ ap (λ ks. oldest ∷ ks) (sym (order-drop_oldest json r oldest rest e) ∙ split),
        still_there json r oldest last snap found,
        full,
      )

  make_room-IsNeeded :
      (fuel size : ℕ) (r : Retained) (ks : List String)
      → r.retained_order ≡ ks
      → IsAccounted json r
      → IsNeeded size r (make_room fuel json size r)
  unfolding make_room
  make_room-IsNeeded zero size r ks e v = inl refl
  make_room-IsNeeded (suc fuel) size r [] e v = inl (make_room-nil json (suc fuel) size r e)
  make_room-IsNeeded (suc fuel) size r (oldest ∷ rest) e v = elim (Bool-cases (must_evict r size)) [
    | inl more ↦
        rw (make_room-cons json fuel size r oldest rest e, more)
          (later-IsNeeded size r _ oldest rest e v more (
            make_room-IsNeeded fuel size (drop_terminal json oldest r) rest
              (order-drop_oldest json r oldest rest e) (drop_terminal-IsAccounted json oldest r v)))
    | inr done ↦ inl (make_room-cons json fuel size r oldest rest e ∙ rw done refl)
  ]

  -- Putting the session that was dropped last back would leave more than 64 of them, or more bytes
  -- than are allowed; where nothing was dropped there is none.
  abbrev pub IsMinimal : String → Retained → List String → Retained → Type 0
  IsMinimal key r rest r' =
      (rest ≡ remove_first key r.retained_order)
      ⊎ ((before : List String) × (last : String) × (dropped : Snapshot) × (before ++ last ∷ rest
            ≡ remove_first key r.retained_order)
          × (lookup last r.terminal ≡ some dropped)
          × ((max_retained_sessions < length (last ∷ r'.retained_order))
              ⊎ (max_retained_bytes < snapshot_bytes json dropped + r'.retained_bytes)))

  retain-IsMinimal :
      (key : String) (snap : Snapshot) (r : Retained)
      → IsAccounted json r
      → IsMinimal key r (room_for json key snap r).retained_order (retain json key snap r)
  unfolding retain append_retained
  retain-IsMinimal key snap r v =
      let start = drop_terminal json key r in
      let size = snapshot_bytes json (strip_oversized json snap) in
      let room = room_for json key snap r in
      elim (make_room-IsNeeded (length start.retained_order) size start start.retained_order refl
        (drop_terminal-IsAccounted json key r v)) [
          | inl same ↦
              inl (ap (λ (x : Retained). x.retained_order) same ∙ order-drop_terminal json key r)
          | inr (before, last, dropped, split, found, full) ↦ inr (
            before,
            last,
            dropped,
            sym split ∙ order-drop_terminal json key r,
            still_there json r key last dropped found,
            ground (arith, full, length-append room.retained_order (key ∷ [])),
          )
        ]

  -- Given an accounted state, `retainLocked` keeps the snapshot as the newest, whole where it has at
  -- most 4 MiB and without its messages and events otherwise. What it drops are the oldest of the
  -- others, and no more of them than it must; the rest is as it was.
  pub retain_drops_oldest :
      (key : String) (snap : Snapshot) (r : Retained)
      → IsAccounted json r
      → let r' = retain json key snap r in
        (kept : Snapshot) × (evicted : List String) × (rest : List String) × IsCut snap kept
        × (evicted ++ rest ≡ remove_first key r.retained_order)
        × (r'.retained_order ≡ rest ++ key ∷ [])
        × ((j : String)
            → lookup j r'.terminal ≡ (
                if str_eq key j
                then some kept
                else if contains j evicted
                then none
                else lookup j r.terminal))
        × IsMinimal key r rest r'
  retain_drops_oldest key snap r v =
      let (evicted, split, order, newest, others) = retain-parts json key snap r v in
      (
        strip_oversized json snap,
        evicted,
        (room_for json key snap r).retained_order,
        strip_oversized-IsCut snap,
        split,
        order,
        λ j. elim (Bool-cases (str_eq key j)) [
          | inl e ↦ rw e (
              subst
                (λ k. lookup k (retain json key snap r).terminal ≡ some (strip_oversized json snap))
                ((eq_iff key j).0 e) newest)
          | inr e ↦ rw e (others j e)
        ],
        retain-IsMinimal key snap r v,
      )
