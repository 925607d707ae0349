-- ===== src/Session/Lease/Exclusive.antt =====
-- At most one process has the lease of a session store.
use excelsior.Common.{
  ℕ, ◌-◌, ◌≡◌, refl, ap, subst, String, Bool, true, false, ◌==◌, ==_iff, sym, ◌∙◌, Bool-cases,
  Option-cases, suc, leb, if◌then◌else◌, List, [], ◌∷◌, Option, none, some, lookup, insert, erase,
  lookup-insert, lookup-erase, str_eq, eq_iff, eq_refl, arith, option_cases, if_cases, inl, inr,
}
use excelsior.Chat.Workspace.{Platform}
use excelsior.Session.Types.{SessionError}
use excelsior.Util.Files.{FileSystem, LockAnswer, open_failed, busy, locked}
use excelsior.Session.Lease.{
  StoreLease, Leases, lease_key, lock_path, after_lock, open_lease, acquire_store_lease,
  release_store_lease,
}
use excelsior.Session.Lease.Host.{
  IsLocking, Host, LeaseCall, acquires, releases, exits, set_table, lease_step, run_leases,
}

module _ {F : Type 0} (p : Platform) (fs : FileSystem F) (owner : F → String → Option ℕ)
    (L : IsLocking p fs owner) where
  -- A lease in a process's table is a lock that the process has.
  abbrev IsOwned : F → ℕ → String → StoreLease → Type 0
  IsOwned f i k l =
      (owner f k ≡ some i) × ((dir : String) × (l.path ≡ lock_path fs dir) × (lease_key p dir ≡ k))

  abbrev AllOwned : F → ℕ → Leases → Type 0
  AllOwned f i t = (k : String) (l : StoreLease) → lookup k t ≡ some l → IsOwned f i k l

  abbrev IsHeld : Host p fs → Type 0
  IsHeld h = (i : ℕ) → AllOwned h.files i (h.tables i)

  set_table-AllOwned :
      (f : F) (i : ℕ) (t : Leases) (tables : ℕ → Leases)
      → AllOwned f i t
      → ((j : ℕ) → (i == j) ≡ false → AllOwned f j (tables j))
      → (j : ℕ) → AllOwned f j (set_table p fs i t tables j)
  set_table-AllOwned f i t tables mine theirs j = elim (Bool-cases (i == j)) [
    | inl e ↦ rw e (subst (λ x. AllOwned f x t) ((==_iff i j).0 e) mine)
    | inr e ↦ rw e (theirs j e)
  ]

  -- Files that change no owner change no ownership.
  AllOwned-same :
      (f g : F) (i : ℕ) (t : Leases)
      → ((k : String) → owner g k ≡ owner f k)
      → AllOwned f i t
      → AllOwned g i t
  AllOwned-same f g i t same own k l e = (same k ∙ (own k l e).0, (own k l e).1)

  insert-AllOwned :
      (f : F) (i : ℕ) (key : String) (l : StoreLease) (t : Leases)
      → IsOwned f i key l
      → ((k : String) (m : StoreLease)
          → str_eq key k ≡ false
          → lookup k t ≡ some m
          → IsOwned f i k m)
      → AllOwned f i (insert key l t)
  insert-AllOwned f i key l t mine rest k m e = elim (Bool-cases (str_eq key k)) [
    | inl h ↦
        let here : some l ≡ some m = sym (lookup-insert key k l t ∙ rw h refl) ∙ e in
        let same : l ≡ m = cc in
        subst (λ x. IsOwned f i k x) same (subst (λ x. IsOwned f i x l) ((eq_iff key k).0 h) mine)
    | inr h ↦ rest k m h (sym (lookup-insert key k l t ∙ rw h refl) ∙ e)
  ]

  -- What a call leaves: the leases of its process, and those of the others.
  abbrev Left : F → ℕ → F → Leases → Type 0
  Left f i g t =
      AllOwned g i t
      × ((j : ℕ) (k : String) → (i == j) ≡ false → owner f k ≡ some j → owner g k ≡ some j)

  Left-same :
      (f g : F) (i : ℕ) (t : Leases)
      → ((k : String) → owner g k ≡ owner f k)
      → AllOwned f i t
      → Left f i g t
  Left-same f g i t same own = (AllOwned-same f g i t same own, λ j k d e. same k ∙ e)

  after_lock-Left :
      (f : F) (i : ℕ) (dir : String) (t : Leases) (r : F × LockAnswer)
      → fs.lock i f (lock_path fs dir) ≡ r
      → AllOwned f i t
      → let s = after_lock p fs i (lease_key p dir) dir t r in Left f i s.0 s.1
  after_lock-Left f i dir t (g, open_failed) e own =
      Left-same f g i t
        (λ k.
          subst (λ r. owner r.0 k ≡ owner f k) e
            (L.lock_open_failed i f (lock_path fs dir) k (ap (λ r. r.1) e)))
        own
  after_lock-Left f i dir t (g, busy) e own =
      Left-same f g i t
        (λ k.
          subst (λ r. owner r.0 k ≡ owner f k) e
            (L.lock_busy i f (lock_path fs dir) k (ap (λ r. r.1) e)))
        own
  after_lock-Left f i dir t (g, locked) e own =
      let key = lease_key p dir in
      let got = ap (λ r. r.1) e in
      let free : owner f key ≡ none = L.lock_free i f dir got in
      let now : (k : String) → owner g k ≡ (if str_eq key k then some i else owner f k) = λ k.
        subst (λ r. owner r.0 k ≡ (if str_eq key k then some i else owner f k)) e
          (L.lock_lem i f dir k got) in
      (
        insert-AllOwned g i key (record { path = lock_path fs dir; refs = 1 }) t
            (now key ∙ rw (eq_refl key) refl, (dir, refl, refl))
            λ k m d h. (now k ∙ rw d (own k m h).0, (own k m h).1),
        λ j k d h. now k ∙ ground (arith, eq_iff key k, free, h),
      )

  open_lease-Left :
      (f : F) (i : ℕ) (dir : String) (t : Leases) (r : F × Bool)
      → ((k : String) → owner r.0 k ≡ owner f k)
      → AllOwned f i t
      → let s = open_lease p fs i (lease_key p dir) dir t r in Left f i s.0 s.1
  open_lease-Left f i dir t (g, false) same own = Left-same f g i t same own
  open_lease-Left f i dir t (g, true) same own =
      let (mine, theirs) = after_lock-Left g i dir t _ refl (AllOwned-same f g i t same own) in
      (mine, λ j k d h. theirs j k d (same k ∙ h))

  acquire-Left :
      (f : F) (i : ℕ) (dir : String) (t : Leases)
      → AllOwned f i t
      → let s = acquire_store_lease p fs i dir f t in Left f i s.0 s.1
  unfolding acquire_store_lease
  acquire-Left f i dir t own =
      let key = lease_key p dir in
      option_cases (λ (s : F × Leases × Option SessionError). Left f i s.0 s.1) (lookup key t) _ _
        (λ e. open_lease-Left f i dir t (fs.mkdir_all f dir) (L.mkdir_all_owner f dir) own)
        λ l e. (
          insert-AllOwned f i key (record l { refs = suc l.refs }) t (own key l e)
              λ k m d h. own k m h,
          λ j k d h. h,
        )

  erase-AllOwned :
      (f g : F) (i : ℕ) (key : String) (t : Leases)
      → ((k : String) → str_eq key k ≡ false → owner g k ≡ owner f k)
      → AllOwned f i t
      → AllOwned g i (erase key t)
  erase-AllOwned f g i key t same own k m e = elim (Bool-cases (str_eq key k)) [
    | inl h ↦ let gone : none ≡ some m = sym (lookup-erase key k t ∙ rw h refl) ∙ e in absurd cc
    | inr h ↦ let (a, b) = own k m (sym (lookup-erase key k t ∙ rw h refl) ∙ e) in (same k h ∙ a, b)
  ]

  unlock-owner :
      (f : F) (i : ℕ) (key k : String) (l : StoreLease)
      → IsOwned f i key l
      → owner (fs.unlock i f l.path) k ≡ (if str_eq key k then none else owner f k)
  unlock-owner f i key k l (mine, (dir, at, keyed)) =
      subst (λ path. owner (fs.unlock i f path) k ≡ (if str_eq key k then none else owner f k))
        (sym at)
        (subst
          (λ x.
            owner (fs.unlock i f (lock_path fs dir)) k ≡ (if str_eq x k then none else owner f k))
          keyed (L.unlock_lem i f dir k))

  release-Left :
      (f : F) (i : ℕ) (dir : String) (t : Leases)
      → AllOwned f i t
      → let s = release_store_lease p fs i dir f t in Left f i s.0 s.1
  unfolding release_store_lease
  release-Left f i dir t own =
      let key = lease_key p dir in
      option_cases (λ (s : F × Leases). Left f i s.0 s.1) (lookup key t) _ _
        (λ e. (own, λ j k d h. h))
        λ l e.
          if_cases (λ (s : F × Leases). Left f i s.0 s.1) (leb (l.refs - 1) 0) _ _
            (λ last. (
              erase-AllOwned f (fs.unlock i f l.path) i key t
                  (λ k d. unlock-owner f i key k l (own key l e) ∙ rw d refl) own,
              λ j k d h.
                  unlock-owner f i key k l (own key l e)
                  ∙ ground (arith, eq_iff key k, (own key l e).0, h),
            ))
            λ more. (
              insert-AllOwned f i key (record l { refs = l.refs - 1 }) t (own key l e)
                  λ k m d h. own k m h,
              λ j k d h. h,
            )

  nothing-AllOwned : (f : F) (i : ℕ) → AllOwned f i []
  unfolding lookup
  nothing-AllOwned f i k l e = absurd cc

  lease_step-IsHeld :
      (call : LeaseCall p fs) (h : Host p fs) → IsHeld h → IsHeld (lease_step p fs call h)
  lease_step-IsHeld (acquires i dir) h held =
      let (mine, theirs) = acquire-Left h.files i dir (h.tables i) (held i) in
      set_table-AllOwned _ i _ h.tables mine
        λ j d k l e. (theirs j k d (held j k l e).0, (held j k l e).1)
  lease_step-IsHeld (releases i dir) h held =
      let (mine, theirs) = release-Left h.files i dir (h.tables i) (held i) in
      set_table-AllOwned _ i _ h.tables mine
        λ j d k l e. (theirs j k d (held j k l e).0, (held j k l e).1)
  lease_step-IsHeld (exits i) h held =
      set_table-AllOwned (fs.exit i h.files) i [] h.tables (nothing-AllOwned _ i)
        λ j d k l e. (L.exit_keeps i j h.files k d (held j k l e).0, (held j k l e).1)

  run_leases-IsHeld :
      (calls : List (LeaseCall p fs)) (h : Host p fs) → IsHeld h → IsHeld (run_leases p fs calls h)
  unfolding run_leases
  run_leases-IsHeld [] h held = held
  run_leases-IsHeld (call ∷ calls) h held =
      run_leases-IsHeld calls (lease_step p fs call h) (lease_step-IsHeld call h held)

  -- Processes acquire and release leases, and exit, in any order, from a state in which none holds
  -- a lease. Where a process then holds the lease of a directory, no other process does, under
  -- whatever spelling of the directory they asked for it.
  pub one_holder :
      (f : F) (calls : List (LeaseCall p fs)) (i j : ℕ) (k : String) (l : StoreLease)
      → let h = run_leases p fs calls (record { files = f; tables = λ _. [] }) in
        lookup k (h.tables i) ≡ some l → (i == j) ≡ false → lookup k (h.tables j) ≡ none
  one_holder f calls i j k l e apart =
      let h = run_leases p fs calls (record { files = f; tables = λ _. [] }) in
      let held =
        run_leases-IsHeld calls (record { files = f; tables = λ _. [] })
          (λ x. nothing-AllOwned f x) in
      elim (Option-cases (lookup k (h.tables j))) [
        | inl free ↦ free
        | inr (m, e') ↦
            let own = (held i k l e).0 in
            let own' = (held j k m e').0 in
            let same : i ≡ j = cc in absurd (ground (arith, same, apart))
      ]
