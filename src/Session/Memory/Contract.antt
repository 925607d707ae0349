-- ===== src/Session/Memory/Contract.antt =====
-- What `MemoryStore` promises: lookups see the last save, identifiers are stored in their safe form, and
-- `Latest` finds the newest session.
use mathlib.Core.Option.{some-injective}
use excelsior.Common.{
  ℕ, ◌≤◌, ◌≡◌, refl, sym, ap, ◌∙◌, subst, String, false, inl, inr, List, [], ◌∷◌, none, some, Map,
  lookup, insert, erase, lookup-insert, lookup-erase, ok, err, Result, ◌==◌, Option-cases,
  if◌then◌else◌, str_eq, All, arith, Bool-cases, ◌⊎◌, str_eq_sym, lookup-insert_self, result_cases,
}
use excelsior.Session.Types.{Record, SessionMeta, SessionError, session_not_found}
use excelsior.Session.Id.{sanitize_id}
use excelsior.Session.Id.Safe.{sanitize_id_idem}
use excelsior.Session.Memory.{
  MemoryStore, new_memory_store, stored_record, created_before, load_at, found, save, load, delete,
  meta_of, metas_of, list, latest, load_first,
}
use excelsior.Session.Memory.Order.{
  LatestFirst, NotAfter, sort_metas-LatestFirst, sort_metas-All, sort_metas-All_back,
}

-- The first time that is set, and the last one where none is.
abbrev pub first_set : ℕ → ℕ → ℕ
first_set t u = if t == 0 then u else t

abbrev pub created_of : Result SessionError Record → ℕ
created_of (err e) = 0
created_of (ok rec) = rec.created_at

created_at-lookup :
    (now : ℕ) (sessions : Map Record) (safe : String)
    → created_before now (lookup safe sessions)
      ≡ first_set (created_of (found (lookup safe sessions))) now
created_at-lookup now sessions safe = elim (Option-cases (lookup safe sessions)) [
  | inl h ↦ rw h refl
  | inr (rec, h) ↦ rw h refl
]

-- After `Save` under one identifier, `Load` under any: where both have one safe form, the title and
-- the messages that were saved, under the safe form, updated now, and created when the record says,
-- or else when the session that was there before was, or else now; otherwise what was there before.
pub load-save :
    (m : MemoryStore) (now : ℕ) (rec : Record) (id safe safe' : String)
    → sanitize_id rec.id ≡ ok safe
    → sanitize_id id ≡ ok safe'
    → load (save m now rec).0 id ≡ (
        if str_eq safe safe'
        then ok (record {
          id = safe;
          title = rec.title;
          created_at = first_set rec.created_at (first_set (created_of (load m rec.id)) now);
          updated_at = now;
          messages = rec.messages;
        })
        else load m id)
unfolding load save
load-save m now rec id safe safe' e e' =
    rw
      (
        e,
        e',
        lookup-insert safe safe' (stored_record now safe m.sessions rec) m.sessions,
        sym (created_at-lookup now m.sessions safe),
      )
      (elim (Bool-cases (str_eq safe safe')) [ inl h ↦ rw h refl | inr h ↦ rw h refl ])

-- After `Delete`, `Load` under the same safe form fails, and any other is as before.
load-delete :
    (m : MemoryStore) (gone id safe safe' : String)
    → sanitize_id gone ≡ ok safe
    → sanitize_id id ≡ ok safe'
    → load (delete m gone).0 id ≡ (if str_eq safe safe' then found none else load m id)
unfolding load delete
load-delete m gone id safe safe' e e' =
    rw (e, e', lookup-erase safe safe' m.sessions)
      (elim (Bool-cases (str_eq safe safe')) [ inl h ↦ rw h refl | inr h ↦ rw h refl ])

-- Every stored record is found under its own identifier, which is a safe one.
abbrev IsEntry : Map Record → (String × Record) → Type 0
IsEntry sessions (k, rec) = (rec.id ≡ k) × (sanitize_id k ≡ ok k) × (lookup k sessions ≡ some rec)

abbrev pub IsKeyed : MemoryStore → Type 0
IsKeyed m = All (IsEntry m.sessions) m.sessions

All-erase :
    (P Q : (String × Record) → Type 0) (k : String) (xs : Map Record)
    → ((j : String) (rec : Record) → str_eq j k ≡ false → P (j, rec) → Q (j, rec))
    → All P xs
    → All Q (erase k xs)
unfolding erase
All-erase P Q k [] f v = tt
All-erase P Q k ((j, rec) ∷ xs) f v = elim (Bool-cases (str_eq j k)) [
  | inl e ↦ rw e (All-erase P Q k xs f v.1)
  | inr e ↦ rw e (f j rec e v.0, All-erase P Q k xs f v.1)
]

save-IsKeyed : (m : MemoryStore) (now : ℕ) (rec : Record) → IsKeyed m → IsKeyed (save m now rec).0
unfolding save insert
save-IsKeyed m now rec v = elim (result_cases (sanitize_id rec.id)) [
  | inl (e, h) ↦ rw h v
  | inr (safe, h) ↦ rw h (
    (refl, sanitize_id_idem rec.id safe h, lookup-insert_self safe _ m.sessions),
    All-erase (IsEntry m.sessions)
        (IsEntry (insert safe (stored_record now safe m.sessions rec) m.sessions)) safe m.sessions
        (λ j r d i. (i.0, i.1, lookup-insert safe j _ m.sessions ∙ rw (str_eq_sym safe j, d) i.2))
        v,
  )
]

delete-IsKeyed : (m : MemoryStore) (id : String) → IsKeyed m → IsKeyed (delete m id).0
unfolding delete
delete-IsKeyed m id v = elim (result_cases (sanitize_id id)) [
  | inl (e, h) ↦ rw h v
  | inr (safe, h) ↦ rw h (
      All-erase (IsEntry m.sessions) (IsEntry (erase safe m.sessions)) safe m.sessions
        (λ j r d i. (i.0, i.1, lookup-erase safe j m.sessions ∙ rw (str_eq_sym safe j, d) i.2)) v)
]

-- What a summary in the list leads to.
abbrev Loads : MemoryStore → SessionMeta → Type 0
Loads m meta = (rec : Record) × (meta ≡ meta_of rec) × (load m meta.id ≡ ok rec)

metas_of-Loads :
    (m : MemoryStore) (xs : Map Record) → All (IsEntry m.sessions) xs → All (Loads m) (metas_of xs)
unfolding load meta_of
metas_of-Loads m [] v = tt
metas_of-Loads m ((k, rec) ∷ xs) v =
    let (named, safe, here) = v.0 in
    let known : load_at m (sanitize_id k) ≡ ok rec = rw safe (ap found here) in
    (
      (rec, refl, subst (λ j. load_at m (sanitize_id j) ≡ ok rec) (sym named) known),
      metas_of-Loads m xs v.1,
    )

pub data StoreCall : Type 0 where
  saves : ℕ → Record → StoreCall
  deletes : String → StoreCall

pub run_store : MemoryStore → List StoreCall → MemoryStore
run_store m [] = m
run_store m (saves now rec ∷ calls) = run_store (save m now rec).0 calls
run_store m (deletes id ∷ calls) = run_store (delete m id).0 calls

run_store-IsKeyed :
    (m : MemoryStore) (calls : List StoreCall) → IsKeyed m → IsKeyed (run_store m calls)
unfolding run_store
run_store-IsKeyed m [] v = v
run_store-IsKeyed m (saves now rec ∷ calls) v =
    run_store-IsKeyed (save m now rec).0 calls (save-IsKeyed m now rec v)
run_store-IsKeyed m (deletes id ∷ calls) v =
    run_store-IsKeyed (delete m id).0 calls (delete-IsKeyed m id v)

latest-list :
    (m : MemoryStore) (ms : List SessionMeta)
    → All (Loads m) ms
    → LatestFirst ms
    → ((ms ≡ []) × (load_first m ms ≡ err session_not_found))
      ⊎ ((rec : Record) × (load_first m ms ≡ ok rec)
          × (load m rec.id ≡ ok rec)
          × All (NotAfter (meta_of rec).updated_at) ms)
unfolding meta_of
latest-list m [] v o = inl (refl, refl)
latest-list m (meta ∷ ms) v o =
    let (rec, e, h) = v.0 in
    inr (
      rec,
      h,
      ap (λ (x : SessionMeta). load m x.id) (sym e) ∙ h,
      subst (λ (x : SessionMeta). All (NotAfter x.updated_at) (meta ∷ ms)) e (omega arith, o.0),
    )

-- When a session was last changed.
abbrev pub changed_at : Record → ℕ
changed_at rec = first_set rec.updated_at rec.created_at

-- What holds of every summary holds of every session that can be loaded.
metas_of-load :
    (P : SessionMeta → Type 0) (sessions : Map Record) (k : String) (rec : Record)
    → All P (metas_of sessions)
    → lookup k sessions ≡ some rec
    → P (meta_of rec)
unfolding lookup
metas_of-load P [] k rec v e = absurd cc
metas_of-load P ((j, r) ∷ rest) k rec v e = elim (Bool-cases (str_eq j k)) [
  | inl h ↦
      let here : some r ≡ some rec = rw h at e in
      subst (λ x. P (meta_of x)) (some-injective r rec here) v.0
  | inr h ↦ metas_of-load P rest k rec v.1 (rw h at e)
]

listed-load :
    (P : SessionMeta → Type 0) (m : MemoryStore) (id : String) (rec : Record)
    → All P (list m)
    → load m id ≡ ok rec
    → P (meta_of rec)
unfolding list load
listed-load P m id rec v e = elim (result_cases (sanitize_id id)) [
  | inl (why, h) ↦ let gone : err why ≡ ok rec = rw h at e in absurd cc
  | inr (safe, h) ↦
      let here : found (lookup safe m.sessions) ≡ ok rec = rw h at e in
      elim (Option-cases (lookup safe m.sessions)) [
        | inl g ↦ let gone : err session_not_found ≡ ok rec = rw g at here in absurd cc
        | inr (r, g) ↦
            let same : ◌≡◌ {A = Result SessionError Record} (ok r) (ok rec) = rw g at here in
            let known : r ≡ rec = cc in
            subst (λ x. P (meta_of x)) known
              (metas_of-load P m.sessions safe r (sort_metas-All_back P (metas_of m.sessions) v) g)
      ]
]

-- After any saves and deletes on a new store, `Latest` fails only where no session can be loaded,
-- and otherwise returns a session that can be loaded under its own identifier, and that no session
-- that can be loaded was changed after.
pub latest_newest :
    (calls : List StoreCall)
    → let m = run_store new_memory_store calls in
      (((id : String) (rec : Record) → ¬ (load m id ≡ ok rec)) × (latest m ≡ err session_not_found))
      ⊎ ((newest : Record) × (latest m ≡ ok newest)
          × (load m newest.id ≡ ok newest)
          × ((id : String) (rec : Record)
              → load m id ≡ ok rec
              → changed_at rec ≤ changed_at newest))
unfolding latest list meta_of new_memory_store
latest_newest calls =
    let m = run_store new_memory_store calls in
    let known =
      sort_metas-All (Loads m) (metas_of m.sessions)
        (metas_of-Loads m m.sessions (run_store-IsKeyed new_memory_store calls tt)) in
    elim (latest-list m (list m) known (sort_metas-LatestFirst (metas_of m.sessions))) [
      | inl (nothing_, e) ↦
          inl (
            λ id rec h. listed-load (λ _. ⊥) m id rec (subst (All (λ _. ⊥)) (sym nothing_) tt) h,
            e,
          )
      | inr (newest, e, here, older) ↦ inr (
        newest,
        e,
        here,
        λ id rec h. listed-load (NotAfter (meta_of newest).updated_at) m id rec older h,
      )
    ]
