-- ===== src/Session/Memory/Order.antt =====
-- The order of `List`: the same entries, the latest first.
use excelsior.Common.{ℕ, ◌≤◌, inl, inr, List, [], ◌∷◌, All, arith, Bool-cases, ltb}
use excelsior.Session.Types.{SessionMeta}
use excelsior.Session.Memory.{insert_meta, sort_metas}

abbrev pub NotAfter : ℕ → SessionMeta → Type 0
NotAfter t meta = meta.updated_at ≤ t

-- No entry is older than one behind it.
abbrev pub LatestFirst : List SessionMeta → Type 0
LatestFirst [] = Unit {0}
LatestFirst (m ∷ ms) = All (NotAfter m.updated_at) ms × LatestFirst ms

All-NotAfter : (t u : ℕ) (ms : List SessionMeta) → t ≤ u → All (NotAfter t) ms → All (NotAfter u) ms
All-NotAfter t u [] h v = tt
All-NotAfter t u (m ∷ ms) h v = (omega (arith, v.0), All-NotAfter t u ms h v.1)

pub insert_meta-All :
    (P : SessionMeta → Type 0) (meta : SessionMeta) (ms : List SessionMeta)
    → P meta
    → All P ms
    → All P (insert_meta meta ms)
unfolding insert_meta
insert_meta-All P meta [] h v = (h, tt)
insert_meta-All P meta (m ∷ ms) h v = elim (Bool-cases (ltb m.updated_at meta.updated_at)) [
  | inl e ↦ rw e (h, v)
  | inr e ↦ rw e (v.0, insert_meta-All P meta ms h v.1)
]

insert_meta-LatestFirst :
    (meta : SessionMeta) (ms : List SessionMeta)
    → LatestFirst ms
    → LatestFirst (insert_meta meta ms)
unfolding insert_meta
insert_meta-LatestFirst meta [] v = (tt, tt)
insert_meta-LatestFirst meta (m ∷ ms) v = elim (Bool-cases (ltb m.updated_at meta.updated_at)) [
  | inl e ↦
      let older : m.updated_at ≤ meta.updated_at = ground arith in
      rw e ((older, All-NotAfter _ _ ms older v.0), v)
  | inr e ↦ rw e (
    insert_meta-All (NotAfter m.updated_at) meta ms (ground arith) v.0,
    insert_meta-LatestFirst meta ms v.1,
  )
]

pub sort_metas-LatestFirst : (ms : List SessionMeta) → LatestFirst (sort_metas ms)
unfolding sort_metas
sort_metas-LatestFirst [] = tt
sort_metas-LatestFirst (m ∷ ms) =
    insert_meta-LatestFirst m (sort_metas ms) (sort_metas-LatestFirst ms)

pub sort_metas-All :
    (P : SessionMeta → Type 0) (ms : List SessionMeta) → All P ms → All P (sort_metas ms)
unfolding sort_metas
sort_metas-All P [] v = tt
sort_metas-All P (m ∷ ms) v = insert_meta-All P m (sort_metas ms) v.0 (sort_metas-All P ms v.1)

insert_meta-All_back :
    (P : SessionMeta → Type 0) (meta : SessionMeta) (ms : List SessionMeta)
    → All P (insert_meta meta ms)
    → P meta × All P ms
unfolding insert_meta
insert_meta-All_back P meta [] v = v
insert_meta-All_back P meta (m ∷ ms) v = elim (Bool-cases (ltb m.updated_at meta.updated_at)) [
  | inl e ↦ rw e at v
  | inr e ↦
      let kept : All P (m ∷ insert_meta meta ms) = rw e at v in
      let (here, rest) = insert_meta-All_back P meta ms kept.1 in (here, (kept.0, rest))
]

-- What holds of all entries of the list holds of all entries that were sorted.
pub sort_metas-All_back :
    (P : SessionMeta → Type 0) (ms : List SessionMeta) → All P (sort_metas ms) → All P ms
unfolding sort_metas
sort_metas-All_back P [] v = tt
sort_metas-All_back P (m ∷ ms) v =
    let (here, rest) = insert_meta-All_back P m (sort_metas ms) v in
    (here, sort_metas-All_back P ms rest)
