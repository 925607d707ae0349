-- ===== src/Session/Memory.antt =====
-- `MemoryStore` of pkg/session/memstore.go, and `Latest` of store.go. `sort.Slice` does not say how it
-- orders equal keys; here an entry comes behind the equal ones that were there before it. One
-- reading of the clock stands for the two of `Save`.
pub mod Order
pub mod Contract
use Prim.Native.String
use excelsior.Common.{
  ℕ, String, Bool, true, false, List, [], ◌∷◌, Option, none, some, Map, lookup, insert, erase,
  Result, ok, err, if◌then◌else◌, ◌==◌, ltb, length,
}
use excelsior.Session.Types.{Record, SessionMeta, SessionError, session_not_found, Store}
use excelsior.Session.Id.{sanitize_id}

pub record MemoryStore : Type 0 where
  pub sessions : Map Record

unfoldable pub new_memory_store : MemoryStore
new_memory_store = record { sessions = [] }

-- Where the record has no creation time, it is that of the record it replaces, or the present.
abbrev created_before : ℕ → Option Record → ℕ
created_before now none = now
created_before now (some existing) = if existing.created_at == 0 then now else existing.created_at

abbrev pub stored_record : ℕ → String → Map Record → Record → Record
stored_record now safe sessions rec = record rec {
  id = safe;
  created_at =
      if rec.created_at == 0 then created_before now (lookup safe sessions) else rec.created_at;
  updated_at = now;
}

-- What the operations do once `sanitizeID` has answered.
abbrev pub save_at :
    ℕ → Record → MemoryStore → Result SessionError String → MemoryStore × Option SessionError
save_at now rec m (err e) = (m, some e)
save_at now rec m (ok safe) =
    (record m { sessions = insert safe (stored_record now safe m.sessions rec) m.sessions }, none)

abbrev pub found : Option Record → Result SessionError Record
found none = err session_not_found
found (some rec) = ok rec

abbrev pub load_at : MemoryStore → Result SessionError String → Result SessionError Record
load_at m (err e) = err e
load_at m (ok safe) = found (lookup safe m.sessions)

abbrev pub delete_at : MemoryStore → Result SessionError String → MemoryStore × Option SessionError
delete_at m (err e) = (m, some e)
delete_at m (ok safe) = (record m { sessions = erase safe m.sessions }, none)

unfoldable pub save : MemoryStore → ℕ → Record → MemoryStore × Option SessionError
save m now rec = save_at now rec m (sanitize_id rec.id)

unfoldable pub load : MemoryStore → String → Result SessionError Record
load m id = load_at m (sanitize_id id)

unfoldable pub delete : MemoryStore → String → MemoryStore × Option SessionError
delete m id = delete_at m (sanitize_id id)

unfoldable pub meta_of : Record → SessionMeta
meta_of rec = record {
  id = rec.id;
  title = rec.title;
  created_at = rec.created_at;
  updated_at = if rec.updated_at == 0 then rec.created_at else rec.updated_at;
  msg_count = length rec.messages;
}

abbrev pub metas_of : Map Record → List SessionMeta
metas_of [] = []
metas_of ((k, rec) ∷ rest) = meta_of rec ∷ metas_of rest

-- `sort.Slice` by `UpdatedAt`, the latest first.
unfoldable pub insert_meta : SessionMeta → List SessionMeta → List SessionMeta
insert_meta meta [] = meta ∷ []
insert_meta meta (m ∷ ms) =
    let rest = insert_meta meta ms in
    if ltb m.updated_at meta.updated_at then meta ∷ m ∷ ms else m ∷ rest

unfoldable pub sort_metas : List SessionMeta → List SessionMeta
unfolding insert_meta
sort_metas [] = []
sort_metas (m ∷ ms) = insert_meta m (sort_metas ms)

unfoldable pub list : MemoryStore → List SessionMeta
unfolding sort_metas meta_of
list m = sort_metas (metas_of m.sessions)

-- `Latest` of store.go on this store, whose `List` does not fail.
abbrev pub load_first : MemoryStore → List SessionMeta → Result SessionError Record
load_first m [] = err session_not_found
load_first m (meta ∷ metas) = load m meta.id

unfoldable pub latest : MemoryStore → Result SessionError Record
unfolding load list
latest m = load_first m (list m)

-- The store as the interface asks for it: it has no lease and nothing to close.
unfoldable pub memory_store : Store MemoryStore
unfolding save load delete list
memory_store = record {
  save = save;
  load = λ m id. (m, load m id);
  list = λ m. (m, ok (list m));
  delete = delete;
  lease_error = λ m. (m, none);
  close = λ m. m;
}
