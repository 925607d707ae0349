-- ===== src/Session/Lease/Host.antt =====
-- The processes that share session stores, each with its table of leases, over one file system.
-- A call of `acquireStoreLease` or `releaseStoreLease` is one step: the mutex `leaseMu` makes it so.
use excelsior.Common.{
  ℕ, ◌≡◌, String, false, ◌==◌, if◌then◌else◌, List, [], ◌∷◌, Option, none, some, str_eq,
}
use excelsior.Chat.Workspace.{Platform}
use excelsior.Util.Files.{FileSystem, open_failed, busy, locked}
use excelsior.Session.Lease.{Leases, lease_key, lock_path, acquire_store_lease, release_store_lease}

module _ {F : Type 0} (p : Platform) (fs : FileSystem F) where
  -- What the system says of exclusive locks. `owner f key` is the process that has the lock of the
  -- directory with that canonical form: lock files of one directory are one file.
  pub record IsLocking (owner : F → String → Option ℕ) : Type 0 where
    pub lock_free :
        (pid : ℕ) (f : F) (dir : String)
        → (fs.lock pid f (lock_path fs dir)).1 ≡ locked
        → owner f (lease_key p dir) ≡ none
    pub lock_lem :
        (pid : ℕ) (f : F) (dir k : String)
        → (fs.lock pid f (lock_path fs dir)).1 ≡ locked
        → owner (fs.lock pid f (lock_path fs dir)).0 k
          ≡ (if str_eq (lease_key p dir) k then some pid else owner f k)
    pub lock_open_failed :
        (pid : ℕ) (f : F) (path k : String)
        → (fs.lock pid f path).1 ≡ open_failed
        → owner (fs.lock pid f path).0 k ≡ owner f k
    pub lock_busy :
        (pid : ℕ) (f : F) (path k : String)
        → (fs.lock pid f path).1 ≡ busy
        → owner (fs.lock pid f path).0 k ≡ owner f k
    pub unlock_lem :
        (pid : ℕ) (f : F) (dir k : String)
        → owner (fs.unlock pid f (lock_path fs dir)) k
          ≡ (if str_eq (lease_key p dir) k then none else owner f k)
    pub exit_keeps :
        (pid i : ℕ) (f : F) (k : String)
        → (pid == i) ≡ false
        → owner f k ≡ some i
        → owner (fs.exit pid f) k ≡ some i
    pub mkdir_all_owner : (f : F) (dir k : String) → owner (fs.mkdir_all f dir).0 k ≡ owner f k

  -- The processes with their leases, over one file system.
  pub record Host : Type 0 where
    pub files : F
    pub tables : ℕ → Leases

  pub data LeaseCall : Type 0 where
    acquires releases : ℕ → String → LeaseCall
    exits : ℕ → LeaseCall

  abbrev pub set_table : ℕ → Leases → (ℕ → Leases) → ℕ → Leases
  set_table i t tables j = if i == j then t else tables j

  abbrev pub lease_step : LeaseCall → Host → Host
  lease_step (acquires i dir) h =
      let r = acquire_store_lease p fs i dir h.files (h.tables i) in
      record { files = r.0; tables = set_table i r.1 h.tables }
  lease_step (releases i dir) h =
      let r = release_store_lease p fs i dir h.files (h.tables i) in
      record { files = r.0; tables = set_table i r.1 h.tables }
  lease_step (exits i) h = record { files = fs.exit i h.files; tables = set_table i [] h.tables }

  unfoldable pub run_leases : List LeaseCall → Host → Host
  run_leases [] h = h
  run_leases (call ∷ calls) h = run_leases calls (lease_step call h)
