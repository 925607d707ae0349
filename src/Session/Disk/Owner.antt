-- ===== src/Session/Disk/Owner.antt =====
-- The state of `DirStore` in pkg/session/session.go, its lease, and the paths of its files.
use Prim.Native.String
use excelsior.Common.{
  ℕ, String, Bool, true, false, if◌then◌else◌, str_eq, Option, none, some, Result, ok, err,
}
use excelsior.Util.{trim_space}
use excelsior.Util.Files.{FileSystem}
use excelsior.Chat.Workspace.{Platform}
use excelsior.Session.Types.{SessionError, store_dir_empty, store_closed}
use excelsior.Session.Id.{sanitize_id}
use excelsior.Session.Lease.{Leases, acquire_store_lease, release_store_lease}

pub record DirStore : Type 0 where
  pub dir : String
  pub lease_err : Option SessionError
  pub holds : Bool
  pub closed : Bool

-- The store with what it works on: the files, and the leases of its process.
pub record Disk (F : Type 0) : Type 0 where
  pub files : F
  pub leases : Leases
  pub dir_store : DirStore
  pub open dir_store use *

-- What `NewDirStore` starts from.
abbrev pub unopened : String → DirStore
unopened dir = record { dir = dir; lease_err = none; holds = false; closed = false }

module _ {F : Type 0} (p : Platform) (fs : FileSystem F) (pid : ℕ) where
  abbrev leased_store : DirStore → F × Leases × Option SessionError → Disk F × Option SessionError
  leased_store s (f, leases, some e) =
      (record { files = f; leases = leases; dir_store = record s { lease_err = some e } }, some e)
  leased_store s (f, leases, none) = (
    record { files = f; leases = leases; dir_store = record s { lease_err = none; holds = true } },
    none,
  )

  unfoldable pub ensure_lease : Disk F → Disk F × Option SessionError
  unfolding acquire_store_lease
  ensure_lease d =
      if d.closed
      then (d, some store_closed)
      else if d.holds
      then (d, none)
      else if str_eq (trim_space d.dir) ""
      then (d, none)
      else leased_store d.dir_store (acquire_store_lease p fs pid d.dir d.files d.leases)

  unfoldable pub new_dir_store : String → F → Leases → Disk F
  unfolding ensure_lease
  new_dir_store dir f leases =
      (ensure_lease (record { files = f; leases = leases; dir_store = unopened dir })).0

  unfoldable pub close : Disk F → Disk F
  unfolding release_store_lease
  close d =
      let closed : DirStore = record d.dir_store { closed = true; holds = false } in
      let (f, leases) = release_store_lease p fs pid d.dir d.files d.leases in
      if d.holds
      then record { files = f; leases = leases; dir_store = closed }
      else record d { dir_store = closed }

module _ {F : Type 0} (fs : FileSystem F) where
  abbrev file_path : String → Result SessionError String → Result SessionError String
  file_path dir (err e) = err e
  file_path dir (ok safe) =
      if str_eq (trim_space dir) ""
      then err store_dir_empty
      else ok (fs.join dir (String.◌++◌ safe ".jsonl"))

  unfoldable pub path : String → String → Result SessionError String
  unfolding sanitize_id
  path dir id = file_path dir (sanitize_id id)
