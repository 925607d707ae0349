-- ===== src/Util/Atomic.antt =====
-- `WriteAtomic` of pkg/util/atomic.go.
pub mod Whole
use excelsior.Common.{String, Bool, true, false, Option, none, some}
use excelsior.Util.Files.{FileSystem}

pub data WriteError : Type 0 where
  mkdir_failed create_temp_failed write_failed sync_failed close_failed chmod_failed rename_failed :
      WriteError

module _ {F : Type 0} (fs : FileSystem F) where
  -- The next call, where this one answered with nil.
  abbrev pub or_fail : WriteError → (F → F × Option WriteError) → F × Bool → F × Option WriteError
  or_fail e next (f, true) = next f
  or_fail e next (f, false) = (f, some e)

  -- What follows each call on the temporary file, up to the rename.
  abbrev after_rename : String → F → F × Option WriteError
  after_rename path f = (fs.sync_dir f (fs.dir_of path), none)

  abbrev after_chmod : String → String → F → F × Option WriteError
  after_chmod name path f = or_fail rename_failed (after_rename path) (fs.rename f name path)

  abbrev after_close : String → String → F → F × Option WriteError
  after_close name path f = or_fail chmod_failed (after_chmod name path) (fs.chmod f name)

  abbrev after_sync : String → String → F → F × Option WriteError
  after_sync name path f = or_fail close_failed (after_close name path) (fs.close f name)

  abbrev after_write : String → String → F → F × Option WriteError
  after_write name path f = or_fail sync_failed (after_sync name path) (fs.sync f name)

  unfoldable pub fill : String → String → String → F → F × Option WriteError
  fill name path text f = or_fail write_failed (after_write name path) (fs.write f name text)

  -- The deferred function: the file is closed, and removed unless it was renamed.
  abbrev pub clean_up : String → F × Option WriteError → F × Option WriteError
  clean_up name (f, none) = ((fs.close f name).0, none)
  clean_up name (f, some e) = ((fs.remove (fs.close f name).0 name).0, some e)

  abbrev pub write_temp : String → String → F × Option String → F × Option WriteError
  write_temp path text (f, none) = (f, some create_temp_failed)
  write_temp path text (f, some name) = clean_up name (fill name path text f)

  abbrev after_mkdir : String → String → F → F × Option WriteError
  after_mkdir path text f = write_temp path text (fs.create_temp f (fs.dir_of path))

  unfoldable pub write_atomic : String → String → F → F × Option WriteError
  unfolding fill
  write_atomic path text f =
      let dir = fs.dir_of path in or_fail mkdir_failed (after_mkdir path text) (fs.mkdir_all f dir)
