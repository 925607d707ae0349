-- ===== src/Session/Disk.antt =====
-- `DirStore` of pkg/session/session.go: sessions as files of one directory, under the lease of the
-- directory. One reading of the clock stands for the two of `Save`; a list of messages that is nil
-- and an empty one are one list.
pub mod Owner
pub mod Lines
pub mod Reading
pub mod RoundTrip
pub mod Closing
use Prim.Native.String
use excelsior.Common.{
  ℕ, String, Bool, true, false, not, ◌||◌, ◌==◌, if◌then◌else◌, str_eq, List, [], ◌∷◌, ◌++◌, length,
  Option, none, some, Result, ok, err,
}
use excelsior.Util.{trim_space}
use excelsior.Util.Files.{FileSystem, FileError, not_exist, other_failure, DirEntry}
use excelsior.Util.Atomic.{WriteError, write_atomic}
use excelsior.Chat.Workspace.{Platform}
use excelsior.Session.Types.{
  Record, SessionMeta, SessionError, session_not_found, corrupted_session, empty_session,
  store_dir_empty, store_closed, io_failure, Store,
}
use excelsior.Session.Id.{sanitize_id}
use excelsior.Session.Memory.{sort_metas}
use excelsior.Session.Lease.{Leases, acquire_store_lease, release_store_lease}
use excelsior.Session.Disk.Owner.{Disk, ensure_lease, close, path}
use excelsior.Session.Disk.Lines.{Codec, last_record, without_ext}

-- The time stamps that `Save` sets.
unfoldable pub stamped : ℕ → Record → Record
stamped now rec = record rec {
  created_at = if rec.created_at == 0 then now else rec.created_at;
  updated_at = now;
}

-- The defaults of a record that was read.
unfoldable pub completed : String → Record → Record
completed id rec = record rec {
  id = if str_eq rec.id "" then id else rec.id;
  updated_at = if rec.updated_at == 0 then rec.created_at else rec.updated_at;
}

abbrev decoded : String → Option Record → Result SessionError Record
decoded id none = err corrupted_session
decoded id (some rec) = ok (completed id rec)

abbrev meta_of_record : String → Option Record → List SessionMeta
meta_of_record id none = []
meta_of_record id (some rec) =
    let whole = completed id rec in
    record {
      id = whole.id;
      title = whole.title;
      created_at = whole.created_at;
      updated_at = whole.updated_at;
      msg_count = length whole.messages;
    }
    ∷ []

module _ (codec : Codec) where
  unfoldable pub load_text : String → Result FileError String → Result SessionError Record
  unfolding last_record
  load_text id (err not_exist) = err session_not_found
  load_text id (err other_failure) = err io_failure
  load_text id (ok text) =
      if str_eq (trim_space text) "" then err empty_session else decoded id (last_record codec text)

  abbrev meta_of_text : String → Result FileError String → List SessionMeta
  meta_of_text id (err e) = []
  meta_of_text id (ok text) =
      if str_eq (trim_space text) "" then [] else meta_of_record id (last_record codec text)

module _ {F : Type 0} (p : Platform) (fs : FileSystem F) (codec : Codec) (pid : ℕ) where
  abbrev pub written : Disk F → F × Option WriteError → Disk F × Option SessionError
  written d (f, none) = (record d { files = f }, none)
  written d (f, some e) = (record d { files = f }, some io_failure)

  abbrev pub write_line : String → Disk F → Option String → Disk F × Option SessionError
  write_line target d none = (d, some io_failure)
  write_line target d (some line) =
      written d (write_atomic fs target (String.◌++◌ line "\n") d.files)

  abbrev pub save_at :
      ℕ → Record → Disk F → Result SessionError String → Disk F × Option SessionError
  save_at now rec d (err e) = (d, some e)
  save_at now rec d (ok target) = write_line target d (codec.marshal (stamped now rec))

  abbrev save_leased : ℕ → Record → Disk F × Option SessionError → Disk F × Option SessionError
  save_leased now rec (d, some e) = (d, some e)
  save_leased now rec (d, none) = save_at now rec d (path fs d.dir rec.id)

  unfoldable pub save : Disk F → ℕ → Record → Disk F × Option SessionError
  unfolding write_atomic stamped
  save d now rec = save_leased now rec (ensure_lease p fs pid d)

  abbrev pub load_at : String → Disk F → Result SessionError String → Result SessionError Record
  load_at id d (err e) = err e
  load_at id d (ok target) = load_text codec id (fs.read_file d.files target)

  abbrev load_leased : String → Disk F × Option SessionError → Disk F × Result SessionError Record
  load_leased id (d, some e) = (d, err e)
  load_leased id (d, none) = (d, load_at id d (path fs d.dir id))

  unfoldable pub load : Disk F → String → Disk F × Result SessionError Record
  unfolding load_text
  load d id = load_leased id (ensure_lease p fs pid d)

  -- `metaForEntry`: what is no session file, or cannot be read, is left out.
  abbrev meta_of_id : Disk F → DirEntry → String → Result SessionError String → List SessionMeta
  meta_of_id d entry id (err e) = []
  meta_of_id d entry id (ok safe) =
      meta_of_text codec id (fs.read_file d.files (fs.join d.dir entry.name))

  abbrev meta_of_name : Disk F → DirEntry → Option String → List SessionMeta
  meta_of_name d entry none = []
  meta_of_name d entry (some id) =
      if entry.is_dir then [] else meta_of_id d entry id (sanitize_id id)

  unfoldable pub meta_for_entry : Disk F → DirEntry → List SessionMeta
  unfolding without_ext
  meta_for_entry d entry = meta_of_name d entry (without_ext ".jsonl" entry.name)

  metas_for : Disk F → List DirEntry → List SessionMeta
  unfolding meta_for_entry
  metas_for d [] = []
  metas_for d (entry ∷ entries) = meta_for_entry d entry ++ metas_for d entries

  abbrev list_entries :
      Disk F → Result FileError (List DirEntry) → Result SessionError (List SessionMeta)
  list_entries d (err not_exist) = ok []
  list_entries d (err other_failure) = err io_failure
  list_entries d (ok entries) = ok (sort_metas (metas_for d entries))

  abbrev list_leased :
      Disk F × Option SessionError → Disk F × Result SessionError (List SessionMeta)
  list_leased (d, some e) = (d, err e)
  list_leased (d, none) =
      if str_eq (trim_space d.dir) ""
      then (d, err store_dir_empty)
      else (d, list_entries d (fs.read_dir d.files d.dir))

  unfoldable pub list : Disk F → Disk F × Result SessionError (List SessionMeta)
  unfolding metas_for sort_metas
  list d = list_leased (ensure_lease p fs pid d)

  abbrev removed : Disk F → F × Option FileError → Disk F × Option SessionError
  removed d (f, none) = (record d { files = f }, none)
  removed d (f, some not_exist) = (record d { files = f }, none)
  removed d (f, some other_failure) = (record d { files = f }, some io_failure)

  abbrev delete_at : Disk F → Result SessionError String → Disk F × Option SessionError
  delete_at d (err e) = (d, some e)
  delete_at d (ok target) = removed d (fs.remove d.files target)

  abbrev delete_leased : String → Disk F × Option SessionError → Disk F × Option SessionError
  delete_leased id (d, some e) = (d, some e)
  delete_leased id (d, none) = delete_at d (path fs d.dir id)

  unfoldable pub delete : Disk F → String → Disk F × Option SessionError
  delete d id = delete_leased id (ensure_lease p fs pid d)

  -- The store as the coordinator uses it.
  unfoldable pub disk_store : Store (Disk F)
  unfolding save load list delete close
  disk_store = record {
    save = save;
    load = load;
    list = list;
    delete = delete;
    lease_error = ensure_lease p fs pid;
    close = close p fs pid;
  }
