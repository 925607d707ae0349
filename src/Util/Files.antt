-- ===== src/Util/Files.antt =====
-- The file system that pkg/util/atomic.go and pkg/session call: the package os over a state `F`, the
-- locks of lease_unix.go and lease_windows.go, and path/filepath. It is not code of the repository:
-- a parameter, with what the callers rely on as laws.
use excelsior.Common.{
  ℕ, ◌≡◌, String, Bool, true, false, List, Option, none, some, Result, ok, err, str_eq,
}

-- What `os.IsNotExist` tells apart.
pub data FileError : Type 0 where
  not_exist other_failure : FileError

pub record DirEntry : Type 0 where
  pub name : String
  pub is_dir : Bool

-- A call that only fails or succeeds answers with true where the error is nil. `create_temp` is
-- `os.CreateTemp(dir, ".tmp-*")` and answers with the name. `write`, `sync` and `close` act on the
-- open file of that name. `lock pid f path` opens the file at the path and takes the exclusive
-- lock, `unlock` closes it, and `exit` is what the system does when the process ends.
pub data LockAnswer : Type 0 where
  open_failed busy locked : LockAnswer

pub record FileSystem (F : Type 0) : Type 0 where
  pub dir_of : String → String
  pub join : String → String → String
  pub mkdir_all : F → String → F × Bool
  pub create_temp : F → String → F × Option String
  pub write : F → String → String → F × Bool
  pub sync : F → String → F × Bool
  pub close : F → String → F × Bool
  pub chmod : F → String → F × Bool
  pub rename : F → String → String → F × Bool
  pub remove : F → String → F × Option FileError
  pub sync_dir : F → String → F
  pub read_file : F → String → Result FileError String
  pub read_dir : F → String → Result FileError (List DirEntry)
  pub lock : ℕ → F → String → F × LockAnswer
  pub unlock : ℕ → F → String → F
  pub exit : ℕ → F → F

module _ {F : Type 0} (fs : FileSystem F) where
  -- A call that leaves the content of every file as it was, but for the file of that name.
  abbrev pub Keeps : F → F → String → Type 0
  Keeps f g name = (p : String) → str_eq name p ≡ false → fs.read_file g p ≡ fs.read_file f p

  -- What the documentation of the package os says of contents. A path names a file in one spelling,
  -- and contents are those of files: no path that is asked for is that of a directory.
  pub record IsFileSystem : Type 0 where
    pub mkdir_all_keeps :
        (f : F) (d p : String) → fs.read_file (fs.mkdir_all f d).0 p ≡ fs.read_file f p
    pub create_temp_keeps :
        (f : F) (d name : String)
        → (fs.create_temp f d).1 ≡ some name
        → Keeps f (fs.create_temp f d).0 name
    pub create_temp_fails :
        (f : F) (d p : String)
        → (fs.create_temp f d).1 ≡ none
        → fs.read_file (fs.create_temp f d).0 p ≡ fs.read_file f p
    pub create_temp_empty :
        (f : F) (d name : String)
        → (fs.create_temp f d).1 ≡ some name
        → fs.read_file (fs.create_temp f d).0 name ≡ ok ""
    pub write_keeps : (f : F) (name data_ : String) → Keeps f (fs.write f name data_).0 name
    pub write_lem :
        (f : F) (name data_ : String)
        → fs.read_file f name ≡ ok ""
        → (fs.write f name data_).1 ≡ true
        → fs.read_file (fs.write f name data_).0 name ≡ ok data_
    pub sync_keeps :
        (f : F) (name p : String) → fs.read_file (fs.sync f name).0 p ≡ fs.read_file f p
    pub close_keeps :
        (f : F) (name p : String) → fs.read_file (fs.close f name).0 p ≡ fs.read_file f p
    pub chmod_keeps :
        (f : F) (name p : String) → fs.read_file (fs.chmod f name).0 p ≡ fs.read_file f p
    pub sync_dir_keeps :
        (f : F) (d p : String) → fs.read_file (fs.sync_dir f d) p ≡ fs.read_file f p
    pub rename_lem :
        (f : F) (old new : String)
        → (fs.rename f old new).1 ≡ true
        → fs.read_file (fs.rename f old new).0 new ≡ fs.read_file f old
    pub rename_keeps :
        (f : F) (old new p : String)
        → str_eq old p ≡ false
        → str_eq new p ≡ false
        → fs.read_file (fs.rename f old new).0 p ≡ fs.read_file f p
    pub rename_fails :
        (f : F) (old new p : String)
        → (fs.rename f old new).1 ≡ false
        → fs.read_file (fs.rename f old new).0 p ≡ fs.read_file f p
    pub remove_keeps : (f : F) (name : String) → Keeps f (fs.remove f name).0 name
    pub remove_lem :
        (f : F) (name : String)
        → (fs.remove f name).1 ≡ none
        → fs.read_file (fs.remove f name).0 name ≡ err not_exist
    pub remove_fails :
        (f : F) (name p : String) (e : FileError)
        → (fs.remove f name).1 ≡ some e
        → fs.read_file (fs.remove f name).0 p ≡ fs.read_file f p
    pub remove_missing :
        (f : F) (name : String)
        → (fs.remove f name).1 ≡ some not_exist
        → fs.read_file f name ≡ err not_exist
    pub lock_keeps :
        (pid : ℕ) (f : F) (path p : String)
        → str_eq path p ≡ false
        → fs.read_file (fs.lock pid f path).0 p ≡ fs.read_file f p
    pub unlock_keeps :
        (pid : ℕ) (f : F) (path p : String)
        → fs.read_file (fs.unlock pid f path) p ≡ fs.read_file f p

  -- A name that `create_temp` never gives: session files and lock files are such.
  abbrev pub IsPermanent : String → Type 0
  IsPermanent p =
      (f : F) (d name : String) → (fs.create_temp f d).1 ≡ some name → str_eq name p ≡ false
