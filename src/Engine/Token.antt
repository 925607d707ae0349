-- ===== src/Engine/Token.antt =====
-- `OwnerToken` and `newID` of pkg/engine/auth.go. The file system, encoding/hex, the environment and
-- `protectTokenDir`, a call of the operating system, are parameters. What the code returns is a
-- token beside an error.
pub mod Plain
pub mod Stable
use Prim.Native.String
use excelsior.Common.{
  ℕ, zero, suc, ◌+◌, String, Bool, true, false, ◌==◌, if◌then◌else◌, str_eq, Option, none, some,
  Result, ok, err,
}
use excelsior.Util.{trim_space}
use excelsior.Util.Files.{FileSystem, FileError, not_exist, other_failure}
use excelsior.Util.Atomic.{WriteError, write_atomic}

pub data TokenError : Type 0 where
  no_config_dir invalid_token_file read_failed mkdir_failed protect_failed : TokenError
  open_failed write_failed close_failed : TokenError
  rotate_failed : WriteError → TokenError

-- `os.OpenFile` with O_CREATE and O_EXCL.
pub data OpenAnswer : Type 0 where
  opened already_exists open_refused : OpenAnswer

-- `hex_size` is the length of what `hex.DecodeString` gives, and `new_id` the identifiers that
-- `newID` draws, in any order.
pub record TokenHost (F : Type 0) : Type 0 where
  pub token_file : String
  pub config_dir : Option String
  pub protect_dir : F → String → F × Bool
  pub open_new : F → String → F × OpenAnswer
  pub hex_size : String → Option ℕ
  pub new_id : ℕ → String

-- A token and the error that is returned with it.
abbrev pub TokenAnswer : Type 0 → Type 0
TokenAnswer F = F × String × Option TokenError

unfoldable pub is_token_size : Option ℕ → Bool
is_token_size none = false
is_token_size (some n) = n == 32

module _ {F : Type 0} (fs : FileSystem F) (host : TokenHost F) where
  abbrev pub refused_with : F → TokenError → Option (TokenAnswer F)
  refused_with f e = some (f, "", some e)

  unfoldable pub owner_path : Option String
  owner_path =
      if str_eq host.token_file ""
      then elim host.config_dir [
        | none ↦ none
        | some dir ↦ some (fs.join (fs.join dir "excelsior") "owner-token")
      ]
      else some host.token_file

  -- The content of the file as a token.
  unfoldable pub token_of_text : F → String → TokenAnswer F
  unfolding is_token_size
  token_of_text f text =
      if is_token_size (host.hex_size (trim_space text))
      then (f, trim_space text, none)
      else (f, "", some invalid_token_file)

  abbrev pub drawn_token : ℕ → String
  drawn_token n = String.◌++◌ (host.new_id (n + n)) (host.new_id (suc (n + n)))

  module _ (path token : String) where
    abbrev pub rotated : F × Option WriteError → Option (TokenAnswer F)
    rotated (f, none) = some (f, token, none)
    rotated (f, some e) = some (f, token, some (rotate_failed e))

    abbrev pub token_closed : F × Bool → Option (TokenAnswer F)
    token_closed (f, true) = some (f, token, none)
    token_closed (f, false) = some (f, token, some close_failed)

    -- The file is closed whether or not the text was written.
    abbrev pub token_written : F × Bool → Option (TokenAnswer F)
    token_written (f, true) = token_closed (fs.close f path)
    token_written (f, false) = refused_with (fs.close f path).0 write_failed

    abbrev pub token_opened : (F → Option (TokenAnswer F)) → F × OpenAnswer → Option (TokenAnswer F)
    token_opened again (f, opened) = token_written (fs.write f path (String.◌++◌ token "\n"))
    token_opened again (f, already_exists) = again f
    token_opened again (f, open_refused) = refused_with f open_failed

    unfoldable pub store_token : (F → Option (TokenAnswer F)) → Bool → F → Option (TokenAnswer F)
    store_token again rotate f =
        if rotate
        then rotated (write_atomic fs path (String.◌++◌ token "\n") f)
        else token_opened again (host.open_new f path)

    abbrev pub protected : (F → Option (TokenAnswer F)) → Bool → F × Bool → Option (TokenAnswer F)
    protected again rotate (f, true) = store_token again rotate f
    protected again rotate (f, false) = refused_with f protect_failed

    abbrev pub dir_made : (F → Option (TokenAnswer F)) → Bool → F × Bool → Option (TokenAnswer F)
    dir_made again rotate (f, true) = protected again rotate (host.protect_dir f (fs.dir_of path))
    dir_made again rotate (f, false) = refused_with f mkdir_failed

    unfoldable pub create_token : (F → Option (TokenAnswer F)) → Bool → F → Option (TokenAnswer F)
    unfolding store_token
    create_token again rotate f = dir_made again rotate (fs.mkdir_all f (fs.dir_of path))

    abbrev pub token_read :
        (F → Option (TokenAnswer F)) → F → Result FileError String → Option (TokenAnswer F)
    token_read again f (ok text) = some (token_of_text f text)
    token_read again f (err not_exist) = create_token again false f
    token_read again f (err other_failure) = refused_with f read_failed

  -- `again` is the call of itself that the code makes where the file appeared in the meantime.
  unfoldable pub token_at :
      (F → Option (TokenAnswer F)) → String → Bool → F → String → Option (TokenAnswer F)
  unfolding create_token token_of_text
  token_at again token true f path = create_token path token again true f
  token_at again token false f path = token_read path token again f (fs.read_file f path)

  unfoldable pub token_in :
      (F → Option (TokenAnswer F)) → String → Bool → F → Option String → Option (TokenAnswer F)
  unfolding token_at
  token_in again token rotate f none = refused_with f no_config_dir
  token_in again token rotate f (some path) = token_at again token rotate f path

  -- The fuel bounds the calls; `none` is that it is used up.
  unfoldable pub owner_token : ℕ → Bool → F → Option (TokenAnswer F)
  unfolding owner_path token_in
  owner_token zero rotate f = none
  owner_token (suc n) rotate f = token_in (owner_token n false) (drawn_token n) rotate f owner_path
