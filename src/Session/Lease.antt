-- ===== src/Session/Lease.antt =====
-- pkg/session/lease.go: the leases that one process holds, by the canonical directory. The lock itself
-- is the operating system's; `pid` is the process that asks for it. The canonical directory is a
-- function of the directory: a symbolic link that changes between two calls is not covered, nor a
-- directory below one that `EvalSymlinks` resolves only once it is made.
pub mod Host
pub mod Exclusive
use Prim.Native.Char.{Char, code}
use Prim.Native.String
use Prim.Native.String.{char_at}
use excelsior.Common.{
  ℕ, suc, ◌-◌, String, Bool, ◌&&◌, leb, if◌then◌else◌, Option, none, some, Map, lookup, insert,
  erase, true, false,
}
use excelsior.Chat.Workspace.{Platform}
use excelsior.Session.Types.{SessionError, store_owned, io_failure}
use excelsior.Util.Files.{FileSystem, LockAnswer, open_failed, busy, locked}

-- `lower`: the letters of ASCII.
abbrev lower_char : Char → Char
lower_char c =
    if leb b'A' (code c) && leb (code c) b'Z'
    then char_at "abcdefghijklmnopqrstuvwxyz" (code c - b'A')
    else c

unfoldable pub lower : String → String
lower String.[] = String.[]
lower (String.◌∷◌ c s) = String.◌∷◌ (lower_char c) (lower s)

abbrev or_given : Option String → String → String
or_given none dir = dir
or_given (some found) dir = found

unfoldable pub lease_key : Platform → String → String
unfolding lower
lease_key p dir =
    let absolute = or_given (p.abs dir) dir in
    let resolved = or_given (p.eval_symlinks absolute) absolute in
    let cleaned = p.clean resolved in if p.windows then lower cleaned else cleaned

-- `storeLease`: the open file, by its path, and the references.
pub record StoreLease : Type 0 where
  pub path : String
  pub refs : ℕ

abbrev pub Leases : Type 0
Leases = Map StoreLease

abbrev pub lock_path : {F : Type 0} → FileSystem F → String → String
lock_path fs dir = fs.join dir ".owner.lock"

module _ {F : Type 0} (p : Platform) (fs : FileSystem F) (pid : ℕ) where
  abbrev pub after_lock :
      String → String → Leases → F × LockAnswer → F × Leases × Option SessionError
  after_lock key dir leases (f, open_failed) = (f, leases, some io_failure)
  after_lock key dir leases (f, busy) = (f, leases, some store_owned)
  after_lock key dir leases (f, locked) =
      (f, insert key (record { path = lock_path fs dir; refs = 1 }) leases, none)

  abbrev pub open_lease : String → String → Leases → F × Bool → F × Leases × Option SessionError
  open_lease key dir leases (f, false) = (f, leases, some io_failure)
  open_lease key dir leases (f, true) = after_lock key dir leases (fs.lock pid f (lock_path fs dir))

  -- `acquireStoreLease`.
  unfoldable pub acquire_store_lease : String → F → Leases → F × Leases × Option SessionError
  unfolding lease_key
  acquire_store_lease dir f leases =
      let key = lease_key p dir in
      elim (lookup key leases) [
        | some l ↦ (f, insert key (record l { refs = suc l.refs }) leases, none)
        | none ↦ open_lease key dir leases (fs.mkdir_all f dir)
      ]

  -- `releaseStoreLease`.
  unfoldable pub release_store_lease : String → F → Leases → F × Leases
  unfolding lease_key
  release_store_lease dir f leases =
      let key = lease_key p dir in
      elim (lookup key leases) [
        | none ↦ (f, leases)
        | some l ↦
            if leb (l.refs - 1) 0
            then (fs.unlock pid f l.path, erase key leases)
            else (f, insert key (record l { refs = l.refs - 1 }) leases)
      ]
