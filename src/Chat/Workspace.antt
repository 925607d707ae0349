-- ===== src/Chat/Workspace.antt =====
-- `CanonicalWorkspace` and `sessionKey` of internal/chat/coordinator.go. path/filepath is a
-- parameter: what it answers depends on the file system and on the operating system, and is taken to
-- stay the same while the program runs.
pub mod Keys
use Prim.Native.String
use excelsior.Common.{String, Bool, Option, none, some, if◌then◌else◌}

-- `filepath.Abs` and `filepath.EvalSymlinks` (`none` is an error), `filepath.Clean`,
-- `strings.ToLower`, and whether `runtime.GOOS` is "windows".
pub record Platform : Type 0 where
  pub abs : String → Option String
  pub eval_symlinks : String → Option String
  pub clean : String → String
  pub to_lower : String → String
  pub windows : Bool

abbrev or_same : Option String → String → String
or_same none path = path
or_same (some resolved) path = resolved

unfoldable pub canonical_workspace : Platform → String → String
canonical_workspace p path =
    let absolute = or_same (p.abs path) path in
    let resolved = or_same (p.eval_symlinks absolute) absolute in
    let cleaned = p.clean resolved in if p.windows then p.to_lower cleaned else cleaned

-- The separator is the byte 0.
unfoldable pub session_key : Platform → String → String → String
session_key p workspace id = String.◌++◌ (canonical_workspace p workspace) (String.◌++◌ "\0" id)
