-- ===== src/Tools/Paths.antt =====
-- `secureJoin` of pkg/tools/secure.go and `resolveRoot` of tools.go. path/filepath is a parameter.
use Prim.Native.String
use text.Mathlib.Text.{starts_with}
use excelsior.Common.{
  String, Bool, true, false, ◌||◌, if◌then◌else◌, str_eq, Option, none, some, Result, ok, err,
}
use excelsior.Util.{trim_space}
use excelsior.Tools.Types.{ToolError, empty_path, absolute_path, path_outside_workspace}

-- `clean` is `filepath.Clean` after `filepath.FromSlash`, `rel` and `eval_symlinks` answer `none` on
-- an error, and `separator` is `filepath.Separator`.
pub record FilePaths : Type 0 where
  pub is_abs : String → Bool
  pub abs : String → Option String
  pub clean : String → String
  pub join : String → String → String
  pub rel : String → String → Option String
  pub eval_symlinks : String → Option String
  pub dir : String → String
  pub separator : String

module _ (paths : FilePaths) where
  unfoldable pub is_outside : String → Bool
  is_outside rel = str_eq rel ".." || starts_with rel (String.◌++◌ ".." paths.separator)

  -- The check of the path by name: an error of `Rel` counts as outside.
  abbrev pub leaves : Option String → Bool
  leaves none = true
  leaves (some rel) = is_outside rel

  -- The check of the real path: an error of `Rel` does not count.
  abbrev pub escapes : Option String → Bool
  escapes none = false
  escapes (some rel) = is_outside rel

  abbrev or_given : String → Option String → String
  or_given path none = path
  or_given path (some found) = if str_eq found "" then path else found

  -- The target, or its parent where the target has no real path.
  abbrev check_path : String → Option String → String
  check_path full none = paths.dir full
  check_path full (some found) = full

  abbrev pub real_escapes : String → Option String → Bool
  real_escapes root none = false
  real_escapes root (some found) =
      escapes (paths.rel (or_given root (paths.eval_symlinks root)) found)

  unfoldable pub secure_join : String → String → Result ToolError String
  unfolding is_outside trim_space
  secure_join root p =
      let full = paths.join root (paths.clean p) in
      if str_eq (trim_space p) ""
      then err empty_path
      else if paths.is_abs p || starts_with p "/" || starts_with p "\\"
      then err absolute_path
      else if leaves (paths.rel root full)
      then err path_outside_workspace
      else if real_escapes root (paths.eval_symlinks (check_path full (paths.eval_symlinks full)))
      then err path_outside_workspace
      else ok full

  abbrev absolute : String → Option String → String
  absolute path none = path
  absolute path (some found) = found

  abbrev rooted : String → String
  rooted path = if paths.is_abs path then path else absolute path (paths.abs path)

  -- `resolveRoot`, with the answer of `os.Getwd`.
  unfoldable pub resolve_root : Option String → String → String
  resolve_root working workspace =
      if str_eq workspace ""
      then elim working [ none ↦ "." | some wd ↦ if str_eq wd "" then "." else rooted wd ]
      else rooted workspace
