-- ===== src/Tools/Types.antt =====
-- pkg/tools/errors.go, permission.go and the registry of tools.go. The text that `errf` puts around
-- an error is left out.
use excelsior.Common.{
  ℕ, ◌*◌, String, Bool, true, false, List, [], ◌∷◌, Option, none, some, Map, lookup, insert,
  if◌then◌else◌,
}

-- The sentinels, an object that is no regular file, a context that is done, and what a handler, a
-- process or the file system fails with.
pub data ToolError : Type 0 where
  invalid_arguments empty_path absolute_path path_outside_workspace file_too_large : ToolError
  command_too_long text_not_found ambiguous_match permission_denied not_regular : ToolError
  context_done handler_failed start_failed io_failed : ToolError

abbrev pub max_write_size : ℕ
max_write_size = 10 * 1048576

abbrev pub max_command_length : ℕ
max_command_length = 8 * 1024

pub record PermissionRequest : Type 0 where
  pub tool : String
  pub file_path : String
  pub preview : String
  pub command : String

-- What a handler answers: a decision, `context.Canceled`, or another error.
pub data Answer : Type 0 where
  decided : Bool → Answer
  canceled failed : Answer

abbrev pub PermissionHandler : Type 0
PermissionHandler = PermissionRequest → Answer

abbrev allowed : Answer → Option ToolError
allowed (decided true) = none
allowed (decided false) = some permission_denied
allowed canceled = some permission_denied
allowed failed = some handler_failed

-- `checkPermission`; `none` is permission.
unfoldable pub check_permission :
    Bool → Option PermissionHandler → PermissionRequest → Option ToolError
check_permission ctx_done handler req =
    if ctx_done then some context_done else elim handler [ none ↦ none | some h ↦ allowed (h req) ]

-- `Registry`: the tools by name.
module _ {T : Type 0} (name_of : T → String) where
  add_tools : Map T → List T → Map T
  add_tools m [] = m
  add_tools m (t ∷ ts) = add_tools (insert (name_of t) t m) ts

  unfoldable pub new_registry : List T → Map T
  unfolding add_tools
  new_registry ts = add_tools [] ts

  -- `before` is `cmp.Compare(a, b) <= 0` on names.
  module _ (before : String → String → Bool) where
    insert_tool : T → List T → List T
    insert_tool t [] = t ∷ []
    insert_tool t (u ∷ us) =
        let rest = insert_tool t us in
        if before (name_of t) (name_of u) then t ∷ u ∷ us else u ∷ rest

    -- `All`: the tools of the map, sorted by name.
    unfoldable pub all_tools : Map T → List T
    unfolding insert_tool
    all_tools [] = []
    all_tools ((name, t) ∷ m) = insert_tool t (all_tools m)

unfoldable pub get_tool : {T : Type 0} → Map T → String → Option T
get_tool m name = lookup name m
