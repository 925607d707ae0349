-- ===== src/Config.antt =====
-- Permission settings: pkg/config/settings.go, `ParsePermissionMode` of config.go, and what
-- internal/permissions/policy.go and the permission handler of `ExecuteTurn` make of them.
-- `strings.ToLower` is a parameter. A file is what encoding/json decodes from it, `none` where it is
-- missing or cannot be decoded; a path that is not there is a file that is not there.
pub mod Precedence
use Prim.Native.String
use excelsior.Common.{
  String, Bool, true, false, ◌&&◌, ◌||◌, Option, none, some, if◌then◌else◌, str_eq, Result, ok, err,
}
use excelsior.Util.{trim_space}

-- `PermissionMode` is a string in the source.
abbrev pub permission_ask : String
permission_ask = "ask"

abbrev pub permission_allow : String
permission_allow = "allow"

abbrev pub permission_deny : String
permission_deny = "deny"

pub record Settings : Type 0 where
  pub permission : String
  pub allow_all : Option Bool

abbrev pub no_settings : Settings
no_settings = record { permission = ""; allow_all = none }

module _ (to_lower : String → String) where
  -- `none` is ErrInvalidPermission.
  unfoldable pub parse_permission_mode : String → Option String
  unfolding trim_space
  parse_permission_mode s =
      let mode = to_lower (trim_space s) in
      if str_eq mode "" || str_eq mode "ask"
      then some permission_ask
      else if str_eq mode "allow"
      then some permission_allow
      else if str_eq mode "deny"
      then some permission_deny
      else none

  abbrev or_unset : Option String → String
  or_unset none = ""
  or_unset (some mode) = mode

  -- The normalization of `loadSettingsFile`.
  unfoldable pub normalized : Settings → Settings
  unfolding parse_permission_mode
  normalized s =
      if str_eq s.permission ""
      then s
      else record s { permission = or_unset (parse_permission_mode s.permission) }

  -- `EXCELSIOR_PERMISSION` is read also where it is not set: as "", which is "ask".
  unfoldable pub env_settings : String → Settings
  unfolding parse_permission_mode
  env_settings env = record no_settings { permission = or_unset (parse_permission_mode env) }

  abbrev pub user_settings : Settings → Option Settings → Settings
  user_settings base none = base
  user_settings base (some s) = normalized s

  abbrev or_else : Option Bool → Option Bool → Option Bool
  or_else (some b) o = some b
  or_else none o = o

  unfoldable pub overlay : Settings → Settings → Settings
  overlay merged s = record {
    permission = if str_eq s.permission "" then merged.permission else s.permission;
    allow_all = or_else s.allow_all merged.allow_all;
  }

  abbrev pub workspace_settings : Settings → Option Settings → Settings
  workspace_settings merged none = merged
  workspace_settings merged (some s) = overlay merged (normalized s)

  -- `LoadSettings`: the environment, the user's file, the workspace's file.
  unfoldable pub load_settings : String → Option Settings → Option Settings → Settings
  unfolding env_settings normalized overlay
  load_settings env user workspace =
      workspace_settings (user_settings (env_settings env) user) workspace

-- What `SaveSettings` writes.
unfoldable pub saved_settings : Settings → Settings
saved_settings s = elim s.allow_all [
  | none ↦ s
  | some allow ↦ if allow then record s { permission = permission_allow } else s
]

unfoldable pub effective_permission : Settings → String → String
effective_permission s fallback =
    let explicit = if str_eq s.permission "" then fallback else s.permission in
    elim s.allow_all [ none ↦ explicit | some allow ↦ if allow then permission_allow else explicit ]

-- `permissions.Resolve`: the mode, and whether everything is allowed.
unfoldable pub resolve : String → Settings → String × Bool
unfolding effective_permission
resolve override settings =
    let set_mode = effective_permission settings permission_ask in
    let chosen =
      if str_eq override permission_allow || str_eq override permission_deny
      then override
      else set_mode in
    let mode = if str_eq chosen "" then permission_ask else chosen in
    (mode, elim settings.allow_all [ none ↦ str_eq mode permission_allow | some allow ↦ allow ])

-- What the permission handler of `ExecuteTurn` does with a tool's request.
pub data Decision : Type 0 where
  approved denied asks_user : Decision

unfoldable pub decide : String → Settings → Decision
unfolding resolve
decide override settings =
    let mode = (resolve override settings).0 in
    if str_eq mode permission_allow
    then approved
    else if str_eq mode permission_deny
    then denied
    else asks_user
