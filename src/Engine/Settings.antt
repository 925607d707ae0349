-- ===== src/Engine/Settings.antt =====
-- The settings of a connection's workspace: `handleSettingsGet` and `handleSettingsSet` of
-- pkg/engine/handlers.go between reading the settings and answering.
use excelsior.Common.{String, Bool, true, false, Option, none, some, if◌then◌else◌, str_eq}
use excelsior.Config.{Settings, permission_ask, permission_allow, parse_permission_mode, resolve}
use excelsior.Protocol.Frames.{SettingsSetReq, SettingsResp}

unfoldable pub settings_resp : String → Settings → SettingsResp
unfolding resolve
settings_resp override s = record {
  permission = (resolve override s).0;
  allow_all = (resolve override s).1;
}

module _ (to_lower : String → String) where
  -- `none` is the error of `ParsePermissionMode`.
  abbrev pub with_mode : Settings → Option String → Option Settings
  with_mode s none = none
  with_mode s (some mode) = some (record s { permission = mode })

  unfoldable pub set_permission : Settings → Option String → Option Settings
  unfolding parse_permission_mode
  set_permission s none = some s
  set_permission s (some wanted) = with_mode s (parse_permission_mode to_lower wanted)

unfoldable pub set_allow_all : Settings → Option Bool → Settings
set_allow_all s none = s
set_allow_all s (some true) = record { permission = permission_allow; allow_all = some true }
set_allow_all s (some false) = record {
  permission = if str_eq s.permission permission_allow then permission_ask else s.permission;
  allow_all = some false;
}

abbrev pub is_update : SettingsSetReq → Bool
is_update req = elim req.permission [
  | some wanted ↦ true
  | none ↦ elim req.allow_all [ some allow ↦ true | none ↦ false ]
]
