-- ===== src/Config/Precedence.antt =====
-- Which layer decides about a tool's request.

use excelsior.Common.{
  ◌≡◌, String, Bool, false, ◌⊎◌, Option, none, some, str_eq, eq_iff, arith, if◌then◌else◌,
}
use excelsior.Config.{
  Settings, parse_permission_mode, normalized, env_settings, overlay, load_settings, Decision,
  approved, denied, asks_user,
}

-- The three modes and the unset one.
abbrev pub IsMode : String → Type 0
IsMode mode = (mode ≡ "") ⊎ (mode ≡ "ask") ⊎ (mode ≡ "allow") ⊎ (mode ≡ "deny")

module _ (to_lower : String → String) where
  normalized-IsMode : (s : Settings) → IsMode (normalized to_lower s).permission
  unfolding normalized parse_permission_mode
  normalized-IsMode s = ground (arith, eq_iff s.permission "")

  env_settings-IsMode : (env : String) → IsMode (env_settings to_lower env).permission
  unfolding env_settings parse_permission_mode
  env_settings-IsMode env = ground arith

  -- Whatever the environment and the files say, the loaded mode is one of the three or unset.
  pub load_settings-IsMode :
      (env : String) (user workspace : Option Settings)
      → IsMode (load_settings to_lower env user workspace).permission
  unfolding load_settings overlay
  load_settings-IsMode env none none = env_settings-IsMode env
  load_settings-IsMode env (some u) none = normalized-IsMode u
  load_settings-IsMode env none (some w) =
      ground (arith, env_settings-IsMode env, normalized-IsMode w)
  load_settings-IsMode env (some u) (some w) =
      ground (arith, normalized-IsMode u, normalized-IsMode w)

abbrev pub allows_all : Settings → Bool
allows_all s = elim s.allow_all [ none ↦ false | some allow ↦ allow ]

unfoldable pub mode_decision : String → Decision
mode_decision mode =
    if str_eq mode "allow" then approved else if str_eq mode "deny" then denied else asks_user
