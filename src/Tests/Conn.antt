-- ===== src/Tests/Conn.antt =====
-- The theorems about connections at concrete inputs.

use Prim.Native.String
use Prim.Native.String.{len}
use excelsior.Common.{
  ◌*◌, ◌≤◌, ◌≡◌, refl, true, ◌⊎◌, List, [], ◌∷◌, none, some, ok, lookup, length, sum_of,
}
use excelsior.Config.{no_settings}
use excelsior.Session.Memory.{MemoryStore}
use excelsior.Chat.Workspace.{canonical_workspace}
use excelsior.Protocol.Frames.{command, chat_req, ping}
use excelsior.Engine.Conn.{Sub, forward}
use excelsior.Engine.Settings.{settings_resp, set_allow_all}
use excelsior.Engine.Serving.{Serving, Fresh, workspace_of}
use excelsior.Engine.Handlers.Isolation.{
  ConnStep, reads, writes, run_conn, connected, connection_bounded, forward_isolated,
}
use excelsior.Tests.Base.{env, empty, hello}

-- A frame is written as its identifier; settings cannot be saved.
abbrev serving : Serving MemoryStore (Unit {0})
serving = record {
  env = env;
  encode = λ frame. some (String.◌++◌ frame.id "!");
  describe = λ e. "error";
  quote = λ text. text;
  invalid_mode = λ mode. "invalid";
  fallback = "/w";
  permission_override = "";
  to_lower = λ text. text;
  branch_of = λ ws. "main";
  resolve_workspace = λ ws. ok ws;
  load_settings = λ files ws. no_settings;
  save_settings = λ files ws s. (files, none);
}

abbrev fresh : Fresh
fresh = record { now = 5; session_id = "s9"; run_id = "r1" }

abbrev asked : List (ConnStep MemoryStore (Unit {0}))
asked =
    reads fresh
      (command "1" (chat_req (record { session_id = "s1"; model = "m"; messages = hello ∷ [] })))
    ∷ reads fresh (command "2" ping)
    ∷ writes
    ∷ []

abbrev sub : Sub
sub = record { handle = 0; workspace = "/w"; session_id = "s1" }

connection_bounded_example :
    let conn = (run_conn serving asked (connected serving empty tt)).conn in
    (conn.queued_bytes ≡ sum_of len conn.send)
    × (sum_of len conn.send ≤ 16 * 1048576)
    × (length conn.send ≤ 128)
connection_bounded_example = connection_bounded serving empty tt asked

forward_isolated_example :
    let w = run_conn serving asked (connected serving empty tt) in
    ((forward serving.encode serving.fallback sub w.link).conn.send ≡ w.conn.send)
    ⊎ ((t : Sub) × (lookup sub.session_id w.conn.subs ≡ some t)
        × (sub.handle ≡ t.handle)
        × (t.workspace ≡ canonical_workspace serving.env.platform (workspace_of serving w.link)))
forward_isolated_example = forward_isolated serving empty tt asked sub

-- With everything allowed in the stored settings, a client that asks for "deny" is told "allow".
deny_without_allow_all :
    settings_resp "" (set_allow_all (record { permission = "deny"; allow_all = some true }) none)
    ≡ record { permission = "allow"; allow_all = true }
unfolding settings_resp set_allow_all
deny_without_allow_all = refl
