-- ===== src/Engine/Serving.antt =====
-- What pkg/engine/conn.go does for commands about runs: `dispatchChat`, `cancelTurn`, `snapshot`,
-- `unsubscribeSession`, and the replies to questions.

use excelsior.Common.{
  ℕ, String, if◌then◌else◌, str_eq, Option, none, some, lookup, insert, erase, Result, ok, err,
}
use excelsior.Config.{Settings}
use excelsior.Chat.Workspace.{canonical_workspace}
use excelsior.Chat.State.{Coordinator, Env, ChatError}
use excelsior.Chat.Subscribers.{subscribe, resnapshot, unsubscribe}
use excelsior.Chat.Runs.{RunHandle, reserve_turn, cancel}
use excelsior.Chat.Interactions.{reply_ask, reply_permission}
use excelsior.Protocol.Frames.{Frame, Payload, ChatReq, AskResp, PermissionResp, new_frame}
use excelsior.Engine.Conn.{
  Sub, Conn, Link, current_workspace, send_envelope, send_error, send_command_error,
}

-- What a connection is served with: the coordinator's environment, encoding/json, the texts of
-- errors, the verb %q of fmt, the hub's workspace and override, git, the file system of workspaces,
-- and the settings files `F`.
pub record Serving (S F : Type 0) : Type 0 where
  pub env : Env S
  pub encode : Frame → Option String
  pub describe : ChatError → String
  pub quote : String → String
  pub invalid_mode : String → String
  pub fallback : String
  pub permission_override : String
  pub to_lower : String → String
  pub branch_of : String → String
  pub resolve_workspace : String → Result String String
  pub load_settings : F → String → Settings
  pub save_settings : F → String → Settings → F × Option String

pub record World (S F : Type 0) : Type 0 where
  pub link : Link S
  pub open link use *
  pub files : F

-- What `newID` and the clock give to one command.
pub record Fresh : Type 0 where
  pub now : ℕ
  pub session_id : String
  pub run_id : String

module _ {S F : Type 0} (sv : Serving S F) where
  abbrev pub workspace_of : Link S → String
  workspace_of l = current_workspace sv.fallback l.conn

  abbrev pub answer : String → Payload → Link S → Link S
  answer id payload = send_envelope sv.encode sv.fallback (new_frame id payload)

  abbrev pub refuse : String → ChatError → Link S → Link S
  refuse id e = send_command_error sv.encode sv.fallback sv.describe id e

  abbrev pub fail : String → String → Link S → Link S
  fail id text = send_error sv.encode sv.fallback id text

  -- The answer to a call of the coordinator that has no result.
  abbrev pub replied :
      String → Payload → Link S → Coordinator S × Result ChatError (Unit {0}) → Link S
  replied id payload l (c, ok _) = answer id payload (record l { coord = c })
  replied id payload l (c, err e) = refuse id e (record l { coord = c })

  abbrev pub resnapshot_result :
      String → Link S → Coordinator S × Result ChatError (Unit {0}) → Link S
  resnapshot_result id l (c, ok _) = record l { coord = c }
  resnapshot_result id l (c, err e) = refuse id e (record l { coord = c })

  -- The new subscription joins the map; a connection that was closed meanwhile closes it.
  abbrev pub subscribed : String → String → Link S → Coordinator S × Result ChatError ℕ → Link S
  subscribed id session l (c, err e) = refuse id e (record l { coord = c })
  subscribed id session l (c, ok handle) =
      let sub : Sub = record {
        handle = handle;
        workspace = canonical_workspace sv.env.platform (workspace_of l);
        session_id = session;
      } in
      let conn : Conn = record l.conn { subs = insert session sub l.conn.subs } in
      record { conn = conn; coord = if l.conn.closed then unsubscribe handle c else c }

  abbrev pub fresh_snapshot : String → String → Link S → Link S
  fresh_snapshot id session l =
      subscribed id session l (subscribe sv.env (workspace_of l) session id l.coord)

  unfoldable pub snapshot : String → String → Link S → Link S
  unfolding resnapshot subscribe send_command_error
  snapshot id session l = elim (lookup session l.conn.subs) [
    | none ↦ fresh_snapshot id session l
    | some sub ↦
        if str_eq sub.workspace (workspace_of l)
        then resnapshot_result id l (resnapshot sv.env sub.handle id l.coord)
        else fresh_snapshot id session l
  ]

  abbrev pub reserved :
      String → String → Link S → Coordinator S × Result ChatError RunHandle → Link S
  reserved id session l (c, err e) = refuse id e (record l { coord = c })
  reserved id session l (c, ok run) = snapshot id session (record l { coord = c })

  -- `dispatchChat`, up to the start of `ExecuteTurn`, whose steps are those of the coordinator.
  unfoldable pub dispatch_chat : Fresh → String → ChatReq → Link S → Link S
  unfolding snapshot reserve_turn
  dispatch_chat fresh id req l =
      let session = if str_eq req.session_id "" then fresh.session_id else req.session_id in
      reserved id session l (
        reserve_turn sv.env fresh.now fresh.session_id fresh.run_id (workspace_of l) session
          req.messages l.coord)

  unfoldable pub cancel_turn : String → String → String → Link S → Link S
  unfolding cancel
  cancel_turn id session run l =
      replied id (Payload.canceled session run) l
        (cancel sv.env (workspace_of l) session run l.coord)

  unfoldable pub handle_ask_resp : String → AskResp → Link S → Link S
  unfolding reply_ask
  handle_ask_resp id r l = replied id Payload.ask_accepted l (
      reply_ask sv.env (workspace_of l) r.session_id r.run_id r.interaction_id r.selected r.answer
        r.label l.coord)

  unfoldable pub handle_permission_resp : String → PermissionResp → Link S → Link S
  unfolding reply_permission
  handle_permission_resp id r l = replied id Payload.permission_accepted l (
      reply_permission sv.env (workspace_of l) r.session_id r.run_id r.interaction_id r.approved
        l.coord)

  abbrev pub close_sub : Option Sub → Coordinator S → Coordinator S
  close_sub none c = c
  close_sub (some sub) c = unsubscribe sub.handle c

  unfoldable pub unsubscribe_session : String → Link S → Link S
  unsubscribe_session session l = record {
    conn = record l.conn { subs = erase session l.conn.subs };
    coord = close_sub (lookup session l.conn.subs) l.coord;
  }
