-- ===== src/Engine/Handlers.antt =====
-- pkg/engine/handlers.go and `dispatchEnvelope` of conn.go: what a command of a client does.
pub mod Sound
pub mod Kept
pub mod Isolation
use Prim.Native.String
use mathlib.Core.Option
use excelsior.Common.{
  ℕ, String, Bool, true, false, if◌then◌else◌, str_eq, List, [], ◌∷◌, map, Option, none, some, Map,
  lookup, insert, erase, Result, ok, err,
}
use excelsior.Util.{trim_space}
use excelsior.Config.{Settings}
use excelsior.Session.Types.{SessionMeta}
use excelsior.Chat.Workspace.{canonical_workspace}
use excelsior.Chat.State.{Coordinator, Env, ChatError, session_busy}
use excelsior.Chat.Stores.{create_session, delete_session, rename_session, begin_list, end_list}
use excelsior.Chat.Subscribers.{subscribe, resnapshot, unsubscribe}
use excelsior.Chat.Runs.{reserve_turn, cancel}
use excelsior.Chat.Interactions.{reply_ask, reply_permission}
use excelsior.Protocol.Frames.{
  Frame, Payload, Command, Incoming, command, bad_envelope, bad_version, chat_cancel, chat_req,
  ask_resp, permission_resp, settings_get, ping, session_create, session_delete, session_rename,
  session_subscribe, session_unsubscribe, settings_set, undecodable, unknown_type, ChatReq, AskResp,
  PermissionResp, SessionInfo, SettingsSetReq, new_frame, protocol_ver,
}
use excelsior.Engine.Conn.{
  Sub, Conn, Link, current_workspace, close_subs, send_envelope, send_error, send_command_error,
}
use excelsior.Engine.Serving.{
  Serving, World, Fresh, workspace_of, answer, refuse, fail, snapshot, dispatch_chat, cancel_turn,
  handle_ask_resp, handle_permission_resp, unsubscribe_session,
}
use excelsior.Engine.Settings.{settings_resp, set_permission, set_allow_all, is_update}

-- `errors.Is(err, chat.ErrSessionBusy)`.
abbrev pub is_busy : ChatError → Bool
is_busy session_busy = true
is_busy e = false

module _ {S F : Type 0} (sv : Serving S F) where
  abbrev pub info_of : SessionMeta → SessionInfo
  info_of meta = record { id = meta.id; title = meta.title; count = meta.msg_count }

  abbrev pub listed_sessions :
      String → Link S → Coordinator S × Result ChatError (List SessionMeta) → Link S
  listed_sessions id l (c, ok metas) =
      answer sv id (Payload.session_list (map info_of metas)) (record l { coord = c })
  listed_sessions id l (c, err e) =
      fail sv id (String.◌++◌ "list sessions: " (sv.describe e)) (record l { coord = c })

  abbrev pub read_list : String → Link S → Coordinator S × Result ChatError (Unit {0}) → Link S
  read_list id l (c, ok _) = listed_sessions id l (end_list sv.env (workspace_of sv l) c)
  read_list id l (c, err e) =
      fail sv id (String.◌++◌ "list sessions: " (sv.describe e)) (record l { coord = c })

  unfoldable pub handle_session_list : String → Link S → Link S
  unfolding begin_list end_list
  handle_session_list id l = read_list id l (begin_list sv.env (workspace_of sv l) l.coord)

  abbrev pub created :
      String → String → Link S → Coordinator S × Result ChatError (Unit {0}) → Link S
  created id session l (c, ok _) =
      answer sv id (Payload.session_created session) (record l { coord = c })
  created id session l (c, err e) =
      fail sv id (String.◌++◌ "create session: " (sv.describe e)) (record l { coord = c })

  unfoldable pub handle_session_create : Fresh → String → String → Link S → Link S
  unfolding create_session
  handle_session_create fresh id title l =
      created id fresh.session_id l
        (create_session sv.env fresh.now (workspace_of sv l) fresh.session_id title l.coord)

  abbrev pub deleted :
      String → String → Link S → Coordinator S × Result ChatError (Unit {0}) → Link S
  deleted id session l (c, ok _) =
      answer sv id (Payload.session_deleted session) (record l { coord = c })
  deleted id session l (c, err e) =
      if is_busy e
      then refuse sv id session_busy (record l { coord = c })
      else fail sv id (String.◌++◌ "delete session: " (sv.describe e)) (record l { coord = c })

  unfoldable pub handle_session_delete : String → String → Link S → Link S
  unfolding delete_session
  handle_session_delete id session l =
      deleted id session l (delete_session sv.env (workspace_of sv l) session l.coord)

  abbrev pub renamed :
      String → String → String → Link S → Coordinator S × Result ChatError (Unit {0}) → Link S
  renamed id session title l (c, ok _) =
      answer sv id (Payload.session_renamed session title) (record l { coord = c })
  renamed id session title l (c, err e) =
      if is_busy e
      then fail sv id "session busy" (record l { coord = c })
      else fail sv id (String.◌++◌ "rename session: " (sv.describe e)) (record l { coord = c })

  unfoldable pub handle_session_rename : Fresh → String → String → String → Link S → Link S
  unfolding rename_session
  handle_session_rename fresh id session title l =
      renamed id session title l
        (rename_session sv.env fresh.now (workspace_of sv l) session title l.coord)

  -- All subscriptions are closed before the workspace changes.
  abbrev pub enter_workspace : String → Link S → Link S
  enter_workspace resolved l = record {
    conn = record l.conn { subs = []; workspace = canonical_workspace sv.env.platform resolved };
    coord = close_subs l.conn.subs l.coord;
  }

  abbrev pub told_workspace : String → Link S → Link S
  told_workspace id l =
      handle_session_list id (answer sv id (Payload.workspace_set (workspace_of sv l)) l)

  abbrev pub switched : String → Link S → Result String String → Link S
  switched id l (err text) = fail sv id text l
  switched id l (ok resolved) = told_workspace id (enter_workspace resolved l)

  unfoldable pub handle_workspace_set : String → String → Link S → Link S
  unfolding handle_session_list trim_space
  handle_workspace_set id wanted l =
      let target = trim_space wanted in
      if str_eq target "" then told_workspace id l else switched id l (sv.resolve_workspace target)

  unfoldable pub handle_settings_get : String → World S F → World S F
  unfolding settings_resp
  handle_settings_get id w =
      let s = sv.load_settings w.files (workspace_of sv w.link) in
      record w {
        link = answer sv id (Payload.settings_get (settings_resp sv.permission_override s)) w.link;
      }

  abbrev pub settings_told : String → Settings → World S F → World S F
  settings_told id s w = record w {
    link = answer sv id (Payload.settings_set (settings_resp sv.permission_override s)) w.link;
  }

  abbrev pub settings_saved : String → Settings → World S F → F × Option String → World S F
  settings_saved id s w (files, none) = settings_told id s (record w { files = files })
  settings_saved id s w (files, some text) = record {
    link = fail sv id (String.◌++◌ "save settings: " text) w.link;
    files = files;
  }

  abbrev pub settings_changed : String → SettingsSetReq → World S F → Option Settings → World S F
  settings_changed id req w none = record w {
    link = fail sv id (sv.invalid_mode (Option.get_or req.permission "")) w.link;
  }
  settings_changed id req w (some s) =
      let wanted = set_allow_all s req.allow_all in
      if is_update req
      then settings_saved id wanted w (sv.save_settings w.files (workspace_of sv w.link) wanted)
      else settings_told id wanted w

  unfoldable pub handle_settings_set : String → SettingsSetReq → World S F → World S F
  unfolding settings_resp set_permission set_allow_all
  handle_settings_set id req w = settings_changed id req w (
      set_permission sv.to_lower (sv.load_settings w.files (workspace_of sv w.link)) req.permission)

  abbrev with_link : (Link S → Link S) → World S F → World S F
  with_link change w = record w { link = change w.link }

  -- `dispatchEnvelope`.
  unfoldable pub dispatch : Fresh → String → Command → World S F → World S F
  unfolding handle_settings_get handle_settings_set dispatch_chat cancel_turn handle_ask_resp
      handle_permission_resp handle_session_list snapshot handle_session_create
      handle_session_delete handle_session_rename unsubscribe_session handle_workspace_set
  dispatch fresh id (chat_cancel session run) = with_link (cancel_turn sv id session run)
  dispatch fresh id (chat_req req) = with_link (dispatch_chat sv fresh id req)
  dispatch fresh id (ask_resp resp) = with_link (handle_ask_resp sv id resp)
  dispatch fresh id (permission_resp resp) = with_link (handle_permission_resp sv id resp)
  dispatch fresh id Command.session_list = with_link (handle_session_list id)
  dispatch fresh id (Command.session_data session) = with_link (snapshot sv id session)
  dispatch fresh id (session_create title) = with_link (handle_session_create fresh id title)
  dispatch fresh id (session_delete session) = with_link (handle_session_delete id session)
  dispatch fresh id (session_rename session title) =
      with_link (handle_session_rename fresh id session title)
  dispatch fresh id (session_subscribe session) = with_link (snapshot sv id session)
  dispatch fresh id (session_unsubscribe session) =
      with_link
        (λ l. answer sv id (Payload.unsubscribed session) (unsubscribe_session sv session l))
  dispatch fresh id Command.workspace_status =
      with_link (λ l. answer sv id (Payload.workspace_status (sv.branch_of (workspace_of sv l))) l)
  dispatch fresh id (Command.workspace_set wanted) = with_link (handle_workspace_set id wanted)
  dispatch fresh id Command.settings_get = handle_settings_get id
  dispatch fresh id (Command.settings_set req) = handle_settings_set id req
  dispatch fresh id ping = with_link (answer sv "" Payload.pong)
  dispatch fresh id (undecodable label text) =
      with_link (fail sv id (String.◌++◌ "bad " (String.◌++◌ label (String.◌++◌ ": " text))))
  dispatch fresh id (unknown_type type) =
      with_link (fail sv id (String.◌++◌ "unknown type " (sv.quote type)))

  abbrev version_text : String → String → String
  version_text ver want =
      String.◌++◌ "unsupported ver " (String.◌++◌ ver (String.◌++◌ ", want " want))

  -- A round of `readPump` on what the socket gave.
  unfoldable pub read_incoming : Fresh → Incoming → World S F → World S F
  unfolding dispatch
  read_incoming fresh (command id c) = dispatch fresh id c
  read_incoming fresh (bad_envelope text) =
      with_link (fail sv "" (String.◌++◌ "bad envelope: " text))
  read_incoming fresh (bad_version id ver) =
      with_link (fail sv id (version_text (sv.quote ver) (sv.quote protocol_ver)))
