-- ===== src/Engine/Handlers/Kept.antt =====
-- Every command keeps a sound connection sound.
use Prim.Native.String
use excelsior.Common.{
  refl, String, if◌then◌else◌, str_eq, List, Option, none, some, Result, ok, err, inl, inr,
  Bool-cases, if_cases,
}
use excelsior.Util.{trim_space}
use excelsior.Config.{Settings}
use excelsior.Session.Types.{SessionMeta}
use excelsior.Chat.State.{Coordinator, ChatError, session_busy}
use excelsior.Chat.Stores.{create_session, delete_session, rename_session, begin_list, end_list}
use excelsior.Chat.Runs.{reserve_turn, cancel}
use excelsior.Chat.Interactions.{reply_ask, reply_permission}
use excelsior.Protocol.Frames.{
  Payload, Command, chat_cancel, chat_req, ask_resp, permission_resp, ping, session_create,
  session_delete, session_rename, session_subscribe, session_unsubscribe, undecodable, unknown_type,
  SettingsSetReq, new_frame,
}
use excelsior.Engine.Settings.{set_allow_all, is_update, settings_resp}
use excelsior.Engine.Conn.{Link}
use excelsior.Engine.Serving.{
  Serving, World, Fresh, workspace_of, dispatch_chat, cancel_turn, unsubscribe_session,
  handle_ask_resp, handle_permission_resp,
}
use excelsior.Engine.Handlers.{
  handle_session_list, listed_sessions, read_list, created, is_busy, deleted, renamed,
  enter_workspace, told_workspace, switched, handle_workspace_set, settings_saved, settings_changed,
  handle_session_create, handle_session_delete, handle_session_rename, handle_settings_get,
  handle_settings_set, dispatch,
}
use excelsior.Engine.Handlers.Sound.{
  IsSound, Preserves, send-IsSound, refuse-IsSound, fail-IsSound, replied-IsSound, snapshot-IsSound,
  reserved-IsSound, unsubscribe_session-IsSound, nothing-IsCurrent,
}

module _ {S F : Type 0} (sv : Serving S F) where
  listed_sessions-IsSound :
      (id : String) (r : Coordinator S × Result ChatError (List SessionMeta))
      → Preserves sv (λ l. listed_sessions sv id l r)
  listed_sessions-IsSound id (c, ok metas) l v = send-IsSound sv _ (record l { coord = c }) v
  listed_sessions-IsSound id (c, err e) l v = fail-IsSound sv id _ (record l { coord = c }) v

  read_list-IsSound :
      (id : String) (r : Coordinator S × Result ChatError (Unit {0}))
      → Preserves sv (λ l. read_list sv id l r)
  read_list-IsSound id (c, ok _) l v =
      listed_sessions-IsSound id (end_list sv.env (workspace_of sv l) c) l v
  read_list-IsSound id (c, err e) l v = fail-IsSound sv id _ (record l { coord = c }) v

  list-IsSound : (id : String) → Preserves sv (handle_session_list sv id)
  unfolding handle_session_list
  list-IsSound id l v = read_list-IsSound id (begin_list sv.env (workspace_of sv l) l.coord) l v

  created-IsSound :
      (id session : String) (r : Coordinator S × Result ChatError (Unit {0}))
      → Preserves sv (λ l. created sv id session l r)
  created-IsSound id session (c, ok _) l v =
      send-IsSound sv (new_frame id (Payload.session_created session)) (record l { coord = c }) v
  created-IsSound id session (c, err e) l v = fail-IsSound sv id _ (record l { coord = c }) v

  deleted-IsSound :
      (id session : String) (r : Coordinator S × Result ChatError (Unit {0}))
      → Preserves sv (λ l. deleted sv id session l r)
  deleted-IsSound id session (c, ok _) l v =
      send-IsSound sv (new_frame id (Payload.session_deleted session)) (record l { coord = c }) v
  deleted-IsSound id session (c, err e) l v = elim (Bool-cases (is_busy e)) [
    | inl h ↦ rw h (refuse-IsSound sv id session_busy (record l { coord = c }) v)
    | inr h ↦ rw h (
        fail-IsSound sv id (String.◌++◌ "delete session: " (sv.describe e)) (record l { coord = c })
          v)
  ]

  renamed-IsSound :
      (id session title : String) (r : Coordinator S × Result ChatError (Unit {0}))
      → Preserves sv (λ l. renamed sv id session title l r)
  renamed-IsSound id session title (c, ok _) l v =
      send-IsSound sv (new_frame id (Payload.session_renamed session title))
        (record l { coord = c }) v
  renamed-IsSound id session title (c, err e) l v = elim (Bool-cases (is_busy e)) [
    | inl h ↦ rw h (fail-IsSound sv id "session busy" (record l { coord = c }) v)
    | inr h ↦ rw h (
        fail-IsSound sv id (String.◌++◌ "rename session: " (sv.describe e)) (record l { coord = c })
          v)
  ]

  enter_workspace-IsSound : (resolved : String) → Preserves sv (enter_workspace sv resolved)
  enter_workspace-IsSound resolved l v = record {
    bounded = record {
      counted = v.bounded.counted;
      within = v.bounded.within;
      few = v.bounded.few;
    };
    isolated = nothing-IsCurrent sv (enter_workspace sv resolved l).conn refl;
  }

  told_workspace-IsSound : (id : String) → Preserves sv (told_workspace sv id)
  told_workspace-IsSound id l v =
      list-IsSound id _
        (send-IsSound sv (new_frame id (Payload.workspace_set (workspace_of sv l))) l v)

  switched-IsSound :
      (id : String) (r : Result String String) → Preserves sv (λ l. switched sv id l r)
  switched-IsSound id (err text) l v = fail-IsSound sv id text l v
  switched-IsSound id (ok resolved) l v =
      told_workspace-IsSound id (enter_workspace sv resolved l)
        (enter_workspace-IsSound resolved l v)

  workspace_set-IsSound : (id wanted : String) → Preserves sv (handle_workspace_set sv id wanted)
  unfolding handle_workspace_set
  workspace_set-IsSound id wanted l v =
      if_cases (λ (m : Link S). IsSound sv m.conn) (str_eq (trim_space wanted) "")
        (told_workspace sv id l) (switched sv id l (sv.resolve_workspace (trim_space wanted)))
        (λ h. told_workspace-IsSound id l v)
        λ h. switched-IsSound id (sv.resolve_workspace (trim_space wanted)) l v

  settings_saved-IsSound :
      (id : String) (s : Settings) (w : World S F) (r : F × Option String)
      → IsSound sv w.conn
      → IsSound sv (settings_saved sv id s w r).conn
  settings_saved-IsSound id s w (files, none) v = send-IsSound sv _ w.link v
  settings_saved-IsSound id s w (files, some text) v = fail-IsSound sv id _ w.link v

  settings_changed-IsSound :
      (id : String) (req : SettingsSetReq) (w : World S F) (s : Option Settings)
      → IsSound sv w.conn
      → IsSound sv (settings_changed sv id req w s).conn
  settings_changed-IsSound id req w none v = fail-IsSound sv id _ w.link v
  settings_changed-IsSound id req w (some s) v = elim (Bool-cases (is_update req)) [
    | inl h ↦ rw h (
        settings_saved-IsSound id (set_allow_all s req.allow_all) w
          (sv.save_settings w.files (workspace_of sv w.link) (set_allow_all s req.allow_all)) v)
    | inr h ↦ rw h (send-IsSound sv _ w.link v)
  ]

  pub dispatch-IsSound :
      (fresh : Fresh) (id : String) (cmd : Command) (w : World S F)
      → IsSound sv w.conn
      → IsSound sv (dispatch sv fresh id cmd w).conn
  unfolding dispatch cancel_turn dispatch_chat handle_ask_resp handle_permission_resp
      handle_session_create handle_session_delete handle_session_rename handle_settings_get
      handle_settings_set
  dispatch-IsSound fresh id (chat_cancel session run) w v =
      replied-IsSound sv id (Payload.canceled session run)
        (cancel sv.env (workspace_of sv w.link) session run w.coord) w.link v
  dispatch-IsSound fresh id (chat_req req) w v =
      let session = if str_eq req.session_id "" then fresh.session_id else req.session_id in
      reserved-IsSound sv id session
        (reserve_turn sv.env fresh.now fresh.session_id fresh.run_id (workspace_of sv w.link)
          session req.messages w.coord)
        w.link v
  dispatch-IsSound fresh id (ask_resp resp) w v =
      replied-IsSound sv id Payload.ask_accepted
        (reply_ask sv.env (workspace_of sv w.link) resp.session_id resp.run_id resp.interaction_id
          resp.selected resp.answer resp.label w.coord)
        w.link v
  dispatch-IsSound fresh id (permission_resp resp) w v =
      replied-IsSound sv id Payload.permission_accepted
        (reply_permission sv.env (workspace_of sv w.link) resp.session_id resp.run_id
          resp.interaction_id resp.approved w.coord)
        w.link v
  dispatch-IsSound fresh id Command.session_list w v = list-IsSound id w.link v
  dispatch-IsSound fresh id (Command.session_data session) w v =
      snapshot-IsSound sv id session w.link v
  dispatch-IsSound fresh id (session_create title) w v =
      created-IsSound id fresh.session_id
        (create_session sv.env fresh.now (workspace_of sv w.link) fresh.session_id title w.coord)
        w.link v
  dispatch-IsSound fresh id (session_delete session) w v =
      deleted-IsSound id session (delete_session sv.env (workspace_of sv w.link) session w.coord)
        w.link v
  dispatch-IsSound fresh id (session_rename session title) w v =
      renamed-IsSound id session title
        (rename_session sv.env fresh.now (workspace_of sv w.link) session title w.coord) w.link v
  dispatch-IsSound fresh id (session_subscribe session) w v =
      snapshot-IsSound sv id session w.link v
  dispatch-IsSound fresh id (session_unsubscribe session) w v =
      send-IsSound sv (new_frame id (Payload.unsubscribed session))
        (unsubscribe_session sv session w.link) (unsubscribe_session-IsSound sv session w.link v)
  dispatch-IsSound fresh id Command.workspace_status w v =
      send-IsSound sv
        (new_frame id (Payload.workspace_status (sv.branch_of (workspace_of sv w.link)))) w.link v
  dispatch-IsSound fresh id (Command.workspace_set wanted) w v =
      workspace_set-IsSound id wanted w.link v
  dispatch-IsSound fresh id Command.settings_get w v =
      let s = sv.load_settings w.files (workspace_of sv w.link) in
      send-IsSound sv (new_frame id (Payload.settings_get (settings_resp sv.permission_override s)))
        w.link v
  dispatch-IsSound fresh id (Command.settings_set req) w v = settings_changed-IsSound id req w _ v
  dispatch-IsSound fresh id ping w v = send-IsSound sv (new_frame "" Payload.pong) w.link v
  dispatch-IsSound fresh id (undecodable label text) w v = fail-IsSound sv id _ w.link v
  dispatch-IsSound fresh id (unknown_type type) w v = fail-IsSound sv id _ w.link v
