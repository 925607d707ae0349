-- ===== src/Engine/Handlers/Sound.antt =====
-- A connection over any commands: what it holds is bounded, and its subscriptions are those of its
-- workspace.
use Prim.Native.String.{len}
use excelsior.Common.{
  ℕ, ◌+◌, ltb, leb, length, ◌≡◌, refl, sym, ap, subst, String, Bool, true, false, if◌then◌else◌,
  str_eq, [], Option, none, some, lookup, insert, lookup-insert, lookup-erase, Result, ok, err, inl,
  inr, Bool-cases, if_cases, option_cases,
}
use excelsior.Chat.Subscription.{max_subscription_bytes}
use excelsior.Chat.State.{Coordinator, ChatError}
use excelsior.Chat.Workspace.{canonical_workspace}
use excelsior.Chat.Runs.{RunHandle}
use excelsior.Chat.Subscribers.{subscribe, resnapshot}
use excelsior.Protocol.Frames.{Frame, Payload, new_frame}
use excelsior.Engine.Conn.{
  command_code, Sub, Conn, Link, max_send_messages, current_workspace, try_send_envelope,
  queue_text, with_workspace, close, close_unless, send_envelope, send_error, send_command_error,
}
use excelsior.Engine.Conn.Bounds.{IsBounded, try_send_envelope-IsBounded}
use excelsior.Engine.Serving.{
  Serving, workspace_of, refuse, fail, replied, resnapshot_result, subscribed, snapshot, reserved,
  unsubscribe_session,
}

module _ {S F : Type 0} (sv : Serving S F) where
  -- Each subscription is one of the workspace that the connection is in.
  abbrev pub IsCurrent : Conn → Type 0
  IsCurrent c =
      (id : String) (s : Sub)
      → lookup id c.subs ≡ some s
      → s.workspace ≡ canonical_workspace sv.env.platform (current_workspace sv.fallback c)

  pub record IsSound (c : Conn) : Type 0 where
    pub bounded : IsBounded c
    pub isolated : IsCurrent c

  queue_text-IsCurrent :
      (c : Conn) (b : Option String)
      → IsCurrent c
      → IsCurrent (queue_text sv.encode sv.fallback c b).0
  unfolding current_workspace
  queue_text-IsCurrent c none v = v
  queue_text-IsCurrent c (some b) v =
      elim (Bool-cases (ltb max_subscription_bytes (c.queued_bytes + len b))) [
        | inl h ↦ rw h v
        | inr h ↦ elim (Bool-cases (leb max_send_messages (length c.send))) [
          | inl g ↦ rw (h, g) v
          | inr g ↦ rw (h, g) v
        ]
      ]

  try_send-IsSound :
      (frame : Frame) (c : Conn)
      → IsSound c
      → IsSound (try_send_envelope sv.encode sv.fallback frame c).0
  unfolding try_send_envelope
  try_send-IsSound frame c v = record {
    bounded = try_send_envelope-IsBounded sv.encode sv.fallback frame c v.bounded;
    isolated =
        if_cases (λ (r : Conn × Bool). IsCurrent r.0) c.closed _ _ (λ h. v.isolated)
          λ h.
            queue_text-IsCurrent c (sv.encode (with_workspace sv.encode sv.fallback c frame))
              v.isolated;
  }

  pub nothing-IsCurrent : (c : Conn) → c.subs ≡ [] → IsCurrent c
  unfolding lookup
  nothing-IsCurrent c e id s h =
      let gone : lookup id [] ≡ some s = subst (λ m. lookup id m ≡ some s) e h in absurd cc

  pub close-IsSound : (l : Link S) → IsSound l.conn → IsSound (close l).conn
  unfolding close
  close-IsSound l v =
      if_cases (λ (m : Link S). IsSound m.conn) l.conn.closed _ _ (λ h. v)
        λ h. record {
          bounded = record {
            counted = v.bounded.counted;
            within = v.bounded.within;
            few = v.bounded.few;
          };
          isolated = nothing-IsCurrent (record l.conn { subs = []; closed = true }) refl;
        }

  close_unless-IsSound :
      (coord : Coordinator S) (r : Conn × Bool)
      → IsSound r.0
      → IsSound (close_unless sv.encode sv.fallback coord r).conn
  close_unless-IsSound coord (c, true) v = v
  close_unless-IsSound coord (c, false) v = close-IsSound (record { conn = c; coord = coord }) v

  pub send-IsSound :
      (frame : Frame) (l : Link S)
      → IsSound l.conn
      → IsSound (send_envelope sv.encode sv.fallback frame l).conn
  unfolding send_envelope
  send-IsSound frame l v =
      close_unless-IsSound l.coord (try_send_envelope sv.encode sv.fallback frame l.conn)
        (try_send-IsSound frame l.conn v)

  -- A change of a link that keeps a sound connection sound.
  abbrev pub Preserves : (Link S → Link S) → Type 0
  Preserves f = (l : Link S) → IsSound l.conn → IsSound (f l).conn

  pub refuse-IsSound : (id : String) (e : ChatError) → Preserves (refuse sv id e)
  unfolding send_command_error
  refuse-IsSound id e l v =
      send-IsSound (new_frame id (Payload.error (command_code e) (sv.describe e))) l v

  pub fail-IsSound : (id text : String) → Preserves (fail sv id text)
  unfolding send_error
  fail-IsSound id text l v = send-IsSound (new_frame id (Payload.error "command_failed" text)) l v

  pub replied-IsSound :
      (id : String) (payload : Payload) (r : Coordinator S × Result ChatError (Unit {0}))
      → Preserves (λ l. replied sv id payload l r)
  replied-IsSound id payload (c, ok _) l v =
      send-IsSound (new_frame id payload) (record l { coord = c }) v
  replied-IsSound id payload (c, err e) l v = refuse-IsSound id e (record l { coord = c }) v

  abbrev workspace_in : Option Sub → String
  workspace_in none = ""
  workspace_in (some s) = s.workspace

  subscribed-IsSound :
      (id session : String) (r : Coordinator S × Result ChatError ℕ)
      → Preserves (λ l. subscribed sv id session l r)
  unfolding current_workspace
  subscribed-IsSound id session (c, err e) l v = refuse-IsSound id e (record l { coord = c }) v
  subscribed-IsSound id session (c, ok handle) l v =
      let sub : Sub = record {
        handle = handle;
        workspace = canonical_workspace sv.env.platform (workspace_of sv l);
        session_id = session;
      } in
      let after : (j : String)
          → lookup j (insert session sub l.conn.subs)
            ≡ (if str_eq session j then some sub else lookup j l.conn.subs) =
        λ j. lookup-insert session j sub l.conn.subs in
      record {
        bounded = record {
          counted = v.bounded.counted;
          within = v.bounded.within;
          few = v.bounded.few;
        };
        isolated = λ j s h. elim (Bool-cases (str_eq session j)) [
          | inl e ↦
              let same : some sub ≡ some s = rw (after j, e) at h in sym (ap workspace_in same)
          | inr e ↦ v.isolated j s (rw (after j, e) at h)
        ];
      }

  resnapshot_result-IsSound :
      (id : String) (r : Coordinator S × Result ChatError (Unit {0}))
      → Preserves (λ l. resnapshot_result sv id l r)
  resnapshot_result-IsSound id (c, ok _) l v = v
  resnapshot_result-IsSound id (c, err e) l v = refuse-IsSound id e (record l { coord = c }) v

  pub snapshot-IsSound : (id session : String) → Preserves (snapshot sv id session)
  unfolding snapshot
  snapshot-IsSound id session l v =
      option_cases (λ (m : Link S). IsSound m.conn) (lookup session l.conn.subs) _ _
        (λ h.
          subscribed-IsSound id session (subscribe sv.env (workspace_of sv l) session id l.coord) l
            v)
        λ sub h.
          if_cases (λ (m : Link S). IsSound m.conn) (str_eq sub.workspace (workspace_of sv l)) _ _
            (λ g. resnapshot_result-IsSound id (resnapshot sv.env sub.handle id l.coord) l v)
            λ g.
              subscribed-IsSound id session
                (subscribe sv.env (workspace_of sv l) session id l.coord) l v

  pub reserved-IsSound :
      (id session : String) (r : Coordinator S × Result ChatError RunHandle)
      → Preserves (λ l. reserved sv id session l r)
  reserved-IsSound id session (c, err e) l v = refuse-IsSound id e (record l { coord = c }) v
  reserved-IsSound id session (c, ok run) l v =
      snapshot-IsSound id session (record l { coord = c }) v

  pub unsubscribe_session-IsSound : (session : String) → Preserves (unsubscribe_session sv session)
  unfolding unsubscribe_session current_workspace
  unsubscribe_session-IsSound session l v = record {
    bounded = record {
      counted = v.bounded.counted;
      within = v.bounded.within;
      few = v.bounded.few;
    };
    isolated = λ j s h. elim (Bool-cases (str_eq session j)) [
      | inl e ↦
          let gone : none ≡ some s = rw (lookup-erase session j l.conn.subs, e) at h in absurd cc
      | inr e ↦ v.isolated j s (rw (lookup-erase session j l.conn.subs, e) at h)
    ];
  }
