-- ===== src/Engine/Handlers/Isolation.antt =====
-- A connection over any sequence of commands, forwarded updates and writes.
use excelsior.Common.{
  ◌*◌, ==_iff, ◌∙◌, ◌≡◌, refl, ap, String, false, ◌==◌, List, [], ◌∷◌, Option, none, some, lookup,
  ◌⊎◌, inl, inr, Bool-cases, Option-cases, arith, if_cases, ◌≤◌, length, sum_of,
}
use excelsior.Chat.State.{Coordinator}
use excelsior.Chat.Workspace.{canonical_workspace}
use Prim.Native.String.{len}
use excelsior.Chat.Subscription.{Received, received}
use excelsior.Chat.Subscribers.{receive_next}
use excelsior.Protocol.Frames.{Frame, Incoming, command, bad_envelope, bad_version}
use excelsior.Engine.Conn.{
  Sub, Conn, Link, new_conn, current_workspace, write_from, write_next, close, forward,
  forward_frame, forward_received, is_current, update_frame,
}
use excelsior.Engine.Conn.Bounds.{write_next-IsBounded}
use excelsior.Engine.Serving.{Serving, World, Fresh, workspace_of}
use excelsior.Engine.Handlers.{read_incoming}
use excelsior.Engine.Handlers.Sound.{
  IsCurrent, IsSound, send-IsSound, fail-IsSound, close-IsSound, nothing-IsCurrent,
}
use excelsior.Engine.Handlers.Kept.{dispatch-IsSound}

-- What happens to a connection. `elsewhere` is what runs and other connections make of the
-- coordinator and of the settings files in the meantime.
pub data ConnStep (S F : Type 0) : Type 0 where
  reads : Fresh → Incoming → ConnStep S F
  forwards : Sub → ConnStep S F
  writes closes : ConnStep S F
  elsewhere : Coordinator S → F → ConnStep S F

module _ {S F : Type 0} (sv : Serving S F) where
  unfoldable pub conn_step : ConnStep S F → World S F → World S F
  unfolding read_incoming forward write_next close
  conn_step (reads fresh incoming) w = read_incoming sv fresh incoming w
  conn_step (forwards s) w = record w { link = forward sv.encode sv.fallback s w.link }
  conn_step writes w = record w { link = record w.link { conn = (write_next w.conn).0 } }
  conn_step closes w = record w { link = close w.link }
  conn_step (elsewhere c files) w = record { link = record w.link { coord = c }; files = files }

  unfoldable pub run_conn : List (ConnStep S F) → World S F → World S F
  unfolding conn_step
  run_conn [] w = w
  run_conn (s ∷ steps) w = run_conn steps (conn_step s w)

  unfoldable pub connected : Coordinator S → F → World S F
  unfolding new_conn
  connected c files = record { link = record { conn = new_conn; coord = c }; files = files }

  read-IsSound :
      (fresh : Fresh) (i : Incoming) (w : World S F)
      → IsSound sv w.conn
      → IsSound sv (read_incoming sv fresh i w).conn
  unfolding read_incoming
  read-IsSound fresh (command id cmd) w v = dispatch-IsSound sv fresh id cmd w v
  read-IsSound fresh (bad_envelope text) w v = fail-IsSound sv "" _ w.link v
  read-IsSound fresh (bad_version id ver) w v = fail-IsSound sv id _ w.link v

  forward_frame-IsSound :
      (s : Sub) (frame : Option Frame) (l : Link S)
      → IsSound sv l.conn
      → IsSound sv (forward_frame sv.encode sv.fallback s frame l).conn
  forward_frame-IsSound s none l v = v
  forward_frame-IsSound s (some frame) l v =
      elim (Bool-cases (is_current s (lookup s.session_id l.conn.subs))) [
        | inl h ↦ rw h (send-IsSound sv (record frame { workspace = s.workspace }) l v)
        | inr h ↦ rw h v
      ]

  forward_received-IsSound :
      (s : Sub) (r : Option Received) (l : Link S)
      → IsSound sv l.conn
      → IsSound sv (forward_received sv.encode sv.fallback s r l).conn
  forward_received-IsSound s (some (received u)) l v = forward_frame-IsSound s (update_frame u) l v
  forward_received-IsSound s (some Received.slow_subscriber) l v = close-IsSound sv l v
  forward_received-IsSound s none l v = v
  forward_received-IsSound s (some Received.eof) l v = v
  forward_received-IsSound s (some Received.context_done) l v = v
  forward_received-IsSound s (some Received.blocked) l v = v

  write_from-IsCurrent :
      (c : Conn) (queue : List String) → IsCurrent sv c → IsCurrent sv (write_from c queue).0
  unfolding current_workspace
  write_from-IsCurrent c [] v = v
  write_from-IsCurrent c (b ∷ rest) v = v

  conn_step-IsSound :
      (s : ConnStep S F) (w : World S F) → IsSound sv w.conn → IsSound sv (conn_step s w).conn
  unfolding conn_step forward write_next
  conn_step-IsSound (reads fresh i) w v = read-IsSound fresh i w v
  conn_step-IsSound (forwards s) w v =
      let r = receive_next false s.handle w.coord in
      forward_received-IsSound s r.1 (record w.link { coord = r.0 }) v
  conn_step-IsSound writes w v = record {
    bounded = write_next-IsBounded w.conn v.bounded;
    isolated = write_from-IsCurrent w.conn w.conn.send v.isolated;
  }
  conn_step-IsSound closes w v = close-IsSound sv w.link v
  conn_step-IsSound (elsewhere c files) w v = v

  run_conn-IsSound :
      (steps : List (ConnStep S F)) (w : World S F)
      → IsSound sv w.conn
      → IsSound sv (run_conn steps w).conn
  unfolding run_conn
  run_conn-IsSound [] w v = v
  run_conn-IsSound (s ∷ steps) w v =
      run_conn-IsSound steps (conn_step s w) (conn_step-IsSound s w v)

  connected-IsSound : (c : Coordinator S) (files : F) → IsSound sv (connected c files).conn
  unfolding connected
  connected-IsSound c files = record {
    bounded = record { counted = refl; within = omega arith; few = omega arith };
    isolated = nothing-IsCurrent sv new_conn refl;
  }

  run-IsSound :
      (c : Coordinator S) (files : F) (steps : List (ConnStep S F))
      → IsSound sv (run_conn steps (connected c files)).conn
  run-IsSound c files steps = run_conn-IsSound steps (connected c files) (connected-IsSound c files)

  -- Whatever a client sends, whatever is forwarded to it and however slowly its socket takes it, the
  -- byte counter of a connection is the bytes of the messages that wait for the socket, which are at
  -- most 128 messages and 16 MiB.
  pub connection_bounded :
      (c : Coordinator S) (files : F) (steps : List (ConnStep S F))
      → let conn = (run_conn steps (connected c files)).conn in
        (conn.queued_bytes ≡ sum_of len conn.send)
        × (sum_of len conn.send ≤ 16 * 1048576)
        × (length conn.send ≤ 128)
  connection_bounded c files steps =
      let v = (run-IsSound c files steps).bounded in
      (v.counted, omega (arith, v.counted, v.within), v.few)

  forward_frame-sends :
      (s : Sub) (frame : Option Frame) (l : Link S)
      → is_current s (lookup s.session_id l.conn.subs) ≡ false
      → (forward_frame sv.encode sv.fallback s frame l).conn.send ≡ l.conn.send
  forward_frame-sends s none l h = refl
  forward_frame-sends s (some frame) l h = rw h refl

  close-send : (l : Link S) → (close l).conn.send ≡ l.conn.send
  unfolding close
  close-send l =
      if_cases (λ (m : Link S). m.conn.send ≡ l.conn.send) l.conn.closed _ _ (λ h. refl) λ h. refl

  forward_received-sends :
      (s : Sub) (r : Option Received) (l : Link S)
      → is_current s (lookup s.session_id l.conn.subs) ≡ false
      → (forward_received sv.encode sv.fallback s r l).conn.send ≡ l.conn.send
  forward_received-sends s (some (received u)) l h = forward_frame-sends s (update_frame u) l h
  forward_received-sends s (some Received.slow_subscriber) l h = close-send l
  forward_received-sends s none l h = refl
  forward_received-sends s (some Received.eof) l h = refl
  forward_received-sends s (some Received.context_done) l h = refl
  forward_received-sends s (some Received.blocked) l h = refl

  -- After anything that happened to a connection, a subscription that is forwarded sends the client
  -- nothing, or it is the connection's own subscription of that session, and then it is one of the
  -- workspace that the connection is in: no update of a workspace that the client has left reaches
  -- it.
  pub forward_isolated :
      (c : Coordinator S) (files : F) (steps : List (ConnStep S F)) (s : Sub)
      → let w = run_conn steps (connected c files) in
        ((forward sv.encode sv.fallback s w.link).conn.send ≡ w.conn.send)
        ⊎ ((t : Sub) × (lookup s.session_id w.conn.subs ≡ some t)
            × (s.handle ≡ t.handle)
            × (t.workspace ≡ canonical_workspace sv.env.platform (workspace_of sv w.link)))
  unfolding forward
  forward_isolated c files steps s =
      let w = run_conn steps (connected c files) in
      let v = (run-IsSound c files steps).isolated in
      let r = receive_next false s.handle w.coord in
      elim (Option-cases (lookup s.session_id w.conn.subs)) [
        | inl h ↦
            inl (forward_received-sends s r.1 (record w.link { coord = r.0 }) (ap (is_current s) h))
        | inr (t, h) ↦ elim (Bool-cases (s.handle == t.handle)) [
          | inl e ↦ inr (t, h, (==_iff s.handle t.handle).0 e, v s.session_id t h)
          | inr e ↦ inl (
              forward_received-sends s r.1 (record w.link { coord = r.0 })
                (ap (is_current s) h ∙ e))
        ]
      ]
