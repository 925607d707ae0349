-- ===== src/Engine/Conn.antt =====
-- pkg/engine/conn.go: what a connection queues for its socket, its subscriptions, and their
-- forwarding. `workspace` is that of internal/workspaces/state.go, "" where none was set. The send
-- channel is the list of what it holds; a call that tries to send is one step.
pub mod Bounds
use Prim.Native.String.{len}
use mathlib.Core.Option
use excelsior.Common.{
  ℕ, ◌+◌, ◌-◌, String, Bool, true, false, ◌&&◌, ◌==◌, ltb, leb, if◌then◌else◌, str_eq, List, [],
  ◌∷◌, ◌++◌, length, Option, none, some, Map, lookup, insert, erase, Result, ok, err,
}
use excelsior.Chat.Event.{Update, Notice, nothing, PendingInteraction, Outcome, Event, Snapshot}
use excelsior.Chat.Event
use excelsior.Chat.Subscription.{max_subscription_bytes, Received, received}
use excelsior.Chat.Subscription
use excelsior.Chat.State.{
  Coordinator, ChatError, session_busy, stale_interaction, run_not_found, store_failed,
  engine_stopped,
}
use excelsior.Chat.Subscribers.{unsubscribe, receive_next}
use excelsior.Session.Types.{store_owned}
use excelsior.Protocol.Frames.{
  Frame, Payload, session_data, delta, interaction, interaction_done, done, error, new_frame,
}
use excelsior.Engine.{delta_from_event, interaction_envelope, session_data_from_snapshot}

abbrev pub max_send_messages : ℕ
max_send_messages = 128

-- A subscription object: its handle, and the fields that never change.
pub record Sub : Type 0 where
  pub handle : ℕ
  pub workspace : String
  pub session_id : String

pub record Conn : Type 0 where
  pub workspace : String
  pub send : List String
  pub queued_bytes : ℕ
  pub subs : Map Sub
  pub closed : Bool

unfoldable pub new_conn : Conn
new_conn = record { workspace = ""; send = []; queued_bytes = 0; subs = []; closed = false }

-- `State.Current`, with the workspace of the hub behind it.
unfoldable pub current_workspace : String → Conn → String
current_workspace fallback c = if str_eq c.workspace "" then fallback else c.workspace

-- `encode` is `json.Marshal` of the envelope.
module _ (encode : Frame → Option String) (fallback : String) where
  abbrev pub queue_text : Conn → Option String → Conn × Bool
  queue_text c none = (c, false)
  queue_text c (some b) =
      if ltb max_subscription_bytes (c.queued_bytes + len b)
      then (c, false)
      else if leb max_send_messages (length c.send)
      then (c, false)
      else (record c { send = c.send ++ b ∷ []; queued_bytes = c.queued_bytes + len b }, true)

  abbrev pub with_workspace : Conn → Frame → Frame
  with_workspace c frame =
      if str_eq frame.workspace ""
      then record frame { workspace = current_workspace fallback c }
      else frame

  unfoldable pub try_send_envelope : Frame → Conn → Conn × Bool
  unfolding current_workspace
  try_send_envelope frame c =
      if c.closed then (c, false) else queue_text c (encode (with_workspace c frame))

-- A case of the loop in `writePump`: the first message leaves the channel for the socket.
abbrev pub write_from : Conn → List String → Conn × Option String
write_from c [] = (c, none)
write_from c (b ∷ rest) = (record c { send = rest; queued_bytes = c.queued_bytes - len b }, some b)

unfoldable pub write_next : Conn → Conn × Option String
write_next c = write_from c c.send

-- The code that `sendCommandError` gives.
unfoldable pub command_code : ChatError → String
command_code session_busy = "session_busy"
command_code stale_interaction = "stale_interaction"
command_code run_not_found = "run_not_found"
command_code (store_failed store_owned) = "store_owned"
command_code engine_stopped = "engine_stopped"
command_code e = "command_failed"

-- What `forwardSubscription` makes of an update; `none` is passed over.
unfoldable pub update_frame : Update → Option Frame
unfolding delta_from_event interaction_envelope session_data_from_snapshot
update_frame u = elim u.notice [
  | Notice.snapshot snap ↦
      some (new_frame u.request_id (Payload.session_data (session_data_from_snapshot snap)))
  | Notice.event ev ↦ some (new_frame "" (Payload.delta (delta_from_event ev)))
  | Notice.interaction pi ↦
      Option.map (λ env. new_frame "" (Payload.interaction env)) (interaction_envelope pi)
  | Notice.resolved pi ↦
      some (new_frame "" (Payload.interaction_done pi.session_id pi.run_id pi.id))
  | Notice.outcome o ↦ some (new_frame "" (Payload.done o))
  | Notice.nothing ↦ none
]

-- Whether `c.subs` still has this object.
abbrev pub is_current : Sub → Option Sub → Bool
is_current s none = false
is_current s (some t) = s.handle == t.handle

-- A connection with the coordinator of its hub.
pub record Link (S : Type 0) : Type 0 where
  pub conn : Conn
  pub coord : Coordinator S

module _ {S : Type 0} where
  -- `sub.Close()` for each of them.
  abbrev pub close_subs : Map Sub → Coordinator S → Coordinator S
  close_subs [] c = c
  close_subs ((id, s) ∷ subs) c = close_subs subs (unsubscribe s.handle c)

  unfoldable pub close : Link S → Link S
  unfolding unsubscribe
  close l = if l.conn.closed then l else record {
    conn = record l.conn { subs = []; closed = true };
    coord = close_subs l.conn.subs l.coord;
  }

  module _ (encode : Frame → Option String) (fallback : String) where
    abbrev pub close_unless : Coordinator S → Conn × Bool → Link S
    close_unless coord (c, true) = record { conn = c; coord = coord }
    close_unless coord (c, false) = close (record { conn = c; coord = coord })

    unfoldable pub send_envelope : Frame → Link S → Link S
    unfolding try_send_envelope close
    send_envelope frame l = close_unless l.coord (try_send_envelope encode fallback frame l.conn)

    unfoldable pub send_error : String → String → Link S → Link S
    unfolding send_envelope
    send_error id text = send_envelope (new_frame id (Payload.error "command_failed" text))

    -- `describe` is the text of an error.
    unfoldable pub send_command_error : (ChatError → String) → String → ChatError → Link S → Link S
    unfolding send_envelope command_code
    send_command_error describe id e =
        send_envelope (new_frame id (Payload.error (command_code e) (describe e)))

    abbrev pub forward_frame : Sub → Option Frame → Link S → Link S
    forward_frame s none l = l
    forward_frame s (some frame) l =
        if is_current s (lookup s.session_id l.conn.subs)
        then send_envelope (record frame { workspace = s.workspace }) l
        else l

    abbrev pub forward_received : Sub → Option Received → Link S → Link S
    forward_received s (some (received u)) l = forward_frame s (update_frame u) l
    forward_received s (some Received.slow_subscriber) l = close l
    forward_received s r l = l

    -- One round of `forwardSubscription`.
    unfoldable pub forward : Sub → Link S → Link S
    unfolding receive_next update_frame send_envelope close
    forward s l =
        let r = receive_next false s.handle l.coord in
        forward_received s r.1 (record l { coord = r.0 })
