-- ===== src/Chat/Subscription.antt =====
-- internal/chat/subscription.go: a bounded queue between the coordinator and one connection. The
-- mutex makes each method one step. The buffered channel is the list of what it holds. `Next` takes
-- from the channel before it locks; here the taking and the accounting are one step.
pub mod Bounds
pub mod Delivery
use Prim.Native.String.{len}
use excelsior.Common.{
  ℕ, ◌+◌, ◌-◌, ◌*◌, String, Bool, true, false, ◌||◌, ◌==◌, ltb, if◌then◌else◌, List, [], ◌∷◌, ◌++◌,
  Option, none, some, length,
}
use excelsior.Chat.Event.{Update, zero_update, Json}

abbrev pub max_subscription_bytes : ℕ
max_subscription_bytes = 16 * 1048576

pub record QueuedUpdate : Type 0 where
  pub update : Update
  pub size : ℕ

-- `slow` is `err == ErrSlowSubscriber`, the only error that is ever stored.
pub record Subscription : Type 0 where
  pub workspace : String
  pub session_id : String
  pub queue : List QueuedUpdate
  pub capacity : ℕ
  pub bytes : ℕ
  pub closed : Bool
  pub slow : Bool

-- The new object of `Subscribe`, with `make(chan queuedUpdate, 128)`.
abbrev pub new_subscription : String → String → Subscription
new_subscription ws id = record {
  workspace = ws;
  session_id = id;
  queue = [];
  capacity = 128;
  bytes = 0;
  closed = false;
  slow = false;
}

abbrev pub decoded_update : Option Update → Update
decoded_update none = zero_update
decoded_update (some u) = u

abbrev overflow : Subscription → Subscription × Bool
overflow s = (record s { closed = true; slow = true }, false)

abbrev queued_update : Json → String → QueuedUpdate
queued_update json b = record { update = decoded_update (json.unmarshal_update b); size = len b }

-- The guard of `enqueue` on the encoded update, and what passes it.
offer : Json → Subscription → String → Subscription × Bool
offer json s b =
    if ltb max_subscription_bytes (s.bytes + len b) || (length s.queue == s.capacity)
    then overflow s
    else (record s { bytes = s.bytes + len b; queue = s.queue ++ queued_update json b ∷ [] }, true)

unfoldable pub enqueue : Json → Subscription → Update → Subscription × Bool
unfolding offer
enqueue json s u =
    if s.closed
    then (s, false)
    else elim (json.marshal_update u) [ none ↦ overflow s | some b ↦ offer json s b ]

-- What `Next` does: return an update, `ErrSlowSubscriber`, `io.EOF` or the context's error, or wait.
pub data Received : Type 0 where
  received : Update → Received
  slow_subscriber eof context_done blocked : Received

-- Where both cases of the `select` are ready Go picks one: `ctx_done` says that it is the context's.
receive : Subscription → List QueuedUpdate → Subscription × Received
receive s [] =
    if s.closed then (if s.slow then (s, slow_subscriber) else (s, eof)) else (s, blocked)
receive s (q ∷ rest) =
    if s.slow
    then (record s { queue = rest }, slow_subscriber)
    else (record s { queue = rest; bytes = s.bytes - q.size }, received q.update)

unfoldable pub next : Bool → Subscription → Subscription × Received
unfolding receive
next ctx_done s = if ctx_done then (s, context_done) else receive s s.queue

unfoldable pub close_queue : Subscription → Subscription
close_queue s = if s.closed then s else record s { closed = true }
