-- ===== src/Chat/Subscribers.antt =====
-- The coordinator's delivery: `publishLocked`, `runSnapshot`, `snapshotLocked`, `Subscribe`,
-- `Resnapshot`, `Snapshot`, a subscription's `unsubscribe`, and the reading end.
pub mod Frame
pub mod Served
use excelsior.Common.{
  ℕ, zero, suc, String, Bool, true, false, ◌&&◌, List, [], ◌∷◌, ◌++◌, map, Option, none, some,
  Result, ok, err, lookup, if◌then◌else◌, str_eq, length,
}
use excelsior.Llm.{Message}
use excelsior.Chat.Event.{
  Event, Snapshot, Update, Notice, snapshot, Json, clone_messages, clone_events, clone_snapshot,
}
use excelsior.Chat.Workspace.{canonical_workspace, session_key}
use excelsior.Chat.Subscription.{
  Subscription, Received, new_subscription, enqueue, next, close_queue,
}
use excelsior.Chat.Subscription
use excelsior.Chat.State.{
  Coordinator, Env, ActiveRun, Subscriber, ChatError, engine_stopped, slow_subscriber,
}
use excelsior.Chat.Stores.{with_store, load_messages}

-- A pointer to a subscription is its position.
abbrev pub get_elem? {ℓ} : {A : Type ℓ} → List A → ℕ → Option A
get_elem? [] i = none
get_elem? (x ∷ xs) zero = some x
get_elem? (x ∷ xs) (suc i) = get_elem? xs i

abbrev pub set {ℓ} : {A : Type ℓ} → List A → ℕ → A → List A
set [] i v = []
set (x ∷ xs) zero v = v ∷ xs
set (x ∷ xs) (suc i) v = x ∷ set xs i v

-- One round of `publishLocked`: a subscriber whose queue refuses the update leaves the set.
unfoldable pub deliver : Json → String → Update → Subscriber → Subscriber
deliver json key u e =
    if e.registered && str_eq e.key key
    then record e { sub = (enqueue json e.sub u).0; registered = (enqueue json e.sub u).1 }
    else e

-- The order in which Go ranges over the set does not matter: a round touches one queue.
unfoldable pub publish : {S : Type 0} → Json → String → Update → Coordinator S → Coordinator S
unfolding deliver
publish json key u c = record c { subscribers = map (deliver json key u) c.subscribers }

abbrev pub announce : Notice → Update
announce n = record { request_id = ""; notice = n }

unfoldable pub run_snapshot : ActiveRun → Snapshot
run_snapshot run = record {
  session_id = run.session_id;
  run_id = run.id;
  running = true;
  messages = clone_messages run.messages;
  events = clone_events run.events;
  pending = run.pending;
  outcome = none;
  unsaved_available = false;
  projection_unavailable = false;
}

abbrev stored_snapshot : String → List Message → Snapshot
stored_snapshot id messages = record {
  session_id = id;
  run_id = "";
  running = false;
  messages = clone_messages messages;
  events = [];
  pending = none;
  outcome = none;
  unsaved_available = false;
  projection_unavailable = false;
}

module _ {S : Type 0} (env : Env S) where
  abbrev pub loaded_snapshot :
      String
      → Coordinator S × Result ChatError (List Message)
      → Coordinator S × Result ChatError Snapshot
  loaded_snapshot id (c, ok messages) = (c, ok (stored_snapshot id messages))
  loaded_snapshot id (c, err e) = (c, err e)

  -- The run, else the kept snapshot of the last run, else the stored session.
  unfoldable pub snapshot_locked :
      String → String → Coordinator S → Coordinator S × Result ChatError Snapshot
  unfolding run_snapshot with_store
  snapshot_locked ws id c =
      let key = session_key env.platform ws id in
      elim (lookup key c.runs) [
        | some run ↦ (c, ok (run_snapshot run))
        | none ↦ elim (lookup key c.terminal) [
          | some snap ↦ (c, ok (clone_snapshot env.json snap))
          | none ↦ loaded_snapshot id (with_store env ws (load_messages env id) c)
        ]
      ]

  unfoldable pub snapshot_of :
      String → String → Coordinator S → Coordinator S × Result ChatError Snapshot
  unfolding snapshot_locked
  snapshot_of ws id c = snapshot_locked (canonical_workspace env.platform ws) id c

  abbrev initial : String → Snapshot → Update
  initial request_id snap = record { request_id = request_id; notice = snapshot snap }

  -- The new object joins the set with the snapshot in its queue. Where the queue refuses even that,
  -- it leaves the set again.
  join :
      String
      → String
      → String
      → Coordinator S × Result ChatError Snapshot
      → Coordinator S × Result ChatError ℕ
  join ws id request_id (c, err e) = (c, err e)
  join ws id request_id (c, ok snap) =
      let r = enqueue env.json (new_subscription ws id) (initial request_id snap) in
      let entry : Subscriber = record {
        key = session_key env.platform ws id;
        registered = r.1;
        sub = r.0;
      } in
      (
        record c { subscribers = c.subscribers ++ entry ∷ [] },
        (if r.1 then ok (length c.subscribers) else err slow_subscriber),
      )

  unfoldable pub subscribe :
      String → String → String → Coordinator S → Coordinator S × Result ChatError ℕ
  unfolding join snapshot_locked
  subscribe ws id request_id c =
      let canonical = canonical_workspace env.platform ws in
      if c.stopped
      then (c, err engine_stopped)
      else join canonical id request_id (snapshot_locked canonical id c)

  refresh :
      ℕ
      → Subscriber
      → String
      → Coordinator S × Result ChatError Snapshot
      → Coordinator S × Result ChatError (Unit {0})
  refresh handle e request_id (c, err error) = (c, err error)
  refresh handle e request_id (c, ok snap) =
      let r = enqueue env.json e.sub (initial request_id snap) in
      (
        record c {
          subscribers = set c.subscribers handle (record e { sub = r.0; registered = r.1 });
        },
        (if r.1 then ok tt else err slow_subscriber),
      )

  unfoldable pub resnapshot :
      ℕ → String → Coordinator S → Coordinator S × Result ChatError (Unit {0})
  unfolding refresh snapshot_locked
  resnapshot handle request_id c = elim (get_elem? c.subscribers handle) [
    | none ↦ (c, err slow_subscriber)
    | some e ↦
        if e.registered
        then refresh handle e request_id (snapshot_locked e.sub.workspace e.sub.session_id c)
        else (c, err slow_subscriber)
  ]

-- `sub.Close()`, the closure that `Subscribe` stores in the object.
unfoldable pub unsubscribe : {S : Type 0} → ℕ → Coordinator S → Coordinator S
unsubscribe handle c = elim (get_elem? c.subscribers handle) [
  | none ↦ c
  | some e ↦ record c {
    subscribers =
        set c.subscribers handle (record e { registered = false; sub = close_queue e.sub });
  }
]

-- A connection's `sub.Next(ctx)`.
unfoldable pub receive_next :
    {S : Type 0} → Bool → ℕ → Coordinator S → Coordinator S × Option Received
receive_next ctx_done handle c = elim (get_elem? c.subscribers handle) [
  | none ↦ (c, none)
  | some e ↦ (
    record c {
      subscribers = set c.subscribers handle (record e { sub = (next ctx_done e.sub).0 });
    },
    some (next ctx_done e.sub).1,
  )
]
