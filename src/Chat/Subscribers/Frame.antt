-- ===== src/Chat/Subscribers/Frame.antt =====
-- Subscribing and reading change no run and no kept snapshot.
use excelsior.Common.{
  ℕ, refl, String, Bool, Option, Result, ok, err, lookup, if_cases, option_cases,
}
use excelsior.Chat.Event.{Snapshot, Update}
use excelsior.Chat.Workspace.{session_key, canonical_workspace}
use excelsior.Chat.Subscription.{Received}
use excelsior.Chat.State.{Coordinator, Env, ChatError, Subscriber}
use excelsior.Chat.Stores.{with_store, load_messages}
use excelsior.Chat.Stores.Frame.{SameCore, SameCore-refl, with_store-SameCore}
use excelsior.Chat.Subscribers.{
  publish, snapshot_locked, loaded_snapshot, join, subscribe, refresh, resnapshot, unsubscribe,
  receive_next, get_elem?,
}

module _ {S : Type 0} (env : Env S) where
  pub publish-SameCore :
      (key : String) (u : Update) (c : Coordinator S) → SameCore c (publish env.json key u c)
  unfolding publish
  publish-SameCore key u c = record { runs = refl; retained = refl; stopped = refl }

  pub snapshot_locked-SameCore :
      (ws id : String) (c : Coordinator S) → SameCore c (snapshot_locked env ws id c).0
  unfolding snapshot_locked
  snapshot_locked-SameCore ws id c =
      option_cases (λ (r : Coordinator S × Result ChatError Snapshot). SameCore c r.0)
        (lookup (session_key env.platform ws id) c.runs) _ _
        (λ _.
          option_cases (λ (r : Coordinator S × Result ChatError Snapshot). SameCore c r.0)
            (lookup (session_key env.platform ws id) c.terminal) _ _
            (λ _.
              loaded (with_store env ws (load_messages env id) c)
                (with_store-SameCore env ws (load_messages env id) c))
            (λ snap _. SameCore-refl c))
        (λ run _. SameCore-refl c)
    where
      loaded :
          (r : Coordinator S × Result ChatError _)
          → SameCore c r.0
          → SameCore c (loaded_snapshot env id r).0
      loaded (d, ok ms) s = s
      loaded (d, err e) s = s

  join-SameCore :
      (c : Coordinator S) (ws id request : String) (r : Coordinator S × Result ChatError Snapshot)
      → SameCore c r.0
      → SameCore c (join env ws id request r).0
  unfolding join
  join-SameCore c ws id request (d, ok snap) s = record {
    runs = s.runs;
    retained = s.retained;
    stopped = s.stopped;
  }
  join-SameCore c ws id request (d, err e) s = s

  pub subscribe-SameCore :
      (ws id request : String) (c : Coordinator S) → SameCore c (subscribe env ws id request c).0
  unfolding subscribe
  subscribe-SameCore ws id request c =
      if_cases (λ (r : Coordinator S × Result ChatError ℕ). SameCore c r.0) c.stopped _ _
        (λ _. SameCore-refl c)
        (λ _.
          join-SameCore c _ id request
            (snapshot_locked env (canonical_workspace env.platform ws) id c)
            (snapshot_locked-SameCore (canonical_workspace env.platform ws) id c))

  refresh-SameCore :
      (c : Coordinator S) (handle : ℕ) (e : Subscriber) (request : String)
      (r : Coordinator S × Result ChatError Snapshot)
      → SameCore c r.0
      → SameCore c (refresh env handle e request r).0
  unfolding refresh
  refresh-SameCore c handle e request (d, ok snap) s = record {
    runs = s.runs;
    retained = s.retained;
    stopped = s.stopped;
  }
  refresh-SameCore c handle e request (d, err error) s = s

  pub resnapshot-SameCore :
      (handle : ℕ) (request : String) (c : Coordinator S)
      → SameCore c (resnapshot env handle request c).0
  unfolding resnapshot
  resnapshot-SameCore handle request c =
      option_cases (λ (r : Coordinator S × Result ChatError (Unit {0})). SameCore c r.0)
        (get_elem? c.subscribers handle) _ _ (λ _. SameCore-refl c)
        λ e _.
          if_cases (λ (r : Coordinator S × Result ChatError (Unit {0})). SameCore c r.0)
            e.registered _ _
            (λ _.
              refresh-SameCore c handle e request
                (snapshot_locked env e.sub.workspace e.sub.session_id c)
                (snapshot_locked-SameCore e.sub.workspace e.sub.session_id c))
            (λ _. SameCore-refl c)

pub unsubscribe-SameCore :
    {S : Type 0} (handle : ℕ) (c : Coordinator S) → SameCore c (unsubscribe handle c)
unfolding unsubscribe
unsubscribe-SameCore handle c =
    option_cases (SameCore c) (get_elem? c.subscribers handle) _ _ (λ _. SameCore-refl c)
      (λ e _. record { runs = refl; retained = refl; stopped = refl })

pub receive_next-SameCore :
    {S : Type 0} (done : Bool) (handle : ℕ) (c : Coordinator S)
    → SameCore c (receive_next done handle c).0
unfolding receive_next
receive_next-SameCore {S} done handle c =
    option_cases (λ (r : Coordinator S × Option Received). SameCore c r.0)
      (get_elem? c.subscribers handle) _ _ (λ _. SameCore-refl c)
      (λ e _. record { runs = refl; retained = refl; stopped = refl })
