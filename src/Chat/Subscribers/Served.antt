-- ===== src/Chat/Subscribers/Served.antt =====
-- Every subscriber's queue is bounded, and open while the registry delivers to it, whatever is
-- published, subscribed or read.
use excelsior.Common.{
  ℕ, suc, zero, ◌≡◌, refl, sym, ◌∙◌, subst, String, Bool, false, ◌&&◌, ◌⊎◌, inl, inr, List, [], ◌∷◌,
  map, Option, none, some, Result, ok, err, All, All-append, lookup, str_eq, if_cases, option_cases,
}
use excelsior.Llm.{Message}
use excelsior.Chat.Event.{Snapshot, Update, Json}
use excelsior.Chat.Workspace.{session_key, canonical_workspace}
use excelsior.Chat.Subscription.{Received, new_subscription}
use excelsior.Chat.Subscription.Bounds.{
  IsBounded, new_subscription-IsBounded, enqueue-IsBounded, next-IsBounded, close_queue-IsBounded,
  enqueue-open, next-closed,
}
use excelsior.Chat.State.{Coordinator, Env, Subscriber, ChatError}
use excelsior.Chat.Stores.{with_store, load_messages}
use excelsior.Chat.Stores.Frame.{subscribers-with_store}
use excelsior.Chat.Subscribers.{
  get_elem?, set, deliver, publish, snapshot_locked, loaded_snapshot, join, subscribe, refresh,
  resnapshot, unsubscribe, receive_next,
}

-- Bounded, and still open while the registry delivers to it.
pub record IsServed (e : Subscriber) : Type 0 where
  pub bounded : IsBounded e.sub
  pub open_ : (e.registered ≡ false) ⊎ (e.sub.closed ≡ false)

abbrev pub AllServed : {S : Type 0} → Coordinator S → Type 0
AllServed c = All IsServed c.subscribers

deliver-IsServed :
    (json : Json) (key : String) (u : Update) (e : Subscriber)
    → IsServed e
    → IsServed (deliver json key u e)
unfolding deliver
deliver-IsServed json key u e v =
    if_cases IsServed (e.registered && str_eq e.key key) _ _
      (λ _. record {
        bounded = enqueue-IsBounded json e.sub u v.bounded;
        open_ = enqueue-open json e.sub u;
      })
      (λ _. v)

pub map-All :
    {A : Type 0} (P : A → Type 0) (f : A → A) (xs : List A)
    → ((x : A) → P x → P (f x))
    → All P xs
    → All P (map f xs)
map-All P f [] h v = tt
map-All P f (x ∷ xs) h v = (h x v.0, map-All P f xs h v.1)

set-All :
    {A : Type 0} (P : A → Type 0) (xs : List A) (i : ℕ) (a : A)
    → P a
    → All P xs
    → All P (set xs i a)
set-All P [] i a h v = tt
set-All P (x ∷ xs) zero a h v = (h, v.1)
set-All P (x ∷ xs) (suc i) a h v = (v.0, set-All P xs i a h v.1)

get-All :
    {A : Type 0} (P : A → Type 0) (xs : List A) (i : ℕ) (a : A)
    → get_elem? xs i ≡ some a
    → All P xs
    → P a
get-All P [] i a e v = cc
get-All P (x ∷ xs) zero a e v = subst (λ o. elim o [ none ↦ Unit {0} | some b ↦ P b ]) e v.0
get-All P (x ∷ xs) (suc i) a e v = get-All P xs i a e v.1

module _ {S : Type 0} (env : Env S) (c : Coordinator S) (v : AllServed c) where
  pub with_store-AllServed :
      {A : Type 0} (ws : String) (work : S → S × A) → AllServed (with_store env ws work c).0
  with_store-AllServed ws work = subst (All IsServed) (sym (subscribers-with_store env ws work c)) v

  pub publish-AllServed : (key : String) (u : Update) → AllServed (publish env.json key u c)
  unfolding publish
  publish-AllServed key u =
      map-All IsServed (deliver env.json key u) c.subscribers (deliver-IsServed env.json key u) v

module _ {S : Type 0} (env : Env S) where
  snapshot_locked-AllServed :
      (ws id : String) (c : Coordinator S) → AllServed c → AllServed (snapshot_locked env ws id c).0
  unfolding snapshot_locked
  snapshot_locked-AllServed ws id c v =
      option_cases (λ (r : Coordinator S × Result ChatError Snapshot). AllServed r.0)
        (lookup (session_key env.platform ws id) c.runs) _ _
        (λ _.
          option_cases (λ (r : Coordinator S × Result ChatError Snapshot). AllServed r.0)
            (lookup (session_key env.platform ws id) c.terminal) _ _
            (λ _.
              loaded (with_store env ws (load_messages env id) c)
                (with_store-AllServed env c v ws (load_messages env id)))
            (λ snap _. v))
        (λ run _. v)
    where
      loaded :
          (r : Coordinator S × Result ChatError (List Message))
          → AllServed r.0
          → AllServed (loaded_snapshot env id r).0
      loaded (d, ok ms) w = w
      loaded (d, err e) w = w

  join-AllServed :
      (ws id request : String) (r : Coordinator S × Result ChatError Snapshot)
      → AllServed r.0
      → AllServed (join env ws id request r).0
  unfolding join
  join-AllServed ws id request (d, err e) v = v
  join-AllServed ws id request (d, ok snap) v = All-append IsServed d.subscribers _ v (
    record {
      bounded =
          enqueue-IsBounded env.json (new_subscription ws id) _ (new_subscription-IsBounded ws id);
      open_ = enqueue-open env.json (new_subscription ws id) _;
    },
    tt,
  )

  pub subscribe-AllServed :
      (ws id request : String) (c : Coordinator S)
      → AllServed c
      → AllServed (subscribe env ws id request c).0
  unfolding subscribe
  subscribe-AllServed ws id request c v =
      let canonical = canonical_workspace env.platform ws in
      if_cases (λ (r : Coordinator S × Result ChatError ℕ). AllServed r.0) c.stopped _ _ (λ _. v)
        (λ _.
          join-AllServed canonical id request (snapshot_locked env canonical id c)
            (snapshot_locked-AllServed canonical id c v))

  refresh-AllServed :
      (handle : ℕ) (e : Subscriber) (request : String)
      (r : Coordinator S × Result ChatError Snapshot)
      → IsServed e
      → AllServed r.0
      → AllServed (refresh env handle e request r).0
  unfolding refresh
  refresh-AllServed handle e request (d, err error) h v = v
  refresh-AllServed handle e request (d, ok snap) h v =
      set-All IsServed d.subscribers handle _
        (record {
          bounded = enqueue-IsBounded env.json e.sub _ h.bounded;
          open_ = enqueue-open env.json e.sub _;
        })
        v

  pub resnapshot-AllServed :
      (handle : ℕ) (request : String) (c : Coordinator S)
      → AllServed c
      → AllServed (resnapshot env handle request c).0
  unfolding resnapshot
  resnapshot-AllServed handle request c v =
      option_cases (λ (r : Coordinator S × Result ChatError (Unit {0})). AllServed r.0)
        (get_elem? c.subscribers handle) _ _ (λ _. v)
        λ e at.
          if_cases (λ (r : Coordinator S × Result ChatError (Unit {0})). AllServed r.0) e.registered
            _ _
            (λ _.
              refresh-AllServed handle e request
                (snapshot_locked env e.sub.workspace e.sub.session_id c)
                (get-All IsServed c.subscribers handle e at v)
                (snapshot_locked-AllServed e.sub.workspace e.sub.session_id c v))
            (λ _. v)

module _ {S : Type 0} where
  pub unsubscribe-AllServed :
      (handle : ℕ) (c : Coordinator S) → AllServed c → AllServed (unsubscribe handle c)
  unfolding unsubscribe
  unsubscribe-AllServed handle c v =
      option_cases (λ (d : Coordinator S). AllServed d) (get_elem? c.subscribers handle) _ _
        (λ _. v)
        λ e at.
          set-All IsServed c.subscribers handle _
            (record {
              bounded =
                  close_queue-IsBounded e.sub
                    (get-All IsServed c.subscribers handle e at v).bounded;
              open_ = inl refl;
            })
            v

  pub receive_next-AllServed :
      (done : Bool) (handle : ℕ) (c : Coordinator S)
      → AllServed c
      → AllServed (receive_next done handle c).0
  unfolding receive_next
  receive_next-AllServed done handle c v =
      option_cases (λ (r : Coordinator S × Option Received). AllServed r.0)
        (get_elem? c.subscribers handle) _ _ (λ _. v)
        λ e at.
          let h = get-All IsServed c.subscribers handle e at v in
          set-All IsServed c.subscribers handle _
            (record {
              bounded = next-IsBounded done e.sub h.bounded;
              open_ = elim h.open_ [ inl u ↦ inl u | inr o ↦ inr (next-closed done e.sub ∙ o) ];
            })
            v
