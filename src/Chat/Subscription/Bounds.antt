-- ===== src/Chat/Subscription/Bounds.antt =====
-- The queue stays within its slots and its bytes, and the byte counter is what the queue holds.
use excelsior.Common.{
  ℕ, ◌≤◌, ◌≡◌, refl, ap, Bool, true, false, ◌⊎◌, inl, inr, List, [], ◌∷◌, String, arith,
  Option-cases, length, length-append, sum_of, sum_of-append,
}
use excelsior.Chat.Event.{Json, Update}
use excelsior.Chat.Subscription.{
  QueuedUpdate, Subscription, max_subscription_bytes, new_subscription, queued_update, offer,
  enqueue, receive, next, close_queue,
}

abbrev pub queued_bytes : List QueuedUpdate → ℕ
queued_bytes = sum_of (λ q. q.size)

-- A subscription that fell behind is closed, and its counter is no longer kept.
pub record IsBounded (s : Subscription) : Type 0 where
  pub slots : length s.queue ≤ s.capacity
  pub within : s.bytes ≤ max_subscription_bytes
  pub counted : (s.slow ≡ true) ⊎ (s.bytes ≡ queued_bytes s.queue)
  pub slow_closed : (s.slow ≡ false) ⊎ (s.closed ≡ true)

pub new_subscription-IsBounded : (ws id : String) → IsBounded (new_subscription ws id)
new_subscription-IsBounded ws id = record {
  slots = omega arith;
  within = omega arith;
  counted = inr refl;
  slow_closed = inl refl;
}

offer-IsBounded :
    (json : Json) (s : Subscription) (b : String) → IsBounded s → IsBounded (offer json s b).0
unfolding offer
offer-IsBounded json s b v = ground (
  arith,
  length-append s.queue (queued_update json b ∷ []),
  sum_of-append (λ (q : QueuedUpdate). q.size) s.queue (queued_update json b ∷ []),
)

pub enqueue-IsBounded :
    (json : Json) (s : Subscription) (u : Update) → IsBounded s → IsBounded (enqueue json s u).0
unfolding enqueue
enqueue-IsBounded json s u v = elim (Option-cases (json.marshal_update u)) [
  | inl e ↦ ground arith
  | inr (b, e) ↦ ground (arith, offer-IsBounded json s b v)
]

receive-IsBounded :
    (s : Subscription) (qs : List QueuedUpdate)
    → s.queue ≡ qs
    → IsBounded s
    → IsBounded (receive s qs).0
unfolding receive
receive-IsBounded s [] e v = ground arith
receive-IsBounded s (q ∷ rest) e v = ground (arith, ap length e, ap queued_bytes e)

pub next-IsBounded : (done : Bool) (s : Subscription) → IsBounded s → IsBounded (next done s).0
unfolding next
next-IsBounded done s v = ground (arith, receive-IsBounded s s.queue refl v)

pub close_queue-IsBounded : (s : Subscription) → IsBounded s → IsBounded (close_queue s)
unfolding close_queue
close_queue-IsBounded s v = ground arith

-- The subtraction of `Next` takes away what the counter holds.
pub size-le-bytes :
    (s : Subscription) (q : QueuedUpdate) (rest : List QueuedUpdate)
    → IsBounded s
    → s.slow ≡ false
    → s.queue ≡ q ∷ rest
    → q.size ≤ s.bytes
size-le-bytes s q rest v h e = ground (arith, ap queued_bytes e)

-- A subscription that accepts an update is open.
pub enqueue-open :
    (json : Json) (s : Subscription) (u : Update)
    → ((enqueue json s u).1 ≡ false) ⊎ ((enqueue json s u).0.closed ≡ false)
unfolding enqueue offer
enqueue-open json s u = ground arith

receive-closed : (s : Subscription) (qs : List QueuedUpdate) → (receive s qs).0.closed ≡ s.closed
unfolding receive
receive-closed s [] = ground arith
receive-closed s (q ∷ rest) = ground arith

-- Reading closes nothing.
pub next-closed : (done : Bool) (s : Subscription) → (next done s).0.closed ≡ s.closed
unfolding next
next-closed true s = refl
next-closed false s = receive-closed s s.queue
