-- ===== src/Chat/Subscription/Delivery.antt =====
-- What a subscriber receives against what was accepted for it, over any sequence of calls on one
-- subscription.
use mathlib.Core.List.{append_assoc, append-nil, map-append}
use excelsior.Common.{
  ◌≡◌, refl, sym, ap, ◌∙◌, Bool, true, false, ◌⊎◌, inl, inr, List, [], ◌∷◌, ◌++◌, map, String,
  arith, Bool-cases, Option-cases, if◌then◌else◌,
}
use excelsior.Chat.Event.{Json, Update, RoundTrips}
use excelsior.Chat.Subscription.{
  QueuedUpdate, Subscription, Received, received, slow_subscriber, eof, new_subscription,
  queued_update, offer, enqueue, receive, next, close_queue,
}

-- The coordinator's calls and the connection's.
pub data Call : Type 0 where
  enqueues : Update → Call
  takes : Bool → Call
  closes : Call

-- A subscription with the updates accepted for it and those that its reader was given.
pub record Trace : Type 0 where
  pub sub : Subscription
  pub accepted : List Update
  pub given : List Update

abbrev pub add_if : Bool → Update → List Update → List Update
add_if sent u us = if sent then us ++ u ∷ [] else us

abbrev pub add_received : Received → List Update → List Update
add_received (received u) us = us ++ u ∷ []
add_received _ us = us

unfoldable pub step : Json → Trace → Call → Trace
step json t (enqueues u) =
    let r = enqueue json t.sub u in record t { sub = r.0; accepted = add_if r.1 u t.accepted }
step json t (takes done) =
    let r = next done t.sub in record t { sub = r.0; given = add_received r.1 t.given }
step json t closes = record t { sub = close_queue t.sub }

unfoldable pub run : Json → Trace → List Call → Trace
run json t [] = t
run json t (c ∷ cs) = run json (step json t c) cs

abbrev pub start : String → String → Trace
start ws id = record { sub = new_subscription ws id; accepted = []; given = [] }

abbrev waiting : Subscription → List Update
waiting s = map (λ (q : QueuedUpdate). q.update) s.queue

-- `owed` is accepted and not yet given; it is the queue, until the subscriber is declared slow.
record InOrder (t : Trace) : Type 0 where
  owed : List Update
  split : t.given ++ owed ≡ t.accepted
  queued : (t.sub.slow ≡ true) ⊎ (owed ≡ waiting t.sub)

module _ (json : Json) (trips : RoundTrips json) where
  -- An accepted update joins the end of the queue as it was; a refused one changes no queue.
  enqueue_cases :
      (s : Subscription) (u : Update)
      → (((enqueue json s u).1 ≡ true)
          × (waiting (enqueue json s u).0 ≡ waiting s ++ u ∷ [])
          × ((enqueue json s u).0.slow ≡ s.slow))
        ⊎ (((enqueue json s u).1 ≡ false)
            × (waiting (enqueue json s u).0 ≡ waiting s)
            × ((s.slow ≡ true) → (enqueue json s u).0.slow ≡ true))
  unfolding enqueue offer
  enqueue_cases s u = elim (Option-cases (json.marshal_update u)) [
    | inl e ↦ ground arith
    | inr (b, e) ↦ ground (
      arith,
      trips.updates u b e,
      map-append (λ (q : QueuedUpdate). q.update) s.queue (queued_update json b ∷ []),
    )
  ]

  enqueues-InOrder : (t : Trace) (u : Update) → InOrder t → InOrder (step json t (enqueues u))
  unfolding step
  enqueues-InOrder t u v = elim (enqueue_cases t.sub u) [
    | inl (sent, queue, same) ↦ record {
      owed = v.owed ++ u ∷ [];
      split =
          rw sent (sym (append_assoc t.given v.owed (u ∷ [])) ∙ ap (λ us. us ++ u ∷ []) v.split);
      queued = elim v.queued [
        | inl e ↦ inl (same ∙ e)
        | inr e ↦ inr (ap (λ us. us ++ u ∷ []) e ∙ sym queue)
      ];
    }
    | inr (refused, queue, kept) ↦ record {
      owed = v.owed;
      split = rw refused v.split;
      queued = elim v.queued [ inl e ↦ inl (kept e) | inr e ↦ inr (e ∙ sym queue) ];
    }
  ]

  takes-InOrder :
      (t : Trace) (qs : List QueuedUpdate)
      → t.sub.queue ≡ qs
      → InOrder t
      → InOrder (record t {
        sub = (receive t.sub qs).0;
        given = add_received (receive t.sub qs).1 t.given;
      })
  unfolding receive
  takes-InOrder t [] e v = elim (Bool-cases t.sub.closed) [
    | inl c ↦ elim (Bool-cases t.sub.slow) [ inl d ↦ simp (c, d) v | inr d ↦ simp (c, d) v ]
    | inr c ↦ simp c v
  ]
  takes-InOrder t (q ∷ rest) e v = elim (Bool-cases t.sub.slow) [
    | inl d ↦ simp d (record { owed = v.owed; split = v.split; queued = inl refl })
    | inr d ↦ simp d (record {
      owed = map (λ (p : QueuedUpdate). p.update) rest;
      split =
          append_assoc t.given (q.update ∷ []) (map (λ (p : QueuedUpdate). p.update) rest)
          ∙ ap (◌++◌ t.given) (sym (owed_is d))
          ∙ v.split;
      queued = inr refl;
    })
  ]
    where
      owed_is : t.sub.slow ≡ false → v.owed ≡ map (λ (p : QueuedUpdate). p.update) (q ∷ rest)
      owed_is d = elim v.queued [
        | inl s ↦ cc
        | inr o ↦ o ∙ ap (map (λ (p : QueuedUpdate). p.update)) e
      ]

  step-InOrder : (t : Trace) (c : Call) → InOrder t → InOrder (step json t c)
  unfolding step next close_queue
  step-InOrder t (enqueues u) v = enqueues-InOrder t u v
  step-InOrder t (takes true) v = v
  step-InOrder t (takes false) v = takes-InOrder t t.sub.queue refl v
  step-InOrder t closes v = elim (Bool-cases t.sub.closed) [
    | inl e ↦ simp e v
    | inr e ↦ simp e (record { owed = v.owed; split = v.split; queued = v.queued })
  ]

  run-InOrder : (t : Trace) (cs : List Call) → InOrder t → InOrder (run json t cs)
  unfolding run
  run-InOrder t [] v = v
  run-InOrder t (c ∷ cs) v = run-InOrder (step json t c) cs (step-InOrder t c v)

  start-InOrder : (ws id : String) → InOrder (start ws id)
  start-InOrder ws id = record { owed = []; split = refl; queued = inr refl }

  -- Whatever the calls, what the reader was given is the beginning of what was accepted: nothing
  -- is lost in between, repeated or reordered. Until the subscriber is declared slow, what is
  -- missing is exactly the queue.
  pub given_in_order :
      (ws id : String) (cs : List Call)
      → let t = run json (start ws id) cs in
        (owed : List Update) × (t.given ++ owed ≡ t.accepted)
        × ((t.sub.slow ≡ true) ⊎ (owed ≡ map (λ (q : QueuedUpdate). q.update) t.sub.queue))
  given_in_order ws id cs =
      let v = run-InOrder (start ws id) cs (start-InOrder ws id) in (v.owed, v.split, v.queued)

  eof-all :
      (t : Trace) (qs : List QueuedUpdate)
      → t.sub.queue ≡ qs
      → InOrder t
      → (receive t.sub qs).1 ≡ eof
      → t.given ≡ t.accepted
  unfolding receive
  eof-all t [] e v h = elim v.queued [
    | inl s ↦ ground arith
    | inr o ↦
        sym (append-nil t.given)
        ∙ ap (◌++◌ t.given) (sym (o ∙ ap (map (λ (p : QueuedUpdate). p.update)) e))
        ∙ v.split
  ]
  eof-all t (q ∷ rest) e v h = ground arith

  -- A reader that sees the end of the stream was given every update that was accepted for it.
  pub eof_complete :
      (ws id : String) (cs : List Call)
      → (next false (run json (start ws id) cs).sub).1 ≡ eof
      → (run json (start ws id) cs).given ≡ (run json (start ws id) cs).accepted
  unfolding next
  eof_complete ws id cs h =
      eof-all (run json (start ws id) cs) (run json (start ws id) cs).sub.queue refl
        (run-InOrder (start ws id) cs (start-InOrder ws id)) h

receive-slow :
    (t : Trace) (qs : List QueuedUpdate)
    → t.sub.slow ≡ true
    → t.sub.closed ≡ true
    → ((receive t.sub qs).1 ≡ slow_subscriber)
      × ((receive t.sub qs).0.slow ≡ true)
      × ((receive t.sub qs).0.closed ≡ true)
unfolding receive
receive-slow t [] h k = ground arith
receive-slow t (q ∷ rest) h k = ground arith

step-slow :
    (json : Json) (t : Trace) (c : Call)
    → t.sub.slow ≡ true
    → t.sub.closed ≡ true
    → ((step json t c).sub.slow ≡ true)
      × ((step json t c).sub.closed ≡ true)
      × ((step json t c).accepted ≡ t.accepted)
      × ((step json t c).given ≡ t.given)
unfolding step enqueue next close_queue
step-slow json t (enqueues u) h k = ground arith
step-slow json t (takes true) h k = ground arith
step-slow json t (takes false) h k = ground (arith, receive-slow t t.sub.queue h k)
step-slow json t closes h k = ground arith

-- The verdict that a subscriber is slow is final: from then on nothing is accepted or given, and
-- every read that its context does not end reports it.
pub slow_forever :
    (json : Json) (t : Trace) (cs : List Call)
    → t.sub.slow ≡ true
    → t.sub.closed ≡ true
    → ((next false (run json t cs).sub).1 ≡ slow_subscriber)
      × ((run json t cs).accepted ≡ t.accepted)
      × ((run json t cs).given ≡ t.given)
unfolding run next
slow_forever json t [] h k = ((receive-slow t t.sub.queue h k).0, refl, refl)
slow_forever json t (c ∷ cs) h k =
    let (h', k', a, g) = step-slow json t c h k in
    let (r, a', g') = slow_forever json (step json t c) cs h' k' in (r, a' ∙ a, g' ∙ g)
