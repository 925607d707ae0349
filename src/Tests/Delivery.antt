-- ===== src/Tests/Delivery.antt =====
-- The theorems about queues and kept snapshots at concrete inputs.

use excelsior.Common.{
  ◌≤◌, ◌<◌, ◌≡◌, refl, String, true, false, ◌⊎◌, List, [], ◌∷◌, ◌++◌, map, none, some, lookup,
  str_eq, contains, remove_first, length, if◌then◌else◌, arith,
}
use excelsior.Chat.Event.{Snapshot, Update, nothing, zero_snapshot, snapshot_bytes}
use excelsior.Chat.Subscription.{
  QueuedUpdate, Subscription, new_subscription, enqueue, next, close_queue, slow_subscriber,
}
use excelsior.Chat.Subscription.Delivery.{
  Call, enqueues, takes, closes, Trace, run, start, step, given_in_order, eof_complete,
  slow_forever,
}
use excelsior.Chat.Retention.{
  Retained, retain, strip_oversized, must_evict, make_room, max_retained_sessions,
  max_retained_bytes,
}
use excelsior.Chat.Retention.Bounds.{make_room_ends, retain_bounds}
use excelsior.Chat.Retention.Eviction.{IsCut, IsMinimal, retain_drops_oldest}
use excelsior.Tests.Base.{json, json-RoundTrips, finishing, after, after-IsConsistent}

abbrev note : Update
note = record { request_id = "n1"; notice = nothing }

abbrev session : List Call
session = enqueues note ∷ enqueues note ∷ takes false ∷ []

abbrev whole_session : List Call
whole_session = enqueues note ∷ takes false ∷ closes ∷ []

given_in_order_example :
    let t = run json (start "/w" "s1") session in
    (owed : List Update) × (t.given ++ owed ≡ t.accepted)
    × ((t.sub.slow ≡ true) ⊎ (owed ≡ map (λ (q : QueuedUpdate). q.update) t.sub.queue))
given_in_order_example = given_in_order json json-RoundTrips "/w" "s1" session

eof_complete_example :
    (run json (start "/w" "s1") whole_session).given
    ≡ (run json (start "/w" "s1") whole_session).accepted
unfolding next run step enqueue close_queue
eof_complete_example = eof_complete json json-RoundTrips "/w" "s1" whole_session refl

abbrev behind : Trace
behind = record (start "/w" "s1") {
  sub = record (new_subscription "/w" "s1") { slow = true; closed = true };
}

slow_forever_example :
    ((next false (run json behind session).sub).1 ≡ slow_subscriber)
    × ((run json behind session).accepted ≡ [])
    × ((run json behind session).given ≡ [])
slow_forever_example = slow_forever json behind session refl refl

abbrev one_waits : Subscription
one_waits = (enqueue json (new_subscription "/w" "s1") note).0

abbrev kept : Retained
kept = (after finishing).retained

retain_bounds_example :
    let r' = retain json "k" zero_snapshot kept in
    (length r'.retained_order ≤ max_retained_sessions)
    × ((r'.retained_bytes ≤ max_retained_bytes)
        ⊎ ((r'.retained_order ≡ "k" ∷ [])
            × (max_retained_bytes < snapshot_bytes json (strip_oversized json zero_snapshot))))
retain_bounds_example =
    retain_bounds json "k" zero_snapshot kept (after-IsConsistent finishing).accounted

retain_drops_oldest_example :
    let r' = retain json "k" zero_snapshot kept in
    (saved : Snapshot) × (evicted : List String) × (rest : List String) × IsCut json zero_snapshot
      saved
    × (evicted ++ rest ≡ remove_first "k" kept.retained_order)
    × (r'.retained_order ≡ rest ++ "k" ∷ [])
    × ((j : String)
        → lookup j r'.terminal ≡ (
            if str_eq "k" j
            then some saved
            else if contains j evicted
            then none
            else lookup j kept.terminal))
    × IsMinimal json "k" kept rest r'
retain_drops_oldest_example =
    retain_drops_oldest json "k" zero_snapshot kept (after-IsConsistent finishing).accounted

abbrev two_kept : Retained
two_kept = record {
  terminal = ("a", zero_snapshot) ∷ ("b", zero_snapshot) ∷ [];
  retained_order = "a" ∷ "b" ∷ [];
  retained_bytes = max_retained_bytes;
}

make_room_ends_example :
    let q = make_room 2 json 10 two_kept in (q.retained_order ≡ []) ⊎ (must_evict q 10 ≡ false)
make_room_ends_example = make_room_ends json 2 10 two_kept ("a" ∷ "b" ∷ []) refl (omega arith)
