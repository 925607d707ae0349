-- ===== src/Engine/Conn/Bounds.antt =====
-- What a connection holds for its socket is bounded, and its byte counter is exact.
use Prim.Native.String.{len}
use excelsior.Common.{
  ◌≤◌, ◌≡◌, refl, ap, ◌∙◌, String, Bool, length, length-append, sum_of, sum_of-append, List, [],
  ◌∷◌, Option, none, some, arith, if_cases,
}
use excelsior.Chat.Subscription.{max_subscription_bytes}
use excelsior.Protocol.Frames.{Frame}
use excelsior.Engine.Conn.{
  Conn, max_send_messages, try_send_envelope, write_from, write_next, queue_text, with_workspace,
}

pub record IsBounded (c : Conn) : Type 0 where
  pub counted : c.queued_bytes ≡ sum_of len c.send
  pub within : c.queued_bytes ≤ max_subscription_bytes
  pub few : length c.send ≤ max_send_messages

queue_text-IsBounded :
    (encode : Frame → Option String) (fallback : String) (c : Conn) (b : Option String)
    → IsBounded c
    → IsBounded (queue_text encode fallback c b).0
queue_text-IsBounded encode fallback c none v = v
queue_text-IsBounded encode fallback c (some b) v =
    let joined = sum_of-append len c.send (b ∷ []) in
    let longer = length-append c.send (b ∷ []) in
    record {
      counted = ground (arith, v.counted, joined);
      within = ground (arith, v.within);
      few = ground (arith, v.few, longer);
    }

pub try_send_envelope-IsBounded :
    (encode : Frame → Option String) (fallback : String) (frame : Frame) (c : Conn)
    → IsBounded c
    → IsBounded (try_send_envelope encode fallback frame c).0
unfolding try_send_envelope
try_send_envelope-IsBounded encode fallback frame c v =
    if_cases (λ (r : Conn × Bool). IsBounded r.0) c.closed _ _ (λ h. v)
      λ h.
        queue_text-IsBounded encode fallback c (encode (with_workspace encode fallback c frame)) v

write_from-IsBounded :
    (c : Conn) (queue : List String)
    → c.send ≡ queue
    → IsBounded c
    → IsBounded (write_from c queue).0
write_from-IsBounded c [] e v = v
write_from-IsBounded c (b ∷ rest) e v =
    let total = v.counted ∙ ap (sum_of len) e in
    let many = ap length e in
    record {
      counted = ground (arith, total);
      within = ground (arith, v.within);
      few = ground (arith, v.few, many);
    }

pub write_next-IsBounded : (c : Conn) → IsBounded c → IsBounded (write_next c).0
unfolding write_next
write_next-IsBounded c v = write_from-IsBounded c c.send refl v
