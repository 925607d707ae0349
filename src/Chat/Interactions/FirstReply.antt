-- ===== src/Chat/Interactions/FirstReply.antt =====
-- The first valid reply to a question wins, and reaches the tool that asked.
use excelsior.Common.{
  ◌≡◌, refl, sym, ◌∙◌, subst, String, Bool, true, false, not, ◌||◌, ◌⊎◌, inl, inr, none, some, ok,
  err, lookup, lookup-insert_self, str_eq, eq_iff, arith, if_cases, option_cases,
}
use excelsior.Chat.Event.{PendingInteraction, InteractionKind}
use excelsior.Chat.Workspace.{session_key}
use excelsior.Chat.State.{
  Coordinator, Env, ActiveRun, InteractionResponse, ChatError, stale_interaction,
}
use excelsior.Chat.Subscribers.{publish}
use excelsior.Chat.Interactions.{answer, reply_to, reply, take_response, bad_selection, same_kind}
use excelsior.Chat.Machine.Moves.{Answer}
use excelsior.Chat.Machine.Soundness.{WaitsFor, IsSound-lookup}
use excelsior.Chat.Machine.Invariant.{IsConsistent}

-- The session's run asks nothing any more, and the answer waits on the question's channel.
record IsAnswered {S : Type 0} (key interaction_id : String) (resp : InteractionResponse)
    (c : Coordinator S) : Type 0 where
  run : ActiveRun
  active : lookup key c.runs ≡ some run
  settled : run.pending ≡ none
  waits : lookup interaction_id c.response_channels ≡ some resp

-- A refused reply changes nothing; an accepted one answers.
data ReplyOutcome {S : Type 0} (key interaction_id : String) (resp : InteractionResponse)
    (c : Coordinator S) (r : Coordinator S × Answer) : Type 0 where
  refused : (e : ChatError) → r ≡ (c, err e) → ReplyOutcome key interaction_id resp c r
  accepted :
      r.1 ≡ ok tt
      → IsAnswered key interaction_id resp r.0
      → ReplyOutcome key interaction_id resp c r

take_response-waits :
    {S : Type 0} (interaction_id : String) (resp : InteractionResponse) (c : Coordinator S)
    → lookup interaction_id c.response_channels ≡ some resp
    → (take_response false false interaction_id c).1 ≡ some (ok resp)
unfolding take_response
take_response-waits interaction_id resp c e = rw (take_response, e) refl

module _ {S : Type 0} (env : Env S) where
  answer-IsAnswered :
      (key interaction_id : String) (run : ActiveRun) (pi : PendingInteraction)
      (resp : InteractionResponse) (c : Coordinator S)
      → run.response ≡ interaction_id
      → IsAnswered key interaction_id resp (answer env key run pi resp c)
  unfolding answer publish
  answer-IsAnswered key interaction_id run pi resp c e = record {
    run = record run { pending = none; state = _ };
    active = lookup-insert_self key _ c.runs;
    settled = refl;
    waits = rw e (lookup-insert_self interaction_id resp c.response_channels);
  }

  reply_to-ReplyOutcome :
      (key run_id interaction_id : String) (kind : InteractionKind) (resp : InteractionResponse)
      (run : ActiveRun) (c : Coordinator S)
      → WaitsFor run.response run.pending
      → ReplyOutcome key interaction_id resp c
          (reply_to env key run_id interaction_id kind resp run c)
  unfolding reply_to
  reply_to-ReplyOutcome key run_id interaction_id kind resp run c w =
      let P = λ (r : Coordinator S × Answer). ReplyOutcome key interaction_id resp c r in
      option_cases P run.pending _ _ (λ _. refused stale_interaction refl)
        λ pi open_.
          if_cases P
            (not (str_eq run.id run_id)
              || not (str_eq pi.id interaction_id)
              || not (same_kind pi.kind kind)
              || run.canceled)
            _ _ (λ _. refused stale_interaction refl)
            λ valid.
              if_cases P (bad_selection env kind pi resp.ask_selected) _ _ (λ _. refused _ refl)
                (λ _. accepted refl (
                  answer-IsAnswered key interaction_id run pi resp c (
                    sym (subst (WaitsFor run.response) open_ w)
                    ∙ (eq_iff pi.id interaction_id).0 (
                        second (not (str_eq run.id run_id)) (str_eq pi.id interaction_id)
                          (not (same_kind pi.kind kind)) run.canceled valid))))
    where
      second : (p q r s : Bool) → (p || not q || r || s) ≡ false → q ≡ true
      second p q r s h = ground arith

  reply-ReplyOutcome :
      (ws id run_id interaction_id : String) (kind : InteractionKind) (resp : InteractionResponse)
      (c : Coordinator S)
      → IsConsistent env c
      → ReplyOutcome
          (session_key env.platform ws id)
          interaction_id
          resp
          c
          (reply env ws id run_id interaction_id kind resp c)
  unfolding reply
  reply-ReplyOutcome ws id run_id interaction_id kind resp c v =
      let key = session_key env.platform ws id in
      option_cases (ReplyOutcome key interaction_id resp c) (lookup key c.runs) _ _
        (λ _. refused stale_interaction refl)
        λ run e.
          reply_to-ReplyOutcome key run_id interaction_id kind resp run c
            (IsSound-lookup env key c.runs v.runs e).channel

  reply-settled :
      (ws id run_id interaction_id : String) (kind : InteractionKind) (resp : InteractionResponse)
      (run : ActiveRun) (c : Coordinator S)
      → lookup (session_key env.platform ws id) c.runs ≡ some run
      → run.pending ≡ none
      → reply env ws id run_id interaction_id kind resp c ≡ (c, err stale_interaction)
  unfolding reply reply_to
  reply-settled ws id run_id interaction_id kind resp run c e h = rw (reply, e, reply_to, h) refl

  -- From a consistent state, a reply is refused and changes nothing, or it succeeds. Then the
  -- question's tool takes just this answer from its channel, and every further reply for the session
  -- is refused as stale, whatever it names, and changes nothing.
  pub first_reply_wins :
      (ws id run_id interaction_id : String) (kind : InteractionKind) (resp : InteractionResponse)
      (c : Coordinator S)
      → IsConsistent env c
      → let r = reply env ws id run_id interaction_id kind resp c in
        ((e : ChatError) × (r ≡ (c, err e)))
        ⊎ ((r.1 ≡ ok tt)
            × ((take_response false false interaction_id r.0).1 ≡ some (ok resp))
            × ((run_id' interaction_id' : String) (kind' : InteractionKind)
                  (resp' : InteractionResponse)
                → reply env ws id run_id' interaction_id' kind' resp' r.0
                  ≡ (r.0, err stale_interaction)))
  first_reply_wins ws id run_id interaction_id kind resp c v =
      elim (reply-ReplyOutcome ws id run_id interaction_id kind resp c v) [
        | refused e h ↦ inl (e, h)
        | accepted h a ↦ inr (
          h,
          take_response-waits interaction_id resp _ a.waits,
          λ run_id' interaction_id' kind' resp'.
              reply-settled ws id run_id' interaction_id' kind' resp' a.run _ a.active a.settled,
        )
      ]
