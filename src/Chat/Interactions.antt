-- ===== src/Chat/Interactions.antt =====
-- Questions to the user in internal/chat/coordinator.go: `waitInteraction`, its second half that
-- waits for the answer, and `reply`, `ReplyPermission`, `ReplyAsk`.
pub mod FirstReply
use excelsior.Common.{
  ℕ, zero, String, Bool, true, false, not, ◌&&◌, ◌||◌, List, [], Option, none, some, Result, ok,
  err, lookup, insert, erase, if◌then◌else◌, str_eq, ltb, leb, ℤ, pos, negsuc, ltb_ℤ, length,
}
use excelsior.Chat.Event.{
  PendingInteraction, AskData, InteractionKind, permission, ask, Notice, interaction, resolved,
}
use excelsior.Chat.Workspace.{session_key}
use excelsior.Chat.State.{
  Coordinator, Env, ActiveRun, RunState, running, waiting_for_interaction, InteractionResponse,
  ChatError, stale_interaction, invalid_selection, context_canceled,
}
use excelsior.Chat.Subscribers.{publish, announce}

abbrev pub same_kind : InteractionKind → InteractionKind → Bool
same_kind permission permission = true
same_kind ask ask = true
same_kind _ _ = false

-- The options of a question; `ExecuteTurn` builds every question with them.
abbrev pub option_count : PendingInteraction → ℕ
option_count pi = elim pi.ask_data [ none ↦ 0 | some a ↦ length a.options ]

module _ {S : Type 0} (env : Env S) where
  -- The run waits for one answer at a time: a new interaction takes the place of the old one, with a
  -- new channel. `ctx_done` says that the tool's own context ended.
  unfoldable pub wait_interaction :
      Bool
      → String
      → PendingInteraction
      → Coordinator S
      → Coordinator S × Result ChatError (Unit {0})
  wait_interaction ctx_done key pi c = elim (lookup key c.runs) [
    | none ↦ (c, err context_canceled)
    | some run ↦ if run.canceled || ctx_done then (c, err context_canceled) else (
      publish env.json key (announce (interaction pi)) (record c {
        runs =
            insert key
              (record run { state = waiting_for_interaction; pending = some pi; response = pi.id })
              c.runs;
        response_channels = erase pi.id c.response_channels;
      }),
      ok tt,
    )
  ]

  -- Whether the answer to a question is one of its options, or -1 for a free answer.
  abbrev pub bad_selection : InteractionKind → PendingInteraction → ℤ → Bool
  bad_selection permission pi selected = false
  bad_selection ask pi selected =
      ltb_ℤ selected (negsuc 0) || not (ltb_ℤ selected (pos (option_count pi)))

  unfoldable pub answer :
      String → ActiveRun → PendingInteraction → InteractionResponse → Coordinator S → Coordinator S
  answer key run pi resp c =
      let told =
        publish env.json key (announce (resolved pi)) (record c {
          runs = insert key (record run { pending = none; state = running }) c.runs;
        }) in
      record told { response_channels = insert run.response resp told.response_channels }

  unfoldable pub reply_to :
      String
      → String
      → String
      → InteractionKind
      → InteractionResponse
      → ActiveRun
      → Coordinator S
      → Coordinator S × Result ChatError (Unit {0})
  unfolding answer
  reply_to key run_id interaction_id kind resp run c = elim run.pending [
    | none ↦ (c, err stale_interaction)
    | some pi ↦
        if not (str_eq run.id run_id)
          || not (str_eq pi.id interaction_id)
          || not (same_kind pi.kind kind)
          || run.canceled
        then (c, err stale_interaction)
        else if bad_selection kind pi resp.ask_selected
        then (c, err invalid_selection)
        else (answer key run pi resp c, ok tt)
  ]

  unfoldable pub reply :
      String
      → String
      → String
      → String
      → InteractionKind
      → InteractionResponse
      → Coordinator S
      → Coordinator S × Result ChatError (Unit {0})
  unfolding reply_to
  reply ws id run_id interaction_id kind resp c =
      let key = session_key env.platform ws id in
      elim (lookup key c.runs) [
        | none ↦ (c, err stale_interaction)
        | some run ↦ reply_to key run_id interaction_id kind resp run c
      ]

  unfoldable pub reply_permission :
      String
      → String
      → String
      → String
      → Bool
      → Coordinator S
      → Coordinator S × Result ChatError (Unit {0})
  unfolding reply
  reply_permission ws id run_id interaction_id approved =
      reply ws id run_id interaction_id permission (record {
        permission_approved = approved;
        ask_selected = pos 0;
        ask_answer = "";
        ask_label = "";
      })

  unfoldable pub reply_ask :
      String
      → String
      → String
      → String
      → ℤ
      → String
      → String
      → Coordinator S
      → Coordinator S × Result ChatError (Unit {0})
  unfolding reply
  reply_ask ws id run_id interaction_id selected answer_text label =
      reply ws id run_id interaction_id ask (record {
        permission_approved = false;
        ask_selected = selected;
        ask_answer = answer_text;
        ask_label = label;
      })

-- The `select` of `waitInteraction` on the channel of that interaction: `none` while it waits. Where
-- an answer is there and the context ended too, Go picks one: `prefer_ctx` says which.
unfoldable pub take_response :
    {S : Type 0}
    → Bool
    → Bool
    → String
    → Coordinator S
    → Coordinator S × Option (Result ChatError InteractionResponse)
take_response ctx_done prefer_ctx interaction_id c =
    elim (lookup interaction_id c.response_channels) [
      | none ↦ (c, (if ctx_done then some (err context_canceled) else none))
      | some resp ↦ if ctx_done && prefer_ctx then (c, some (err context_canceled)) else (
        record c { response_channels = erase interaction_id c.response_channels },
        some (ok resp),
      )
    ]
