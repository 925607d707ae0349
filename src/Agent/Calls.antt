-- ===== src/Agent/Calls.antt =====
-- Providers reject a conversation with a tool call that no tool message answers.
pub mod Pending
use mathlib.Core.List.{append-nil}
use excelsior.Common.{
  if◌then◌else◌, ◌≡◌, refl, sym, ap, ◌∙◌, subst, String, Bool, true, false, not, ◌&&◌, ◌||◌, List,
  [], ◌∷◌, ◌++◌, inl, inr, ◌⊎◌, str_eq, eq_iff, eq_refl, contains, contains-append,
  contains-remove_first, remove_first, Distinct, append-Distinct, remove_first-Distinct, All,
  Bool-cases, if_cases, arith,
}
use excelsior.Llm.{Message, ToolCall}
use excelsior.Agent.{
  add_calls, is_tool, after_message, placeholder, placeholders, sanitize_from, sanitize_tool_calls,
}
use excelsior.Agent.Calls.Pending.{
  AllAnswered, IsPadded, done, kept, added, answers, Open, IsPending, placeholders-Open,
  placeholders-AllAnswered, placeholders-IsPadded, none-IsPending, after_tool-IsPending,
  after_other-IsPending, Open-tool, Open-tool_back, asked_after, asked_before, tool_role,
}

abbrev IsSanitized : List String → List Message → List Message → Type 0
IsSanitized p ms out = Open p out × AllAnswered out × IsPadded ms out

sanitize_from-IsSanitized :
    (p : List String) (ms : List Message) → IsPending p → IsSanitized p ms (sanitize_from p ms)
unfolding sanitize_from
sanitize_from-IsSanitized p [] v =
    subst (IsSanitized p []) (append-nil (placeholders p))
      (placeholders-Open p [], placeholders-AllAnswered p [] tt, placeholders-IsPadded p [] [] done)
sanitize_from-IsSanitized p (m ∷ ms) v =
    if_cases (IsSanitized p (m ∷ ms)) (is_tool m) _ _
      (λ h.
        let (open_, all, padded) =
          sanitize_from-IsSanitized (after_message p m) ms (after_tool-IsPending p m h v) in
        let out = sanitize_from (after_message p m) ms in
        (
          Open-tool p m out v.0 h open_,
          (λ e. let no = tool_role m h in absurd cc, all),
          kept m ms out padded,
        ))
      (λ h.
        let (open_, all, padded) =
          sanitize_from-IsSanitized (after_message [] m) ms (after_other-IsPending m h) in
        let out = sanitize_from (after_message [] m) ms in
        (
          placeholders-Open p (m ∷ out),
          placeholders-AllAnswered p (m ∷ out) (asked_after m out h open_, all),
          placeholders-IsPadded p (m ∷ ms) (m ∷ out) (kept m ms out padded),
        ))

-- After `sanitizeToolCalls` every tool call of an assistant's message that has an identifier is
-- answered by a tool message with that identifier, in front of the next message of another role and
-- before the end. The conversation is as it was, but for messages of cancelled calls put in.
pub answered-sanitize_tool_calls :
    (ms : List Message)
    → AllAnswered (sanitize_tool_calls ms) × IsPadded ms (sanitize_tool_calls ms)
unfolding sanitize_tool_calls
answered-sanitize_tool_calls ms =
    let (open_, all, padded) = sanitize_from-IsSanitized [] ms none-IsPending in (all, padded)

-- No open call is answered behind a message that is no tool's.
nothing-Open :
    (p : List String) (m : Message) (ms : List Message)
    → is_tool m ≡ false
    → Open p (m ∷ ms)
    → p ≡ []
unfolding answers
nothing-Open [] m ms h v = refl
nothing-Open (id ∷ ids) m ms h v =
    let e : answers id (m ∷ ms) ≡ true = v id (rw (eq_refl id) refl) in
    absurd (ground (arith, h, e))

sanitize_from-answered :
    (p : List String) (ms : List Message)
    → IsPending p
    → Open p ms
    → AllAnswered ms
    → sanitize_from p ms ≡ ms
unfolding sanitize_from answers
sanitize_from-answered [] [] v open_ all = refl
sanitize_from-answered (id ∷ ids) [] v open_ all =
    let e : false ≡ true = open_ id (rw (eq_refl id) refl) in absurd cc
sanitize_from-answered p (m ∷ ms) v open_ all =
    if_cases (λ out. out ≡ m ∷ ms) (is_tool m) _ _
      (λ h.
        ap (λ r. m ∷ r)
          (sanitize_from-answered (after_message p m) ms (after_tool-IsPending p m h v)
            (Open-tool_back p m ms v h open_) all.1))
      (λ h.
        ap (λ ids. placeholders ids ++ m ∷ sanitize_from (after_message [] m) ms)
          (nothing-Open p m ms h open_)
        ∙ ap (λ r. m ∷ r)
            (sanitize_from-answered (after_message [] m) ms (after_other-IsPending m h)
              (asked_before m ms h all.0) all.1))

-- Where every tool call with an identifier is answered already, `sanitizeToolCalls` changes nothing.
pub sanitize_tool_calls-answered :
    (ms : List Message) → AllAnswered ms → sanitize_tool_calls ms ≡ ms
unfolding sanitize_tool_calls
sanitize_tool_calls-answered ms all =
    sanitize_from-answered [] ms none-IsPending (λ id here. absurd cc) all
