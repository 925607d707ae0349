-- ===== src/Chat/Runs/Fragments.antt =====
-- A run's events keep what was streamed, however the fragments are joined.
use Prim.Native.String
use text.Mathlib.TextLemmas.{nil-append, append-nil, append_assoc}
use excelsior.Common.{
  ◌≡◌, refl, sym, ap, ◌∙◌, String, Bool, true, ◌&&◌, List, [], ◌∷◌, inl, inr, str_eq, eq_iff,
  Bool-cases, if◌then◌else◌, if_cases, arith,
}
use excelsior.Chat.Event.{Event}
use excelsior.Chat.Runs.{coalesce, join_text, is_fragment}

-- The text that the events of one type add up to.
abbrev pub streamed : (Event → String) → String → List Event → String
streamed field type [] = ""
streamed field type (e ∷ es) =
    String.◌++◌ (if str_eq e.type type then field e else "") (streamed field type es)

abbrev part : (Event → String) → String → Event → String
part field type e = if str_eq e.type type then field e else ""

and_right : (a b : Bool) → (a && b) ≡ true → b ≡ true
and_right a b h = ground arith

module _ (field : Event → String)
    (joins : (a b : Event) → field (join_text a b) ≡ String.◌++◌ (field a) (field b))
    (type : String) where
  part-join_text :
      (last ev : Event)
      → last.type ≡ ev.type
      → part field type (join_text last ev)
        ≡ String.◌++◌ (part field type last) (part field type ev)
  part-join_text last ev e = elim (Bool-cases (str_eq ev.type type)) [
    | inl h ↦ rw (ap (λ t. str_eq t type) e ∙ h, h) (joins last ev)
    | inr h ↦ rw (ap (λ t. str_eq t type) e ∙ h, h) (sym (nil-append ""))
  ]

  streamed-coalesce :
      (es : List Event) (ev : Event)
      → streamed field type (coalesce es ev)
        ≡ String.◌++◌ (streamed field type es) (part field type ev)
  unfolding coalesce
  streamed-coalesce [] ev = append-nil _ ∙ sym (nil-append _)
  streamed-coalesce (last ∷ []) ev =
      if_cases
        (λ out.
          streamed field type out
          ≡ String.◌++◌ (String.◌++◌ (part field type last) "") (part field type ev))
        (is_fragment ev && str_eq last.type ev.type) _ _
        (λ same.
          append-nil _
          ∙ part-join_text last ev
              ((eq_iff last.type ev.type).0 (and_right (is_fragment ev) _ same))
          ∙ ap (λ x. String.◌++◌ x (part field type ev)) (sym (append-nil _)))
        (λ _.
          ap (String.◌++◌ (part field type last)) (append-nil (part field type ev))
          ∙ ap (λ x. String.◌++◌ x (part field type ev)) (sym (append-nil _)))
  streamed-coalesce (e ∷ f ∷ rest) ev =
      ap (String.◌++◌ (part field type e)) (streamed-coalesce (f ∷ rest) ev)
      ∙ sym (append_assoc (part field type e) _ _)

-- Joining a fragment with the last event, or appending it, adds its text to what the events of its
-- type add up to, its reasoning likewise, and changes neither sum of any other type.
pub coalesce-streamed :
    (type : String) (es : List Event) (ev : Event)
    → (streamed (λ e. e.text) type (coalesce es ev)
        ≡ String.◌++◌
            (streamed (λ e. e.text) type es)
            (if str_eq ev.type type then ev.text else ""))
      × (streamed (λ e. e.reasoning) type (coalesce es ev)
          ≡ String.◌++◌
              (streamed (λ e. e.reasoning) type es)
              (if str_eq ev.type type then ev.reasoning else ""))
coalesce-streamed type es ev = (
  streamed-coalesce (λ e. e.text) (λ a b. refl) type es ev,
  streamed-coalesce (λ e. e.reasoning) (λ a b. refl) type es ev,
)
