-- ===== src/Llm/Client/RoundTrip.antt =====
-- A history that goes to the provider comes back as it was, but for what a message of its role does
-- not carry.
use Prim.Native.String
use mathlib.Core.List.{append-nil as list_append-nil, append_assoc}
use text.Mathlib.TextLemmas.{nil-append, append-nil}
use excelsior.Common.{
  ◌≡◌, refl, sym, ap, ◌∙◌, subst, String, if◌then◌else◌, str_eq, eq_iff, List, [], ◌∷◌, ◌++◌, map,
  Option, none, some, arith, Bool-cases, inl, inr,
}
use excelsior.Llm.{ToolCall, Message}
use excelsior.Llm.Client.{
  Part, text_part, reasoning_part, ProviderMessage, Roles, call_part, if_text, parts_of, add_part,
  add_parts, empty_message, from_provider_messages, to_provider_role, join_message,
  to_provider_messages,
}

-- The names of the library's roles.
pub record IsNamed (roles : Roles) : Type 0 where
  pub system_named : roles.system ≡ "system"
  pub user_named : roles.user ≡ "user"
  pub assistant_named : roles.assistant ≡ "assistant"
  pub tool_named : roles.tool ≡ "tool"

abbrev as_function : ToolCall → ToolCall
as_function call = record call { type = "function" }

-- A tool message carries the result of its call, any other one its texts and calls.
abbrev pub carried : Message → Message
carried m =
    if str_eq m.role "tool"
    then record m { reasoning_content = ""; tool_calls = [] }
    else record m { tool_calls = map as_function m.tool_calls; tool_call_id = ""; name = "" }

add_parts-append :
    (m : Message) (xs ys : List Part) → add_parts m (xs ++ ys) ≡ add_parts (add_parts m xs) ys
unfolding add_parts
add_parts-append m [] ys = refl
add_parts-append m (x ∷ xs) ys = add_parts-append (add_part m x) xs ys

add_parts-calls :
    (m : Message) (calls : List ToolCall)
    → add_parts m (map call_part calls)
      ≡ record m { tool_calls = m.tool_calls ++ map as_function calls }
unfolding add_parts
add_parts-calls m [] = ap (λ cs. record m { tool_calls = cs }) (sym (list_append-nil m.tool_calls))
add_parts-calls m (call ∷ calls) =
    add_parts-calls (add_part m (call_part call)) calls
    ∙ ap (λ cs. record m { tool_calls = cs })
        (append_assoc m.tool_calls (as_function call ∷ []) (map as_function calls))

add_parts-text :
    (m : Message) (s : String)
    → add_parts m (if_text text_part s) ≡ record m { content = String.◌++◌ m.content s }
unfolding add_parts
add_parts-text m s = elim (Bool-cases (str_eq s "")) [
  | inl h ↦ rw h (
      subst (λ t. m ≡ record m { content = String.◌++◌ m.content t }) (sym ((eq_iff s "").0 h))
        (ap (λ t. record m { content = t }) (sym (append-nil m.content))))
  | inr h ↦ rw h refl
]

add_parts-reasoning :
    (m : Message) (s : String)
    → add_parts m (if_text reasoning_part s)
      ≡ record m { reasoning_content = String.◌++◌ m.reasoning_content s }
unfolding add_parts
add_parts-reasoning m s = elim (Bool-cases (str_eq s "")) [
  | inl h ↦ rw h (
      subst (λ t. m ≡ record m { reasoning_content = String.◌++◌ m.reasoning_content t })
        (sym ((eq_iff s "").0 h))
        (ap (λ t. record m { reasoning_content = t }) (sym (append-nil m.reasoning_content))))
  | inr h ↦ rw h refl
]

abbrev parts_after_text : Message → List Part
parts_after_text m = if_text reasoning_part m.reasoning_content ++ map call_part m.tool_calls

-- A message that is no tool message, part by part.
add_parts-spoken :
    (m : Message)
    → add_parts (empty_message m.role) (if_text text_part m.content ++ parts_after_text m)
      ≡ record m { tool_calls = map as_function m.tool_calls; tool_call_id = ""; name = "" }
add_parts-spoken m =
    let start = empty_message m.role in
    let texts = if_text text_part m.content in
    let thoughts = if_text reasoning_part m.reasoning_content in
    let calls = map call_part m.tool_calls in
    let said : Message = record start { content = String.◌++◌ "" m.content } in
    let thought : Message = record said {
      reasoning_content = String.◌++◌ "" m.reasoning_content;
    } in
    add_parts-append start texts (thoughts ++ calls)
    ∙ add_parts-append (add_parts start texts) thoughts calls
    ∙ ap (λ x. add_parts (add_parts x thoughts) calls) (add_parts-text start m.content)
    ∙ ap (λ x. add_parts x calls) (add_parts-reasoning said m.reasoning_content)
    ∙ add_parts-calls thought m.tool_calls
    ∙ rw (nil-append m.content, nil-append m.reasoning_content) refl

-- One message there and back.
add_parts-parts_of : (m : Message) → add_parts (empty_message m.role) (parts_of m) ≡ carried m
unfolding parts_of add_parts
add_parts-parts_of m = elim (Bool-cases (str_eq m.role "tool")) [
  | inl h ↦ rw h (
      ap (λ c. record m { content = c; reasoning_content = ""; tool_calls = [] })
        (nil-append m.content))
  | inr h ↦ rw h (add_parts-spoken m)
]

abbrev list_in : Option (List ProviderMessage) → List ProviderMessage
list_in none = []
list_in (some xs) = xs

role_back :
    (roles : Roles) (m : Message) (role : String)
    → IsNamed roles
    → to_provider_role roles m.role ≡ some role
    → role ≡ m.role
unfolding to_provider_role
role_back roles m role n e = ground (
  arith,
  eq_iff m.role "system",
  eq_iff m.role "user",
  eq_iff m.role "assistant",
  eq_iff m.role "tool",
  n.system_named,
  n.user_named,
  n.assistant_named,
  n.tool_named,
  e,
)

join_message-some :
    (roles : Roles) (m : Message) (r : Option String) (rest : Option (List ProviderMessage))
    (out : List ProviderMessage)
    → join_message roles m r rest ≡ some out
    → (role : String) × (ms : List ProviderMessage) × (r ≡ some role)
      × (rest ≡ some ms)
      × ((record { role = role; content = parts_of m }) ∷ ms ≡ out)
join_message-some roles m (some role) (some ms) out e = (role, ms, refl, refl, cc)
join_message-some roles m (some role) none out e = absurd cc
join_message-some roles m none rest out e = absurd cc

-- Where toProviderMessages accepts a history, fromProviderMessages gives the same messages back, in
-- order: a tool message with the result of its call, any other with its texts and its calls.
-- The library's roles have the names that the client uses.
pub from-to_provider_messages :
    (roles : Roles) (ms : List Message) (out : List ProviderMessage)
    → IsNamed roles
    → to_provider_messages roles ms ≡ some out
    → from_provider_messages out ≡ map carried ms
unfolding to_provider_messages from_provider_messages
from-to_provider_messages roles [] out n e =
    subst (λ o. from_provider_messages o ≡ []) (ap list_in e) refl
from-to_provider_messages roles (m ∷ ms) out n e =
    let (role, rest, h, g, same) =
      join_message-some roles m (to_provider_role roles m.role) (to_provider_messages roles ms) out
        e in
    subst (λ o. from_provider_messages o ≡ map carried (m ∷ ms)) same
      (rw (role_back roles m role n h, add_parts-parts_of m)
        (ap (λ xs. carried m ∷ xs) (from-to_provider_messages roles ms rest n g)))
