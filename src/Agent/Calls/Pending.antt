-- ===== src/Agent/Calls/Pending.antt =====
-- Which tool calls of a conversation are answered, and how the set of open calls that
-- `sanitizeToolCalls` keeps goes with it.
use excelsior.Common.{
  if◌then◌else◌, ◌≡◌, refl, sym, ap, ◌∙◌, subst, String, Bool, true, false, not, ◌&&◌, ◌||◌, List,
  [], ◌∷◌, ◌++◌, inl, inr, str_eq, eq_iff, eq_refl, contains, contains-append,
  contains-remove_first, remove_first, Distinct, append-Distinct, remove_first-Distinct, All,
  Bool-cases, if_cases, arith,
}
use excelsior.Llm.{Message, ToolCall}
use excelsior.Agent.{add_calls, is_tool, after_message, placeholder, placeholders}

-- The call is answered by one of the tool messages that come next.
unfoldable pub answers : String → List Message → Bool
answers id [] = false
answers id (m ∷ ms) =
    let later = answers id ms in str_eq m.role "tool" && (str_eq m.tool_call_id id || later)

-- A call without an identifier asks for no answer.
abbrev pub IsAnswered : List Message → ToolCall → Type 0
IsAnswered ms call = str_eq call.id "" ≡ false → answers call.id ms ≡ true

-- Each call of an assistant's message is answered in front of the next message that is no tool's.
abbrev pub AllAnswered : List Message → Type 0
AllAnswered [] = Unit {0}
AllAnswered (m ∷ ms) =
    (str_eq m.role "assistant" ≡ true → All (IsAnswered ms) m.tool_calls) × AllAnswered ms

-- The second conversation is the first with messages of cancelled calls put in.
pub data IsPadded : List Message → List Message → Type 0 where
  done : IsPadded [] []
  kept : (m : Message) (ms out : List Message) → IsPadded ms out → IsPadded (m ∷ ms) (m ∷ out)
  added :
      (id : String) (ms out : List Message) → IsPadded ms out → IsPadded ms (placeholder id ∷ out)

-- All open calls are answered.
abbrev pub Open : List String → List Message → Type 0
Open p ms = (id : String) → contains id p ≡ true → answers id ms ≡ true

pub placeholders-Open : (p : List String) (rest : List Message) → Open p (placeholders p ++ rest)
unfolding answers
placeholders-Open [] rest id h = absurd cc
placeholders-Open (x ∷ p) rest id h = elim (Bool-cases (str_eq x id)) [
  | inl e ↦ rw e refl
  | inr e ↦ rw e (placeholders-Open p rest id (rw e at h))
]

pub placeholders-AllAnswered :
    (p : List String) (rest : List Message)
    → AllAnswered rest
    → AllAnswered (placeholders p ++ rest)
placeholders-AllAnswered [] rest v = v
placeholders-AllAnswered (x ∷ p) rest v = (λ h. absurd cc, placeholders-AllAnswered p rest v)

pub placeholders-IsPadded :
    (p : List String) (ms out : List Message)
    → IsPadded ms out
    → IsPadded ms (placeholders p ++ out)
placeholders-IsPadded [] ms out v = v
placeholders-IsPadded (x ∷ p) ms out v =
    added x ms (placeholders p ++ out) (placeholders-IsPadded p ms out v)

-- The set of open calls after a message.
add_calls-before :
    (calls : List ToolCall) (p : List String) (id : String)
    → contains id p ≡ true
    → contains id (add_calls calls p) ≡ true
unfolding add_calls
add_calls-before [] p id h = h
add_calls-before (call ∷ calls) p id h =
    if_cases (λ (q : List String). contains id (add_calls calls q) ≡ true)
      (str_eq call.id "" || contains call.id p) p (p ++ call.id ∷ [])
      (λ _. add_calls-before calls p id h)
      (λ _.
        add_calls-before calls (p ++ call.id ∷ []) id
          (ground (arith, h, contains-append id p (call.id ∷ []))))

add_calls-asked :
    (calls : List ToolCall) (p : List String) (out : List Message)
    → Open (add_calls calls p) out
    → All (IsAnswered out) calls
unfolding add_calls
add_calls-asked [] p out v = tt
add_calls-asked (call ∷ calls) p out v =
    let next = if str_eq call.id "" || contains call.id p then p else p ++ call.id ∷ [] in
    (
      λ named. v call.id (add_calls-before calls next call.id (asked named)),
      add_calls-asked calls next out v,
    )
  where
    asked :
        str_eq call.id "" ≡ false
        → contains call.id
            (if str_eq call.id "" || contains call.id p then p else p ++ call.id ∷ [])
          ≡ true
    asked named = ground (arith, named, contains-append call.id p (call.id ∷ []), eq_refl call.id)

-- Open calls have an identifier, and stand in the set once.
abbrev pub IsPending : List String → Type 0
IsPending p = Distinct p × ((id : String) → contains id p ≡ true → str_eq id "" ≡ false)

pub none-IsPending : IsPending []
none-IsPending = (tt, λ id h. absurd cc)

append-IsPending :
    (p : List String) (id : String)
    → IsPending p
    → (str_eq id "" || contains id p) ≡ false
    → IsPending (p ++ id ∷ [])
append-IsPending p id v h = (
  append-Distinct id p v.0 (ground arith),
  λ j here.
      ground (arith, v.1 j, contains-append j p (id ∷ []), eq_iff id j, eq_iff id "", eq_iff j ""),
)

add_calls-IsPending :
    (calls : List ToolCall) (p : List String) → IsPending p → IsPending (add_calls calls p)
unfolding add_calls
add_calls-IsPending [] p v = v
add_calls-IsPending (call ∷ calls) p v =
    if_cases (λ (q : List String). IsPending (add_calls calls q))
      (str_eq call.id "" || contains call.id p) p (p ++ call.id ∷ [])
      (λ _. add_calls-IsPending calls p v)
      (λ h. add_calls-IsPending calls (p ++ call.id ∷ []) (append-IsPending p call.id v h))

add_calls-Open :
    (calls : List ToolCall) (p : List String) (ms : List Message)
    → Open p ms
    → All (IsAnswered ms) calls
    → Open (add_calls calls p) ms
unfolding add_calls
add_calls-Open [] p ms v w = v
add_calls-Open (call ∷ calls) p ms v w =
    if_cases (λ (q : List String). Open (add_calls calls q) ms)
      (str_eq call.id "" || contains call.id p) p (p ++ call.id ∷ [])
      (λ _. add_calls-Open calls p ms v w.1)
      (λ h. add_calls-Open calls (p ++ call.id ∷ []) ms (more h) w.1)
  where
    more : (str_eq call.id "" || contains call.id p) ≡ false → Open (p ++ call.id ∷ []) ms
    more h id here = elim (Bool-cases (contains id p)) [
      | inl old ↦ v id old
      | inr new ↦
          let same : str_eq call.id id ≡ true =
            ground (arith, here, new, contains-append id p (call.id ∷ [])) in
          subst (λ j. answers j ms ≡ true) ((eq_iff call.id id).0 same) (w.0 (ground arith))
    ]

pub tool_role : (m : Message) → is_tool m ≡ true → str_eq m.role "assistant" ≡ false
tool_role m h = rw ((eq_iff m.role "tool").0 h) refl

-- What a message makes of the set, for a tool's and for another.
after_tool :
    (p : List String) (m : Message)
    → is_tool m ≡ true
    → after_message p m ≡ (if str_eq m.tool_call_id "" then p else remove_first m.tool_call_id p)
unfolding after_message
after_tool p m h = rw (tool_role m h, h) (swap (str_eq m.tool_call_id "") _ _)
  where
    swap : (b : Bool) (x y : List String) → (if not b then x else y) ≡ (if b then y else x)
    swap true x y = refl
    swap false x y = refl

after_other :
    (m : Message)
    → is_tool m ≡ false
    → after_message [] m ≡ (if str_eq m.role "assistant" then add_calls m.tool_calls [] else [])
unfolding after_message
after_other m h = rw h refl

after_tool-contains :
    (p : List String) (m : Message) (id : String)
    → Distinct p
    → is_tool m ≡ true
    → contains id (after_message p m) ≡ (
        if str_eq m.tool_call_id ""
        then contains id p
        else if str_eq m.tool_call_id id
        then false
        else contains id p)
after_tool-contains p m id d h =
    ap (contains id) (after_tool p m h)
    ∙ ground (arith, contains-remove_first m.tool_call_id id p d)

pub after_tool-IsPending :
    (p : List String) (m : Message) → is_tool m ≡ true → IsPending p → IsPending (after_message p m)
after_tool-IsPending p m h v = subst IsPending (sym (after_tool p m h)) (
    if_cases IsPending (str_eq m.tool_call_id "") p (remove_first m.tool_call_id p) (λ _. v)
      (λ _. (
        remove_first-Distinct m.tool_call_id p v.0,
        λ id here. v.1 id (ground (arith, here, contains-remove_first m.tool_call_id id p v.0)),
      )))

pub after_other-IsPending : (m : Message) → is_tool m ≡ false → IsPending (after_message [] m)
after_other-IsPending m h = subst IsPending (sym (after_other m h)) (
    if_cases IsPending (str_eq m.role "assistant") _ _
      (λ _. add_calls-IsPending m.tool_calls [] none-IsPending) (λ _. none-IsPending))

-- A tool's message in front answers its call, and leaves the others to the rest.
pub Open-tool :
    (p : List String) (m : Message) (out : List Message)
    → Distinct p
    → is_tool m ≡ true
    → Open (after_message p m) out
    → Open p (m ∷ out)
unfolding answers
Open-tool p m out d h v id here = ground (arith, h, here, after_tool-contains p m id d h, v id)

pub Open-tool_back :
    (p : List String) (m : Message) (ms : List Message)
    → IsPending p
    → is_tool m ≡ true
    → Open p (m ∷ ms)
    → Open (after_message p m) ms
unfolding answers
Open-tool_back p m ms (d, named) h v id here = ground (
  arith,
  h,
  here,
  after_tool-contains p m id d h,
  v id,
  named id,
  eq_iff m.tool_call_id id,
  eq_iff m.tool_call_id "",
  eq_iff id "",
)

-- The calls of a message that is no tool's.
pub asked_after :
    (m : Message) (out : List Message)
    → is_tool m ≡ false
    → Open (after_message [] m) out
    → str_eq m.role "assistant" ≡ true
    → All (IsAnswered out) m.tool_calls
asked_after m out h v e =
    let asked : after_message [] m ≡ add_calls m.tool_calls [] = after_other m h ∙ rw e refl in
    add_calls-asked m.tool_calls [] out (subst (λ p. Open p out) asked v)

pub asked_before :
    (m : Message) (ms : List Message)
    → is_tool m ≡ false
    → (str_eq m.role "assistant" ≡ true → All (IsAnswered ms) m.tool_calls)
    → Open (after_message [] m) ms
asked_before m ms h v =
    subst (λ p. Open p ms) (sym (after_other m h))
      (if_cases (λ p. Open p ms) (str_eq m.role "assistant") _ _
        (λ e. add_calls-Open m.tool_calls [] ms (λ id here. absurd cc) (v e))
        (λ _ id here. absurd cc))
