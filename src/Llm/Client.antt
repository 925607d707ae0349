-- ===== src/Llm/Client.antt =====
-- pkg/llm/client.go: what the client hands to the goai library and makes of its answers. The library
-- is not code of the repository: its message parts and stream chunks are the cases that the client
-- tells apart, its role names and its stream are parameters.
pub mod RoundTrip
use Prim.Native.String
use excelsior.Common.{
  ℕ, String, Bool, true, false, ◌&&◌, ltb, if◌then◌else◌, str_eq, List, [], ◌∷◌, ◌++◌, map, Option,
  none, some, Result, ok, err,
}
use excelsior.Llm.{FuncCall, ToolCall, Message}
use excelsior.Llm.Errors.{GoaiError, ClientError, callback_failed, unsupported, new_goai_error}

-- `provider.Part` by its type.
pub data Part : Type 0 where
  text_part reasoning_part : String → Part
  tool_call_part tool_result_part : (id name payload : String) → Part
  other_part : Part

pub record ProviderMessage : Type 0 where
  pub role : String
  pub content : List Part

-- The constants `provider.RoleSystem` to `provider.RoleTool`.
pub record Roles : Type 0 where
  pub system : String
  pub user : String
  pub assistant : String
  pub tool : String

abbrev pub call_part : ToolCall → Part
call_part call = tool_call_part call.id call.function.name call.function.arguments

abbrev pub if_text : (String → Part) → String → List Part
if_text part s = if str_eq s "" then [] else part s ∷ []

-- The parts of one message: a tool message has its result alone.
unfoldable pub parts_of : Message → List Part
parts_of m =
    if str_eq m.role "tool"
    then tool_result_part m.tool_call_id m.name m.content ∷ []
    else if_text text_part m.content
      ++ (if_text reasoning_part m.reasoning_content ++ map call_part m.tool_calls)

abbrev pub function_call : String → String → String → ToolCall
function_call id name arguments = record {
  id = id;
  type = "function";
  function = record { name = name; arguments = arguments };
}

-- A round of the inner loop of `fromProviderMessages`.
abbrev pub add_part : Message → Part → Message
add_part m (text_part s) = record m { content = String.◌++◌ m.content s }
add_part m (reasoning_part s) = record m { reasoning_content = String.◌++◌ m.reasoning_content s }
add_part m (tool_call_part id name input) = record m {
  tool_calls = m.tool_calls ++ function_call id name input ∷ [];
}
add_part m (tool_result_part id name output) = record m {
  tool_call_id = id;
  name = name;
  content = String.◌++◌ m.content output;
}
add_part m other_part = m

unfoldable pub add_parts : Message → List Part → Message
add_parts m [] = m
add_parts m (part ∷ parts) = add_parts (add_part m part) parts

abbrev pub empty_message : String → Message
empty_message role = record {
  role = role;
  content = "";
  reasoning_content = "";
  tool_calls = [];
  tool_call_id = "";
  name = "";
}

unfoldable pub from_provider_messages : List ProviderMessage → List Message
unfolding add_parts
from_provider_messages [] = []
from_provider_messages (m ∷ ms) =
    add_parts (empty_message m.role) m.content ∷ from_provider_messages ms

module _ (roles : Roles) where
  unfoldable pub to_provider_role : String → Option String
  to_provider_role role =
      if str_eq role "system"
      then some roles.system
      else if str_eq role "user"
      then some roles.user
      else if str_eq role "assistant"
      then some roles.assistant
      else if str_eq role "tool"
      then some roles.tool
      else none

  abbrev pub join_message :
      Message → Option String → Option (List ProviderMessage) → Option (List ProviderMessage)
  join_message m (some role) (some rest) =
      some ((record { role = role; content = parts_of m }) ∷ rest)
  join_message m (some role) none = none
  join_message m none rest = none

  -- `none` is the error for a role that is not supported.
  unfoldable pub to_provider_messages : List Message → Option (List ProviderMessage)
  unfolding to_provider_role parts_of
  to_provider_messages [] = some []
  to_provider_messages (m ∷ ms) = join_message m (to_provider_role m.role) (to_provider_messages ms)

-- `provider.StreamChunk` by its type; `chunk_error none` has no error in it.
pub data Chunk : Type 0 where
  chunk_text chunk_reasoning : String → Chunk
  chunk_tool_call : (id name input : String) → Chunk
  chunk_error : Option GoaiError → Chunk
  chunk_other : Chunk

-- The fields of `Delta` that chunks fill.
pub record Fragment : Type 0 where
  pub content : String
  pub reasoning_content : String
  pub tool_calls : List ToolCall

abbrev pub empty_fragment : Fragment
empty_fragment = record { content = ""; reasoning_content = ""; tool_calls = [] }

abbrev if_filled : String → Fragment → Option Fragment
if_filled s fragment = if str_eq s "" then none else some fragment

-- `forwardChunk` up to the call of `onDelta`: nothing to forward, a fragment, or the chunk's error.
unfoldable pub forward_chunk : Chunk → Result GoaiError (Option Fragment)
forward_chunk (chunk_text s) = ok (if_filled s (record empty_fragment { content = s }))
forward_chunk (chunk_reasoning s) =
    ok (if_filled s (record empty_fragment { reasoning_content = s }))
forward_chunk (chunk_tool_call id name input) =
    ok (some (record empty_fragment { tool_calls = function_call id name input ∷ [] }))
forward_chunk (chunk_error (some e)) = err e
forward_chunk (chunk_error none) = ok none
forward_chunk chunk_other = ok none

-- What the library returns: an error at the start, or the chunks of the stream, its error, and its
-- result.
pub record StreamResult : Type 0 where
  pub text : String
  pub reasoning : String
  pub tool_calls : List ToolCall
  pub response_messages : List ProviderMessage

pub record Stream : Type 0 where
  pub chunks : List Chunk
  pub failure : Option GoaiError
  pub result : StreamResult

module _ {D : Type 0} (on_delta : Fragment → D → D × Bool) where
  abbrev told : D × Bool → (D → D × Option ClientError) → D × Option ClientError
  told (d, true) rest = rest d
  told (d, false) rest = (d, some callback_failed)

  abbrev forwarded :
      Result GoaiError (Option Fragment) → (D → D × Option ClientError) → D → D × Option ClientError
  forwarded (err e) rest d = (d, some (ClientError.passed e))
  forwarded (ok none) rest d = rest d
  forwarded (ok (some fragment)) rest d = told (on_delta fragment d) rest

  -- The loop over `stream.Stream()`, with the state of the callback.
  unfoldable pub forward_chunks : List Chunk → D → D × Option ClientError
  unfolding forward_chunk
  forward_chunks [] d = (d, none)
  forward_chunks (chunk ∷ chunks) d = forwarded (forward_chunk chunk) (forward_chunks chunks) d

  abbrev assistant_message : StreamResult → Message
  assistant_message r = record (empty_message "assistant") {
    content = r.text;
    reasoning_content = r.reasoning;
    tool_calls = r.tool_calls;
  }

  abbrev finished :
      String → Stream → D × Option ClientError → D × Result ClientError (Message × List Message)
  finished model stream (d, some e) = (d, err e)
  finished model stream (d, none) = elim stream.failure [
    | some e ↦ (d, err (new_goai_error model e))
    | none ↦ (
      d,
      ok (assistant_message stream.result, from_provider_messages stream.result.response_messages),
    )
  ]

  abbrev started :
      String → D → Result GoaiError Stream → D × Result ClientError (Message × List Message)
  started model d (err e) = (d, err (new_goai_error model e))
  started model d (ok stream) = finished model stream (forward_chunks stream.chunks d)

  -- `StreamChatWithTools` with tools that can be described. `stream_text` is the library on the
  -- messages and the number of steps.
  unfoldable pub stream_chat_with_tools :
      Roles
      → (List ProviderMessage → ℕ → Result GoaiError Stream)
      → String
      → List Message
      → ℕ
      → D
      → D × Result ClientError (Message × List Message)
  unfolding to_provider_messages forward_chunks new_goai_error from_provider_messages
  stream_chat_with_tools roles stream_text model messages max_steps d =
      elim (to_provider_messages roles messages) [
        | none ↦ (d, err unsupported)
        | some sent ↦ started model d (stream_text sent (if ltb max_steps 1 then 1 else max_steps))
      ]
