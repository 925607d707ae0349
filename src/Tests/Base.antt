-- ===== src/Tests/Base.antt =====
-- A coordinator over stores in memory, on a platform whose paths are canonical.

use excelsior.Common.{
  ◌≡◌, refl, String, false, List, [], ◌∷◌, Option, none, some, lookup, insert, str_eq,
}
use excelsior.Llm.{Message}
use excelsior.Session.Id.{sanitize_id}
use excelsior.Session.Memory.{MemoryStore, new_memory_store, memory_store}
use excelsior.Chat.Event.{
  Update, Notice, nothing, Json, RoundTrips, PendingInteraction, permission, message_bytes,
}
use excelsior.Chat.Workspace.{Platform, canonical_workspace, session_key}
use excelsior.Chat.State.{Coordinator, Env, ActiveRun, new_coordinator}
use excelsior.Chat.Stores.{load_or_create}
use excelsior.Chat.Subscribers.{publish}
use excelsior.Chat.Runs.{reserve_turn, begin_running}
use excelsior.Chat.Steps.{Call, reserves, begins_running, waits, persists, settles, step, run_calls}
use excelsior.Chat.Machine.Invariant.{IsConsistent, always-IsConsistent}

abbrev pub platform : Platform
platform = record {
  abs = λ path. some path;
  eval_symlinks = λ path. some path;
  clean = λ path. path;
  to_lower = λ path. path;
  windows = false;
}

-- The encoder writes the text of an update that carries no notice, and reads it back.
abbrev marshal_update : Update → Option String
marshal_update u = elim u.notice [ nothing ↦ some u.request_id | _ ↦ none ]

abbrev pub json : Json
json = record {
  marshal_messages = λ ms. some "messages";
  marshal_event = λ ev. some ev.text;
  marshal_snapshot = λ snap. none;
  marshal_update = marshal_update;
  unmarshal_snapshot = λ b. none;
  unmarshal_update = λ b. some (record { request_id = b; notice = nothing });
}

-- What a decoder of this form gives back.
updates_back :
    (request : String) (n : Notice) (b : String)
    → marshal_update (record { request_id = request; notice = n }) ≡ some b
    → json.unmarshal_update b ≡ some (record { request_id = request; notice = n })
updates_back request nothing b e = cc
updates_back request (Notice.snapshot x) b e = cc
updates_back request (Notice.event x) b e = cc
updates_back request (Notice.interaction x) b e = cc
updates_back request (Notice.resolved x) b e = cc
updates_back request (Notice.outcome x) b e = cc

pub json-RoundTrips : RoundTrips json
json-RoundTrips = record {
  snapshots = λ s b e. cc;
  updates = λ u b e. updates_back u.request_id u.notice b e;
}

abbrev pub hello : Message
hello = record {
  role = "user";
  content = "hello";
  reasoning_content = "";
  tool_calls = [];
  tool_call_id = "";
  name = "";
}

abbrev pub env : Env MemoryStore
env = record {
  platform = platform;
  json = json;
  store = memory_store;
  open_store = λ ws. new_memory_store;
}

abbrev pub empty : Coordinator MemoryStore
empty = new_coordinator none false new_memory_store

abbrev pub key : String
key = session_key platform "/w" "s1"

abbrev pub starting : List Call
starting = reserves 5 "" "r1" "/w" "s1" (hello ∷ []) ∷ begins_running key ∷ []

abbrev pub question : PendingInteraction
question = record {
  id = "q1";
  kind = permission;
  session_id = "s1";
  run_id = "r1";
  permission_data = none;
  ask_data = none;
}

abbrev pub asking : List Call
asking = reserves 5 "" "r1" "/w" "s1" (hello ∷ []) ∷ waits false key question ∷ []

abbrev pub finishing : List Call
finishing =
    reserves 5 "" "r1" "/w" "s1" (hello ∷ [])
    ∷ persists key
    ∷ settles key (some (hello ∷ [])) none
    ∷ []

abbrev pub after : List Call → Coordinator MemoryStore
after = run_calls env empty

pub after-IsConsistent : (calls : List Call) → IsConsistent env (after calls)
after-IsConsistent calls = always-IsConsistent env none false new_memory_store calls

pub running_run : (run : ActiveRun) × (lookup key (after starting).runs ≡ some run)
unfolding run_calls lookup step reserve_turn new_coordinator load_or_create memory_store sanitize_id
    new_memory_store message_bytes publish insert session_key canonical_workspace begin_running
running_run = (_, refl)

pub running_run-named : str_eq running_run.0.id "" ≡ false
unfolding running_run
running_run-named = refl
