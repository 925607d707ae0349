-- ===== src/Chat/State.antt =====
-- The state of `Coordinator` in internal/chat/coordinator.go. Its mutex makes each locked region one
-- step, so an operation is a function from state to state and result. A pointer to a run is the
-- run's place in the registry: the code holds one from `ReserveTurn` to the end of `finish`, and
-- the registry has the run for just that time.
use excelsior.Common.{ℕ, String, Bool, true, false, List, [], Option, some, Map, ℤ}
use excelsior.Llm.{Message}
use excelsior.Session.Types.{Record, SessionError, Store}
use excelsior.Chat.Event.{Event, PendingInteraction, Json}
use excelsior.Chat.Workspace.{Platform}
use excelsior.Chat.Subscription.{Subscription}
use excelsior.Chat.Retention.{Retained}

-- The sentinel errors of the package, the plain errors of `ReserveTurn` and `reply`, what a
-- canceled context says, and the errors of the session store.
pub data ChatError : Type 0 where
  session_busy engine_stopped run_not_found stale_interaction projection_limit : ChatError
  no_messages invalid_selection slow_subscriber context_canceled shutdown_incomplete : ChatError
  store_failed : SessionError → ChatError

pub data RunState : Type 0 where
  preparing running waiting_for_interaction persisting : RunState

pub record InteractionResponse : Type 0 where
  pub permission_approved : Bool
  pub ask_selected : ℤ
  pub ask_answer : String
  pub ask_label : String

-- `canceled` is `ctx.Err() != nil`. `projection_failed` is `projectionErr != nil`: the only error
-- stored there is ErrProjectionLimit. `response` names the channel of the latest interaction, by
-- that interaction's identifier; what the channels hold stands in the coordinator.
pub record ActiveRun : Type 0 where
  pub id : String
  pub workspace : String
  pub session_id : String
  pub state : RunState
  pub canceled : Bool
  pub messages : List Message
  pub session_record : Record
  pub events : List Event
  pub pending : Option PendingInteraction
  pub response : String
  pub projection_bytes : ℕ
  pub projection_failed : Bool

-- A subscription object with its place in `subs`: the key that it was made for, and whether the set
-- at that key still holds it. `Subscribe` puts an object in one set only, so the map of sets is
-- the list of objects; an object keeps its position, which is its pointer.
pub record Subscriber : Type 0 where
  pub key : String
  pub registered : Bool
  pub sub : Subscription

-- `stores` has the stores that were opened, per canonical workspace; `session_store` is the injected
-- one. `response_channels` has what the buffered channels hold, by the interaction they belong to.
pub record Coordinator (S : Type 0) : Type 0 where
  pub session_store : Option S
  pub stores : Map S
  pub runs : Map ActiveRun
  pub subscribers : List Subscriber
  pub retained : Retained
  pub open retained use *
  pub response_channels : Map InteractionResponse
  pub list_workers : ℕ
  pub stopped : Bool
  pub ephemeral : Bool

-- What the coordinator is configured with, and the packages that it calls. `open_store` is the store
-- factory, or `NewDirStore` where none is set; it gives each workspace a store of its own.
pub record Env (S : Type 0) : Type 0 where
  pub platform : Platform
  pub json : Json
  pub store : Store S
  pub open_store : String → S

-- `NewCoordinator`. `memory` is what `session.NewMemoryStore` returns.
unfoldable pub new_coordinator : {S : Type 0} → Option S → Bool → S → Coordinator S
new_coordinator session_store ephemeral memory = record {
  session_store = elim ephemeral [ true ↦ some memory | false ↦ session_store ];
  stores = [];
  runs = [];
  subscribers = [];
  retained = record { terminal = []; retained_order = []; retained_bytes = 0 };
  response_channels = [];
  list_workers = 0;
  stopped = false;
  ephemeral = ephemeral;
}
