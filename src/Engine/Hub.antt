-- ===== src/Engine/Hub.antt =====
-- pkg/engine/hub.go and the rest of auth.go: which connections the hub serves, and how it stops. A
-- pointer to a connection is a name in a table of all connections; the set `clients` is a flag of
-- each, as is the slice of connections that `Shutdown` is going to close. HTTP and the WebSocket are
-- parameters: an upgrade succeeds where the origin is accepted.
pub mod Stopping
pub mod Owner
use Prim.Native.String
use excelsior.Common.{
  String, Bool, true, false, not, ◌&&◌, ◌||◌, if◌then◌else◌, str_eq, List, [], ◌∷◌, Option, none,
  some, Map, lookup, insert,
}
use excelsior.Chat.State.{Coordinator, Env}
use excelsior.Chat.Steps.{Call, step}
use excelsior.Protocol.Frames.{protocol_ver}
use excelsior.Engine.Conn.{Conn, Link, new_conn, close}

pub record Client : Type 0 where
  pub conn : Conn
  pub registered : Bool
  pub doomed : Bool

pub record Hub (S : Type 0) : Type 0 where
  pub token : String
  pub allowed_origins : List String
  pub clients : Map Client
  pub stopped : Bool
  pub coordinator : Coordinator S

-- A request for a connection: its Origin header, the first message, where it can be read, and
-- whether the answer to it can be written. `token` is `none` where the payload is not decoded.
pub record Hello : Type 0 where
  pub type : String
  pub ver : String
  pub token : Option String

pub record Request : Type 0 where
  pub origin : String
  pub hello : Option Hello
  pub is_written : Bool

abbrev pub type_auth : String
type_auth = "auth"

unfoldable pub is_allowed : String → List String → Bool
is_allowed origin [] = false
is_allowed origin (allowed ∷ rest) = str_eq origin allowed || is_allowed origin rest

unfoldable pub check_origin : List String → String → Bool
unfolding is_allowed
check_origin allowed origin = str_eq origin "" || is_allowed origin allowed

abbrev pub same_token : String → Option String → Bool
same_token token none = false
same_token token (some given) = not (str_eq token "") && str_eq given token

abbrev pub is_owner : String → Option Hello → Bool
is_owner token none = false
is_owner token (some hello) =
    str_eq hello.type type_auth && str_eq hello.ver protocol_ver && same_token token hello.token

unfoldable pub authenticate : String → Request → Bool
authenticate token r = is_owner token r.hello && r.is_written

abbrev pub fresh_client : Bool → Client
fresh_client registered = record { conn = new_conn; registered = registered; doomed = false }

abbrev pub mark : Client → Client
mark cl = if cl.registered then record cl { doomed = true } else cl

unfoldable pub mark_all : Map Client → Map Client
mark_all [] = []
mark_all ((name, cl) ∷ rest) = (name, mark cl) ∷ mark_all rest

module _ {S : Type 0} where
  unfoldable pub new_hub : String → List String → Coordinator S → Hub S
  new_hub token origins c = record {
    token = token;
    allowed_origins = origins;
    clients = [];
    stopped = false;
    coordinator = c;
  }

  -- `close` of a connection, which acts on the coordinator too; `done` says that `Shutdown` is done
  -- with it.
  abbrev pub put_closed : String → Bool → Client → Hub S → Link S → Hub S
  put_closed name done cl h l = record h {
    clients =
        insert name (record cl { conn = l.conn; doomed = if done then false else cl.doomed })
          h.clients;
    coordinator = l.coord;
  }

  unfoldable pub close_client : String → Bool → Hub S → Hub S
  unfolding close
  close_client name done h = elim (lookup name h.clients) [
    | none ↦ h
    | some cl ↦ put_closed name done cl h (close (record { conn = cl.conn; coord = h.coordinator }))
  ]

  -- `newConn` and `Register`: a connection that comes too late is closed.
  unfoldable pub register : String → Hub S → Hub S
  unfolding close new_conn
  register name h =
      if h.stopped
      then put_closed name false (fresh_client false) h
          (close (record { conn = new_conn; coord = h.coordinator }))
      else record h { clients = insert name (fresh_client true) h.clients }

  unfoldable pub unregister : String → Hub S → Hub S
  unregister name h = elim (lookup name h.clients) [
    | none ↦ h
    | some cl ↦ record h { clients = insert name (record cl { registered = false }) h.clients }
  ]

  -- `serveWS` up to the pumps.
  unfoldable pub serve_ws : String → Request → Hub S → Hub S
  unfolding check_origin authenticate register
  serve_ws name r h =
      if check_origin h.allowed_origins r.origin && authenticate h.token r
      then register name h
      else h

  -- The locked region of `Shutdown`.
  unfoldable pub stop : Hub S → Hub S
  unfolding mark_all
  stop h = record h { stopped = true; clients = mark_all h.clients }

-- What happens at a hub. `serveWS` ends with `unregisters` and `closes`, and a pump that fails closes
-- too; `Shutdown` is `stops`, the two regions of the coordinator's, and `dooms` for each connection
-- of the slice.
pub data HubCall : Type 0 where
  arrives : String → Request → HubCall
  unregisters closes dooms : String → HubCall
  stops : HubCall
  coordinates : Call → HubCall

module _ {S : Type 0} (env : Env S) where
  unfoldable pub hub_step : HubCall → Hub S → Hub S
  unfolding serve_ws unregister close_client stop step
  hub_step (arrives name r) h = serve_ws name r h
  hub_step (unregisters name) h = unregister name h
  hub_step (closes name) h = close_client name false h
  hub_step (dooms name) h = close_client name true h
  hub_step stops h = stop h
  hub_step (coordinates call) h = record h { coordinator = step env h.coordinator call }

  unfoldable pub run_hub : List HubCall → Hub S → Hub S
  unfolding hub_step
  run_hub [] h = h
  run_hub (call ∷ calls) h = run_hub calls (hub_step call h)
