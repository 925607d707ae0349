-- ===== src/Tests/Hub.antt =====
-- The theorems about the hub at concrete calls.

use excelsior.Common.{◌≡◌, refl, ap, ◌∙◌, String, true, false, List, [], ◌∷◌, some, lookup, insert}
use excelsior.Session.Memory.{MemoryStore}
use excelsior.Chat.Steps.{begins_shutdown, ends_shutdown}
use excelsior.Engine.Hub.{
  Client, Hub, Hello, Request, HubCall, arrives, unregisters, closes, dooms, stops, coordinates,
  new_hub, register, run_hub, hub_step, check_origin, is_allowed,
}
use excelsior.Engine.Hub.Stopping.{no_client_outlives}
use excelsior.Engine.Hub.Owner.{IsOwners, foreign_requests_refused}
use excelsior.Tests.Base.{env, empty}

abbrev request : String → String → Request
request origin token = record {
  origin = origin;
  hello = some (record { type = "auth"; ver = "v1"; token = some token });
  is_written = true;
}

-- Two clients, of which one leaves, and a third that comes after the shutdown.
abbrev calls : List HubCall
calls =
    arrives "a" (request "" "secret")
    ∷ arrives "b" (request "app://local" "secret")
    ∷ unregisters "b"
    ∷ closes "b"
    ∷ stops
    ∷ coordinates begins_shutdown
    ∷ arrives "c" (request "" "secret")
    ∷ coordinates (ends_shutdown false [])
    ∷ dooms "a"
    ∷ []

abbrev served : Hub MemoryStore
served = run_hub env calls (new_hub "secret" ("app://local" ∷ []) empty)

no_client_outlives_example :
    ((name : String) (cl : Client)
      → lookup name served.clients ≡ some cl
      → cl.registered ≡ true
      → cl.doomed ≡ false
      → cl.conn.closed ≡ true)
    × ((name : String) (r : Request) (cl : Client)
        → lookup name (register name served).clients ≡ some cl
        → (cl.registered ≡ false) × (cl.conn.closed ≡ true))
unfolding run_hub hub_step lookup new_hub insert
no_client_outlives_example = no_client_outlives env "secret" ("app://local" ∷ []) empty calls refl

-- A wrong token, a page of another origin, and a client that goes before it is there.
abbrev foreign_calls : List HubCall
foreign_calls =
    arrives "a" (request "" "guess")
    ∷ arrives "b" (request "https://elsewhere" "secret")
    ∷ unregisters "b"
    ∷ stops
    ∷ []

wrong_token : ¬ (IsOwners "secret" ("app://local" ∷ []) (request "" "guess"))
wrong_token o =
    let same : record { type = "auth"; ver = "v1"; token = some "guess" } ≡ o.hello = cc in
    let given : some "guess" ≡ some "secret" = ap (λ (x : Hello). x.token) same ∙ o.right in
    absurd cc

wrong_origin : ¬ (IsOwners "secret" ("app://local" ∷ []) (request "https://elsewhere" "secret"))
unfolding check_origin is_allowed
wrong_origin o = let e = o.accepted in absurd cc

foreign_requests_refused_example :
    (run_hub env foreign_calls (new_hub "secret" ("app://local" ∷ []) empty)).clients ≡ []
foreign_requests_refused_example =
    foreign_requests_refused "secret" ("app://local" ∷ []) env empty foreign_calls
      (wrong_token, (wrong_origin, (tt, (tt, tt))))
