-- ===== src/Engine/Hub/Owner.antt =====
-- Only the owner's requests open connections.

use excelsior.Common.{
  ◌≡◌, refl, ap, subst, String, Bool, true, false, ◌&&◌, str_eq, eq_iff, List, [], ◌∷◌, Option,
  none, some, Map, lookup, All, if_cases, option_cases, arith,
}
use excelsior.Chat.State.{Coordinator, Env}
use excelsior.Engine.Hub.{
  Client, Hub, Hello, Request, HubCall, arrives, unregisters, closes, dooms, stops, coordinates,
  mark_all, new_hub, close_client, unregister, check_origin, authenticate, serve_ws, stop, hub_step,
  run_hub, same_token, is_owner,
}

-- The request has the hub's token, which is not empty, and its origin is none or an allowed one.
pub record IsOwners (token : String) (origins : List String) (r : Request) : Type 0 where
  pub hello : Hello
  pub sent : r.hello ≡ some hello
  pub right : hello.token ≡ some token
  pub set : str_eq token "" ≡ false
  pub accepted : check_origin origins r.origin ≡ true

abbrev pub IsForeign : String → List String → HubCall → Type 0
IsForeign token origins (arrives name r) = ¬ (IsOwners token origins r)
IsForeign token origins call = Unit {0}

same_token-right :
    (token : String) (given : Option String)
    → same_token token given ≡ true
    → (given ≡ some token) × (str_eq token "" ≡ false)
same_token-right token none h = absurd cc
same_token-right token (some text) h =
    (ap some ((eq_iff text token).0 (ground arith)), ground arith)

is_owner-hello :
    (token : String) (sent : Option Hello)
    → is_owner token sent ≡ true
    → (hello : Hello) × (sent ≡ some hello) × (hello.token ≡ some token) × (str_eq token "" ≡ false)
is_owner-hello token none h = absurd cc
is_owner-hello token (some hello) h =
    let (right, set) = same_token-right token hello.token (ground arith) in
    (hello, refl, right, set)

authenticate-IsOwners :
    (token : String) (origins : List String) (r : Request)
    → check_origin origins r.origin ≡ true
    → authenticate token r ≡ true
    → IsOwners token origins r
unfolding authenticate
authenticate-IsOwners token origins r a h =
    let (hello, sent, right, set) = is_owner-hello token r.hello (ground arith) in
    record { hello = hello; sent = sent; right = right; set = set; accepted = a }

not_found : (name : String) (m : Map Client) → m ≡ [] → (cl : Client) → ¬ (lookup name m ≡ some cl)
unfolding lookup
not_found name m e cl found =
    let empty : lookup name [] ≡ some cl = subst (λ x. lookup name x ≡ some cl) e found in absurd cc

module _ {S : Type 0} (token : String) (origins : List String) where
  -- The hub has this token and these origins, and no connection.
  abbrev IsEmpty : Hub S → Type 0
  IsEmpty h = (h.token ≡ token) × (h.allowed_origins ≡ origins) × (h.clients ≡ [])

  serve_ws-IsEmpty :
      (name : String) (r : Request) (h : Hub S)
      → ¬ (IsOwners token origins r)
      → IsEmpty h
      → IsEmpty (serve_ws name r h)
  unfolding serve_ws
  serve_ws-IsEmpty name r h foreign (t, o, e) =
      if_cases IsEmpty (check_origin h.allowed_origins r.origin && authenticate h.token r) _ _
        (λ g. absurd (
          foreign (
            authenticate-IsOwners token origins r
              (subst (λ os. check_origin os r.origin ≡ true) o (ground arith))
              (subst (λ x. authenticate x r ≡ true) t (ground arith)))))
        (λ _. (t, o, e))

  unregister-IsEmpty : (name : String) (h : Hub S) → IsEmpty h → IsEmpty (unregister name h)
  unfolding unregister
  unregister-IsEmpty name h v =
      option_cases IsEmpty (lookup name h.clients) _ _ (λ _. v)
        (λ cl e. absurd (not_found name h.clients v.2 cl e))

  close_client-IsEmpty :
      (name : String) (done : Bool) (h : Hub S) → IsEmpty h → IsEmpty (close_client name done h)
  unfolding close_client
  close_client-IsEmpty name done h v =
      option_cases IsEmpty (lookup name h.clients) _ _ (λ _. v)
        (λ cl e. absurd (not_found name h.clients v.2 cl e))

  module _ (env : Env S) where
    hub_step-IsEmpty :
        (call : HubCall) (h : Hub S)
        → IsForeign token origins call
        → IsEmpty h
        → IsEmpty (hub_step env call h)
    unfolding hub_step stop mark_all
    hub_step-IsEmpty (arrives name r) h foreign v = serve_ws-IsEmpty name r h foreign v
    hub_step-IsEmpty (unregisters name) h foreign v = unregister-IsEmpty name h v
    hub_step-IsEmpty (closes name) h foreign v = close_client-IsEmpty name false h v
    hub_step-IsEmpty (dooms name) h foreign v = close_client-IsEmpty name true h v
    hub_step-IsEmpty stops h foreign v = (v.0, v.1, rw v.2 refl)
    hub_step-IsEmpty (coordinates call) h foreign v = v

    run_hub-IsEmpty :
        (calls : List HubCall) (h : Hub S)
        → All (IsForeign token origins) calls
        → IsEmpty h
        → IsEmpty (run_hub env calls h)
    unfolding run_hub
    run_hub-IsEmpty [] h foreign v = v
    run_hub-IsEmpty (call ∷ calls) h foreign v =
        run_hub-IsEmpty calls (hub_step env call h) foreign.1 (hub_step-IsEmpty call h foreign.0 v)

    -- Where no request has the hub's token, from an allowed origin or from none, the hub never has a
    -- connection, whatever else happens at it. With an empty token no request has it.
    pub foreign_requests_refused :
        (c : Coordinator S) (calls : List HubCall)
        → All (IsForeign token origins) calls
        → (run_hub env calls (new_hub token origins c)).clients ≡ []
    unfolding new_hub
    foreign_requests_refused c calls foreign =
        let v = run_hub-IsEmpty calls (new_hub token origins c) foreign (refl, refl, refl) in v.2
