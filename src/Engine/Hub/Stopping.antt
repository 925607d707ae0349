-- ===== src/Engine/Hub/Stopping.antt =====
-- No connection outlives `Shutdown`.
use excelsior.Common.{
  ◌≡◌, refl, ◌∙◌, sym, subst, ap, String, Bool, true, false, ◌&&◌, str_eq, List, [], ◌∷◌, Option,
  some, Map, lookup, insert, lookup-insert, lookup-insert_self, if_cases, option_cases, Bool-cases,
  inl, inr,
}
use excelsior.Chat.State.{Coordinator, Env}
use excelsior.Engine.Conn.{Link, new_conn, close}
use excelsior.Engine.Hub.{
  Client, Hub, Request, fresh_client, HubCall, arrives, unregisters, closes, dooms, stops,
  coordinates, mark, mark_all, new_hub, put_closed, close_client, register, unregister,
  check_origin, authenticate, serve_ws, stop, hub_step, run_hub,
}

-- A connection of a stopped hub's set is closed, or waits for `Shutdown` to close it.
abbrev pub IsServed : Bool → Client → Type 0
IsServed stopped cl =
    stopped ≡ true → cl.registered ≡ true → cl.doomed ≡ false → cl.conn.closed ≡ true

abbrev AllServed : Bool → Map Client → Type 0
AllServed stopped m = (name : String) (cl : Client) → lookup name m ≡ some cl → IsServed stopped cl

close-closed : {S : Type 0} (l : Link S) → (close l).conn.closed ≡ true
unfolding close
close-closed l =
    if_cases (λ (m : Link _). m.conn.closed ≡ true) l.conn.closed _ _ (λ h. h) (λ _. refl)

insert-AllServed :
    (b : Bool) (k : String) (cl : Client) (m : Map Client)
    → IsServed b cl
    → AllServed b m
    → AllServed b (insert k cl m)
insert-AllServed b k cl m v all name found e = elim (Bool-cases (str_eq k name)) [
  | inl h ↦
      let found_ : some cl ≡ some found = sym (lookup-insert k name cl m ∙ rw h refl) ∙ e in
      let same : cl ≡ found = cc in subst (IsServed b) same v
  | inr h ↦ all name found (sym (lookup-insert k name cl m ∙ rw h refl) ∙ e)
]

mark-IsServed : (b : Bool) (cl : Client) → IsServed b (mark cl)
mark-IsServed b cl =
    if_cases (IsServed b) cl.registered _ _ (λ h s r d. absurd cc) (λ h s r d. absurd cc)

mark_all-AllServed : (b : Bool) (m : Map Client) → AllServed b (mark_all m)
unfolding mark_all lookup
mark_all-AllServed b [] name cl e = absurd cc
mark_all-AllServed b ((k, x) ∷ rest) name cl e =
    if_cases (λ (o : Option Client). o ≡ some cl → IsServed b cl) (str_eq k name) (some (mark x))
      (lookup name (mark_all rest))
      (λ _ g. let same : mark x ≡ cl = cc in subst (IsServed b) same (mark-IsServed b x))
      (λ _ g. mark_all-AllServed b rest name cl g) e

module _ {S : Type 0} where
  abbrev IsSound : Hub S → Type 0
  IsSound h = AllServed h.stopped h.clients

  put_closed-IsSound :
      (name : String) (done : Bool) (cl : Client) (h : Hub S) (l : Link S)
      → l.conn.closed ≡ true
      → IsSound h
      → IsSound (put_closed name done cl h l)
  put_closed-IsSound name done cl h l closed v =
      insert-AllServed h.stopped name _ h.clients (λ _ _ _. closed) v

  close_client-IsSound :
      (name : String) (done : Bool) (h : Hub S) → IsSound h → IsSound (close_client name done h)
  unfolding close_client
  close_client-IsSound name done h v =
      option_cases IsSound (lookup name h.clients) _ _ (λ _. v)
        (λ cl _.
          let l : Link S = record { conn = cl.conn; coord = h.coordinator } in
          put_closed-IsSound name done cl h (close l) (close-closed l) v)

  abbrev unused : Hub S → Link S
  unused h = record { conn = new_conn; coord = h.coordinator }

  register-stopped :
      (name : String) (h : Hub S)
      → h.stopped ≡ true
      → register name h ≡ put_closed name false (fresh_client false) h (close (unused h))
  unfolding register
  register-stopped name h stopped = rw stopped refl

  register-late :
      (name : String) (h : Hub S) (cl : Client)
      → h.stopped ≡ true
      → lookup name (register name h).clients ≡ some cl
      → (cl.registered ≡ false) × (cl.conn.closed ≡ true)
  register-late name h cl stopped found =
      let shut : Client = record (fresh_client false) { conn = (close (unused h)).conn } in
      let there : some shut ≡ some cl =
        sym (lookup-insert_self name shut h.clients)
        ∙ sym (ap (λ (g : Hub S). lookup name g.clients) (register-stopped name h stopped))
        ∙ found in
      let same : shut ≡ cl = cc in
      subst (λ (x : Client). (x.registered ≡ false) × (x.conn.closed ≡ true)) same
        (refl, close-closed (unused h))

  register-IsSound : (name : String) (h : Hub S) → IsSound h → IsSound (register name h)
  unfolding register
  register-IsSound name h v =
      if_cases IsSound h.stopped _ _
        (λ _.
          put_closed-IsSound name false (fresh_client false) h (close (unused h))
            (close-closed (unused h)) v)
        (λ e. insert-AllServed h.stopped name _ h.clients (λ s. absurd cc) v)

  unregister-IsSound : (name : String) (h : Hub S) → IsSound h → IsSound (unregister name h)
  unfolding unregister
  unregister-IsSound name h v =
      option_cases IsSound (lookup name h.clients) _ _ (λ _. v)
        (λ cl _. insert-AllServed h.stopped name _ h.clients (λ s r. absurd cc) v)

  serve_ws-IsSound :
      (name : String) (r : Request) (h : Hub S) → IsSound h → IsSound (serve_ws name r h)
  unfolding serve_ws
  serve_ws-IsSound name r h v =
      if_cases IsSound (check_origin h.allowed_origins r.origin && authenticate h.token r) _ _
        (λ _. register-IsSound name h v) (λ _. v)

  module _ (env : Env S) where
    hub_step-IsSound : (call : HubCall) (h : Hub S) → IsSound h → IsSound (hub_step env call h)
    unfolding hub_step stop
    hub_step-IsSound (arrives name r) h v = serve_ws-IsSound name r h v
    hub_step-IsSound (unregisters name) h v = unregister-IsSound name h v
    hub_step-IsSound (closes name) h v = close_client-IsSound name false h v
    hub_step-IsSound (dooms name) h v = close_client-IsSound name true h v
    hub_step-IsSound stops h v = mark_all-AllServed true h.clients
    hub_step-IsSound (coordinates call) h v = v

    run_hub-IsSound : (calls : List HubCall) (h : Hub S) → IsSound h → IsSound (run_hub env calls h)
    unfolding run_hub
    run_hub-IsSound [] h v = v
    run_hub-IsSound (call ∷ calls) h v =
        run_hub-IsSound calls (hub_step env call h) (hub_step-IsSound call h v)

    -- In any order of what happens at a new hub, once Shutdown has begun, every connection that is
    -- still in the set of clients has been closed, or Shutdown has yet to close it. A connection
    -- that registers while Shutdown runs, or later, is closed at once and never joins the set.
    pub no_client_outlives :
        (token : String) (origins : List String) (c : Coordinator S) (calls : List HubCall)
        → let h = run_hub env calls (new_hub token origins c) in
          h.stopped ≡ true
          → ((name : String) (cl : Client)
              → lookup name h.clients ≡ some cl
              → cl.registered ≡ true
              → cl.doomed ≡ false
              → cl.conn.closed ≡ true)
            × ((name : String) (r : Request) (cl : Client)
                → lookup name (register name h).clients ≡ some cl
                → (cl.registered ≡ false) × (cl.conn.closed ≡ true))
    unfolding new_hub lookup
    no_client_outlives token origins c calls stopped =
        let h = run_hub env calls (new_hub token origins c) in
        (
          λ name cl found r d.
              run_hub-IsSound calls (new_hub token origins c) (λ _ _ e. absurd cc) name cl found
                stopped r d,
          λ name r cl found. register-late name h cl stopped found,
        )
