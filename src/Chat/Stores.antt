-- ===== src/Chat/Stores.antt =====
-- The coordinator's use of session stores: `storeLocked`, what `ReserveTurn` and `snapshotLocked` read
-- and write, `mutate` and `ListSessions`.
pub mod Frame
use mathlib.Core.Option
use excelsior.Common.{
  ℕ, suc, ◌-◌, String, Bool, true, false, List, [], ◌∷◌, ◌++◌, Option, none, some, Result, ok, err,
  lookup, insert, if◌then◌else◌, is_some, str_eq, ◌&&◌, ◌||◌,
}
use excelsior.Llm.{Message}
use excelsior.Session.Types.{Record, SessionMeta, SessionError, session_not_found, Store}
use excelsior.Sessions
use excelsior.Sessions.{title_of}
use excelsior.Chat.Workspace.{canonical_workspace, session_key}
use excelsior.Chat.Retention.{drop_terminal}
use excelsior.Chat.State.{Coordinator, Env, ChatError, session_busy, engine_stopped, store_failed}

-- `historyFrom` of service.go: without the placeholders that old sessions hold.
unfoldable pub history_from : List Message → List Message
history_from [] = []
history_from (m ∷ ms) =
    if str_eq m.role "system" && (str_eq m.content "New session" || str_eq m.content "(empty)")
    then history_from ms
    else m ∷ history_from ms

module _ {S : Type 0} (env : Env S) where
  -- Work on the store of `storeLocked`: the injected one, or the workspace's own, opened on first use.
  unfoldable pub with_store :
      {A : Type 0} → String → (S → S × A) → Coordinator S → Coordinator S × A
  with_store ws work c = elim c.session_store [
    | some s ↦ (record c { session_store = some (work s).0 }, (work s).1)
    | none ↦
        let key = canonical_workspace env.platform ws in
        let s = Option.get_or (lookup key c.stores) (env.open_store key) in
        (record c { stores = insert key (work s).0 c.stores }, (work s).1)
  ]

  -- `CheckLease` in front of any other work.
  abbrev pub when_leased :
      {A : Type 0} → (S → S × Result ChatError A) → S × Option SessionError → S × Result ChatError A
  when_leased work (s, some e) = (s, err (store_failed e))
  when_leased work (s, none) = work s

  abbrev pub leased : {A : Type 0} → (S → S × Result ChatError A) → S → S × Result ChatError A
  leased work s = when_leased work (env.store.lease_error s)

  abbrev pub saved : Record → S × Option SessionError → S × Result ChatError Record
  saved rec (s, none) = (s, ok rec)
  saved rec (s, some e) = (s, err (store_failed e))

  abbrev pub missing_created :
      ℕ → String → List Message → S × Result SessionError Record → S × Result ChatError Record
  missing_created now id incoming (s, ok rec) = (s, ok rec)
  missing_created now id incoming (s, err session_not_found) =
      let rec : Record = record {
        id = id;
        title = title_of incoming "";
        created_at = now;
        updated_at = 0;
        messages = [];
      } in
      saved rec (env.store.save s now rec)
  missing_created now id incoming (s, err e) = (s, err (store_failed e))

  -- `ReserveTurn` loads the session, or saves a new one.
  unfoldable pub load_or_create : ℕ → String → List Message → S → S × Result ChatError Record
  load_or_create now id incoming =
      leased (λ s. missing_created now id incoming (env.store.load s id))

  abbrev pub messages_of : S × Result SessionError Record → S × Result ChatError (List Message)
  messages_of (s, ok rec) = (s, ok rec.messages)
  messages_of (s, err session_not_found) = (s, ok [])
  messages_of (s, err e) = (s, err (store_failed e))

  -- `snapshotLocked` reads a session with no run and no kept snapshot; a missing one is empty.
  unfoldable pub load_messages : String → S → S × Result ChatError (List Message)
  load_messages id = leased (λ s. messages_of (env.store.load s id))

  abbrev pub chat_result : S × Option SessionError → S × Result ChatError (Unit {0})
  chat_result (s, none) = (s, ok tt)
  chat_result (s, some e) = (s, err (store_failed e))

  abbrev pub discarded :
      String
      → Bool
      → Coordinator S × Result ChatError (Unit {0})
      → Coordinator S × Result ChatError (Unit {0})
  discarded key discard (c, err e) = (c, err e)
  discarded key discard (c, ok _) =
      if discard
      then (record c { retained = drop_terminal env.json key c.retained }, ok tt)
      else (c, ok tt)

  -- `mutate`: a change of a session that has no run.
  unfoldable pub mutate :
      String
      → String
      → Bool
      → (S → S × Option SessionError)
      → Coordinator S
      → Coordinator S × Result ChatError (Unit {0})
  unfolding with_store
  mutate ws id discard change c =
      let key = session_key env.platform ws id in
      if c.stopped
      then (c, err engine_stopped)
      else if is_some (lookup key c.runs)
      then (c, err session_busy)
      else discarded key discard (with_store ws (leased (λ s. chat_result (change s))) c)

  unfoldable pub create_session :
      ℕ → String → String → String → Coordinator S → Coordinator S × Result ChatError (Unit {0})
  unfolding mutate
  create_session now ws id title = mutate ws id true (Sessions.create env.store now id title)

  unfoldable pub delete_session :
      String → String → Coordinator S → Coordinator S × Result ChatError (Unit {0})
  unfolding mutate
  delete_session ws id = mutate ws id true (Sessions.delete env.store id)

  unfoldable pub rename_session :
      ℕ → String → String → String → Coordinator S → Coordinator S × Result ChatError (Unit {0})
  unfolding mutate
  rename_session now ws id title = mutate ws id false (Sessions.rename env.store now id title)

  abbrev pub listed :
      S × Result SessionError (List SessionMeta) → S × Result ChatError (List SessionMeta)
  listed (s, ok metas) = (s, ok metas)
  listed (s, err e) = (s, err (store_failed e))

  -- `ListSessions`: the locked part counts a worker, and the reading follows outside the lock.
  unfoldable pub begin_list : String → Coordinator S → Coordinator S × Result ChatError (Unit {0})
  unfolding with_store
  begin_list ws c = if c.stopped then (c, err engine_stopped) else (
    record (with_store {A = Unit {0}} ws (λ s. (s, tt)) c).0 { list_workers = suc c.list_workers },
    ok tt,
  )

  unfoldable pub end_list :
      String → Coordinator S → Coordinator S × Result ChatError (List SessionMeta)
  unfolding with_store
  end_list ws c =
      with_store ws (leased (λ s. listed (Sessions.list env.store s)))
        (record c { list_workers = c.list_workers - 1 })
