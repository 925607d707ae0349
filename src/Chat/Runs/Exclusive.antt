-- ===== src/Chat/Runs/Exclusive.antt =====
-- One active run per session: who has reserved a session has it alone.
use excelsior.Common.{
  ℕ, ◌≡◌, refl, ap, ◌∙◌, String, Bool, true, false, List, ◌∷◌, ◌++◌, Option, some, Result, ok, err,
  lookup, lookup-insert_self, str_eq, if_cases, is_some, ltb, ◌⊎◌, inl, inr,
}
use excelsior.Llm.{Message}
use excelsior.Session.Types.{Record, SessionError}
use excelsior.Sessions
use excelsior.Chat.Event.{message_bytes, clone_messages}
use excelsior.Chat.Workspace.{Platform, canonical_workspace, session_key}
use excelsior.Chat.Retention.{max_projection_bytes}
use excelsior.Chat.State.{Coordinator, Env, ActiveRun, ChatError, session_busy, engine_stopped}
use excelsior.Chat.Stores.{
  with_store, load_or_create, history_from, mutate, create_session, delete_session, rename_session,
}
use excelsior.Chat.Stores.Frame.{with_store-SameCore}
use excelsior.Chat.Subscribers.{publish}
use excelsior.Chat.Runs.{RunHandle, start_run, reserve_with, reserve_session, reserve_turn, new_run}

-- Documented behaviour of path/filepath: an absolute, resolved and cleaned path stays as it is.
pub record IsStable (p : Platform) : Type 0 where
  pub again :
      (ws : String) → canonical_workspace p (canonical_workspace p ws) ≡ canonical_workspace p ws

-- What a successful reservation leaves.
record IsReserved {S : Type 0} (env : Env S) (run_id ws id : String) (c : Coordinator S)
    : Type 0 where
  run : ActiveRun
  active : lookup (session_key env.platform ws id) c.runs ≡ some run
  named : run.id ≡ run_id
  open_ : c.stopped ≡ false

data Reservation {S : Type 0} (env : Env S) (run_id ws id : String)
    (r : Coordinator S × Result ChatError RunHandle) : Type 0 where
  refused : (e : ChatError) → r.1 ≡ err e → Reservation env run_id ws id r
  reserved :
      r.1 ≡ ok (record { id = run_id; workspace = ws; session_id = id })
      → IsReserved env run_id ws id r.0
      → Reservation env run_id ws id r

module _ {S : Type 0} (env : Env S) where
  reserve_with-Reservation :
      (run_id ws id : String) (ms : List Message) (r : Coordinator S × Result ChatError Record)
      → r.0.stopped ≡ false
      → Reservation env run_id ws id (reserve_with env run_id ws id ms r)
  unfolding reserve_with start_run publish
  reserve_with-Reservation run_id ws id ms (d, err e) s = refused e refl
  reserve_with-Reservation run_id ws id ms (d, ok rec) s =
      let messages = clone_messages (history_from rec.messages ++ ms) in
      if_cases (Reservation env run_id ws id)
        (ltb max_projection_bytes (message_bytes env.json messages)) _ _ (λ _. refused _ refl)
        (λ _. reserved refl (record {
          run = new_run run_id ws id rec messages (message_bytes env.json messages);
          active = lookup-insert_self (session_key env.platform ws id) _ d.runs;
          named = refl;
          open_ = s;
        }))

  reserve_session-Reservation :
      (now : ℕ) (run_id ws id : String) (ms : List Message) (c : Coordinator S)
      → Reservation env run_id ws id (reserve_session env now run_id ws id ms c)
  unfolding reserve_session
  reserve_session-Reservation now run_id ws id ms c =
      let P = Reservation env run_id ws id in
      if_cases P c.stopped _ _ (λ _. refused engine_stopped refl)
        λ open_.
          if_cases P (is_some (lookup (session_key env.platform ws id) c.runs)) _ _
            (λ _. refused session_busy refl)
            (λ _.
              reserve_with-Reservation run_id ws id ms
                (with_store env ws (load_or_create env now id ms) c)
                ((with_store-SameCore env ws (load_or_create env now id ms) c).stopped ∙ open_))

  -- While a session has a run, nobody else gets it.
  reserve_session-busy :
      (now : ℕ) (run_id ws id : String) (ms : List Message) (run : ActiveRun) (c : Coordinator S)
      → c.stopped ≡ false
      → lookup (session_key env.platform ws id) c.runs ≡ some run
      → reserve_session env now run_id ws id ms c ≡ (c, err session_busy)
  unfolding reserve_session
  reserve_session-busy now run_id ws id ms run c h e = rw (reserve_session, h, e) refl

  mutate-busy :
      (ws id : String) (discard : Bool) (change : S → S × Option SessionError) (run : ActiveRun)
      (c : Coordinator S)
      → c.stopped ≡ false
      → lookup (session_key env.platform ws id) c.runs ≡ some run
      → mutate env ws id discard change c ≡ (c, err session_busy)
  unfolding mutate
  mutate-busy ws id discard change run c h e = rw (mutate, h, e) refl

  -- What `session_busy` answers to all who want to use or change the session.
  pub record IsTaken (ws id : String) (c : Coordinator S) : Type 0 where
    reserve :
        (now : ℕ) (new_id run_id : String) (m : Message) (ms : List Message)
        → reserve_turn env now new_id run_id ws id (m ∷ ms) c ≡ (c, err session_busy)
    create :
        (now : ℕ) (title : String) → create_session env now ws id title c ≡ (c, err session_busy)
    delete : delete_session env ws id c ≡ (c, err session_busy)
    rename :
        (now : ℕ) (title : String) → rename_session env now ws id title c ≡ (c, err session_busy)

  same_key :
      IsStable env.platform
      → (ws ws' id : String)
      → canonical_workspace env.platform ws' ≡ canonical_workspace env.platform ws
      → session_key env.platform ws' id
        ≡ session_key env.platform (canonical_workspace env.platform ws) id
  unfolding session_key
  same_key stable ws ws' id e = rw (stable.again ws, e) refl

  IsReserved-IsTaken :
      (run_id ws ws' id : String) (c : Coordinator S)
      → IsStable env.platform
      → canonical_workspace env.platform ws' ≡ canonical_workspace env.platform ws
      → str_eq id "" ≡ false
      → IsReserved env run_id (canonical_workspace env.platform ws) id c
      → IsTaken ws' id c
  unfolding reserve_turn create_session delete_session rename_session
  IsReserved-IsTaken run_id ws ws' id c stable e named v =
      let here = ap (λ k. lookup k c.runs) (same_key stable ws ws' id e) ∙ v.active in
      record {
        reserve = λ now new_id run_id' m ms.
            rw (named, e) (reserve_session-busy now run_id' _ id (m ∷ ms) v.run c v.open_ v.active);
        create = λ now title.
            mutate-busy ws' id true (Sessions.create env.store now id title) v.run c v.open_ here;
        delete = mutate-busy ws' id true (Sessions.delete env.store id) v.run c v.open_ here;
        rename = λ now title.
            mutate-busy ws' id false (Sessions.rename env.store now id title) v.run c v.open_ here;
      }

  -- A reservation of a named session fails, or it gives the caller's run. Then, by whatever path to
  -- the same workspace, any reservation, creation, deletion or renaming of that session is refused
  -- as busy and changes nothing. Canonical workspaces are their own canonical form.
  pub one_run_per_session :
      (now : ℕ) (new_id run_id ws ws' id : String) (m : Message) (ms : List Message)
      (c : Coordinator S)
      → IsStable env.platform
      → canonical_workspace env.platform ws' ≡ canonical_workspace env.platform ws
      → str_eq id "" ≡ false
      → let r = reserve_turn env now new_id run_id ws id (m ∷ ms) c in
        ((e : ChatError) × (r.1 ≡ err e))
        ⊎ ((r.1
              ≡ ok (record {
                id = run_id;
                workspace = canonical_workspace env.platform ws;
                session_id = id;
              }))
            × IsTaken ws' id r.0)
  unfolding reserve_turn
  one_run_per_session now new_id run_id ws ws' id m ms c stable e named =
      rw named
        (elim (reserve_session-Reservation now run_id (canonical_workspace env.platform ws) id
          (m ∷ ms) c) [
            | refused error h ↦ inl (error, h)
            | reserved h v ↦ inr (h, IsReserved-IsTaken run_id ws ws' id _ stable e named v)
          ])
