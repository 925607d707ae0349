-- ===== src/Chat/Machine/Ended.antt =====
-- What the snapshot that is kept of a finished run says of it.
use excelsior.Common.{◌≡◌, refl, false, List, Option, none, some, if_cases, ltb}
use excelsior.Llm.{Message}
use excelsior.Chat.Event.{Outcome, Snapshot, snapshot_bytes}
use excelsior.Chat.Retention.{strip_oversized, max_projection_bytes}
use excelsior.Chat.State.{Env, ActiveRun}
use excelsior.Chat.Subscribers.{run_snapshot}
use excelsior.Chat.Runs.{terminal_snapshot, shows_result}

module _ {S : Type 0} (env : Env S) where
  -- What is kept of a run that is over: its own session and run, no longer running and with no open
  -- question, and its outcome.
  pub record IsKeptOf (run : ActiveRun) (o : Outcome) (snap : Snapshot) : Type 0 where
    pub outcome : snap.outcome ≡ some o
    pub session_id : snap.session_id ≡ run.session_id
    pub run_id : snap.run_id ≡ run.id
    pub running : snap.running ≡ false
    pub pending : snap.pending ≡ none

  pub strip_oversized-IsKeptOf :
      (run : ActiveRun) (o : Outcome) (snap : Snapshot)
      → IsKeptOf run o snap
      → IsKeptOf run o (strip_oversized env.json snap)
  unfolding strip_oversized
  strip_oversized-IsKeptOf run o snap v =
      if_cases (IsKeptOf run o) (ltb max_projection_bytes (snapshot_bytes env.json snap)) _ _
        (λ _. record {
          outcome = v.outcome;
          session_id = v.session_id;
          run_id = v.run_id;
          running = v.running;
          pending = v.pending;
        })
        (λ _. v)

  pub terminal_snapshot-IsKeptOf :
      (run : ActiveRun) (o : Outcome) (result : Option (List Message))
      → IsKeptOf run o (terminal_snapshot run o result)
  unfolding terminal_snapshot run_snapshot
  terminal_snapshot-IsKeptOf run o none = record {
    outcome = refl;
    session_id = refl;
    run_id = refl;
    running = refl;
    pending = refl;
  }
  terminal_snapshot-IsKeptOf run o (some messages) =
      if_cases (IsKeptOf run o) (shows_result o.status) _ _
        (λ _. record {
          outcome = refl;
          session_id = refl;
          run_id = refl;
          running = refl;
          pending = refl;
        })
        (λ _. record {
          outcome = refl;
          session_id = refl;
          run_id = refl;
          running = refl;
          pending = refl;
        })
