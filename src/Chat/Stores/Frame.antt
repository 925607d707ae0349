-- ===== src/Chat/Stores/Frame.antt =====
-- What the work on a store leaves alone.
use excelsior.Common.{◌≡◌, refl, ◌∙◌, String, arith}
use excelsior.Chat.State.{Coordinator, Env}
use excelsior.Chat.Stores.{with_store}

-- The registry of runs, the kept snapshots and the stop flag are the same in both states.
pub record SameCore {S : Type 0} (c d : Coordinator S) : Type 0 where
  pub runs : d.runs ≡ c.runs
  pub retained : d.retained ≡ c.retained
  pub stopped : d.stopped ≡ c.stopped

module _ {S : Type 0} where
  pub SameCore-refl : (c : Coordinator S) → SameCore c c
  SameCore-refl c = record { runs = refl; retained = refl; stopped = refl }

  pub SameCore-trans : {b c d : Coordinator S} → SameCore b c → SameCore c d → SameCore b d
  SameCore-trans p q = record {
    runs = q.runs ∙ p.runs;
    retained = q.retained ∙ p.retained;
    stopped = q.stopped ∙ p.stopped;
  }

-- Work on a store touches no run, subscriber or kept snapshot.
module _ {S : Type 0} (env : Env S) {A : Type 0} (ws : String) (work : S → S × A)
    (c : Coordinator S) where
  pub with_store-SameCore : SameCore c (with_store env ws work c).0
  unfolding with_store
  with_store-SameCore = ground arith

  pub subscribers-with_store : (with_store env ws work c).0.subscribers ≡ c.subscribers
  unfolding with_store
  subscribers-with_store = ground arith
