-- ===== src/Chat/Retention.antt =====
-- `dropTerminalLocked` and `retainLocked` of internal/chat/coordinator.go: the finished sessions
-- whose snapshots are kept in memory, oldest first. The size of a snapshot is that of its encoding.
pub mod Accounting
pub mod Bounds
pub mod Eviction
use excelsior.Common.{
  ℕ, zero, suc, ◌+◌, ◌-◌, ◌*◌, String, Bool, true, false, ◌||◌, leb, ltb, if◌then◌else◌, List, [],
  ◌∷◌, ◌++◌, Option, none, some, Map, lookup, insert, erase, length, remove_first,
}
use excelsior.Chat.Event.{Snapshot, Json, snapshot_bytes}

abbrev pub max_projection_bytes : ℕ
max_projection_bytes = 4 * 1048576

abbrev pub max_retained_bytes : ℕ
max_retained_bytes = 32 * 1048576

abbrev pub max_retained_sessions : ℕ
max_retained_sessions = 64

-- The three fields of the coordinator. The counter is Go's `int`; that what is subtracted from it
-- was added before is part of the invariant.
pub record Retained : Type 0 where
  pub terminal : Map Snapshot
  pub retained_order : List String
  pub retained_bytes : ℕ

unfoldable pub drop_terminal : Json → String → Retained → Retained
drop_terminal json key r = elim (lookup key r.terminal) [
  | none ↦ record r { retained_order = remove_first key r.retained_order }
  | some snap ↦ record r {
    terminal = erase key r.terminal;
    retained_bytes = r.retained_bytes - snapshot_bytes json snap;
    retained_order = remove_first key r.retained_order;
  }
]

-- The condition of the loop that makes room, for a list that is not empty.
pub must_evict : Retained → ℕ → Bool
must_evict r size =
    leb max_retained_sessions (length r.retained_order)
    || ltb max_retained_bytes (r.retained_bytes + size)

-- The loop drops the oldest key; a round shortens the order by one, so its length is fuel enough.
unfoldable pub make_room : ℕ → Json → ℕ → Retained → Retained
unfolding drop_terminal must_evict
make_room zero json size r = r
make_room (suc fuel) json size r = elim r.retained_order [
  | [] ↦ r
  | oldest ∷ rest ↦
      let dropped = make_room fuel json size (drop_terminal json oldest r) in
      if must_evict r size then dropped else r
]

-- A snapshot over the limit keeps only its outcome.
unfoldable pub strip_oversized : Json → Snapshot → Snapshot
strip_oversized json snap =
    if ltb max_projection_bytes (snapshot_bytes json snap)
    then record snap {
      messages = [];
      events = [];
      unsaved_available = false;
      projection_unavailable = true;
    }
    else snap

pub append_retained : Json → String → Snapshot → Retained → Retained
append_retained json key snap r = record r {
  terminal = insert key snap r.terminal;
  retained_order = r.retained_order ++ key ∷ [];
  retained_bytes = r.retained_bytes + snapshot_bytes json snap;
}

unfoldable pub retain : Json → String → Snapshot → Retained → Retained
unfolding strip_oversized make_room append_retained
retain json key snap r =
    let kept = strip_oversized json snap in
    let dropped = drop_terminal json key r in
    append_retained json key kept
      (make_room (length dropped.retained_order) json (snapshot_bytes json kept) dropped)
