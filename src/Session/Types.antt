-- ===== src/Session/Types.antt =====
-- pkg/session/store.go and errors.go. A time is a number of nanoseconds, 0 for Go's zero time.
use excelsior.Common.{ℕ, String, List, Option, Result}
use excelsior.Llm.{Message}

pub record Record : Type 0 where
  pub id : String
  pub title : String
  pub created_at : ℕ
  pub updated_at : ℕ
  pub messages : List Message

pub record SessionMeta : Type 0 where
  pub id : String
  pub title : String
  pub created_at : ℕ
  pub updated_at : ℕ
  pub msg_count : ℕ

-- The sentinel errors, a closed store, and any other failure of the file system or of
-- encoding/json.
pub data SessionError : Type 0 where
  session_not_found invalid_session_id empty_session_id corrupted_session empty_session :
      SessionError
  store_dir_empty store_owned store_closed io_failure : SessionError

-- The `Store` interface over an implementation's state `S`; the clock is an argument of `save`.
-- `lease_error` is `CheckLease`: always `none` where the store has no such method. `close` does
-- nothing where it has none.
pub record Store (S : Type 0) : Type 0 where
  pub save : S → ℕ → Record → S × Option SessionError
  pub load : S → String → S × Result SessionError Record
  pub list : S → S × Result SessionError (List SessionMeta)
  pub delete : S → String → S × Option SessionError
  pub lease_error : S → S × Option SessionError
  pub close : S → S
