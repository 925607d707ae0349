-- ===== src/Llm/Errors.antt =====
-- pkg/llm/errors.go, `newGoAIError` and `classifyStatus` of client.go, and budget.go. A status is a
-- natural number, 0 where there is none. An error of the library is one of the kinds that
-- `newGoAIError` tells apart, with its text.
pub mod Classes
use Prim.Native.String.{len}
use excelsior.Common.{
  ℕ, String, Bool, true, false, ◌||◌, ◌&&◌, ◌==◌, ltb, leb, if◌then◌else◌, Option, none, some,
  Result, ok, err,
}

-- The sentinels that a status or a failure is classified as, and the others.
pub data Sentinel : Type 0 where
  auth_failed rate_limit server_unavailable invalid_request stream_interrupted : Sentinel
  missing_api_key line_too_large invalid_base_url : Sentinel

unfoldable pub sentinel_eq : Sentinel → Sentinel → Bool
sentinel_eq auth_failed auth_failed = true
sentinel_eq rate_limit rate_limit = true
sentinel_eq server_unavailable server_unavailable = true
sentinel_eq invalid_request invalid_request = true
sentinel_eq stream_interrupted stream_interrupted = true
sentinel_eq missing_api_key missing_api_key = true
sentinel_eq line_too_large line_too_large = true
sentinel_eq invalid_base_url invalid_base_url = true
sentinel_eq a b = false

-- `wrapped` is the sentinel in `Err`.
pub record LlmError : Type 0 where
  pub status : ℕ
  pub model : String
  pub body : String
  pub wrapped : Sentinel

pub data GoaiError : Type 0 where
  api_error : (status : ℕ) (body : String) → GoaiError
  context_overflow : (body : String) → GoaiError
  context_canceled : GoaiError
  other_error : GoaiError

-- The errors of the client: its own, the cancellation, and what a chunk or a callback passes on.
pub data ClientError : Type 0 where
  provider_error : LlmError → ClientError
  passed : GoaiError → ClientError
  canceled callback_failed unsupported : ClientError

unfoldable pub classify_status : ℕ → Sentinel
classify_status status =
    if (status == 401) || (status == 403)
    then auth_failed
    else if status == 429
    then rate_limit
    else if status == 400
    then invalid_request
    else if leb 500 status
    then server_unavailable
    else stream_interrupted

unfoldable pub new_goai_error : String → GoaiError → ClientError
unfolding classify_status
new_goai_error model (api_error status body) =
    provider_error
      (record { status = status; model = model; body = body; wrapped = classify_status status })
new_goai_error model (context_overflow body) =
    provider_error (record { status = 0; model = model; body = body; wrapped = invalid_request })
new_goai_error model context_canceled = canceled
new_goai_error model other_error =
    provider_error (record { status = 0; model = model; body = ""; wrapped = stream_interrupted })

-- What `Is` reads from the status alone.
abbrev pub status_is : ℕ → Sentinel → Bool
status_is status auth_failed = (status == 401) || (status == 403)
status_is status rate_limit = status == 429
status_is status server_unavailable = leb 500 status && leb status 599
status_is status invalid_request = status == 400
status_is status target = false

-- `LLMError.Is`.
unfoldable pub is_error : LlmError → Sentinel → Bool
unfolding sentinel_eq
is_error e target = sentinel_eq e.wrapped target || status_is e.status target

abbrev pub max_provider_input_bytes : ℕ
max_provider_input_bytes = 600000

-- `checkProviderInput` on the encoded parameters, `none` where they cannot be encoded.
unfoldable pub check_provider_input : Option String → Bool
check_provider_input none = false
check_provider_input (some b) = if ltb max_provider_input_bytes (len b) then false else true

-- `DoStream` and `DoGenerate` of `budgetedModel` over those of the library.
module _ {P R : Type 0} (marshal : P → Option String) (call : P → Option R) where
  unfoldable pub budgeted_call : P → Option R
  unfolding check_provider_input
  budgeted_call p = if check_provider_input (marshal p) then call p else none
