-- ===== src/Llm/Errors/Classes.antt =====
-- An error of the provider has exactly the class of its status.
use excelsior.Common.{ℕ, ◌≡◌, String, Bool, false, arith}
use excelsior.Llm.Errors.{
  Sentinel, auth_failed, rate_limit, server_unavailable, invalid_request, stream_interrupted,
  missing_api_key, line_too_large, invalid_base_url, sentinel_eq, api_error, provider_error,
  ClientError, canceled, callback_failed, unsupported, passed, classify_status, new_goai_error,
  is_error,
}

-- `errors.Is` on what `newGoAIError` returns.
abbrev pub client_is : ClientError → Sentinel → Bool
client_is (provider_error e) target = is_error e target
client_is (passed e) target = false
client_is canceled target = false
client_is callback_failed target = false
client_is unsupported target = false

-- An answer with an HTTP status becomes an error that errors.Is matches with one sentinel of the
-- package only: with the class of the status.
pub api_error-class :
    (model : String) (status : ℕ) (body : String) (target : Sentinel)
    → client_is (new_goai_error model (api_error status body)) target
      ≡ sentinel_eq (classify_status status) target
unfolding new_goai_error is_error classify_status sentinel_eq
api_error-class model status body auth_failed = ground arith
api_error-class model status body rate_limit = ground arith
api_error-class model status body server_unavailable = ground arith
api_error-class model status body invalid_request = ground arith
api_error-class model status body stream_interrupted = ground arith
api_error-class model status body missing_api_key = ground arith
api_error-class model status body line_too_large = ground arith
api_error-class model status body invalid_base_url = ground arith
