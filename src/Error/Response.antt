-- ===== src/Error/Response.antt =====
-- `IntoResponse for Error` of src/error.rs: what of an error reaches a client.
use gengis_mimi.Shared.{ℕ, Bool, true, false}
use gengis_mimi.Error.{Error}

pub data Code : Type 0 where
  invalid_request not_found conflict limit_exceeded unavailable busy timeout : Code
  storage_unavailable internal_error : Code

-- `own_message`: the body carries the error's own text, and not a fixed sentence.
pub record Response : Type 0 where
  pub status : ℕ
  pub code : Code
  pub own_message : Bool

abbrev response : ℕ → Code → Bool → Response
response s c m = record { status = s; code = c; own_message = m }

unfoldable pub into_response : Error → Response
into_response Error.invalid = response 400 Code.invalid_request true
into_response (Error.request status) = response status Code.invalid_request true
into_response Error.not_found = response 404 Code.not_found true
into_response Error.conflict = response 409 Code.conflict true
into_response Error.limit = response 429 Code.limit_exceeded true
into_response Error.unavailable = response 503 Code.unavailable false
into_response Error.network = response 503 Code.unavailable false
into_response Error.busy = response 503 Code.busy true
into_response Error.timeout = response 504 Code.timeout true
into_response Error.storage = response 503 Code.storage_unavailable false
into_response Error.object_store = response 503 Code.storage_unavailable false
into_response _ = response 500 Code.internal_error false
