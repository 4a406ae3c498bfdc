-- ===== src/Runtime/Status.antt =====
-- runtime/errors.go: status codes of gRPC and of HTTP.
pub mod Routing
use grpc_gateway.Prelude.{ℕ, Text, codes, ◌==◌, if◌then◌else◌}

-- The codes of google.golang.org/grpc/codes; `other` is a number that is none of them.
pub data Code : Type 0 where
  success canceled unknown invalid_argument deadline_exceeded not_found already_exists : Code
  permission_denied resource_exhausted failed_precondition aborted out_of_range : Code
  unimplemented internal unavailable data_loss unauthenticated : Code
  other : ℕ → Code

-- A gRPC status without details.
pub record Status : Type 0 where
  pub code : Code
  pub message : Text

-- `HTTPStatusFromCode`
unfoldable pub http_status_from_code : Code → ℕ
http_status_from_code success = 200
http_status_from_code canceled = 408
http_status_from_code unknown = 500
http_status_from_code invalid_argument = 400
http_status_from_code deadline_exceeded = 504
http_status_from_code not_found = 404
http_status_from_code already_exists = 409
http_status_from_code permission_denied = 403
http_status_from_code unauthenticated = 401
http_status_from_code resource_exhausted = 429
http_status_from_code failed_precondition = 400
http_status_from_code aborted = 409
http_status_from_code out_of_range = 400
http_status_from_code unimplemented = 501
http_status_from_code internal = 500
http_status_from_code unavailable = 503
http_status_from_code data_loss = 500
http_status_from_code (other n) = 500

abbrev status_of : Code → Text → Status
status_of code message = record { code = code; message = message }

-- The status that `DefaultRoutingErrorHandler` hands to the error handler. The messages are those of
-- `http.StatusText`.
unfoldable pub routing_status : ℕ → Status
routing_status n =
    if n == 400
    then status_of invalid_argument (codes "Bad Request")
    else if n == 405
    then status_of unimplemented (codes "Method Not Allowed")
    else if n == 404
    then status_of not_found (codes "Not Found")
    else status_of internal (codes "Unexpected routing error")
