-- ===== src/Tests/Responses.antt =====
-- runtime/handler.go, errors.go, marshaler_registry.go, context.go and internal/casing on small inputs.
use grpc_gateway.Prelude.{
  ℕ, ◌*◌, arith, ◌≡◌, refl, true, false, [], ◌∷◌, ◌++◌, map, none, some, Text, codes, Result, ok,
  text_eq, has_prefix, pos, negsuc, ◌==◌,
}
use grpc_gateway.Runtime.Http.{Header, Request, values}
use grpc_gateway.Runtime.Mux
use grpc_gateway.Runtime.Mux.{routing_error}
use grpc_gateway.Runtime.Status.{Status, not_found}
use grpc_gateway.Runtime.Status.Routing.{serve_http-status}
use grpc_gateway.Runtime.Writer.{Writer}
use grpc_gateway.Runtime.Forward.{
  Value, result_message, status_value, error_chunk, Gateway, default_http_error_handler,
  default_routing_error_handler, forward_response_message,
}
use grpc_gateway.Runtime.Forward.Errors.{
  Sent, error_status, default_http_error_handler-Sent, forward_response_message-Sent,
}
use grpc_gateway.Runtime.Forward.Stream.{
  failed, received, stream_loop, separator, delimited, Chunks, stream_loop-failed,
  stream_loop-failed_status,
}
use grpc_gateway.Casing.{is_ascii_digit, camel_loop, camel}
use grpc_gateway.Casing.Idempotent.{camel-camel, camel-shape}
use grpc_gateway.Runtime.MarshalerRegistry.{
  Registry, marshaler_of, put_marshaler, add, marshaler_for_request,
}
use grpc_gateway.Runtime.MarshalerRegistry.Choice.{
  Registered, start, option, marshaler_for_request-total,
}
use grpc_gateway.Runtime.Timeout.{
  timeout_unit_to_duration, digits, parse_int, scaled, timeout_decode,
}
use grpc_gateway.Runtime.Timeout.Exact.{decimal, timeout_decode-decimal}
use grpc_gateway.Tests.Routing.{mux, fetch}

-- The name of the comment of `Camel`.
camel_field : camel (codes "_my_field_name_2") ≡ codes "XMyFieldName_2"
unfolding camel camel_loop
camel_field = refl

camel-camel_example : camel (camel (codes "_my_field")) ≡ camel (codes "_my_field")
camel-camel_example = camel-camel (codes "_my_field")

my_field : camel (codes "_my_field") ≡ codes "XMyField"
unfolding camel camel_loop
my_field = refl

camel-shape_example : (is_ascii_digit b'F' ≡ false) × ((b'F' == b'_') ≡ false)
camel-shape_example =
    camel-shape (codes "_my_field") (codes "XMy") (codes "eld") b'F' b'i' my_field refl

abbrev pathless : Request
pathless = record fetch { path = codes "v1" }

pathless_refused : Mux.serve_http mux pathless ≡ routing_error 400
unfolding Mux.serve_http has_prefix text_eq
pathless_refused = refl

-- Messages are numbers, errors are statuses.
abbrev marshal_number : Value ℕ → Result Status Text
marshal_number (result_message n) = ok (n ∷ [])
marshal_number (error_chunk s) = ok (codes "error")
marshal_number (status_value s) = ok (codes "status")
marshal_number _ = ok []

abbrev gateway : Gateway Status ℕ
gateway = record {
  content_type = λ v. codes "application/json";
  marshal = marshal_number;
  delimiter = none;
  outgoing = λ k. some k;
  convert = λ e. e;
  stream_error = λ e. e;
  http_error = λ e w. w;
  opts = [];
  has_response_body = λ m. false;
  http_body = λ m. none;
  accepts = λ body buf. true;
}

abbrev fresh : Writer
fresh = record { header = []; status = none; body = []; flushes = 0 }

abbrev missing : Status
missing = record { code = not_found; message = codes "missing" }

serve_http-status_example : Sent 400 (codes "status") fresh (
    default_routing_error_handler gateway
      (λ s. s)
      (default_http_error_handler gateway none pathless)
      400
      fresh)
serve_http-status_example =
    serve_http-status gateway (λ body buf. refl) (λ s. s) (λ s. refl) mux pathless 400 none fresh
      pathless_refused

default_http_error_handler-Sent_example :
    Sent
      (error_status gateway (λ body buf. refl) missing (ok (codes "status")))
      (codes "status")
      fresh
      (default_http_error_handler gateway none fetch missing fresh)
default_http_error_handler-Sent_example =
    default_http_error_handler-Sent gateway (λ body buf. refl) none fetch missing fresh

forward_response_message-Sent_example :
    Sent 200 [] fresh (forward_response_message gateway none 5 fresh)
forward_response_message-Sent_example =
    forward_response_message-Sent gateway (λ body buf. refl) none 5 [] fresh refl refl

two-Chunks :
    Chunks gateway (λ body buf. refl) refl (some 1 ∷ some 2 ∷ []) ((1 ∷ []) ∷ (2 ∷ []) ∷ [])
two-Chunks = (refl, (refl, tt))

stream_loop-failed_example :
    (stream_loop gateway
      (map received (some 1 ∷ some 2 ∷ []) ++ failed missing ∷ [])
      false
      fresh).body
    ≡ [] ++ (delimited (separator gateway) ((1 ∷ []) ∷ (2 ∷ []) ∷ []) ++ codes "error" ∷ [])
stream_loop-failed_example =
    stream_loop-failed gateway (λ body buf. refl) refl (some 1 ∷ some 2 ∷ [])
      ((1 ∷ []) ∷ (2 ∷ []) ∷ []) missing (codes "error") [] false fresh two-Chunks refl

stream_loop-failed_status_example :
    (stream_loop gateway
      (map received (some 1 ∷ some 2 ∷ []) ++ failed missing ∷ [])
      false
      fresh).status
    ≡ some 200
stream_loop-failed_status_example =
    stream_loop-failed_status gateway (λ body buf. refl) refl (some 1 ∷ some 2 ∷ [])
      ((1 ∷ []) ∷ (2 ∷ []) ∷ []) missing (codes "error") [] false fresh two-Chunks refl

abbrev plain_type : Text → Result Text Text
plain_type v = ok v

abbrev registry : Registry ℕ
registry = (codes "*", 1) ∷ (codes "text/x", 2) ∷ []

registry-Registered : Registered 1 registry
unfolding add put_marshaler text_eq
registry-Registered = option (codes "text/x") 2 start refl

abbrev header : Header
header = (codes "Accept", codes "text/y" ∷ codes "text/x" ∷ []) ∷ []

marshaler_for_request-total_example :
    ((m : ℕ) × ((marshaler_for_request plain_type registry header).0 ≡ some m))
    × ((m : ℕ) × ((marshaler_for_request plain_type registry header).1 ≡ some m))
marshaler_for_request-total_example =
    marshaler_for_request-total plain_type 1 registry header registry-Registered

header_accept : values header (codes "Accept") ≡ (codes "text/y" ∷ []) ++ codes "text/x" ∷ []
unfolding values text_eq
header_accept = refl

not_registered : marshaler_of registry (codes "text/y") ≡ none
unfolding marshaler_of text_eq
not_registered = refl

is_registered : marshaler_of registry (codes "text/x") ≡ some 2
unfolding marshaler_of text_eq
is_registered = refl

seconds : timeout_unit_to_duration b'S' ≡ some 1000000000
unfolding timeout_unit_to_duration
seconds = refl

timeout_decode-decimal_example :
    timeout_decode (codes "15S") ≡ ok (pos (1000000000 * decimal (codes "15")))
timeout_decode-decimal_example =
    timeout_decode-decimal b'1' (codes "5") b'S' 1000000000 (refl, (refl, tt)) (omega arith) seconds
      (λ e. omega (arith, e))

-- Three million hours wrap around to a negative duration.
timeout_wraps : timeout_decode (codes "3000000H") ≡ ok (negsuc 7646744073709551615)
unfolding timeout_decode timeout_unit_to_duration parse_int digits scaled
timeout_wraps = refl
