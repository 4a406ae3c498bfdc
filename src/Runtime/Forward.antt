-- ===== src/Runtime/Forward.antt =====
-- runtime/handler.go and the default error handler of runtime/errors.go: what is written to the client.
pub mod Errors
pub mod Stream
use grpc_gateway.Prelude.{
  ℕ, Bool, true, false, List, [], ◌∷◌, ◌++◌, Option, none, some, Text, codes, Result, ok, fail,
  if◌then◌else◌,
}
use grpc_gateway.Runtime.Http.{Header, Request, get, to_lower, canonical_key}
use grpc_gateway.Runtime.Status.{Code, internal, Status, http_status_from_code, routing_status}
use grpc_gateway.Runtime.Writer.{
  Writer, set_header, add_header, del_header, write_header, Connection, write, flush, contains,
}

-- `ServerMetadata`; a `metadata.MD` is a map from keys to values.
pub record ServerMetadata : Type 0 where
  pub header_md : Header
  pub trailer_md : Header

-- What is given to a marshaler: a message, its `XXX_ResponseBody`, each of these under the key
-- "result", a status, a status under the key "error", or nil.
pub data Value (M : Type 0) : Type 0 where
  message : M → Value M
  body_of : M → Value M
  result_message : M → Value M
  result_body : M → Value M
  status_value : Status → Value M
  error_chunk : Status → Value M
  no_value : Value M

-- What the functions of handler.go get from their callers and from the multiplexer: the marshaler,
-- the matcher of outgoing headers, the error handlers and the options, and `status.Convert`.
pub record Gateway (E M : Type 0) : Type 0 where
  pub content_type : Value M → Text
  pub marshal : Value M → Result E Text
  pub delimiter : Option Text
  pub outgoing : Text → Option Text
  pub convert : E → Status
  pub stream_error : E → Status
  pub http_error : E → Writer → Writer
  pub opts : List (Option M → Writer → Writer × Option E)
  pub has_response_body : M → Bool
  pub http_body : M → Option Text
  pub accepts : Connection

abbrev pub add_values : Text → List Text → Writer → Writer
add_values key [] w = w
add_values key (v ∷ vs) w = add_values key vs (add_header key v w)

abbrev pub add_matched : Option Text → List Text → Writer → Writer
add_matched none vs w = w
add_matched (some h) vs w = add_values h vs w

-- `handleForwardResponseServerMetadata`
unfoldable pub server_metadata : (Text → Option Text) → Header → Writer → Writer
server_metadata outgoing [] w = w
server_metadata outgoing ((k, vs) ∷ md) w =
    server_metadata outgoing md (add_matched (outgoing k) vs w)

abbrev pub trailer_key : Text → Text
trailer_key k = codes "Grpc-Trailer-" ++ k

-- `handleForwardResponseTrailerHeader`
unfoldable pub trailer_header : Header → Writer → Writer
trailer_header [] w = w
trailer_header ((k, vs) ∷ md) w =
    trailer_header md (add_header (codes "Trailer") (canonical_key (trailer_key k)) w)

-- `handleForwardResponseTrailer`
unfoldable pub trailer : Header → Writer → Writer
trailer [] w = w
trailer ((k, vs) ∷ md) w = trailer md (add_values (trailer_key k) vs w)

abbrev pub no_metadata : ServerMetadata
no_metadata = record { header_md = []; trailer_md = [] }

abbrev pub metadata_or_none : Option ServerMetadata → ServerMetadata
metadata_or_none none = no_metadata
metadata_or_none (some md) = md

abbrev pub marshal_fallback : Text
marshal_fallback = codes "{\"code\": 13, \"message\": \"failed to marshal error message\"}"

module _ {E M : Type 0} (g : Gateway E M) where
  abbrev pub wants_trailers : Request → Bool
  wants_trailers r = contains (to_lower (get r.header (codes "Te"))) (codes "trailers")

  -- `DefaultHTTPErrorHandler` behind `Marshal`
  abbrev pub write_error :
      Option ServerMetadata → Request → Status → Result E Text → Writer → Writer
  write_error md r s (fail e) w = write g.accepts marshal_fallback (write_header 500 w)
  write_error md r s (ok buf) w =
      let m = metadata_or_none md in
      let w₁ = server_metadata g.outgoing m.header_md w in
      if wants_trailers r
      then trailer m.trailer_md (
          write g.accepts buf (
            write_header (http_status_from_code s.code) (
              set_header (codes "Transfer-Encoding") (codes "chunked")
                (trailer_header m.trailer_md w₁))))
      else write g.accepts buf (write_header (http_status_from_code s.code) w₁)

  -- `DefaultHTTPErrorHandler`
  unfoldable pub default_http_error_handler : Option ServerMetadata → Request → E → Writer → Writer
  default_http_error_handler md r e w =
      let s = g.convert e in
      write_error md r s (g.marshal (status_value s)) (
        set_header (codes "Content-Type") (g.content_type (status_value s))
          (del_header (codes "Transfer-Encoding") (del_header (codes "Trailer") w)))

  -- `DefaultRoutingErrorHandler`: `status.Error` and the error handler of the multiplexer are given.
  unfoldable pub default_routing_error_handler :
      (Status → E) → (E → Writer → Writer) → ℕ → Writer → Writer
  default_routing_error_handler status_error error_handler n w =
      error_handler (status_error (routing_status n)) w

  abbrev pub next_option : Writer × Option E → (Writer → Writer × Option E) → Writer × Option E
  next_option (w, some e) rest = (w, some e)
  next_option (w, none) rest = rest w

  -- `handleForwardResponseOptions`
  unfoldable pub run_options :
      List (Option M → Writer → Writer × Option E) → Option M → Writer → Writer × Option E
  run_options [] resp w = (w, none)
  run_options (opt ∷ opts) resp w = next_option (opt resp w) (run_options opts resp)

  abbrev pub body_value : M → Value M
  body_value m = if g.has_response_body m then body_of m else message m

  abbrev pub write_message : ServerMetadata → Result E Text → Writer → Writer
  write_message md (fail e) w = g.http_error e w
  write_message md (ok buf) w = trailer md.trailer_md (write g.accepts buf w)

  abbrev pub after_options : ServerMetadata → M → Writer × Option E → Writer
  after_options md resp (w, some e) = g.http_error e w
  after_options md resp (w, none) = write_message md (g.marshal (body_value resp)) w

  -- `ForwardResponseMessage`
  unfoldable pub forward_response_message : Option ServerMetadata → M → Writer → Writer
  forward_response_message md resp w =
      let m = metadata_or_none md in
      after_options m resp (
        run_options g.opts (some resp) (
          set_header (codes "Content-Type") (g.content_type (message resp))
            (trailer_header m.trailer_md (server_metadata g.outgoing m.header_md w))))
