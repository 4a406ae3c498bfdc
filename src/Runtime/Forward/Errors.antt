-- ===== src/Runtime/Forward/Errors.antt =====
-- runtime/errors.go and runtime/handler.go: the status and the body of an error and of a message.
use grpc_gateway.Prelude.{
  ℕ, ◌≡◌, refl, ◌∙◌, ap, true, List, [], ◌∷◌, ◌++◌, Option, none, some, Text, Result, ok, fail,
  if-intro, codes, subst, sym,
}
use grpc_gateway.Runtime.Http.{Header, Request, canonical_key}
use grpc_gateway.Runtime.Status.{Status, http_status_from_code}
use grpc_gateway.Runtime.Writer.{
  Writer, set_header, add_header, del_header, write_header, write, status_or,
}
use grpc_gateway.Runtime.Forward.{
  trailer_key, ServerMetadata, status_value, Gateway, add_values, add_matched, server_metadata,
  trailer_header, trailer, metadata_or_none, marshal_fallback, wants_trailers, write_error,
  default_http_error_handler, forward_response_message, run_options, body_value, message,
  after_options, write_message,
}

-- Nothing has been sent between the two.
abbrev pub Unsent : Writer → Writer → Type 0
Unsent w w' = (w'.status ≡ w.status) × (w'.body ≡ w.body)

then_Unsent : (u v w : Writer) → Unsent u v → Unsent v w → Unsent u w
then_Unsent u v w (a, b) (c, d) = (c ∙ a, d ∙ b)

add_header-Unsent : (k v : Text) (w : Writer) → Unsent w (add_header k v w)
unfolding add_header
add_header-Unsent k v w = (refl, refl)

set_header-Unsent : (k v : Text) (w : Writer) → Unsent w (set_header k v w)
unfolding set_header
set_header-Unsent k v w = (refl, refl)

del_header-Unsent : (k : Text) (w : Writer) → Unsent w (del_header k w)
unfolding del_header
del_header-Unsent k w = (refl, refl)

add_values-Unsent : (k : Text) (vs : List Text) (w : Writer) → Unsent w (add_values k vs w)
add_values-Unsent k [] w = (refl, refl)
add_values-Unsent k (v ∷ vs) w =
    let w₁ = add_header k v w in
    then_Unsent w w₁ (add_values k vs w₁) (add_header-Unsent k v w) (add_values-Unsent k vs w₁)

add_matched-Unsent : (o : Option Text) (vs : List Text) (w : Writer) → Unsent w (add_matched o vs w)
add_matched-Unsent none vs w = (refl, refl)
add_matched-Unsent (some k) vs w = add_values-Unsent k vs w

server_metadata-Unsent :
    (outgoing : Text → Option Text) (md : Header) (w : Writer)
    → Unsent w (server_metadata outgoing md w)
unfolding server_metadata
server_metadata-Unsent outgoing [] w = (refl, refl)
server_metadata-Unsent outgoing ((k, vs) ∷ md) w =
    let w₁ = add_matched (outgoing k) vs w in
    then_Unsent w w₁ (server_metadata outgoing md w₁) (add_matched-Unsent (outgoing k) vs w)
      (server_metadata-Unsent outgoing md w₁)

trailer_header-Unsent : (md : Header) (w : Writer) → Unsent w (trailer_header md w)
unfolding trailer_header
trailer_header-Unsent [] w = (refl, refl)
trailer_header-Unsent ((k, vs) ∷ md) w =
    let w₁ = add_header (codes "Trailer") (canonical_key (trailer_key k)) w in
    then_Unsent w w₁ (trailer_header md w₁) (add_header-Unsent _ _ w) (trailer_header-Unsent md w₁)

trailer-Unsent : (md : Header) (w : Writer) → Unsent w (trailer md w)
unfolding trailer
trailer-Unsent [] w = (refl, refl)
trailer-Unsent ((k, vs) ∷ md) w =
    let w₁ = add_values (trailer_key k) vs w in
    then_Unsent w w₁ (trailer md w₁) (add_values-Unsent _ vs w) (trailer-Unsent md w₁)

-- What the client has got: the chunk `buf` more, and the status `n` if none had been sent.
abbrev pub Sent : ℕ → Text → Writer → Writer → Type 0
Sent n buf w w' = (w'.status ≡ some (status_or w.status n)) × (w'.body ≡ w.body ++ buf ∷ [])

module _ {E M : Type 0} (g : Gateway E M)
    (open_connection : (body : List Text) (buf : Text) → g.accepts body buf ≡ true) where
  write-Sent :
      (n : ℕ) (buf : Text) (u w : Writer)
      → Unsent u w
      → Sent n buf u (write g.accepts buf (write_header n w))
  write-Sent n buf u w (a, b) =
      rw (open_connection w.body buf) (ap (λ s. some (status_or s n)) a, ap (λ l. l ++ buf ∷ []) b)

  trailer-Sent :
      (n : ℕ) (buf : Text) (md : Header) (u w : Writer)
      → Sent n buf u w
      → Sent n buf u (trailer md w)
  trailer-Sent n buf md u w (a, b) = let (c, d) = trailer-Unsent md w in (c ∙ a, d ∙ b)

  -- The status and the body that an error should give.
  abbrev pub error_status : Status → Result E Text → ℕ
  error_status s (ok buf) = http_status_from_code s.code
  error_status s (fail e) = 500

  abbrev pub error_body : Result E Text → Text
  error_body (ok buf) = buf
  error_body (fail e) = marshal_fallback

  write_error-Sent :
      (md : Option ServerMetadata) (r : Request) (s : Status) (m : Result E Text) (u w : Writer)
      → Unsent u w
      → Sent (error_status s m) (error_body m) u (write_error g md r s m w)
  write_error-Sent md r s (fail e) u w a = write-Sent 500 marshal_fallback u w a
  write_error-Sent md r s (ok buf) u w a =
      let n = http_status_from_code s.code in
      let m = metadata_or_none md in
      let w₁ = server_metadata g.outgoing m.header_md w in
      let a₁ = then_Unsent u w w₁ a (server_metadata-Unsent g.outgoing m.header_md w) in
      let a₂ =
        then_Unsent u w₁ (trailer_header m.trailer_md w₁) a₁
          (trailer_header-Unsent m.trailer_md w₁) in
      let w₂ = trailer_header m.trailer_md w₁ in
      let w₃ = set_header (codes "Transfer-Encoding") (codes "chunked") w₂ in
      let a₃ = then_Unsent u w₂ w₃ a₂ (set_header-Unsent _ _ w₂) in
      if-intro (Sent n buf u) (wants_trailers g r)
        (trailer-Sent n buf m.trailer_md u _ (write-Sent n buf u w₃ a₃)) (write-Sent n buf u w₁ a₁)

  -- On a connection that takes every chunk, the default error handler sends one chunk: the
  -- marshalled status with the HTTP status of its code, or the fallback text with 500 if it cannot
  -- be marshalled. A status that has been sent before stays.
  pub default_http_error_handler-Sent :
      (md : Option ServerMetadata) (r : Request) (e : E) (w : Writer)
      → Sent
          (error_status (g.convert e) (g.marshal (status_value (g.convert e))))
          (error_body (g.marshal (status_value (g.convert e))))
          w
          (default_http_error_handler g md r e w)
  unfolding default_http_error_handler
  default_http_error_handler-Sent md r e w =
      let st = g.convert e in
      let w₁ = del_header (codes "Trailer") w in
      let w₂ = del_header (codes "Transfer-Encoding") w₁ in
      let w₃ = set_header (codes "Content-Type") (g.content_type (status_value st)) w₂ in
      let a₂ = then_Unsent w w₁ w₂ (del_header-Unsent _ w) (del_header-Unsent _ w₁) in
      write_error-Sent md r st (g.marshal (status_value st)) w w₃
        (then_Unsent w w₂ w₃ a₂ (set_header-Unsent _ _ w₂))

  write_ok-Sent : (buf : Text) (u w : Writer) → Unsent u w → Sent 200 buf u (write g.accepts buf w)
  write_ok-Sent buf u w (a, b) =
      rw (open_connection w.body buf)
        (ap (λ s. some (status_or s 200)) a, ap (λ l. l ++ buf ∷ []) b)

  -- On a connection that takes every chunk and with no options, `ForwardResponseMessage` sends the
  -- marshalled message, or its response body if it has one, as one chunk with the status 200, unless
  -- a status has been sent before.
  pub forward_response_message-Sent :
      (md : Option ServerMetadata) (resp : M) (buf : Text) (w : Writer)
      → g.opts ≡ []
      → g.marshal (body_value g resp) ≡ ok buf
      → Sent 200 buf w (forward_response_message g md resp w)
  unfolding forward_response_message run_options
  forward_response_message-Sent md resp buf w no_options marshalled =
      let m = metadata_or_none md in
      let w₁ = server_metadata g.outgoing m.header_md w in
      let w₂ = trailer_header m.trailer_md w₁ in
      let w₃ = set_header (codes "Content-Type") (g.content_type (message resp)) w₂ in
      let a₁ = server_metadata-Unsent g.outgoing m.header_md w in
      let a₂ = then_Unsent w w₁ w₂ a₁ (trailer_header-Unsent m.trailer_md w₁) in
      let a₃ = then_Unsent w w₂ w₃ a₂ (set_header-Unsent _ _ w₂) in
      let e : run_options g g.opts (some resp) w₃ ≡ (w₃, none) =
        ap (λ opts. run_options g opts (some resp) w₃) no_options in
      subst (λ x. Sent 200 buf w (after_options g m resp x)) (sym e)
        (subst (λ x. Sent 200 buf w (write_message g m x w₃)) (sym marshalled)
          (trailer-Sent 200 buf m.trailer_md w _ (write_ok-Sent buf w w₃ a₃)))
