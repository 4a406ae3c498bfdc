-- ===== src/Runtime/Forward/Stream.antt =====
-- runtime/handler.go: `ForwardResponseStream`.
use grpc_gateway.Prelude.{
  ℕ, ◌≡◌, refl, sym, ◌∙◌, ap, Bool, true, false, List, [], ◌∷◌, ◌++◌, map, Option, none, some, Text,
  codes, Result, ok, fail, if◌then◌else◌, append_assoc, append-nil, ok_injective,
}
use grpc_gateway.Runtime.Status.{internal, http_status_from_code}
use grpc_gateway.Runtime.Writer.{
  Connection, Writer, set_header, write_header, write, put_chunk, flush, status_or,
}
use grpc_gateway.Runtime.Forward.{
  ServerMetadata, Value, message, result_message, result_body, error_chunk, no_value, Gateway,
  server_metadata, run_options,
}

-- What `recv` returns; after the last of a list it returns `io.EOF`.
pub data Received (E M : Type 0) : Type 0 where
  failed : E → Received E M
  received : Option M → Received E M

-- `http.Error(w, message, 500)` of net/http
abbrev pub plain_error : Connection → Text → Writer → Writer
plain_error accepts text w = write accepts (text ++ codes "\n") (
    write_header 500 (
      set_header (codes "X-Content-Type-Options") (codes "nosniff")
        (set_header (codes "Content-Type") (codes "text/plain; charset=utf-8") w)))

module _ {E M : Type 0} (g : Gateway E M) where
  abbrev pub write_if_marshalled : Result E Text → Writer → Writer
  write_if_marshalled (fail e) w = w
  write_if_marshalled (ok buf) w = write g.accepts buf w

  -- `handleForwardResponseStreamError`
  unfoldable pub stream_failed : Bool → E → Writer → Writer
  stream_failed wrote_header e w =
      let st = g.stream_error e in
      write_if_marshalled (g.marshal (error_chunk st))
        (if wrote_header then w else write_header (http_status_from_code st.code) w)

  abbrev pub message_or_nil : Option M → Value M
  message_or_nil none = no_value
  message_or_nil (some m) = message m

  abbrev pub result_of : M → Option Text → Result E Text
  result_of m (some data_bytes) = ok data_bytes
  result_of m none = g.marshal (if g.has_response_body m then result_body m else result_message m)

  -- The bytes of a response.
  abbrev pub chunk_of : Option M → Result E Text
  chunk_of none =
      g.marshal (error_chunk (record { code = internal; message = codes "empty response" }))
  chunk_of (some m) = result_of m (g.http_body m)

  -- `delimiter`
  abbrev pub separator : Text
  separator = status_or g.delimiter (codes "\n")

  abbrev pub write_delimiter : (Bool → Writer → Writer) → Writer → Writer
  write_delimiter rest w =
      if g.accepts w.body separator then rest true (flush (put_chunk separator w)) else w

  abbrev pub write_chunk : Bool → Result E Text → (Bool → Writer → Writer) → Writer → Writer
  write_chunk wrote_header (fail e) rest w = stream_failed wrote_header e w
  write_chunk wrote_header (ok buf) rest w =
      if g.accepts w.body buf then write_delimiter rest (put_chunk buf w) else write_header 200 w

  abbrev pub with_content_type : Bool → Option M → Writer → Writer
  with_content_type wrote_header resp w =
      if wrote_header
      then w
      else set_header (codes "Content-Type") (g.content_type (message_or_nil resp)) w

  abbrev pub send : Bool → Option M → (Bool → Writer → Writer) → Writer × Option E → Writer
  send wrote_header resp rest (w, some e) = stream_failed wrote_header e w
  send wrote_header resp rest (w, none) =
      write_chunk wrote_header (chunk_of resp) rest (with_content_type wrote_header resp w)

  -- The loop of `ForwardResponseStream`.
  unfoldable pub stream_loop : List (Received E M) → Bool → Writer → Writer
  stream_loop [] wrote_header w = w
  stream_loop (failed e ∷ rs) wrote_header w = stream_failed wrote_header e w
  stream_loop (received resp ∷ rs) wrote_header w =
      send wrote_header resp (stream_loop rs) (run_options g g.opts resp w)

  abbrev pub start_stream : List (Received E M) → Writer × Option E → Writer
  start_stream rs (w, some e) = g.http_error e w
  start_stream rs (w, none) = stream_loop rs false w

  -- `ForwardResponseStream`; the flag says that the writer is an `http.Flusher`.
  unfoldable pub forward_response_stream :
      Bool → Option ServerMetadata → List (Received E M) → Writer → Writer
  forward_response_stream false md rs w =
      plain_error g.accepts (codes "unexpected type of web server") w
  forward_response_stream true none rs w = plain_error g.accepts (codes "unexpected error") w
  forward_response_stream true (some md) rs w = start_stream rs (
      run_options g g.opts none (
        set_header (codes "Transfer-Encoding") (codes "chunked")
          (server_metadata g.outgoing md.header_md w)))

-- The chunks of a stream: each text and the separator.
abbrev pub delimited : Text → List Text → List Text
delimited sep [] = []
delimited sep (t ∷ ts) = t ∷ sep ∷ delimited sep ts

module _ {E M : Type 0} (g : Gateway E M)
    (open_connection : (body : List Text) (buf : Text) → g.accepts body buf ≡ true)
    (no_options : g.opts ≡ []) where
  -- The responses have these chunks.
  abbrev pub Chunks : List (Option M) → List Text → Type 0
  Chunks [] [] = Unit
  Chunks (r ∷ rs) (t ∷ ts) = (chunk_of g r ≡ ok t) × Chunks rs ts
  Chunks _ _ = ⊥

  sent_one : Bool → Option M → Text → Writer → Writer
  sent_one wrote r t w =
      flush (put_chunk (separator g) (put_chunk t (with_content_type g wrote r w)))

  run_options-none : (r : Option M) (w : Writer) → run_options g g.opts r w ≡ (w, none)
  unfolding run_options
  run_options-none r w = ap (λ opts. run_options g opts r w) no_options

  stream_loop-received :
      (r : Option M) (t : Text) (rs : List (Received E M)) (wrote : Bool) (w : Writer)
      → chunk_of g r ≡ ok t
      → stream_loop g (received r ∷ rs) wrote w ≡ stream_loop g rs true (sent_one wrote r t w)
  unfolding stream_loop sent_one
  stream_loop-received r t rs wrote w e =
      ap (send g wrote r (stream_loop g rs)) (run_options-none r w)
      ∙ sending (with_content_type g wrote r w) (chunk_of g r) e
    where
      sending :
          (v : Writer) (chunk : Result E Text)
          → chunk ≡ ok t
          → write_chunk g wrote chunk (stream_loop g rs) v
            ≡ stream_loop g rs true (flush (put_chunk (separator g) (put_chunk t v)))
      sending v (ok u) e = rw (
        ok_injective u t e,
        open_connection v.body t,
        open_connection (v.body ++ t ∷ []) (separator g),
      )
      sending v (fail x) e = cc

  sent_one-body :
      (wrote : Bool) (r : Option M) (t : Text) (w : Writer) (tail : List Text)
      → (sent_one wrote r t w).body ++ tail ≡ w.body ++ (t ∷ separator g ∷ tail)
  unfolding sent_one set_header
  sent_one-body true r t w tail =
      append_assoc (w.body ++ t ∷ []) (separator g ∷ []) tail ∙ append_assoc w.body (t ∷ []) _
  sent_one-body false r t w tail =
      append_assoc (w.body ++ t ∷ []) (separator g ∷ []) tail ∙ append_assoc w.body (t ∷ []) _

  sent_one-status :
      (wrote : Bool) (r : Option M) (t : Text) (w : Writer)
      → (sent_one wrote r t w).status ≡ some (status_or w.status 200)
  unfolding sent_one set_header
  sent_one-status true r t w = refl
  sent_one-status false r t w = refl

  -- A stream that sends the responses `rs` and ends, on a connection that takes every chunk and with
  -- no options, where every response can be marshalled: the client gets the chunk of each response
  -- with a separator behind it, in order, and nothing else.
  pub stream_loop-ended :
      (rs : List (Option M)) (ts : List Text) (wrote : Bool) (w : Writer)
      → Chunks rs ts
      → (stream_loop g (map received rs) wrote w).body ≡ w.body ++ delimited (separator g) ts
  unfolding stream_loop
  stream_loop-ended [] [] wrote w c = sym (append-nil w.body)
  stream_loop-ended (r ∷ rs) (t ∷ ts) wrote w c =
      ap Writer.body (stream_loop-received r t (map received rs) wrote w c.0)
      ∙ (stream_loop-ended rs ts true (sent_one wrote r t w) c.1
          ∙ sent_one-body wrote r t w (delimited (separator g) ts))
  stream_loop-ended [] (t ∷ ts) wrote w c = absurd c
  stream_loop-ended (r ∷ rs) [] wrote w c = absurd c

  -- The status that the client sees of a stream that fails with the HTTP status `n`.
  abbrev pub failure_status : Bool → List Text → ℕ → ℕ
  failure_status true ts n = 200
  failure_status false [] n = n
  failure_status false (t ∷ ts) n = 200

  failed-body :
      (e : E) (buf : Text) (wrote : Bool) (w : Writer)
      → g.marshal (error_chunk (g.stream_error e)) ≡ ok buf
      → (stream_failed g wrote e w).body ≡ w.body ++ buf ∷ []
  unfolding stream_failed
  failed-body e buf true w m = rw (m, open_connection _ buf)
  failed-body e buf false w m = rw (m, open_connection _ buf)

  -- A stream that fails behind the responses `rs`, on a connection that takes every chunk and with
  -- no options, where the responses and the error can be marshalled: the client gets the chunk of
  -- each response with a separator behind it, then the chunk that the stream error handler makes of
  -- the error, and nothing of what would follow. That is so without a response in front, too, where
  -- the comment of `WithStreamErrorHandler` promises the error handler of the multiplexer.
  pub stream_loop-failed :
      (rs : List (Option M)) (ts : List Text) (e : E) (buf : Text) (more : List (Received E M))
      (wrote : Bool) (w : Writer)
      → Chunks rs ts
      → g.marshal (error_chunk (g.stream_error e)) ≡ ok buf
      → (stream_loop g (map received rs ++ failed e ∷ more) wrote w).body
        ≡ w.body ++ (delimited (separator g) ts ++ buf ∷ [])
  unfolding stream_loop
  stream_loop-failed [] [] e buf more wrote w c m = failed-body e buf wrote w m
  stream_loop-failed (r ∷ rs) (t ∷ ts) e buf more wrote w c m =
      ap Writer.body (stream_loop-received r t (map received rs ++ failed e ∷ more) wrote w c.0)
      ∙ (stream_loop-failed rs ts e buf more true (sent_one wrote r t w) c.1 m
          ∙ sent_one-body wrote r t w _)
  stream_loop-failed [] (t ∷ ts) e buf more wrote w c m = absurd c
  stream_loop-failed (r ∷ rs) [] e buf more wrote w c m = absurd c

  failed-status :
      (e : E) (buf : Text) (wrote : Bool) (w : Writer)
      → g.marshal (error_chunk (g.stream_error e)) ≡ ok buf
      → (stream_failed g wrote e w).status
        ≡ some (
            status_or w.status
              (failure_status wrote [] (http_status_from_code (g.stream_error e).code)))
  unfolding stream_failed
  failed-status e buf true w m = rw (m, open_connection _ buf)
  failed-status e buf false w m = rw (m, open_connection _ buf)

  -- The HTTP status of a stream that fails behind the responses `rs`, on a connection that takes
  -- every chunk and with no options, where the responses and the error can be marshalled: that of
  -- the code that the stream error handler gives if the error comes first, though the comment of
  -- `WithStreamErrorHandler` leaves that error to the error handler of the multiplexer, and 200 if a
  -- response has been sent before it. A status that had been set before stays.
  pub stream_loop-failed_status :
      (rs : List (Option M)) (ts : List Text) (e : E) (buf : Text) (more : List (Received E M))
      (wrote : Bool) (w : Writer)
      → Chunks rs ts
      → g.marshal (error_chunk (g.stream_error e)) ≡ ok buf
      → (stream_loop g (map received rs ++ failed e ∷ more) wrote w).status
        ≡ some (
            status_or w.status
              (failure_status wrote ts (http_status_from_code (g.stream_error e).code)))
  unfolding stream_loop
  stream_loop-failed_status [] [] e buf more true w c m = failed-status e buf true w m
  stream_loop-failed_status [] [] e buf more false w c m = failed-status e buf false w m
  stream_loop-failed_status (r ∷ rs) (t ∷ ts) e buf more wrote w c m =
      ap Writer.status (stream_loop-received r t (map received rs ++ failed e ∷ more) wrote w c.0)
      ∙ (stream_loop-failed_status rs ts e buf more true (sent_one wrote r t w) c.1 m
          ∙ (ap (λ s. some (status_or s 200)) (sent_one-status wrote r t w) ∙ seen wrote))
    where
      seen :
          (b : Bool)
          → some (status_or (some (status_or w.status 200)) 200)
            ≡ some (
                status_or w.status
                  (failure_status b (t ∷ ts) (http_status_from_code (g.stream_error e).code)))
      seen true = refl
      seen false = refl
  stream_loop-failed_status [] (t ∷ ts) e buf more wrote w c m = absurd c
  stream_loop-failed_status (r ∷ rs) [] e buf more wrote w c m = absurd c
