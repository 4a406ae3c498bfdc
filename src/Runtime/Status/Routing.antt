-- ===== src/Runtime/Status/Routing.antt =====
-- runtime/mux.go with the default handlers of runtime/errors.go: the HTTP status of a routing error.
use grpc_gateway.Prelude.{
  ℕ, ◌≡◌, refl, Bool, true, false, not, List, [], ◌∷◌, Option, some, none, Text, if◌then◌else◌,
  if-intro, ◌==◌, Result, ok, fail, split, drop, slash, has_prefix, subst,
}
use grpc_gateway.Runtime.Http.{Request}
use grpc_gateway.Runtime.Pattern.{Bindings, MatchError, not_match, panic, match}
use grpc_gateway.Runtime.Mux.{
  Handler, Table, ServeMux, Outcome, routing_error, handlers_of, Stripped, stripped, not_found,
  no_component, strip, Routed, answered, unmatched, on_match, on_stripped, route, on_other,
  try_others, or_else, other_methods, or_not_found, after_route, dispatch, overrides,
  override_method, serve_http, is_path_length_fallback,
}
use grpc_gateway.Runtime.Writer.{Writer}
use grpc_gateway.Runtime.Forward.{
  ServerMetadata, Gateway, status_value, default_http_error_handler, default_routing_error_handler,
}
use grpc_gateway.Runtime.Forward.Errors.{
  Sent, error_status, error_body, default_http_error_handler-Sent,
}
use grpc_gateway.Runtime.Status.{Status, http_status_from_code, routing_status}

-- The HTTP status of the default routing error handler and the default error handler for the
-- status `n` of `ServeHTTP`.
abbrev default_status : ℕ → ℕ
default_status n = http_status_from_code (routing_status n).code

-- 405 turns into 501, and the other statuses stay.
abbrev pub expected_status : ℕ → ℕ
expected_status n = if n == 405 then 501 else n

-- The status of the response: 500 when the error cannot be marshalled.
abbrev pub refusal_status : {E : Type 0} → ℕ → Result E Text → ℕ
refusal_status n (ok buf) = expected_status n
refusal_status n (fail e) = 500

default-404 : default_status 404 ≡ 404
unfolding http_status_from_code routing_status
default-404 = refl

default-400 : default_status 400 ≡ 400
unfolding http_status_from_code routing_status
default-400 = refl

default-405 : default_status 405 ≡ 501
unfolding http_status_from_code routing_status
default-405 = refl

module _ {H : Type 0} where
  abbrev Answers : Outcome H → Type 0
  Answers (routing_error n) = default_status n ≡ expected_status n
  Answers _ = Unit

  abbrev AnswersSome : Option (Outcome H) → Type 0
  AnswersSome none = Unit
  AnswersSome (some o) = Answers o

  abbrev AnswersRouted : Routed H → Type 0
  AnswersRouted (unmatched cs verb) = Unit
  AnswersRouted (answered o) = Answers o

  on_match-Answers :
      (h : H) (m : Result MatchError Bindings) (rest : Routed H)
      → AnswersRouted rest
      → AnswersRouted (on_match h m rest)
  on_match-Answers h (ok b) rest a = tt
  on_match-Answers h (fail not_match) rest a = a
  on_match-Answers h (fail panic) rest a = tt

  route-Answers :
      (hs : List (Handler H)) (cs : List Text) (verb : Text) → AnswersRouted (route hs cs verb)
  unfolding route
  route-Answers [] cs verb = tt
  route-Answers (h ∷ hs) cs verb = after (strip h.pat.verb cs verb) (route-Answers hs)
    where
      after :
          (s : Stripped)
          → ((ds : List Text) (v : Text) → AnswersRouted (route hs ds v))
          → AnswersRouted (on_stripped h s (route hs))
      after (stripped ds v) ih = on_match-Answers h.h (match h.pat ds v) (route hs ds v) (ih ds v)
      after not_found ih = default-404
      after no_component ih = tt

  on_other-Answers :
      (f form_ok : Bool) (h : H) (m : Result MatchError Bindings) (rest : Option (Outcome H))
      → AnswersSome rest
      → AnswersSome (on_other f form_ok h m rest)
  on_other-Answers true true h (ok b) rest a = tt
  on_other-Answers true false h (ok b) rest a = tt
  on_other-Answers false form_ok h (ok b) rest a = default-405
  on_other-Answers f form_ok h (fail not_match) rest a = a
  on_other-Answers f form_ok h (fail panic) rest a = tt

  try_others-Answers :
      (f form_ok : Bool) (hs : List (Handler H)) (cs : List Text) (verb : Text)
      → AnswersSome (try_others f form_ok hs cs verb)
  unfolding try_others
  try_others-Answers f form_ok [] cs verb = tt
  try_others-Answers f form_ok (h ∷ hs) cs verb =
      on_other-Answers f form_ok h.h (match h.pat cs verb) _
        (try_others-Answers f form_ok hs cs verb)

  or_else-Answers :
      (o p : Option (Outcome H)) → AnswersSome o → AnswersSome p → AnswersSome (or_else o p)
  or_else-Answers (some o) p a b = a
  or_else-Answers none p a b = b

  other_methods-Answers :
      (f form_ok : Bool) (t : Table H) (meth : Text) (cs : List Text) (verb : Text)
      → AnswersSome (other_methods f form_ok t meth cs verb)
  unfolding other_methods
  other_methods-Answers f form_ok [] meth cs verb = tt
  other_methods-Answers f form_ok ((m, hs) ∷ t) meth cs verb =
      let ih = other_methods-Answers f form_ok t meth cs verb in
      if-intro AnswersSome _ ih (or_else-Answers _ _ (try_others-Answers f form_ok hs cs verb) ih)

  or_not_found-Answers : (o : Option (Outcome H)) → AnswersSome o → Answers (or_not_found o)
  or_not_found-Answers (some o) a = a
  or_not_found-Answers none a = default-404

  after_route-Answers :
      (s : ServeMux H) (r : Request) (x : Routed H) → AnswersRouted x → Answers (after_route s r x)
  after_route-Answers s r (answered o) a = a
  after_route-Answers s r (unmatched cs verb) a =
      or_not_found-Answers _
        (other_methods-Answers (is_path_length_fallback s r) r.form_ok s.handlers r.method cs verb)

  dispatch-Answers : (s : ServeMux H) (r : Request) (cs : List Text) → Answers (dispatch s r cs)
  unfolding dispatch
  dispatch-Answers s r cs =
      after_route-Answers s r _ (route-Answers (handlers_of s.handlers r.method) cs [])

  serve_http-Answers : (s : ServeMux H) (r : Request) → Answers (serve_http s r)
  unfolding serve_http
  serve_http-Answers s r =
      let cs = split b'/' (drop 1 r.path) in
      if-intro Answers (not (has_prefix r.path slash)) default-400 (
        if-intro Answers (overrides s r)
          (if-intro Answers r.form_ok (dispatch-Answers s (override_method r) cs) tt)
          (dispatch-Answers s r cs))

module _ {E M : Type 0} (g : Gateway E M)
    (open_connection : (body : List Text) (buf : Text) → g.accepts body buf ≡ true)
    (status_error : Status → E) (converts : (s : Status) → g.convert (status_error s) ≡ s) where
  refused :
      (n : ℕ) (m : Result E Text)
      → default_status n ≡ expected_status n
      → error_status g open_connection (routing_status n) m ≡ refusal_status n m
  refused n (ok buf) e = e
  refused n (fail x) e = refl

  -- With the default handlers, on a connection that takes every chunk: a request that `ServeHTTP`
  -- refuses by a status is answered by one chunk with that status, except that 405 turns into 501 on
  -- the way through the gRPC codes; if the error cannot be marshalled, by the fallback text with 500.
  -- `status.Convert` is assumed to undo `status.Error`. A status that has been sent before stays.
  pub serve_http-status :
      {H : Type 0} (s : ServeMux H) (r : Request) (n : ℕ) (md : Option ServerMetadata) (w : Writer)
      → serve_http s r ≡ routing_error n
      → Sent
          (refusal_status n (g.marshal (status_value (routing_status n))))
          (error_body g open_connection (g.marshal (status_value (routing_status n))))
          w
          (default_routing_error_handler g status_error (default_http_error_handler g md r) n w)
  unfolding default_routing_error_handler
  serve_http-status s r n md w e =
      let st = routing_status n in
      let sent = default_http_error_handler-Sent g open_connection md r (status_error st) w in
      let w' = default_http_error_handler g md r (status_error st) w in
      subst (λ k. Sent k (error_body g open_connection (g.marshal (status_value st))) w w')
        (refused n (g.marshal (status_value st)) (subst Answers e (serve_http-Answers s r)))
        (subst
          (λ x.
            Sent (error_status g open_connection x (g.marshal (status_value x)))
              (error_body g open_connection (g.marshal (status_value x))) w w')
          (converts st) sent)
