-- ===== src/Runtime/MuxDynamic.antt =====
-- runtime/mux_dynamic.go: handlers come and go behind a read-write lock, and a request is routed with
-- the lock held for reading.
pub mod Answers
pub mod Locking
pub mod Deregister
use grpc_gateway.Prelude.{
  ℕ, zero, suc, ◌+◌, ◌-◌, Bool, true, false, not, ◌&&◌, List, [], ◌∷◌, ◌++◌, Option, none, some,
  Text, codes, length, take, drop, if◌then◌else◌, text_eq, has_prefix, has_suffix, split, slash,
  is_empty, Result, ok, fail, ◌>>=◌,
}
use grpc_gateway.Runtime.Pattern.{Pattern, MatchError, not_match, panic, Bindings, match}
use grpc_gateway.Runtime.Pattern
use grpc_gateway.Runtime.Http.{Request, get}
use grpc_gateway.Runtime.Mux.{
  Handler, Table, ServeMux, Outcome, handled, routing_error, form_error, crashed, handlers_of,
  set_handlers, handle, last_component, set_last, is_path_length_fallback, override_method,
}

-- What happens to the lock, and the function that is called.
pub data Event (H : Type 0) : Type 0 where
  lock unlock rlock runlock : Event H
  calls : Outcome H → Event H

-- `h.pat.String() == pat.String()`
unfoldable pub same_string : Pattern → Pattern → Result MatchError Bool
same_string p q = do a ← Pattern.show p; b ← Pattern.show q; ok (text_eq a b)

-- `idx`; none is -1.
abbrev pub suffix_at : Text → Text → Option ℕ
suffix_at pat_verb last =
    if not (is_empty pat_verb) && has_suffix last (codes ":" ++ pat_verb)
    then some (length last - length pat_verb - 1)
    else none

module _ {H : Type 0} where
  -- `handlers[offset:idx]`
  abbrev pub slice : ℕ → ℕ → List (Handler H) → List (Handler H)
  slice offset idx hs = take (idx - offset) (drop offset hs)

  -- The loop of `HandlerDeregister` over the handlers that are left, and the append behind it.
  unfoldable pub collect :
      Pattern
      → List (Handler H)
      → List (Handler H)
      → ℕ
      → ℕ
      → List (Handler H)
      → Result MatchError (List (Handler H))
  collect pat handlers [] idx offset new = ok (new ++ drop offset handlers)
  collect pat handlers (h ∷ hs) idx offset new = do
    same ← same_string h.pat pat
    collect pat handlers hs (idx + 1) (if same then idx + 1 else offset)
        (if same then new ++ slice offset idx handlers else new)

  abbrev pub deregister_from :
      List (Handler H) → Text → Pattern → ServeMux H → Result MatchError (ServeMux H)
  deregister_from [] meth pat s = ok s
  deregister_from (h ∷ hs) meth pat s = do
    new ← collect pat (h ∷ hs) (h ∷ hs) 0 0 []
    ok (record s { handlers = set_handlers s.handlers meth new })

  -- `HandlerDeregister`
  unfoldable pub handler_deregister : Text → Pattern → ServeMux H → Result MatchError (ServeMux H)
  handler_deregister meth pat s = deregister_from (handlers_of s.handlers meth) meth pat s

  -- `Match` in the loop over the handlers: the lock is released before the handler is called. A
  -- panic leaves the lock held.
  abbrev pub tried : H → Result MatchError Bindings → List (Event H) → List (Event H)
  tried h (ok params) rest = runlock ∷ calls (handled h params) ∷ []
  tried h (fail not_match) rest = rest
  tried h (fail panic) rest = calls crashed ∷ []

  -- A round of the loop over the handlers, with `next` for the rounds behind it. The components and
  -- the verb go from round to round.
  abbrev pub round_at :
      Handler H
      → List Text
      → Text
      → Text
      → Option ℕ
      → (List Text → Text → List (Event H))
      → List (Event H)
  round_at h components verb last none next =
      tried h.h (match h.pat components verb) (next components verb)
  round_at h components verb last (some zero) next = runlock ∷ calls (routing_error 404) ∷ []
  round_at h components verb last (some (suc i)) next =
      let cut = set_last (take (suc i) last) components in
      let found = drop (suc i + 1) last in tried h.h (match h.pat cut found) (next cut found)

  abbrev pub round :
      Handler H
      → List Text
      → Text
      → Option Text
      → (List Text → Text → List (Event H))
      → List (Event H)
  round h components verb none next = calls crashed ∷ []
  round h components verb (some last) next =
      round_at h components verb last (suffix_at h.pat.verb last) next

  -- The loop over the handlers of the method, with `lookup` for what follows it.
  unfoldable pub try_handlers :
      (List Text → Text → List (Event H)) → List (Handler H) → List Text → Text → List (Event H)
  try_handlers lookup [] components verb = lookup components verb
  try_handlers lookup (h ∷ hs) components verb =
      round h components verb (last_component components) (try_handlers lookup hs)

  -- A handler of another method that matches.
  abbrev pub fall_back : Bool → Bool → H → Bindings → List (Event H)
  fall_back fallback form_ok h params =
      runlock
      ∷ calls (
          if fallback
          then (if form_ok then handled h params else form_error)
          else routing_error 405)
      ∷ []

  abbrev pub tried_other :
      Bool → Bool → H → Result MatchError Bindings → List (Event H) → List (Event H)
  tried_other fallback form_ok h (ok params) rest = fall_back fallback form_ok h params
  tried_other fallback form_ok h (fail not_match) rest = rest
  tried_other fallback form_ok h (fail panic) rest = calls crashed ∷ []

  -- The inner loop over the handlers of another method, with `rest` for what follows it.
  unfoldable pub try_method :
      Bool → Bool → List (Handler H) → List Text → Text → List (Event H) → List (Event H)
  try_method fallback form_ok [] components verb rest = rest
  try_method fallback form_ok (h ∷ hs) components verb rest =
      tried_other fallback form_ok h.h (match h.pat components verb)
        (try_method fallback form_ok hs components verb rest)

  -- The loop over the other methods, and the answer behind it.
  unfoldable pub lookup_other_methods :
      Bool → Bool → Table H → Text → List Text → Text → List (Event H)
  lookup_other_methods fallback form_ok [] meth components verb =
      runlock ∷ calls (routing_error 404) ∷ []
  lookup_other_methods fallback form_ok ((m, hs) ∷ t) meth components verb =
      let rest = lookup_other_methods fallback form_ok t meth components verb in
      if text_eq m meth then rest else try_method fallback form_ok hs components verb rest

  -- `ServeHTTP` from the lock on.
  unfoldable pub dispatch : ServeMux H → Request → List Text → List (Event H)
  dispatch s r components =
      rlock
      ∷ try_handlers
          (lookup_other_methods (is_path_length_fallback s r) r.form_ok s.handlers r.method)
          (handlers_of s.handlers r.method) components []

  -- `ServeHTTP`
  unfoldable pub serve_http : ServeMux H → Request → List (Event H)
  serve_http s r =
      if not (has_prefix r.path slash)
      then calls (routing_error 400) ∷ []
      else let components = split b'/' (drop 1 r.path) in
        if not (is_empty (get r.header (codes "X-HTTP-Method-Override")))
          && is_path_length_fallback s r
        then (if r.form_ok
            then dispatch s (override_method r) components
            else calls form_error ∷ [])
        else dispatch s r components

  -- `Handle`: the deferred unlock follows the write.
  unfoldable pub handle_dynamic : Text → Pattern → H → ServeMux H → ServeMux H × List (Event H)
  handle_dynamic meth pat h s = (handle meth pat h s, lock ∷ unlock ∷ [])
