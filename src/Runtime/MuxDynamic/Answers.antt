-- ===== src/Runtime/MuxDynamic/Answers.antt =====
-- runtime/mux_dynamic.go against runtime/mux.go: the answers of the loops.
use grpc_gateway.Prelude.{
  ℕ, zero, suc, ◌≡◌, refl, ◌∙◌, ap, Bool, List, [], ◌∷◌, Option, none, some, Text, drop, take, ◌+◌,
  Result, ok, fail, text_eq, Bool-cases, inl, inr,
}
use grpc_gateway.Runtime.Http.{Request}
use grpc_gateway.Runtime.Pattern.{Bindings, MatchError, not_match, panic, match}
use grpc_gateway.Runtime.Mux
use grpc_gateway.Runtime.Mux.{
  Handler, Table, ServeMux, Outcome, handled, routing_error, form_error, crashed, Routed, answered,
  unmatched, or_not_found, or_else, on_match, on_stripped, strip, strip_last, route, try_others,
  other_methods, overrides, override_method, is_path_length_fallback, handlers_of, last_component,
  set_last, verb_index, on_other,
}
use grpc_gateway.Runtime.MuxDynamic.{
  Event, calls, tried, round_at, round, suffix_at, try_handlers, tried_other, try_method,
  lookup_other_methods, dispatch,
}

module _ {H : Type 0} where
  -- The answers in a run, in order.
  abbrev pub answers : List (Event H) → List (Outcome H)
  answers [] = []
  answers (calls o ∷ es) = o ∷ answers es
  answers (_ ∷ es) = answers es

  -- The run gives this one answer.
  abbrev Gives : List (Event H) → Outcome H → Type 0
  Gives es o = answers es ≡ o ∷ []

  tried_other-Gives :
      (f form_ok : Bool) (h : H) (m : Result MatchError Bindings) (rest : List (Event H))
      (later o : Option (Outcome H))
      → Gives rest (or_not_found (or_else later o))
      → Gives
          (tried_other f form_ok h m rest)
          (or_not_found (or_else (on_other f form_ok h m later) o))
  tried_other-Gives f form_ok h (ok b) rest later o e = refl
  tried_other-Gives f form_ok h (fail not_match) rest later o e = e
  tried_other-Gives f form_ok h (fail panic) rest later o e = refl

  try_method-Gives :
      (f form_ok : Bool) (hs : List (Handler H)) (cs : List Text) (verb : Text)
      (rest : List (Event H)) (o : Option (Outcome H))
      → Gives rest (or_not_found o)
      → Gives
          (try_method f form_ok hs cs verb rest)
          (or_not_found (or_else (try_others f form_ok hs cs verb) o))
  unfolding try_method try_others
  try_method-Gives f form_ok [] cs verb rest o e = e
  try_method-Gives f form_ok (h ∷ hs) cs verb rest o e =
      tried_other-Gives f form_ok h.h (match h.pat cs verb) _ _ o
        (try_method-Gives f form_ok hs cs verb rest o e)

  lookup-Gives :
      (f form_ok : Bool) (t : Table H) (meth : Text) (cs : List Text) (verb : Text)
      → Gives
          (lookup_other_methods f form_ok t meth cs verb)
          (or_not_found (other_methods f form_ok t meth cs verb))
  unfolding lookup_other_methods other_methods
  lookup-Gives f form_ok [] meth cs verb = refl
  lookup-Gives f form_ok ((m, hs) ∷ t) meth cs verb =
      let ih = lookup-Gives f form_ok t meth cs verb in
      elim (Bool-cases (text_eq m meth)) [
        | inl e ↦ rw e ih
        | inr e ↦ rw e (try_method-Gives f form_ok hs cs verb _ _ ih)
      ]

  -- What the plain multiplexer does behind its loop over the handlers.
  abbrev finish : (List Text → Text → Option (Outcome H)) → Routed H → Outcome H
  finish others (answered o) = o
  finish others (unmatched cs verb) = or_not_found (others cs verb)

  tried-Gives :
      (others : List Text → Text → Option (Outcome H)) (h : H) (m : Result MatchError Bindings)
      (rest : List (Event H)) (later : Routed H)
      → Gives rest (finish others later)
      → Gives (tried h m rest) (finish others (on_match h m later))
  tried-Gives others h (ok b) rest later e = refl
  tried-Gives others h (fail not_match) rest later e = e
  tried-Gives others h (fail panic) rest later e = refl

  round_at-Gives :
      (others : List Text → Text → Option (Outcome H)) (h : Handler H) (cs : List Text)
      (verb last : Text) (idx : Option ℕ) (next : List Text → Text → List (Event H))
      (later : List Text → Text → Routed H)
      → ((ds : List Text) (v : Text) → Gives (next ds v) (finish others (later ds v)))
      → Gives
          (round_at h cs verb last idx next)
          (finish others (on_stripped h (Mux.strip_at last cs verb idx) later))
  round_at-Gives others h cs verb last none next later e =
      tried-Gives others h.h (match h.pat cs verb) _ _ (e cs verb)
  round_at-Gives others h cs verb last (some zero) next later e = refl
  round_at-Gives others h cs verb last (some (suc i)) next later e =
      let cut = set_last (take (suc i) last) cs in
      let found = drop (suc i + 1) last in
      tried-Gives others h.h (match h.pat cut found) (next cut found) (later cut found)
        (e cut found)

  round-Gives :
      (others : List Text → Text → Option (Outcome H)) (h : Handler H) (cs : List Text)
      (verb : Text) (last : Option Text) (next : List Text → Text → List (Event H))
      (later : List Text → Text → Routed H)
      → ((ds : List Text) (v : Text) → Gives (next ds v) (finish others (later ds v)))
      → Gives
          (round h cs verb last next)
          (finish others (on_stripped h (strip_last h.pat.verb cs verb last) later))
  round-Gives others h cs verb none next later e = refl
  round-Gives others h cs verb (some last) next later e =
      round_at-Gives others h cs verb last (suffix_at h.pat.verb last) next later e

  try_handlers-Gives :
      (lookup : List Text → Text → List (Event H)) (others : List Text → Text → Option (Outcome H))
      → ((ds : List Text) (v : Text) → Gives (lookup ds v) (or_not_found (others ds v)))
      → (hs : List (Handler H)) (cs : List Text) (verb : Text)
      → Gives (try_handlers lookup hs cs verb) (finish others (route hs cs verb))
  unfolding try_handlers route strip
  try_handlers-Gives lookup others e [] cs verb = e cs verb
  try_handlers-Gives lookup others e (h ∷ hs) cs verb =
      round-Gives others h cs verb (last_component cs) (try_handlers lookup hs) (route hs)
        (try_handlers-Gives lookup others e hs)

  finish-after_route :
      (s : ServeMux H) (r : Request) (x : Routed H)
      → finish (other_methods (is_path_length_fallback s r) r.form_ok s.handlers r.method) x
        ≡ Mux.after_route s r x
  finish-after_route s r (answered o) = refl
  finish-after_route s r (unmatched cs verb) = refl

  pub answers-dispatch :
      (s : ServeMux H) (r : Request) (cs : List Text)
      → answers (dispatch s r cs) ≡ Mux.dispatch s r cs ∷ []
  unfolding dispatch Mux.dispatch
  answers-dispatch s r cs =
      try_handlers-Gives _
        (other_methods (is_path_length_fallback s r) r.form_ok s.handlers r.method)
        (lookup-Gives (is_path_length_fallback s r) r.form_ok s.handlers r.method)
        (handlers_of s.handlers r.method) cs []
      ∙ ap (λ o. o ∷ []) (finish-after_route s r (route (handlers_of s.handlers r.method) cs []))
