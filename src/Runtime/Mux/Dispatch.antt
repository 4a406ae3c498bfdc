-- ===== src/Runtime/Mux/Dispatch.antt =====
-- runtime/mux.go: which handler answers, and with which status a request is refused.
use grpc_gateway.Prelude.{
  ◌≡◌, ◌⊎◌, refl, ◌∙◌, Bool, false, List, [], ◌∷◌, ◌++◌, some, none, Text, All, text_eq,
  text_eq_refl, Result, ok, fail, Bool-cases, inl, inr, Post,
}
use grpc_gateway.Runtime.Pattern.{Pattern, Bindings, MatchError, not_match, panic, match}
use grpc_gateway.Runtime.Pattern.Built.{IsBuilt}
use grpc_gateway.Runtime.Pattern.Safety.{NoPanic, match-Post}
use grpc_gateway.Runtime.Mux.Safety.{BuiltHandlers, BuiltTable}
use grpc_gateway.Runtime.Mux.Table.{handlers_of-handle}
use grpc_gateway.Runtime.Http.{Request}
use grpc_gateway.Runtime.Mux.{
  Handler, Table, ServeMux, handled, routing_error, handlers_of, handle, strip, stripped, answered,
  unmatched, route, try_others, other_methods, dispatch, is_path_length_fallback,
}

module _ {H : Type 0} (cs : List Text) (verb : Text) where
  -- The handler is no candidate: it has no verb, and its pattern does not match.
  abbrev pub Misses : Handler H → Type 0
  Misses h = match h.pat cs verb ≡ fail not_match

  abbrev pub Skips : Handler H → Type 0
  Skips h = (strip h.pat.verb cs verb ≡ stripped cs verb) × Misses h

  -- The handlers before the first one that matches are passed over.
  pub route-Skips :
      (before after : List (Handler H))
      → All Skips before
      → route (before ++ after) cs verb ≡ route after cs verb
  unfolding route
  route-Skips [] after skips = refl
  route-Skips (h ∷ hs) after skips = rw (skips.0.0, skips.0.1) (route-Skips hs after skips.1)

  pub route-first :
      (before after : List (Handler H)) (h : Handler H) (b : Bindings)
      → All Skips before
      → strip h.pat.verb cs verb ≡ stripped cs verb
      → match h.pat cs verb ≡ ok b
      → route (before ++ h ∷ after) cs verb ≡ answered (handled h.h b)
  unfolding route
  route-first before after h b skips s m = route-Skips before (h ∷ after) skips ∙ rw (s, m) refl

  try_others-Misses :
      (f form_ok : Bool) (hs : List (Handler H))
      → All Misses hs
      → try_others f form_ok hs cs verb ≡ none
  unfolding try_others
  try_others-Misses f form_ok [] a = refl
  try_others-Misses f form_ok (h ∷ hs) a = rw a.0 (try_others-Misses f form_ok hs a.1)

  abbrev pub Hits : Handler H → Type 0
  Hits h = (b : Bindings) × (match h.pat cs verb ≡ ok b)

  -- A handler in the list that matches.
  abbrev pub SomeHits : List (Handler H) → Type 0
  SomeHits [] = ⊥
  SomeHits (h ∷ hs) = Hits h ⊎ SomeHits hs

  -- A handler of another method than `meth` matches.
  abbrev pub HitsElsewhere : Text → Table H → Type 0
  HitsElsewhere meth [] = ⊥
  HitsElsewhere meth ((m, hs) ∷ t) = ((text_eq m meth ≡ false) × SomeHits hs) ⊎ HitsElsewhere meth t

  -- No handler of another method matches.
  abbrev pub MissesElsewhere : Text → Table H → Type 0
  MissesElsewhere meth [] = Unit
  MissesElsewhere meth ((m, hs) ∷ t) =
      (text_eq m meth ≡ false → All Misses hs) × MissesElsewhere meth t

  hit_or_miss : (h : Handler H) → IsBuilt h.pat → Hits h ⊎ Misses h
  hit_or_miss h k = decide (match h.pat cs verb) refl (match-Post h.pat k cs verb)
    where
      decide :
          (m : Result MatchError Bindings)
          → match h.pat cs verb ≡ m
          → Post (λ _. Unit) NoPanic m
          → Hits h ⊎ Misses h
      decide (ok b) e p = inl (b, e)
      decide (fail not_match) e p = inr e
      decide (fail panic) e p = absurd (p refl)

  try_others-Hits :
      (form_ok : Bool) (hs : List (Handler H))
      → BuiltHandlers hs
      → ((try_others false form_ok hs cs verb ≡ some (routing_error 405)) × SomeHits hs)
        ⊎ ((try_others false form_ok hs cs verb ≡ none) × All Misses hs)
  unfolding try_others
  try_others-Hits form_ok [] k = inr (refl, tt)
  try_others-Hits form_ok (h ∷ hs) k = elim (hit_or_miss h k.0) [
    | inl (b, e) ↦ inl (rw e refl, inl (b, e))
    | inr e ↦ elim (try_others-Hits form_ok hs k.1) [
      | inl (t, x) ↦ inl (rw e t, inr x)
      | inr (t, a) ↦ inr (rw e t, (e, a))
    ]
  ]

  other_methods-Hits :
      (form_ok : Bool) (meth : Text) (t : Table H)
      → BuiltTable t
      → ((other_methods false form_ok t meth cs verb ≡ some (routing_error 405))
          × HitsElsewhere meth t)
        ⊎ ((other_methods false form_ok t meth cs verb ≡ none) × MissesElsewhere meth t)
  unfolding other_methods
  other_methods-Hits form_ok meth [] k = inr (refl, tt)
  other_methods-Hits form_ok meth ((m, hs) ∷ t) k =
      let later = other_methods-Hits form_ok meth t k.1 in
      elim (Bool-cases (text_eq m meth)) [
        | inl same ↦ elim later [
          | inl (e, x) ↦ inl (rw same e, inr x)
          | inr (e, x) ↦ inr (rw same e, ((λ other. absurd (cc (same, other))), x))
        ]
        | inr other ↦ elim (try_others-Hits form_ok hs k.0) [
          | inl (e, x) ↦ inl (rw (other, e) refl, inl (other, x))
          | inr (e, a) ↦ elim later [
            | inl (f, x) ↦ inl (rw (other, e) f, inr x)
            | inr (f, x) ↦ inr (rw (other, e) f, ((λ _. a), x))
          ]
        ]
      ]

module _ {H : Type 0} where
  -- A request that no handler of its method takes, and that is not a form to fall back on, is
  -- answered by 405 if a handler of another method matches what is left of the path, and by 404 if
  -- none does. All patterns are from `NewPattern`.
  pub dispatch-unmatched :
      (s : ServeMux H) (r : Request) (cs ds : List Text) (verb : Text)
      → BuiltTable s.handlers
      → is_path_length_fallback s r ≡ false
      → route (handlers_of s.handlers r.method) cs [] ≡ unmatched ds verb
      → ((dispatch s r cs ≡ routing_error 405) × HitsElsewhere ds verb r.method s.handlers)
        ⊎ ((dispatch s r cs ≡ routing_error 404) × MissesElsewhere ds verb r.method s.handlers)
  unfolding dispatch
  dispatch-unmatched s r cs ds verb k plain e =
      elim (other_methods-Hits ds verb r.form_ok r.method s.handlers k) [
        | inl (o, x) ↦ inl (rw (e, plain, o) refl, x)
        | inr (o, x) ↦ inr (rw (e, plain, o) refl, x)
      ]

  -- A handler that has been registered last is tried first: it answers every request of its method
  -- that its pattern matches, whatever was registered before.
  pub dispatch-handle :
      (s : ServeMux H) (meth : Text) (pat : Pattern) (h : H) (r : Request) (cs ds : List Text)
      (verb : Text) (b : Bindings)
      → r.method ≡ meth
      → strip pat.verb cs [] ≡ stripped ds verb
      → match pat ds verb ≡ ok b
      → dispatch (handle meth pat h s) r cs ≡ handled h b
  unfolding dispatch route
  dispatch-handle s meth pat h r cs ds verb b same cut m =
      let e : handlers_of (handle meth pat h s).handlers r.method
          ≡ record { pat = pat; h = h } ∷ handlers_of s.handlers meth =
        handlers_of-handle meth r.method pat h s ∙ rw (same, text_eq_refl meth) refl in
      rw (e, cut, m) refl
