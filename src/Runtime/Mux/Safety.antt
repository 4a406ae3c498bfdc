-- ===== src/Runtime/Mux/Safety.antt =====
-- runtime/mux.go: `ServeHTTP` does not panic on patterns from `NewPattern`.
use grpc_gateway.Prelude.{
  ℕ, zero, suc, ◌≡◌, ◌≢◌, refl, sym, ◌∙◌, ap, subst, Bool, true, false, not, List, [], ◌∷◌, Option,
  some, none, Text, take, drop, text_eq, has_prefix, split, slash, All, Result, ok, fail, Post, inl,
  inr, ◌==◌, ℤ, Result-cases, ok_injective, if-intro,
}
use grpc_gateway.Runtime.Pattern.{
  Pattern, Bindings, MatchError, not_match, panic, match, new_pattern,
}
use grpc_gateway.Runtime.Pattern.Built.{IsBuilt, new_pattern-IsBuilt}
use grpc_gateway.Runtime.Pattern.Safety.{NoPanic, match-Post}
use grpc_gateway.Runtime.Http.{Request}
use grpc_gateway.Runtime.Mux.{
  Handler, Table, ServeMux, Outcome, crashed, handlers_of, set_handlers, handle, Stripped, stripped,
  not_found, no_component, strip, strip_at, verb_index, last_component, set_last, Routed, answered,
  unmatched, on_match, on_stripped, route, on_other, try_others, or_else, other_methods,
  or_not_found, after_route, dispatch, serve_http, is_path_length_fallback, override_method,
  handle_path, with_template, with_pattern, overrides, Template,
}
use grpc_gateway.HttpRule.Parse.{parse, ParseError}
use grpc_gateway.HttpRule.Compile.{compile}

abbrev IsNonempty : List Text → Type 0
IsNonempty [] = ⊥
IsNonempty (c ∷ cs) = Unit

abbrev StripsSafely : Stripped → Type 0
StripsSafely (stripped cs verb) = IsNonempty cs
StripsSafely not_found = Unit
StripsSafely no_component = ⊥

set_last-IsNonempty : (x : Text) (cs : List Text) → IsNonempty cs → IsNonempty (set_last x cs)
set_last-IsNonempty x [] n = n
set_last-IsNonempty x (c ∷ []) n = tt
set_last-IsNonempty x (c ∷ d ∷ cs) n = tt

strip_at-safe :
    (last verb : Text) (cs : List Text) (i : Option ℕ)
    → IsNonempty cs
    → StripsSafely (strip_at last cs verb i)
strip_at-safe last verb cs none n = n
strip_at-safe last verb cs (some zero) n = tt
strip_at-safe last verb cs (some (suc i)) n = set_last-IsNonempty (take (suc i) last) cs n

last_component-some : (cs : List Text) → IsNonempty cs → (c : Text) × (last_component cs ≡ some c)
last_component-some [] n = absurd n
last_component-some (c ∷ []) n = (c, refl)
last_component-some (c ∷ d ∷ cs) n = last_component-some (d ∷ cs) tt

strip-safe :
    (pat_verb verb : Text) (cs : List Text) → IsNonempty cs → StripsSafely (strip pat_verb cs verb)
unfolding strip
strip-safe pat_verb verb cs n =
    let (c, e) = last_component-some cs n in
    rw e (strip_at-safe c verb cs (verb_index pat_verb c) n)

module _ {H : Type 0} where
  abbrev pub BuiltHandlers : List (Handler H) → Type 0
  BuiltHandlers = All (λ h. IsBuilt h.pat)

  -- Every pattern of the table has come from `NewPattern`.
  abbrev pub BuiltTable : Table H → Type 0
  BuiltTable = All (λ e. BuiltHandlers e.1)

  abbrev RoutesSafely : Routed H → Type 0
  RoutesSafely (answered o) = o ≢ crashed
  RoutesSafely (unmatched cs verb) = Unit

  on_match-safe :
      (h : H) (m : Result MatchError Bindings) (rest : Routed H)
      → Post (λ _. Unit) NoPanic m
      → RoutesSafely rest
      → RoutesSafely (on_match h m rest)
  on_match-safe h (ok b) rest p r = cc
  on_match-safe h (fail not_match) rest p r = r
  on_match-safe h (fail panic) rest p r = absurd (p refl)

  route-safe :
      (hs : List (Handler H)) (cs : List Text) (verb : Text)
      → BuiltHandlers hs
      → IsNonempty cs
      → RoutesSafely (route hs cs verb)
  unfolding route
  route-safe [] cs verb b n = tt
  route-safe (h ∷ hs) cs verb b n =
      after (strip h.pat.verb cs verb) (strip-safe h.pat.verb verb cs n) (route-safe hs)
    where
      after :
          (s : Stripped)
          → StripsSafely s
          → ((ds : List Text) (v : Text)
              → BuiltHandlers hs
              → IsNonempty ds
              → RoutesSafely (route hs ds v))
          → RoutesSafely (on_stripped h s (route hs))
      after (stripped ds v) n' ih =
          on_match-safe h.h (match h.pat ds v) (route hs ds v) (match-Post h.pat b.0 ds v)
            (ih ds v b.1 n')
      after not_found n' ih = cc
      after no_component n' ih = absurd n'

  others-safe :
      (f form_ok : Bool) (h : H) (m : Result MatchError Bindings) (rest : Option (Outcome H))
      → Post (λ _. Unit) NoPanic m
      → rest ≢ some crashed
      → on_other f form_ok h m rest ≢ some crashed
  others-safe true true h (ok b) rest p r = cc
  others-safe true false h (ok b) rest p r = cc
  others-safe false form_ok h (ok b) rest p r = cc
  others-safe f form_ok h (fail not_match) rest p r = r
  others-safe f form_ok h (fail panic) rest p r = absurd (p refl)

  try_others-safe :
      (f form_ok : Bool) (hs : List (Handler H)) (cs : List Text) (verb : Text)
      → BuiltHandlers hs
      → try_others f form_ok hs cs verb ≢ some crashed
  unfolding try_others
  try_others-safe f form_ok [] cs verb b = cc
  try_others-safe f form_ok (h ∷ hs) cs verb b =
      others-safe f form_ok h.h (match h.pat cs verb) _ (match-Post h.pat b.0 cs verb)
        (try_others-safe f form_ok hs cs verb b.1)

  or_else-safe :
      (o p : Option (Outcome H)) → o ≢ some crashed → p ≢ some crashed → or_else o p ≢ some crashed
  or_else-safe (some a) p h k = h
  or_else-safe none p h k = k

  other_methods-safe :
      (f form_ok : Bool) (t : Table H) (meth : Text) (cs : List Text) (verb : Text)
      → BuiltTable t
      → other_methods f form_ok t meth cs verb ≢ some crashed
  unfolding other_methods
  other_methods-safe f form_ok [] meth cs verb b = cc
  other_methods-safe f form_ok ((m, hs) ∷ t) meth cs verb b =
      let ih = other_methods-safe f form_ok t meth cs verb b.1 in
      if-intro (λ o. o ≢ some crashed) (text_eq m meth) ih
        (or_else-safe _ _ (try_others-safe f form_ok hs cs verb b.0) ih)

  or_not_found-safe : (o : Option (Outcome H)) → o ≢ some crashed → or_not_found o ≢ crashed
  or_not_found-safe none h = cc
  or_not_found-safe (some o) h = λ e. h (ap some e)

  handlers_of-Built :
      (t : Table H) (meth : Text) → BuiltTable t → BuiltHandlers (handlers_of t meth)
  unfolding handlers_of
  handlers_of-Built [] meth b = tt
  handlers_of-Built ((m, hs) ∷ t) meth b =
      if-intro BuiltHandlers (text_eq m meth) b.0 (handlers_of-Built t meth b.1)

  set_handlers-Built :
      (t : Table H) (meth : Text) (hs : List (Handler H))
      → BuiltTable t
      → BuiltHandlers hs
      → BuiltTable (set_handlers t meth hs)
  unfolding set_handlers
  set_handlers-Built [] meth hs b k = (k, tt)
  set_handlers-Built ((m, old) ∷ t) meth hs b k =
      if-intro BuiltTable (text_eq m meth) (k, b.1) (b.0, set_handlers-Built t meth hs b.1 k)

  after_route-safe :
      (s : ServeMux H) (r : Request) (x : Routed H)
      → BuiltTable s.handlers
      → RoutesSafely x
      → after_route s r x ≢ crashed
  after_route-safe s r (answered o) b h = h
  after_route-safe s r (unmatched cs verb) b h =
      or_not_found-safe _
        (other_methods-safe (is_path_length_fallback s r) r.form_ok s.handlers r.method cs verb b)

  dispatch-safe :
      (s : ServeMux H) (r : Request) (cs : List Text)
      → BuiltTable s.handlers
      → IsNonempty cs
      → dispatch s r cs ≢ crashed
  unfolding dispatch
  dispatch-safe s r cs b n = after_route-safe s r _ b (
      route-safe (handlers_of s.handlers r.method) cs [] (handlers_of-Built s.handlers r.method b)
        n)

  -- `Handle` with a pattern from `NewPattern` keeps the table so.
  pub handle-Built :
      (meth : Text) (pat : Pattern) (h : H) (s : ServeMux H)
      → IsBuilt pat
      → BuiltTable s.handlers
      → BuiltTable (handle meth pat h s).handlers
  unfolding handle
  handle-Built meth pat h s p b =
      set_handlers-Built s.handlers meth _ b (p, handlers_of-Built s.handlers meth b)

split-IsNonempty : (b : ℕ) (s : Text) → IsNonempty (split b s)
unfolding split
split-IsNonempty b [] = tt
split-IsNonempty b (c ∷ s) = if-intro IsNonempty (c == b) tt (joined (split b s))
  where
    joined :
        (rest : List Text) → IsNonempty (elim rest [ [] ↦ (c ∷ []) ∷ [] | x ∷ xs ↦ (c ∷ x) ∷ xs ])
    joined [] = tt
    joined (x ∷ xs) = tt

module _ {H : Type 0} where
  -- `HandlePath` keeps every pattern of the table one that `NewPattern` has returned.
  pub handle_path-Built :
      (meth path : Text) (h : H) (s s' : ServeMux H)
      → BuiltTable s.handlers
      → handle_path meth path h s ≡ ok s'
      → BuiltTable s'.handlers
  unfolding handle_path
  handle_path-Built meth path h s s' b e = from_template (parse path) e
    where
      from_pattern :
          (version : ℤ) (ops : List ℤ) (pool : List Text) (verb : Text)
          → with_pattern meth h s (new_pattern version ops pool verb) ≡ ok s'
          → BuiltTable s'.handlers
      from_pattern version ops pool verb e =
          elim (Result-cases (new_pattern version ops pool verb)) [
            | inr (x, p) ↦ absurd (cc (e, ap (with_pattern meth h s) p))
            | inl (pat, p) ↦
                subst (λ m. BuiltTable m.handlers)
                  (ok_injective (handle meth pat h s) s' (sym (ap (with_pattern meth h s) p) ∙ e))
                  (handle-Built meth pat h s (new_pattern-IsBuilt version ops pool verb pat p) b)
          ]

      from_template :
          (t : Result ParseError Template)
          → with_template meth h s t ≡ ok s'
          → BuiltTable s'.handlers
      from_template (fail x) e = cc
      from_template (ok t) e =
          let c = compile t in from_pattern c.version c.op_codes c.pool c.verb e

  -- `ServeHTTP` does not panic when every pattern of the table has come from `NewPattern`: no
  -- handler's `Match` panics, and there is always a last component.
  pub serve_http-safe :
      (s : ServeMux H) (r : Request) → BuiltTable s.handlers → serve_http s r ≢ crashed
  unfolding serve_http
  serve_http-safe s r b =
      let cs = split b'/' (drop 1 r.path) in
      let n = split-IsNonempty b'/' (drop 1 r.path) in
      let plain = dispatch-safe s r cs b n in
      let form = dispatch-safe s (override_method r) cs b n in
      let Answers = λ (o : Outcome H). o ≢ crashed in
      if-intro Answers (not (has_prefix r.path slash)) (λ e. cc)
        (if-intro Answers (overrides s r) (if-intro Answers r.form_ok form (λ e. cc)) plain)
