-- ===== src/Runtime/Mux.antt =====
-- runtime/mux.go: the table of handlers, and the routing of a request in `ServeHTTP`.
-- A `HandlerFunc` is a value of a type `H`. The result says which function `ServeHTTP` calls last.
pub mod Path
pub mod Table
pub mod Verb
pub mod Dispatch
pub mod Safety
use grpc_gateway.Prelude.{
  ℕ, zero, suc, ◌+◌, ◌-◌, Bool, true, false, not, List, [], ◌∷◌, ◌++◌, ◌&&◌, ◌||◌, Option, none,
  some, Text, codes, length, take, drop, ◌==◌, if◌then◌else◌, text_eq, has_prefix, has_suffix,
  split, slash, is_empty, Result, ok, fail, ◌>>=◌,
}
use grpc_gateway.Runtime.Pattern.{
  Pattern, Bindings, MatchError, not_match, panic, match, PatternError, new_pattern,
}
use grpc_gateway.Runtime.Http.{Header, Request, get, to_upper}
use grpc_gateway.HttpRule.Parse.{ParseError, parse}
use grpc_gateway.HttpRule.Compile.{compile}
use grpc_gateway.HttpRule.Template.{Template}

-- The struct `handler`
pub record Handler (H : Type 0) : Type 0 where
  pub pat : Pattern
  pub h : H

-- `handlers`: for each method its handlers. The association list stands for the map, in the order
-- in which it happens to be walked.
abbrev pub Table : Type 0 → Type 0
Table H = List (Text × List (Handler H))

pub record ServeMux (H : Type 0) : Type 0 where
  pub handlers : Table H
  pub disable_path_length_fallback : Bool

-- `handled` calls the handler with the path parameters, `routing_error` the routing error handler
-- with a status, `form_error` the error handler with `InvalidArgument`. `crashed` is a panic.
pub data Outcome (H : Type 0) : Type 0 where
  handled : H → Bindings → Outcome H
  routing_error : ℕ → Outcome H
  form_error : Outcome H
  crashed : Outcome H

module _ {H : Type 0} where
  -- `s.handlers[meth]`
  unfoldable pub handlers_of : Table H → Text → List (Handler H)
  handlers_of [] meth = []
  handlers_of ((m, hs) ∷ t) meth = if text_eq m meth then hs else handlers_of t meth

  -- `s.handlers[meth] = hs`
  unfoldable pub set_handlers : Table H → Text → List (Handler H) → Table H
  set_handlers [] meth hs = (meth, hs) ∷ []
  set_handlers ((m, old) ∷ t) meth hs =
      if text_eq m meth then (m, hs) ∷ t else (m, old) ∷ set_handlers t meth hs

  -- `Handle`
  unfoldable pub handle : Text → Pattern → H → ServeMux H → ServeMux H
  handle meth pat h s = record s {
    handlers =
        set_handlers s.handlers meth (record { pat = pat; h = h } ∷ handlers_of s.handlers meth);
  }

pub data PathError : Type 0 where
  parsing : ParseError → PathError
  creating : PatternError → PathError

module _ {H : Type 0} where
  abbrev with_pattern :
      Text → H → ServeMux H → Result PatternError Pattern → Result PathError (ServeMux H)
  with_pattern meth h s (fail e) = fail (creating e)
  with_pattern meth h s (ok pat) = ok (handle meth pat h s)

  abbrev with_template :
      Text → H → ServeMux H → Result ParseError Template → Result PathError (ServeMux H)
  with_template meth h s (fail e) = fail (parsing e)
  with_template meth h s (ok t) =
      let c = compile t in with_pattern meth h s (new_pattern c.version c.op_codes c.pool c.verb)

  -- `HandlePath`
  unfoldable pub handle_path : Text → Text → H → ServeMux H → Result PathError (ServeMux H)
  handle_path meth path_pattern h s = with_template meth h s (parse path_pattern)

-- `components[l-1]`
abbrev pub last_component : List Text → Option Text
last_component [] = none
last_component (c ∷ []) = some c
last_component (c ∷ d ∷ cs) = last_component (d ∷ cs)

-- `components[l-1] = x`
abbrev pub set_last : Text → List Text → List Text
set_last x [] = []
set_last x (c ∷ []) = x ∷ []
set_last x (c ∷ d ∷ cs) = c ∷ set_last x (d ∷ cs)

-- The components and the verb with which a pattern is tried; `not_found` ends the search, and
-- `no_component` is the panic of `components[l-1]` on none.
pub data Stripped : Type 0 where
  stripped : List Text → Text → Stripped
  not_found : Stripped
  no_component : Stripped

-- `idx`; none is -1.
abbrev pub verb_index : Text → Text → Option ℕ
verb_index pat_verb last =
    if not (is_empty pat_verb) && has_suffix last (codes ":" ++ pat_verb)
    then some (length last - length pat_verb - 1)
    else none

abbrev pub strip_at : Text → List Text → Text → Option ℕ → Stripped
strip_at last components verb none = stripped components verb
strip_at last components verb (some zero) = not_found
strip_at last components verb (some (suc i)) =
    stripped (set_last (take (suc i) last) components) (drop (suc i + 1) last)

abbrev pub strip_last : Text → List Text → Text → Option Text → Stripped
strip_last pat_verb components verb none = no_component
strip_last pat_verb components verb (some last) =
    strip_at last components verb (verb_index pat_verb last)

-- The statements of the loop of `ServeHTTP` before `Match`.
unfoldable pub strip : Text → List Text → Text → Stripped
strip pat_verb components verb = strip_last pat_verb components verb (last_component components)

-- What the loop over the handlers of the method does: it answers, or it leaves the components and
-- the verb as its last round made them.
pub data Routed (H : Type 0) : Type 0 where
  answered : Outcome H → Routed H
  unmatched : List Text → Text → Routed H

abbrev pub or_else {ℓ} : {A : Type ℓ} → Option A → Option A → Option A
or_else (some a) o = some a
or_else none o = o

abbrev pub override_method : Request → Request
override_method r = record r { method = to_upper (get r.header (codes "X-HTTP-Method-Override")) }

module _ {H : Type 0} where
  abbrev pub on_match : H → Result MatchError Bindings → Routed H → Routed H
  on_match h (ok params) rest = answered (handled h params)
  on_match h (fail not_match) rest = rest
  on_match h (fail panic) rest = answered crashed

  abbrev pub on_stripped : Handler H → Stripped → (List Text → Text → Routed H) → Routed H
  on_stripped h (stripped cs verb) rest = on_match h.h (match h.pat cs verb) (rest cs verb)
  on_stripped h not_found rest = answered (routing_error 404)
  on_stripped h no_component rest = answered crashed

  -- The loop over the handlers of the method. The components and the verb go from round to round.
  unfoldable pub route : List (Handler H) → List Text → Text → Routed H
  route [] components verb = unmatched components verb
  route (h ∷ hs) components verb = on_stripped h (strip h.pat.verb components verb) (route hs)

  -- A handler of another method that matches.
  abbrev pub answer_other : Bool → Bool → H → Bindings → Outcome H
  answer_other fallback form_ok h params =
      if fallback then (if form_ok then handled h params else form_error) else routing_error 405

  abbrev pub on_other :
      Bool → Bool → H → Result MatchError Bindings → Option (Outcome H) → Option (Outcome H)
  on_other fallback form_ok h (ok params) rest = some (answer_other fallback form_ok h params)
  on_other fallback form_ok h (fail not_match) rest = rest
  on_other fallback form_ok h (fail panic) rest = some crashed

  unfoldable pub try_others : Bool → Bool → List (Handler H) → List Text → Text → Option (Outcome H)
  try_others fallback form_ok [] components verb = none
  try_others fallback form_ok (h ∷ hs) components verb =
      on_other fallback form_ok h.h (match h.pat components verb)
        (try_others fallback form_ok hs components verb)

  -- The loop over the other methods.
  unfoldable pub other_methods :
      Bool → Bool → Table H → Text → List Text → Text → Option (Outcome H)
  other_methods fallback form_ok [] meth components verb = none
  other_methods fallback form_ok ((m, hs) ∷ t) meth components verb =
      let rest = other_methods fallback form_ok t meth components verb in
      if text_eq m meth then rest else or_else (try_others fallback form_ok hs components verb) rest

  -- `isPathLengthFallback`
  unfoldable pub is_path_length_fallback : ServeMux H → Request → Bool
  is_path_length_fallback s r =
      not s.disable_path_length_fallback
      && text_eq r.method (codes "POST")
      && text_eq (get r.header (codes "Content-Type")) (codes "application/x-www-form-urlencoded")

  abbrev pub or_not_found : Option (Outcome H) → Outcome H
  or_not_found (some o) = o
  or_not_found none = routing_error 404

  abbrev pub after_route : ServeMux H → Request → Routed H → Outcome H
  after_route s r (answered o) = o
  after_route s r (unmatched components verb) =
      or_not_found
        (other_methods (is_path_length_fallback s r) r.form_ok s.handlers r.method components verb)

  -- Both loops of `ServeHTTP`.
  unfoldable pub dispatch : ServeMux H → Request → List Text → Outcome H
  dispatch s r components = after_route s r (route (handlers_of s.handlers r.method) components [])

  -- The method override of a form that is sent by POST.
  abbrev pub overrides : ServeMux H → Request → Bool
  overrides s r =
      not (is_empty (get r.header (codes "X-HTTP-Method-Override"))) && is_path_length_fallback s r

  -- `ServeHTTP`
  unfoldable pub serve_http : ServeMux H → Request → Outcome H
  serve_http s r =
      if not (has_prefix r.path slash)
      then routing_error 400
      else let components = split b'/' (drop 1 r.path) in
        if overrides s r
        then (if r.form_ok then dispatch s (override_method r) components else form_error)
        else dispatch s r components
