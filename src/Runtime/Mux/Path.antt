-- ===== src/Runtime/Mux/Path.antt =====
-- runtime/mux.go: `HandlePath`, from the text of a template to the requests that its handler takes.
use grpc_gateway.Prelude.{◌≡◌, ◌↔◌, ◌≤◌, refl, List, Text, ok, fail, Result}
use grpc_gateway.HttpRule.Template.{Template}
use grpc_gateway.HttpRule.Parse.{ParseError, parse}
use grpc_gateway.HttpRule.Parse.WellFormed.{parse-IsWellFormed}
use grpc_gateway.Runtime.Pattern.{Pattern, PatternError, Bindings, match}
use grpc_gateway.Runtime.Pattern.Spec.{deeps}
use grpc_gateway.Runtime.Pattern.Refines.{compiled_pattern, Means, match_iff, new_pattern-compile}
use grpc_gateway.Runtime.Pattern.Deep.{new_pattern-deeps}
use grpc_gateway.Runtime.Mux.{ServeMux, handle, handle_path, with_template, with_pattern}

-- `p` is a pattern for the template that `tmpl` is the text of.
abbrev pub Stands : Text → Template → Pattern → Type 0
Stands tmpl t p =
    (parse tmpl ≡ ok t)
    × ((components : List Text) (verb : Text) (b : Bindings)
        → (match p components verb ≡ ok b) ↔ Means t components verb b)

module _ {H : Type 0} (meth : Text) (h : H) (s : ServeMux H) where
  with_pattern-handle :
      (r : Result PatternError Pattern) (s' : ServeMux H)
      → with_pattern meth h s r ≡ ok s'
      → (p : Pattern) × (r ≡ ok p) × (s' ≡ handle meth p h s)
  with_pattern-handle (ok p) s' e = (p, refl, cc)
  with_pattern-handle (fail x) s' e = cc

  with_template-handle :
      (r : Result ParseError Template) (s' : ServeMux H)
      → with_template meth h s r ≡ ok s'
      → (t : Template) × (p : Pattern) × (r ≡ ok t)
        × (compiled_pattern t ≡ ok p)
        × (s' ≡ handle meth p h s)
  with_template-handle (ok t) s' e =
      let (p, made, put) = with_pattern-handle (compiled_pattern t) s' e in (t, p, refl, made, put)
  with_template-handle (fail x) s' e = cc

  -- When `HandlePath` returns no error, the text is that of a template, and the handler is put in
  -- front of those of the method with a pattern that matches a path exactly when that template means
  -- that the path is matched, with the bindings that it means.
  pub handle_path-Stands :
      (tmpl : Text) (s' : ServeMux H)
      → handle_path meth tmpl h s ≡ ok s'
      → (t : Template) × (p : Pattern) × (s' ≡ handle meth p h s) × Stands tmpl t p
  unfolding handle_path
  handle_path-Stands tmpl s' e =
      let (t, p, parsed, made, put) = with_template-handle (parse tmpl) s' e in
      (
        t,
        p,
        put,
        (
          parsed,
          match_iff t p (parse-IsWellFormed tmpl t parsed) (new_pattern-deeps t p made) made,
        ),
      )

  -- `HandlePath` takes every text that is parsed to a template with at most one deep wildcard.
  pub handle_path-parse :
      (tmpl : Text) (t : Template)
      → parse tmpl ≡ ok t
      → deeps t.segments ≤ 1
      → (p : Pattern) × (handle_path meth tmpl h s ≡ ok (handle meth p h s))
  unfolding handle_path
  handle_path-parse tmpl t parsed one =
      let (p, made) = new_pattern-compile t (parse-IsWellFormed tmpl t parsed) one in
      (p, rw parsed (rw made refl))
