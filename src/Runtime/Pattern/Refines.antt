-- ===== src/Runtime/Pattern/Refines.antt =====
-- The refinement: a pattern made from a compiled template (internal/httprule/compile.go, then
-- runtime/pattern.go) matches the paths that the template means, with the bindings that it means.
use grpc_gateway.Prelude.{
  ℕ, suc, ◌≤◌, ◌≡◌, ◌↔◌, refl, sym, ◌∙◌, ap, ap₂, subst, false, List, [], ◌∷◌, ◌++◌, Text, length,
  replicate, map, Result, ok, fail, ◌>>=◌, >>=-eq-ok, ok_injective, All, bind_congr, arith,
  append_assoc, append-nil,
}
use grpc_gateway.Utilities.OpCode.{OpCode, capture, nop}
use grpc_gateway.HttpRule.Template.{
  wildcard, deep_wildcard, literal, variable, Segments, nil, cons, count, Template,
}
use grpc_gateway.HttpRule.Compile.{
  RawOp, field_of, fields_of, emit, compile_segment, compile_segments, compile,
}
use grpc_gateway.HttpRule.Compile.Pool.{InPool, emit_lem}
use grpc_gateway.Runtime.Pattern.{
  PatternError, Pattern, empty_build, pattern_of, new_pattern, MatchError, Run, start_run, Bindings,
  bind_all, components_for, run, finish, match,
}
use grpc_gateway.Runtime.Pattern.Link.{link, tail_width, build-encode}
use grpc_gateway.Runtime.Pattern.Exec.{
  exec, spread_all, captures_left, run-link, variable_ops, room,
}
use grpc_gateway.Runtime.Pattern.Spec.{
  any, exact, many, Matches, done, atom, bound, AllAtoms, IsWellFormed, deeps,
}
use grpc_gateway.Runtime.Pattern.Sound.{exec_sound}
use grpc_gateway.Runtime.Pattern.Complete.{exec_complete}
use grpc_gateway.Runtime.Pattern.Valid.{Valid-template}

-- What the program makes of a template: the op codes of `Compile`, given to `NewPattern`.
abbrev pub compiled_pattern : Template → Result PatternError Pattern
compiled_pattern t = let c = compile t in new_pattern c.version c.op_codes c.pool c.verb

-- The pattern of a template, by its parts.
pub record Linked (t : Template) (p : Pattern) : Type 0 where
  pub ops : p.ops ≡ link p.pool 0 (compile_segments t.segments)
  pub vars : p.vars ≡ fields_of (compile_segments t.segments)
  pub tail : p.tail_len ≡ tail_width false (compile_segments t.segments)
  pub verb : p.verb ≡ t.verb
  pub found : All (InPool p.pool) (compile_segments t.segments)

pub link_template :
    (t : Template)
    → IsWellFormed t.segments
    → deeps t.segments ≤ 1
    → (p : Pattern) × (compiled_pattern t ≡ ok p) × Linked t p
unfolding new_pattern compile
link_template t w one =
    let ops = compile_segments t.segments in
    let (pool, _, codes, found) = emit_lem ops [] in
    let valid = Valid-template t.segments false 0 w (one, λ h. absurd (ground arith)) in
    let (b, built, typed, vars, tail) = build-encode (emit ops []).1 ops empty_build valid found in
    (
      pattern_of (emit ops []).1 t.verb b,
      rw (codes, built),
      record { ops = typed; vars = vars; tail = tail ∙ omega arith; verb = refl; found = found },
    )

-- `Compile` and `NewPattern` agree: a well-formed template with at most one deep wildcard gives a
-- pattern.
pub new_pattern-compile :
    (t : Template)
    → IsWellFormed t.segments
    → deeps t.segments ≤ 1
    → (p : Pattern) × (compiled_pattern t ≡ ok p)
new_pattern-compile t w one = let (p, e, _) = link_template t w one in (p, e)

length-field :
    (c : OpCode) (str : Text) (rest : List Text) (n : ℕ)
    → length rest ≡ n
    → length (field_of c str ++ rest) ≡ room c n
length-field capture str rest n h = ap suc h
length-field nop str rest n h = h
length-field _ str rest n h = h

length-fields_of : (ops : List RawOp) → length (fields_of ops) ≡ captures_left ops
unfolding fields_of
length-fields_of [] = refl
length-fields_of (o ∷ ops) = length-field o.code o.str _ _ (length-fields_of ops)

abbrev init : List Text → Run
init cs = record { rest = cs; stack = []; captured = [] }

finish-spread :
    (vars : List Text) (m : Result MatchError Run)
    → (spread_all 0 m >>= finish vars) ≡ (m >>= finish vars)
finish-spread vars (ok r) = rw append-nil
finish-spread vars (fail e) = refl

module _ (t : Template) (p : Pattern) (l : Linked t p) (w : IsWellFormed t.segments)
    (one : deeps t.segments ≤ 1) where
  run-exec :
      (ds : List Text)
      → run p p.ops (start_run p ds)
        ≡ spread_all 0 (exec p.tail_len (compile_segments t.segments) (init ds))
  run-exec ds =
      ap₂ (λ ops n. run p ops (record { rest = ds; stack = []; captured = replicate n [] })) l.ops
        (ap length l.vars ∙ length-fields_of (compile_segments t.segments))
      ∙ run-link p (compile_segments t.segments) false 0 (init ds)
          (Valid-template t.segments false 0 w (one, λ h. absurd (ground arith))) l.found

  -- `Match`, with the raw ops in place of the typed ones.
  match-exec :
      (cs : List Text) (verb : Text)
      → match p cs verb ≡ (
          components_for t.verb cs verb >>= λ ds.
          exec p.tail_len (compile_segments t.segments) (init ds)
          >>= finish (fields_of (compile_segments t.segments)))
  unfolding match
  match-exec cs verb =
      ap (λ v. components_for v cs verb >>= λ ds. run p p.ops (start_run p ds) >>= finish p.vars)
        l.verb
      ∙ bind_congr (components_for t.verb cs verb) λ ds.
        ap (λ m. m >>= finish p.vars) (run-exec ds)
        ∙ (finish-spread p.vars (exec p.tail_len (compile_segments t.segments) (init ds))
            ∙ ap (λ vars. exec p.tail_len (compile_segments t.segments) (init ds) >>= finish vars)
                l.vars)

fields_of-atoms :
    (ss : Segments) (ops : List RawOp)
    → AllAtoms ss
    → fields_of (compile_segments ss ++ ops) ≡ fields_of ops
unfolding fields_of compile_segments compile_segment
fields_of-atoms nil ops a = refl
fields_of-atoms (cons wildcard ss) ops a = fields_of-atoms ss ops a.1
fields_of-atoms (cons deep_wildcard ss) ops a = fields_of-atoms ss ops a.1
fields_of-atoms (cons (literal l) ss) ops a = fields_of-atoms ss ops a.1
fields_of-atoms (cons (variable path segs) ss) ops a = absurd a.0

-- The names of the variables are the fields of the compiled template.
pub Matches-fields :
    {ss : Segments} {cs : List Text} {caps : List (Text × Text)}
    → Matches ss cs caps
    → IsWellFormed ss
    → map (λ c. c.0) caps ≡ fields_of (compile_segments ss)
unfolding fields_of compile_segments compile_segment
Matches-fields done w = refl
Matches-fields (atom (any c) d e) w = Matches-fields d w
Matches-fields (atom (exact l) d e) w = Matches-fields d w.1
Matches-fields (atom (many cs) d e) w = Matches-fields d w
Matches-fields (bound {path = path} {segs = segs} {ss = ss} reads d e) w =
    ap (◌∷◌ path) (Matches-fields d w.3)
    ∙ (sym (fields_of-atoms segs (variable_ops path (count segs) ++ compile_segments ss) w.2)
        ∙ ap fields_of (
            sym (
              append_assoc (compile_segments segs) (variable_ops path (count segs))
                (compile_segments ss))))

-- What the template means: the path, with the verb taken off or put back, is read by its segments,
-- and the bindings are those of its variables in order, the last one of a name winning.
abbrev pub Means : Template → List Text → Text → Bindings → Type 0
Means t components verb b =
    (cs : List Text) × (caps : List (Text × Text)) × (components_for t.verb components verb ≡ ok cs)
    × Matches t.segments cs caps
    × (bind_all (map (λ c. c.0) caps) (map (λ c. c.1) caps) [] ≡ ok b)

finish-ok :
    (vars : List Text) (r : Run) (b : Bindings)
    → finish vars r ≡ ok b
    → (r.rest ≡ []) × (bind_all vars r.captured [] ≡ ok b)
finish-ok vars r b h = finish_rest r.rest refl
  where
    finish_rest :
        (l : List Text) → r.rest ≡ l → (r.rest ≡ []) × (bind_all vars r.captured [] ≡ ok b)
    finish_rest [] e = (e, rw e at h)
    finish_rest (c ∷ cs) e = absurd (ground arith)

module _ (t : Template) (p : Pattern) (l : Linked t p) (w : IsWellFormed t.segments)
    (one : deeps t.segments ≤ 1) where
  match-Means :
      (components : List Text) (verb : Text) (b : Bindings)
      → match p components verb ≡ ok b
      → Means t components verb b
  match-Means components verb b h =
      let (ds, start, rest) =
        >>=-eq-ok (components_for t.verb components verb) _
          (sym (match-exec t p l w one components verb) ∙ h) in
      let (r, ran, ended) =
        >>=-eq-ok (exec p.tail_len (compile_segments t.segments) (init ds))
          (finish (fields_of (compile_segments t.segments))) rest in
      let (cs, caps, m, e₁, e₂) = exec_sound p.tail_len t.segments (init ds) r w ran in
      let (all_read, binds) = finish-ok (fields_of (compile_segments t.segments)) r b ended in
      let same : cs ≡ ds = sym (append-nil cs) ∙ (ap (λ x. cs ++ x) (sym all_read) ∙ sym e₁) in
      (
        ds,
        caps,
        start,
        subst (λ x. Matches t.segments x caps) same m,
        ap₂ (λ ks vs. bind_all ks vs []) (Matches-fields m w) (sym e₂) ∙ binds,
      )

  Means-match :
      (components : List Text) (verb : Text) (b : Bindings)
      → Means t components verb b
      → match p components verb ≡ ok b
  Means-match components verb b (cs, caps, start, m, binds) =
      let (r, ran, e₁, e₂) =
        exec_complete p.tail_len [] (init cs) m w one (λ h. l.tail ∙ omega arith)
          (sym (append-nil cs)) in
      match-exec t p l w one components verb
      ∙ rw (start, ran, e₁) (ap₂ (λ ks vs. bind_all ks vs []) (sym (Matches-fields m w)) e₂ ∙ binds)

-- The pattern that `NewPattern` makes of the op codes of a well-formed template with at most one deep
-- wildcard matches a path exactly when the template means that the path is matched, and with the
-- bindings that the template means.
pub match_iff :
    (t : Template) (p : Pattern)
    → IsWellFormed t.segments
    → deeps t.segments ≤ 1
    → compiled_pattern t ≡ ok p
    → (components : List Text) (verb : Text) (b : Bindings)
    → (match p components verb ≡ ok b) ↔ Means t components verb b
match_iff t p w one e components verb b =
    let (q, e', l) = link_template t w one in
    let linked = subst (Linked t) (ok_injective q p (sym e' ∙ e)) l in
    (match-Means t p linked w one components verb b, Means-match t p linked w one components verb b)
