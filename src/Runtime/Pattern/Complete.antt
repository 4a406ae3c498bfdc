-- ===== src/Runtime/Pattern/Complete.antt =====
-- runtime/pattern.go on internal/httprule/compile.go: what a template means, a run of its raw ops
-- reads, given the length of the tail behind its deep wildcard.
use grpc_gateway.Prelude.{
  ℕ, suc, ◌+◌, ◌-◌, ◌≤◌, ◌≡◌, refl, sym, ◌∙◌, ap, subst, true, false, List, [], ◌∷◌, ◌++◌, Text,
  length, text_eq_refl, join, slash, map, ok, arith, append_assoc, append-nil, length-append,
  take-append-length, drop-append-length, le→ltb,
}
use grpc_gateway.HttpRule.Template.{
  Segment, wildcard, deep_wildcard, literal, variable, Segments, cons, count,
}
use grpc_gateway.HttpRule.Compile.{RawOp, compile_segment, compile_segments}
use grpc_gateway.Runtime.Pattern.{Run, push_many}
use grpc_gateway.Runtime.Pattern.Exec.{exec, variable_ops}
use grpc_gateway.Runtime.Pattern.Link.{tail_width}
use grpc_gateway.Runtime.Pattern.Spec.{
  AtomReads, any, exact, many, Reads, Matches, done, atom, bound, AllAtoms, IsWellFormed, deeps,
}
use grpc_gateway.Runtime.Pattern.Atoms.{exec-append, exec_one, push_all}
use grpc_gateway.Runtime.Pattern.Sound.{captured_run, exec-variable_ops}
use grpc_gateway.Runtime.Pattern.Width.{
  Reads-width, Matches-width, tail_width-no_deep, tail_width-one_deep,
}

-- The run with `ds` still to read, and `v` pushed.
abbrev pub read_to : List Text → Text → Run → Run
read_to ds v r = record r { rest = ds; stack = v ∷ r.stack }

push_many_complete :
    (cs ds : List Text) (r : Run)
    → r.rest ≡ cs ++ ds
    → push_many (length ds) r ≡ ok (read_to ds (join slash cs) r)
push_many_complete cs ds r e =
    let n : length (cs ++ ds) - length ds ≡ length cs = omega (arith, length-append cs ds) in
    rw (e, le→ltb (length (cs ++ ds)) (length ds) (omega (arith, length-append cs ds)), n)
      (rw (take-append-length cs ds, drop-append-length cs ds))

-- A deep wildcard needs to know how much is left behind it.
abbrev Ends : ℕ → Segment → ℕ → Type 0
Ends t deep_wildcard k = t ≡ k
Ends t _ k = Unit

atom_complete :
    (t : ℕ) {s : Segment} {cs : List Text} {v : Text} (ds : List Text) (r : Run)
    → AtomReads s cs v
    → r.rest ≡ cs ++ ds
    → Ends t s (length ds)
    → exec t (compile_segment s) r ≡ ok (read_to ds v r)
unfolding compile_segment
atom_complete t ds r (any c) e k = exec_one t _ r ∙ rw e
atom_complete t ds r (exact l) e k = exec_one t _ r ∙ rw (e, text_eq_refl l)
atom_complete t ds r (many cs) e k = exec_one t _ r ∙ rw k (push_many_complete cs ds r e)

-- One stretch of ops after another.
exec-append-eq :
    (t : ℕ) (a b : List RawOp) (r m r' : Run)
    → exec t a r ≡ ok m
    → exec t b m ≡ ok r'
    → exec t (a ++ b) r ≡ ok r'
exec-append-eq t a b r m r' first later = exec-append t a b r ∙ rw first later

-- The tail that is right for these segments, with `k` components left behind them.
abbrev pub RightTail : ℕ → Segments → ℕ → Type 0
RightTail t ss k = deeps ss ≡ 1 → t ≡ tail_width false (compile_segments ss) + k

regroup :
    (cs es ds : List Text) {l fs : List Text} → l ≡ fs ++ ds → fs ≡ cs ++ es → l ≡ cs ++ (es ++ ds)
regroup cs es ds e e' = e ∙ (ap (λ l. l ++ ds) e' ∙ append_assoc cs es ds)

Reads-complete :
    (t : ℕ) {ss : Segments} {cs vs : List Text} (ds : List Text) (r : Run)
    → Reads ss cs vs
    → AllAtoms ss
    → deeps ss ≤ 1
    → RightTail t ss (length ds)
    → r.rest ≡ cs ++ ds
    → exec t (compile_segments ss) r ≡ ok (record r { rest = ds; stack = push_all vs r.stack })
unfolding compile_segments compile_segment exec tail_width
Reads-complete t ds r Reads.none a le tail e = rw e
Reads-complete t ds r (Reads.some {ss = ss} {cs = cs} {ds = es} (any c) d e') a le tail e =
    exec-append-eq t (compile_segment wildcard) (compile_segments ss) r (read_to (es ++ ds) c r) _
      (atom_complete t (es ++ ds) r (any c) (regroup cs es ds e e') tt)
      (Reads-complete t ds (read_to (es ++ ds) c r) d a.1 le (λ h. omega (arith, tail h)) refl)
Reads-complete t ds r (Reads.some {ss = ss} {cs = cs} {ds = es} (exact l) d e') a le tail e =
    exec-append-eq t (compile_segment (literal l)) (compile_segments ss) r (read_to (es ++ ds) l r)
      _ (atom_complete t (es ++ ds) r (exact l) (regroup cs es ds e e') tt)
      (Reads-complete t ds (read_to (es ++ ds) l r) d a.1 le (λ h. omega (arith, tail h)) refl)
Reads-complete t ds r (Reads.some {ss = ss} {ds = es} (many cs) d e') a le tail e =
    let v = join slash cs in
    let behind : t ≡ length (es ++ ds) =
      omega (arith, tail (omega arith), Reads-width d (omega arith) a.1, length-append es ds) in
    exec-append-eq t (compile_segment deep_wildcard) (compile_segments ss) r
      (read_to (es ++ ds) v r) _
      (atom_complete t (es ++ ds) r (many cs) (regroup cs es ds e e') behind)
      (Reads-complete t ds (read_to (es ++ ds) v r) d a.1 (omega arith) (λ h. absurd (omega arith))
        refl)

Reads-count : {ss : Segments} {cs vs : List Text} → Reads ss cs vs → length vs ≡ count ss
Reads-count Reads.none = refl
Reads-count (Reads.some a d e) = ap suc (Reads-count d)

-- The run with `ds` still to read, and the values of `caps` captured.
abbrev pub MatchedTo : ℕ → Segments → List Text → List (Text × Text) → Run → Type 0
MatchedTo t ss ds caps r =
    (r' : Run) × (exec t (compile_segments ss) r ≡ ok r')
    × (r'.rest ≡ ds)
    × (r'.captured ≡ r.captured ++ map (λ c. c.1) caps)

matched_atom :
    (t : ℕ) (s : Segment) (v : Text) (ss : Segments) (es ds : List Text) (caps : List (Text × Text))
    (r : Run)
    → exec t (compile_segment s) r ≡ ok (read_to (es ++ ds) v r)
    → MatchedTo t ss ds caps (read_to (es ++ ds) v r)
    → MatchedTo t (cons s ss) ds caps r
unfolding compile_segments
matched_atom t s v ss es ds caps r first (r', later, e₁, e₂) = (
  r',
  exec-append-eq t (compile_segment s) (compile_segments ss) r (read_to (es ++ ds) v r) r' first
      later,
  e₁,
  e₂,
)

variable_complete :
    (t : ℕ) (path : Text) {segs : Segments} {cs vs : List Text} (ds : List Text) (r : Run)
    → Reads segs cs vs
    → AllAtoms segs
    → deeps segs ≤ 1
    → RightTail t segs (length ds)
    → r.rest ≡ cs ++ ds
    → exec t (compile_segment (variable path segs)) r
      ≡ ok (captured_run vs r.stack (record r { rest = ds }))
unfolding compile_segment
variable_complete t path {segs} {vs = vs} ds r reads a le tail e =
    let m : Run = record r { rest = ds; stack = push_all vs r.stack } in
    exec-append-eq t (compile_segments segs) (variable_ops path (count segs)) r m _
      (Reads-complete t ds r reads a le tail e)
      (subst (λ k. exec t (variable_ops path k) m ≡ ok (captured_run vs r.stack m))
        (Reads-count reads) (exec-variable_ops t path vs r.stack m refl))

-- The tail that is right for a variable and what follows, is right for each.
tail-variable :
    (t : ℕ) (path : Text) (segs ss : Segments) (es ds : List Text)
    → AllAtoms segs
    → (deeps ss ≡ 0 → length es ≡ tail_width true (compile_segments ss))
    → deeps segs + deeps ss ≤ 1
    → RightTail t (cons (variable path segs) ss) (length ds)
    → RightTail t segs (length (es ++ ds)) × RightTail t ss (length ds)
unfolding tail_width compile_segments compile_segment
tail-variable t path segs ss es ds a width le tail =
    let ops = variable_ops path (count segs) ++ compile_segments ss in
    let whole : deeps segs + deeps ss ≡ 1
        → t ≡ tail_width false (compile_segments segs ++ ops) + length ds =
      λ h.
        tail h
        ∙ ap (λ l. tail_width false l + length ds)
            (append_assoc (compile_segments segs) (variable_ops path (count segs))
              (compile_segments ss)) in
    (
      λ h. omega (
        arith,
        whole (omega arith),
        tail_width-one_deep segs ops a h,
        width (omega arith),
        length-append es ds,
      ),
      λ h. omega (arith, whole (omega arith), tail_width-no_deep segs ops a (omega arith)),
    )

-- What a template means, its ops read, with at most one deep wildcard and the right tail.
pub exec_complete :
    (t : ℕ) {ss : Segments} {cs : List Text} {caps : List (Text × Text)} (ds : List Text) (r : Run)
    → Matches ss cs caps
    → IsWellFormed ss
    → deeps ss ≤ 1
    → RightTail t ss (length ds)
    → r.rest ≡ cs ++ ds
    → MatchedTo t ss ds caps r
unfolding compile_segments compile_segment exec tail_width
exec_complete t ds r done w le tail e = (r, refl, e, sym (append-nil r.captured))
exec_complete t ds r (atom {ss = ss} {cs = cs} {ds = es} {caps = caps} (any c) d e') w le tail e =
    matched_atom t wildcard c ss es ds caps r
      (atom_complete t (es ++ ds) r (any c) (regroup cs es ds e e') tt)
      (exec_complete t ds (read_to (es ++ ds) c r) d w le (λ h. omega (arith, tail h)) refl)
exec_complete t ds r (atom {ss = ss} {cs = cs} {ds = es} {caps = caps} (exact l) d e') w le tail e =
    matched_atom t (literal l) l ss es ds caps r
      (atom_complete t (es ++ ds) r (exact l) (regroup cs es ds e e') tt)
      (exec_complete t ds (read_to (es ++ ds) l r) d w.1 le (λ h. omega (arith, tail h)) refl)
exec_complete t ds r (atom {ss = ss} {ds = es} {caps = caps} (many cs) d e') w le tail e =
    let v = join slash cs in
    let behind : t ≡ length (es ++ ds) =
      omega (arith, tail (omega arith), Matches-width d (omega arith) w, length-append es ds) in
    matched_atom t deep_wildcard v ss es ds caps r
      (atom_complete t (es ++ ds) r (many cs) (regroup cs es ds e e') behind)
      (exec_complete t ds (read_to (es ++ ds) v r) d w (omega arith) (λ h. absurd (omega arith))
        refl)
exec_complete t ds r
      (bound {path = path} {segs = segs} {ss = ss} {cs = cs} {ds = es} {vs = vs} {caps = caps} reads
        d e')
      (_, _, a, w) le tail e =
    let (inner, outer) = tail-variable t path segs ss es ds a (λ h. Matches-width d h w) le tail in
    let m : Run = captured_run vs r.stack (record r { rest = es ++ ds }) in
    let (r', later, e₁, e₂) = exec_complete t ds m d w (omega arith) outer refl in
    (
      r',
      exec-append-eq t (compile_segment (variable path segs)) (compile_segments ss) r m r'
          (variable_complete t path (es ++ ds) r reads a (omega arith) inner
            (regroup cs es ds e e'))
          later,
      e₁,
      e₂ ∙ append_assoc r.captured (join slash vs ∷ []) (map (λ c. c.1) caps),
    )
