-- ===== src/Runtime/Pattern/Width.antt =====
-- runtime/pattern.go on internal/httprule/compile.go: the length of the tail behind a deep wildcard
-- is the number of components that the segments behind it read.
use grpc_gateway.Prelude.{
  ◌+◌, ◌≡◌, refl, true, false, List, [], ◌∷◌, ◌++◌, Text, length, arith, length-append,
}
use grpc_gateway.HttpRule.Template.{
  wildcard, deep_wildcard, literal, variable, Segments, nil, cons, count,
}
use grpc_gateway.HttpRule.Compile.{RawOp, compile_segment, compile_segments}
use grpc_gateway.Utilities.OpCode.{OpCode, push_m}
use grpc_gateway.Runtime.Pattern.Exec.{variable_ops}
use grpc_gateway.Runtime.Pattern.Link.{tail_width, next_seen}
use grpc_gateway.Runtime.Pattern.Spec.{
  any, exact, many, Reads, Matches, done, atom, bound, AllAtoms, IsWellFormed, deeps,
}

next_seen-true : (c : OpCode) → next_seen c true ≡ true
next_seen-true push_m = refl
next_seen-true _ = refl

pub tail_width-append_true :
    (a b : List RawOp) → tail_width true (a ++ b) ≡ tail_width true a + tail_width true b
unfolding tail_width
tail_width-append_true [] b = omega arith
tail_width-append_true (o ∷ a) b =
    rw (next_seen-true o.code) (omega (arith, tail_width-append_true a b))

-- Without a deep wildcard there is no tail.
pub tail_width-no_deep :
    (ss : Segments) (ops : List RawOp)
    → AllAtoms ss
    → deeps ss ≡ 0
    → tail_width false (compile_segments ss ++ ops) ≡ tail_width false ops
unfolding tail_width compile_segments compile_segment
tail_width-no_deep nil ops a h = refl
tail_width-no_deep (cons wildcard ss) ops a h = omega (arith, tail_width-no_deep ss ops a.1 h)
tail_width-no_deep (cons deep_wildcard ss) ops a h = absurd (omega arith)
tail_width-no_deep (cons (literal l) ss) ops a h = omega (arith, tail_width-no_deep ss ops a.1 h)
tail_width-no_deep (cons (variable p ts) ss) ops a h = absurd a.0

-- Behind the one deep wildcard everything counts.
pub tail_width-one_deep :
    (ss : Segments) (ops : List RawOp)
    → AllAtoms ss
    → deeps ss ≡ 1
    → tail_width false (compile_segments ss ++ ops)
      ≡ tail_width false (compile_segments ss) + tail_width true ops
unfolding tail_width compile_segments compile_segment
tail_width-one_deep nil ops a h = absurd (omega arith)
tail_width-one_deep (cons wildcard ss) ops a h = omega (arith, tail_width-one_deep ss ops a.1 h)
tail_width-one_deep (cons deep_wildcard ss) ops a h =
    omega (arith, tail_width-append_true (compile_segments ss) ops)
tail_width-one_deep (cons (literal l) ss) ops a h = omega (arith, tail_width-one_deep ss ops a.1 h)
tail_width-one_deep (cons (variable p ts) ss) ops a h = absurd a.0

pub Reads-width :
    {ss : Segments} {cs vs : List Text}
    → Reads ss cs vs
    → deeps ss ≡ 0
    → AllAtoms ss
    → length cs ≡ tail_width true (compile_segments ss)
unfolding tail_width compile_segments compile_segment
Reads-width Reads.none h a = refl
Reads-width (Reads.some (any c) d e) h a = rw e (omega (arith, Reads-width d h a.1))
Reads-width (Reads.some (exact l) d e) h a = rw e (omega (arith, Reads-width d h a.1))
Reads-width (Reads.some (many cs) d e) h a = absurd (omega arith)

-- Without a deep wildcard a template reads so many components.
pub Matches-width :
    {ss : Segments} {cs : List Text} {caps : List (Text × Text)}
    → Matches ss cs caps
    → deeps ss ≡ 0
    → IsWellFormed ss
    → length cs ≡ tail_width true (compile_segments ss)
unfolding tail_width compile_segments compile_segment
Matches-width done h w = refl
Matches-width (atom (any c) d e) h w = rw e (omega (arith, Matches-width d h w))
Matches-width (atom (exact l) d e) h w = rw e (omega (arith, Matches-width d h w.1))
Matches-width (atom (many cs) d e) h w = absurd (omega arith)
Matches-width (bound {path = path} {segs = segs} {ss = ss} {cs = cs} {ds = ds} reads d e) h w =
    let ops = compile_segments segs in
    rw e (
      omega (
        arith,
        length-append cs ds,
        tail_width-append_true (compile_segment (variable path segs)) (compile_segments ss),
        tail_width-append_true ops (variable_ops path (count segs)),
        Reads-width reads (omega arith) w.2,
        Matches-width d (omega arith) w.3,
      ))
