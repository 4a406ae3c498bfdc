-- ===== src/Runtime/Pattern/Deep.antt =====
-- runtime/pattern.go: `NewPattern` allows one deep wildcard, wherever it stands.
use grpc_gateway.Prelude.{
  ℕ, zero, suc, ◌+◌, ◌≤◌, ◌≡◌, refl, subst, Bool, true, false, List, [], ◌∷◌, ◌++◌, Text, Result,
  ok, >>=-eq-ok, Post, ℤ, pos, negsuc, at_index, arith, inl, inr, Option-cases,
}
use grpc_gateway.Utilities.OpCode.{
  OpCode, nop, push, lit_push, push_m, concat_n, capture, invalid, decode, number,
}
use grpc_gateway.HttpRule.Template.{
  wildcard, deep_wildcard, literal, variable, Segments, nil, cons, count, Template,
}
use grpc_gateway.HttpRule.Compile.{RawOp, emit, operand, compile_segment, compile_segments, compile}
use grpc_gateway.Runtime.Pattern.{
  Pattern, PatternError, Build, concat_stack, bind_variable, build_op, build, empty_build,
  new_pattern,
}
use grpc_gateway.Runtime.Pattern.Spec.{deeps}
use grpc_gateway.Runtime.Pattern.Refines.{compiled_pattern}

abbrev as_number : Bool → ℕ
as_number true = 1
as_number false = 0

abbrev one_deep : OpCode → ℕ
one_deep push_m = 1
one_deep _ = 0

-- The pushes of many components in op codes, and in raw ops.
abbrev code_deeps : List ℤ → ℕ
code_deeps [] = 0
code_deeps (c ∷ []) = 0
code_deeps (c ∷ n ∷ ops) = one_deep (decode c) + code_deeps ops

abbrev raw_deeps : List RawOp → ℕ
raw_deeps [] = 0
raw_deeps (o ∷ ops) = one_deep o.code + raw_deeps ops

-- The flag after a round that has not failed.
abbrev Counts : OpCode → Build → Result PatternError Build → Type 0
Counts c b =
    Post (λ b₁. as_number b₁.push_m_seen ≡ as_number b.push_m_seen + one_deep c) (λ _. Unit)

concat_stack-Counts : (k : ℕ) (n : ℤ) (b : Build) → Counts concat_n b (concat_stack k n b)
concat_stack-Counts k n b = ground arith

bind_variable-Counts : (v : Text) (b : Build) → Counts capture b (bind_variable v b)
bind_variable-Counts v b = ground arith

build_op-Counts :
    (pool : List Text) (c : OpCode) (n : ℤ) (b : Build) → Counts c b (build_op pool c n b)
unfolding build_op
build_op-Counts pool nop n b = omega arith
build_op-Counts pool push n b = omega arith
build_op-Counts pool push_m n b = ground arith
build_op-Counts pool lit_push n b = elim (Option-cases (at_index pool n)) [
  | inl e ↦ rw (e, build_op) tt
  | inr (t, e) ↦ rw (e, build_op) (omega arith)
]
build_op-Counts pool concat_n (negsuc n) b = tt
build_op-Counts pool concat_n (pos zero) b = tt
build_op-Counts pool concat_n (pos (suc n)) b = concat_stack-Counts (suc n) (pos (suc n)) b
build_op-Counts pool capture n b = elim (Option-cases (at_index pool n)) [
  | inl e ↦ rw (e, build_op) tt
  | inr (v, e) ↦ rw (e, build_op) (bind_variable-Counts v b)
]
build_op-Counts pool invalid n b = tt

as_number-le : (b : Bool) → as_number b ≤ 1
as_number-le true = omega arith
as_number-le false = omega arith

build-one_deep :
    (pool : List Text) (ops : List ℤ) (b b' : Build)
    → build pool ops b ≡ ok b'
    → as_number b.push_m_seen + code_deeps ops ≤ 1
unfolding build
build-one_deep pool [] b b' e = omega (arith, as_number-le b.push_m_seen)
build-one_deep pool (c ∷ []) b b' e = cc
build-one_deep pool (c ∷ n ∷ ops) b b' e =
    let (b₁, e₁, e₂) = >>=-eq-ok (build_op pool (decode c) n b) (build pool ops) e in
    let counted : as_number b₁.push_m_seen ≡ as_number b.push_m_seen + one_deep (decode c) =
      subst (Counts (decode c) b) e₁ (build_op-Counts pool (decode c) n b) in
    omega (arith, counted, build-one_deep pool ops b₁ b' e₂)

-- A number from `Compile` is read as the op code that it was written for.
one_deep-decode : (c : OpCode) → one_deep (decode (pos (number c))) ≡ one_deep c
one_deep-decode nop = refl
one_deep-decode push = refl
one_deep-decode lit_push = refl
one_deep-decode push_m = refl
one_deep-decode concat_n = refl
one_deep-decode capture = refl
one_deep-decode invalid = refl

code_deeps-emit :
    (ops : List RawOp) (pool : List Text) → code_deeps (emit ops pool).0 ≡ raw_deeps ops
unfolding emit
code_deeps-emit [] pool = refl
code_deeps-emit (o ∷ ops) pool =
    omega (arith, one_deep-decode o.code, code_deeps-emit ops (operand o pool).0)

raw_deeps-append : (a b : List RawOp) → raw_deeps (a ++ b) ≡ raw_deeps a + raw_deeps b
raw_deeps-append [] b = omega arith
raw_deeps-append (o ∷ a) b = omega (arith, raw_deeps-append a b)

raw_deeps-compile_segments : (ss : Segments) → raw_deeps (compile_segments ss) ≡ deeps ss
unfolding compile_segments compile_segment
raw_deeps-compile_segments nil = refl
raw_deeps-compile_segments (cons wildcard ss) = omega (arith, raw_deeps-compile_segments ss)
raw_deeps-compile_segments (cons deep_wildcard ss) = omega (arith, raw_deeps-compile_segments ss)
raw_deeps-compile_segments (cons (literal l) ss) = omega (arith, raw_deeps-compile_segments ss)
raw_deeps-compile_segments (cons (variable path segs) ss) =
    let tail : List RawOp =
      record { code = concat_n; str = []; num = count segs }
      ∷ record { code = capture; str = path; num = 0 }
      ∷ [] in
    omega (
      arith,
      raw_deeps-append (compile_segments segs ++ tail) (compile_segments ss),
      raw_deeps-append (compile_segments segs) tail,
      raw_deeps-compile_segments segs,
      raw_deeps-compile_segments ss,
    )

-- A template of which `NewPattern` makes a pattern has at most one deep wildcard, inside a variable
-- or outside.
pub new_pattern-deeps :
    (t : Template) (p : Pattern) → compiled_pattern t ≡ ok p → deeps t.segments ≤ 1
unfolding new_pattern compile
new_pattern-deeps t p e =
    let codes = (emit (compile_segments t.segments) []).0 in
    let (b, built, _) =
      >>=-eq-ok (build (emit (compile_segments t.segments) []).1 codes empty_build) _ e in
    let total =
      build-one_deep (emit (compile_segments t.segments) []).1 codes empty_build b built in
    omega (
      arith,
      total,
      code_deeps-emit (compile_segments t.segments) [],
      raw_deeps-compile_segments t.segments,
    )
