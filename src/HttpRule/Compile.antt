-- ===== src/HttpRule/Compile.antt =====
-- internal/httprule/compile.go: templates to op codes over a pool of constants.
pub mod Pool
use grpc_gateway.Prelude.{
  ℕ, suc, ◌+◌, List, [], ◌∷◌, ◌++◌, Option, none, some, Text, text_eq, length, if◌then◌else◌, ℤ,
  pos, Option-cases, is_empty,
}
use grpc_gateway.Utilities.OpCode.{OpCode, push, lit_push, push_m, concat_n, capture, number}
use grpc_gateway.HttpRule.Template.{
  Segment, wildcard, deep_wildcard, literal, variable, Segments, nil, cons, count, Template,
}

-- The struct `op`: `num` is ignored if `str` is not empty.
pub record RawOp : Type 0 where
  pub code : OpCode
  pub str : Text
  pub num : ℕ

-- The `compile` methods of the segments.
unfoldable mutual
  pub compile_segment : Segment → List RawOp
  compile_segment wildcard = record { code = push; str = []; num = 0 } ∷ []
  compile_segment deep_wildcard = record { code = push_m; str = []; num = 0 } ∷ []
  compile_segment (literal l) = record { code = lit_push; str = l; num = 0 } ∷ []
  compile_segment (variable path segs) =
      compile_segments segs
      ++ record { code = concat_n; str = []; num = count segs }
        ∷ record { code = capture; str = path; num = 0 }
        ∷ []

  pub compile_segments : Segments → List RawOp
  compile_segments nil = []
  compile_segments (cons s ss) = compile_segment s ++ compile_segments ss

-- The struct `Template`, the compiled one.
pub record Compiled : Type 0 where
  pub version : ℤ
  pub op_codes : List ℤ
  pub pool : List Text
  pub verb : Text
  pub fields : List Text
  pub template : Text

-- `consts[s]`: the map holds the position of each text of the pool.
unfoldable pub position : Text → List Text → Option ℕ
position s [] = none
position s (x ∷ pool) =
    let later = position s pool in
    if text_eq s x then some 0 else elim later [ none ↦ none | some i ↦ some (suc i) ]

-- The pool after the operand `s`, and the number that stands for it.
unfoldable pub intern : Text → List Text → List Text × ℕ
intern s pool = elim (position s pool) [ none ↦ (pool ++ s ∷ [], length pool) | some i ↦ (pool, i) ]

-- The operand of an op, and the pool after it.
unfoldable pub operand : RawOp → List Text → List Text × ℕ
operand o pool = if is_empty o.str then (pool, o.num) else intern o.str pool

-- The loop of `Compile` over the raw ops: the op codes to append, and the pool at the end.
unfoldable pub emit : List RawOp → List Text → List ℤ × List Text
emit [] pool = ([], pool)
emit (o ∷ ops) pool =
    let (pool₁, n) = operand o pool in
    let (codes, pool₂) = emit ops pool₁ in (pos (number o.code) ∷ pos n ∷ codes, pool₂)

abbrev pub field_of : OpCode → Text → List Text
field_of capture s = s ∷ []
field_of _ s = []

-- `fields`: the operands of the captures.
unfoldable pub fields_of : List RawOp → List Text
fields_of [] = []
fields_of (o ∷ ops) = field_of o.code o.str ++ fields_of ops

unfoldable pub compile : Template → Compiled
compile t =
    let raw_ops = compile_segments t.segments in
    let (codes, pool) = emit raw_ops [] in
    record {
      version = pos 1;
      op_codes = codes;
      pool = pool;
      verb = t.verb;
      fields = fields_of raw_ops;
      template = t.template;
    }
