-- ===== src/Runtime/Pattern/Valid.antt =====
-- internal/httprule/compile.go: the raw ops of a well-formed template are valid for `NewPattern`, with at
-- most one deep wildcard and enough texts on the stack for each op.
use grpc_gateway.Prelude.{
  ℕ, zero, suc, ◌+◌, ◌-◌, ◌≤◌, ◌≡◌, refl, subst, Bool, true, false, List, ◌++◌, arith, append_assoc,
}
use grpc_gateway.HttpRule.Template.{
  wildcard, deep_wildcard, literal, variable, Segments, nil, cons, count,
}
use grpc_gateway.HttpRule.Compile.{RawOp, compile_segment, compile_segments}
use grpc_gateway.Runtime.Pattern.Link.{Valid}
use grpc_gateway.Runtime.Pattern.Exec.{variable_ops}
use grpc_gateway.Runtime.Pattern.Spec.{AllAtoms, IsWellFormed, deeps}

abbrev pub seen_after : Bool → ℕ → Bool
seen_after seen zero = seen
seen_after seen (suc n) = true

-- A deep wildcard at most, and none behind the first.
abbrev pub OneDeep : Bool → ℕ → Type 0
OneDeep seen n = (n ≤ 1) × (seen ≡ true → n ≡ 0)

not_seen : (seen : Bool) (n : ℕ) → OneDeep seen (suc n) → seen ≡ false
not_seen true n one = absurd (omega (arith, one.1 refl))
not_seen false n one = refl

seen_after-true : (n : ℕ) → true ≡ seen_after true n
seen_after-true zero = refl
seen_after-true (suc n) = refl

OneDeep-first : (seen : Bool) (n m : ℕ) → OneDeep seen (n + m) → OneDeep seen n
OneDeep-first seen n m one = (omega (arith, one.0), λ h. omega (arith, one.1 h))

OneDeep-behind : (seen : Bool) (n m : ℕ) → OneDeep seen (n + m) → OneDeep (seen_after seen n) m
OneDeep-behind seen zero m one = (omega (arith, one.0), λ h. omega (arith, one.1 h))
OneDeep-behind seen (suc n) m one = (omega (arith, one.0), λ _. omega (arith, one.0))

Valid-atoms :
    (ss : Segments) (ops : List RawOp) (seen : Bool) (d : ℕ)
    → AllAtoms ss
    → OneDeep seen (deeps ss)
    → Valid ops (seen_after seen (deeps ss)) (d + count ss)
    → Valid (compile_segments ss ++ ops) seen d
unfolding compile_segments compile_segment
Valid-atoms nil ops seen d a one v = subst (λ k. Valid ops seen k) (omega arith) v
Valid-atoms (cons wildcard ss) ops seen d a one v = (
  refl,
  Valid-atoms ss ops seen (d + 1) a.1 one
      (subst (λ k. Valid ops (seen_after seen (deeps ss)) k) (omega arith) v),
)
Valid-atoms (cons deep_wildcard ss) ops seen d a one v = (
  not_seen seen (deeps ss) one,
  Valid-atoms ss ops true (d + 1) a.1 (omega arith, λ _. omega arith)
      (subst (λ b. Valid ops b (d + 1 + count ss)) (seen_after-true (deeps ss))
        (subst (λ k. Valid ops true k) (omega arith) v)),
)
Valid-atoms (cons (literal l) ss) ops seen d a one v = (
  a.0,
  Valid-atoms ss ops seen (d + 1) a.1 one
      (subst (λ k. Valid ops (seen_after seen (deeps ss)) k) (omega arith) v),
)
Valid-atoms (cons (variable p ts) ss) ops seen d a one v = absurd a.0

pub Valid-template :
    (ss : Segments) (seen : Bool) (d : ℕ)
    → IsWellFormed ss
    → OneDeep seen (deeps ss)
    → Valid (compile_segments ss) seen d
unfolding compile_segments compile_segment
Valid-template nil seen d w one = tt
Valid-template (cons wildcard ss) seen d w one = (refl, Valid-template ss seen (d + 1) w one)
Valid-template (cons deep_wildcard ss) seen d w one =
    (not_seen seen (deeps ss) one, Valid-template ss true (d + 1) w (omega arith, λ _. omega arith))
Valid-template (cons (literal l) ss) seen d w one = (w.0, Valid-template ss seen (d + 1) w.1 one)
Valid-template (cons (variable path segs) ss) seen d (named, filled, a, w) one = rw append_assoc (
    Valid-atoms segs (variable_ops path (count segs) ++ compile_segments ss) seen d a
      (OneDeep-first seen (deeps segs) (deeps ss) one)
      (
        refl,
        filled,
        omega arith,
        (
          named,
          omega arith,
          Valid-template ss (seen_after seen (deeps segs)) (d + count segs - count segs + 1 - 1) w
              (OneDeep-behind seen (deeps segs) (deeps ss) one),
        ),
      ))
