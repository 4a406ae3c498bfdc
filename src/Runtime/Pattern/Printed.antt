-- ===== src/Runtime/Pattern/Printed.antt =====
-- runtime/pattern.go and internal/httprule/types.go: `String` of a pattern and `String` of the
-- template that it was compiled from.
use grpc_gateway.Prelude.{
  ℕ, suc, ◌≡◌, refl, sym, ◌∙◌, ap, ap₂, subst, List, [], ◌∷◌, ◌++◌, Text, length, some, join, slash,
  reverse, ok, ◌>>=◌, is_empty, if◌then◌else◌, codes, All, append_assoc, get_elem?-length,
  length-append, arith,
}
use mathlib.Core.List.{reverse-reverse}
use grpc_gateway.Utilities.OpCode.{capture, concat_n}
use grpc_gateway.HttpRule.Template.{
  Segment, wildcard, deep_wildcard, literal, variable, Segments, nil, cons, count, Template,
  show_segment, show_each,
}
use grpc_gateway.HttpRule.Template as Template_text
use grpc_gateway.HttpRule.Compile.{RawOp, fields_of, compile_segment, compile_segments}
use grpc_gateway.HttpRule.Compile.Pool.{InPool}
use grpc_gateway.Runtime.Pattern.{Pattern, show_op, show_ops, show, show_with_verb}
use grpc_gateway.Runtime.Pattern.Atoms.{push_all, concat_top-push_all}
use grpc_gateway.Runtime.Pattern.Link.{link}
use grpc_gateway.Runtime.Pattern.Refines.{Linked, compiled_pattern, link_template}
use grpc_gateway.Runtime.Pattern.Deep.{new_pattern-deeps}
use grpc_gateway.Runtime.Pattern.Spec.{IsAtom, AllAtoms, IsWellFormed}
use grpc_gateway.Prelude.{get_elem?}
use grpc_gateway.Prelude.{ok_injective}
use grpc_gateway.Runtime.Pattern.Atoms.{push_all-eq}

All-split : (P : RawOp → Type 0) (xs ys : List RawOp) → All P (xs ++ ys) → All P xs × All P ys
All-split P [] ys a = (tt, a)
All-split P (x ∷ xs) ys (h, a) = let (b, c) = All-split P xs ys a in ((h, b), c)

length-show_each : (segs : Segments) → length (show_each segs) ≡ count segs
unfolding show_each
length-show_each nil = refl
length-show_each (cons s segs) = ap suc (length-show_each segs)

-- Atoms capture nothing.
fields_of-atom :
    (s : Segment) (ops : List RawOp)
    → IsAtom s
    → fields_of (compile_segment s ++ ops) ≡ fields_of ops
unfolding fields_of compile_segment
fields_of-atom wildcard ops a = refl
fields_of-atom deep_wildcard ops a = refl
fields_of-atom (literal l) ops a = refl
fields_of-atom (variable path segs) ops a = absurd a

fields_of-atoms :
    (segs : Segments) (ops : List RawOp)
    → AllAtoms segs
    → fields_of (compile_segments segs ++ ops) ≡ fields_of ops
unfolding compile_segments
fields_of-atoms nil ops a = refl
fields_of-atoms (cons s segs) ops (h, a) =
    ap fields_of (append_assoc (compile_segment s) (compile_segments segs) ops)
    ∙ fields_of-atom s (compile_segments segs ++ ops) h
    ∙ fields_of-atoms segs ops a

module _ (p : Pattern) where
  show_ops-atom :
      (s : Segment) (k : ℕ) (ops : List RawOp) (stack : List Text)
      → IsAtom s
      → All (InPool p.pool) (compile_segment s)
      → show_ops p (link p.pool k (compile_segment s ++ ops)) stack
        ≡ show_ops p (link p.pool k ops) (show_segment s ∷ stack)
  unfolding show_ops show_op link compile_segment show_segment
  show_ops-atom wildcard k ops stack a f = refl
  show_ops-atom deep_wildcard k ops stack a f = refl
  show_ops-atom (literal l) k ops stack a f = rw (a, f.0 a) refl
  show_ops-atom (variable path segs) k ops stack a f = absurd a

  show_ops-atoms :
      (segs : Segments) (k : ℕ) (ops : List RawOp) (stack : List Text)
      → AllAtoms segs
      → All (InPool p.pool) (compile_segments segs)
      → show_ops p (link p.pool k (compile_segments segs ++ ops)) stack
        ≡ show_ops p (link p.pool k ops) (push_all (show_each segs) stack)
  unfolding compile_segments show_each
  show_ops-atoms nil k ops stack a f = refl
  show_ops-atoms (cons s segs) k ops stack (h, a) f =
      let (f₁, f₂) = All-split (InPool p.pool) (compile_segment s) (compile_segments segs) f in
      ap (λ l. show_ops p (link p.pool k l) stack)
        (append_assoc (compile_segment s) (compile_segments segs) ops)
      ∙ show_ops-atom s k (compile_segments segs ++ ops) stack h f₁
      ∙ show_ops-atoms segs k ops (show_segment s ∷ stack) a f₂

  -- The two ops behind the segments of a variable.
  show_ops-capture :
      (path : Text) (segs : Segments) (front rest : List Text) (ops : List RawOp)
      (stack : List Text)
      → p.vars ≡ front ++ path ∷ rest
      → show_ops p
          (link p.pool (length front) (
            record { code = concat_n; str = []; num = count segs }
            ∷ record { code = capture; str = path; num = 0 }
            ∷ ops))
          (push_all (show_each segs) stack)
        ≡ show_ops p
            (link p.pool (suc (length front)) ops)
            (show_segment (variable path segs) ∷ stack)
  unfolding show_ops show_op link show_segment
  show_ops-capture path segs front rest ops stack e =
      let found : get_elem? p.vars (length front) ≡ some path =
        ap (λ v. get_elem? v (length front)) e ∙ get_elem?-length front path rest in
      rw (← length-show_each segs) (rw (concat_top-push_all (show_each segs) stack) (rw found refl))

  -- An atom, and the segments behind it.
  show_first :
      (s : Segment) (segs : Segments) (front stack : List Text)
      → IsAtom s
      → All (InPool p.pool) (compile_segments (cons s segs))
      → p.vars ≡ front ++ fields_of (compile_segments (cons s segs))
      → (All (InPool p.pool) (compile_segments segs)
          → p.vars ≡ front ++ fields_of (compile_segments segs)
          → show_ops p (link p.pool (length front) (compile_segments segs)) (show_segment s ∷ stack)
            ≡ ok (push_all (show_each segs) (show_segment s ∷ stack)))
      → show_ops p (link p.pool (length front) (compile_segments (cons s segs))) stack
        ≡ ok (push_all (show_each (cons s segs)) stack)
  unfolding show_each compile_segments
  show_first s segs front stack a f e later =
      let (f₁, f₂) = All-split (InPool p.pool) (compile_segment s) (compile_segments segs) f in
      show_ops-atom s (length front) (compile_segments segs) stack a f₁
      ∙ later f₂ (e ∙ ap (λ l. front ++ l) (fields_of-atom s (compile_segments segs) a))

  show_variable :
      (path : Text) (inner segs : Segments) (front stack : List Text)
      → AllAtoms inner
      → All (InPool p.pool) (compile_segments (cons (variable path inner) segs))
      → p.vars ≡ front ++ fields_of (compile_segments (cons (variable path inner) segs))
      → (All (InPool p.pool) (compile_segments segs)
          → p.vars ≡ (front ++ path ∷ []) ++ fields_of (compile_segments segs)
          → show_ops p
              (link p.pool (length (front ++ path ∷ [])) (compile_segments segs))
              (show_segment (variable path inner) ∷ stack)
            ≡ ok (push_all (show_each segs) (show_segment (variable path inner) ∷ stack)))
      → show_ops p
          (link p.pool (length front) (compile_segments (cons (variable path inner) segs)))
          stack
        ≡ ok (push_all (show_each (cons (variable path inner) segs)) stack)
  unfolding show_each compile_segments fields_of
  show_variable path inner segs front stack a f e later =
      let both : List RawOp =
        record { code = concat_n; str = []; num = count inner }
        ∷ record { code = capture; str = path; num = 0 }
        ∷ [] in
      let (f₁, f₂) =
        All-split (InPool p.pool) (compile_segments inner ++ both) (compile_segments segs) f in
      let vars : p.vars ≡ front ++ path ∷ fields_of (compile_segments segs) =
        e
        ∙ ap (λ l. front ++ fields_of l)
            (append_assoc (compile_segments inner) both (compile_segments segs))
        ∙ ap (λ l. front ++ l) (fields_of-atoms inner (both ++ compile_segments segs) a) in
      let length_snoc : suc (length front) ≡ length (front ++ path ∷ []) =
        omega (arith, length-append front (path ∷ [])) in
      ap (λ l. show_ops p (link p.pool (length front) l) stack)
        (append_assoc (compile_segments inner) both (compile_segments segs))
      ∙ show_ops-atoms inner (length front) (both ++ compile_segments segs) stack a
          (All-split (InPool p.pool) (compile_segments inner) both f₁).0
      ∙ show_ops-capture path inner front (fields_of (compile_segments segs))
          (compile_segments segs) stack vars
      ∙ ap
          (λ k.
            show_ops p (link p.pool k (compile_segments segs))
              (show_segment (variable path inner) ∷ stack))
          length_snoc
      ∙ later f₂ (vars ∙ sym (append_assoc front (path ∷ []) (fields_of (compile_segments segs))))

  show_ops-segments :
      (segs : Segments) (front stack : List Text)
      → IsWellFormed segs
      → All (InPool p.pool) (compile_segments segs)
      → p.vars ≡ front ++ fields_of (compile_segments segs)
      → show_ops p (link p.pool (length front) (compile_segments segs)) stack
        ≡ ok (push_all (show_each segs) stack)
  unfolding show_each compile_segments
  show_ops-segments nil front stack w f e = unfold show_ops link in refl
  show_ops-segments (cons wildcard segs) front stack w f e =
      show_first wildcard segs front stack tt f e
        (show_ops-segments segs front (show_segment wildcard ∷ stack) w)
  show_ops-segments (cons deep_wildcard segs) front stack w f e =
      show_first deep_wildcard segs front stack tt f e
        (show_ops-segments segs front (show_segment deep_wildcard ∷ stack) w)
  show_ops-segments (cons (literal l) segs) front stack w f e =
      show_first (literal l) segs front stack w.0 f e
        (show_ops-segments segs front (show_segment (literal l) ∷ stack) w.1)
  show_ops-segments (cons (variable path inner) segs) front stack w f e =
      show_variable path inner segs front stack w.2 f e (
        show_ops-segments segs (front ++ path ∷ []) (show_segment (variable path inner) ∷ stack)
          w.3)

with_verb-eq :
    (str verb : Text)
    → show_with_verb str verb ≡ slash ++ (if is_empty verb then str else str ++ (codes ":" ++ verb))
with_verb-eq str [] = refl
with_verb-eq str (c ∷ verb) = refl

-- When `NewPattern` takes the op codes of a well-formed template, `String` of the pattern is `String`
-- of the template.
pub show-compile :
    (t : Template) (p : Pattern)
    → IsWellFormed t.segments
    → compiled_pattern t ≡ ok p
    → show p ≡ ok (Template_text.show t)
unfolding show Template_text.show
show-compile t p w e =
    let (q, e', l) = link_template t w (new_pattern-deeps t p e) in
    let linked = subst (Linked t) (ok_injective q p (sym e' ∙ e)) l in
    let ran : show_ops p p.ops [] ≡ ok (reverse (show_each t.segments)) =
      ap (λ ops. show_ops p ops []) linked.ops
      ∙ show_ops-segments p t.segments [] [] w linked.found linked.vars
      ∙ ap ok (push_all-eq (show_each t.segments) []) in
    ap (λ r. r >>= λ stack. ok (show_with_verb (join slash (reverse stack)) p.verb)) ran
    ∙ ap₂ (λ l v. ok (show_with_verb (join slash l) v)) (reverse-reverse (show_each t.segments))
        linked.verb
    ∙ ap ok (with_verb-eq (join slash (show_each t.segments)) t.verb)
