-- ===== src/Runtime/Pattern/Atoms.antt =====
-- runtime/pattern.go: what the raw op of a segment that is no variable does to the run of `Match`.
use grpc_gateway.Prelude.{
  ◌≡⟨◌⟩◌, ◌∎, bind-ok, ℕ, ◌+◌, ◌-◌, ◌≡◌, refl, sym, ◌∙◌, ap, ap₂, List, [], ◌∷◌, ◌++◌, Text, length,
  take, drop, text_eq_iff, join, slash, reverse, ok, ◌>>=◌, arith, length-append, take-append-drop,
  take-append-length, drop-append-length, bind_congr, le→ltb, bind_assoc,
}
use mathlib.Core.List.{reverse_aux, reverse_aux-eq, reverse-reverse}
use grpc_gateway.HttpRule.Template.{Segment, wildcard, deep_wildcard, literal, variable}
use grpc_gateway.HttpRule.Compile.{RawOp, compile_segment}
use grpc_gateway.Runtime.Pattern.{Run, push_component, push_literal, push_many, concat_top}
use grpc_gateway.Runtime.Pattern.Exec.{exec, exec_op}
use grpc_gateway.Runtime.Pattern.Spec.{AtomReads, any, exact, many, IsAtom}

pub exec-append :
    (t : ℕ) (a b : List RawOp) (r : Run) → exec t (a ++ b) r ≡ (exec t a r >>= exec t b)
unfolding exec
exec-append t [] b r = refl
exec-append t (o ∷ a) b r =
    bind_congr (exec_op t o.code o.str o.num r) (λ r₁. exec-append t a b r₁)
    ∙ sym (bind_assoc (exec_op t o.code o.str o.num r) (exec t a) (exec t b))

-- The texts `vs` pushed one by one.
abbrev pub push_all : List Text → List Text → List Text
push_all [] stack = stack
push_all (v ∷ vs) stack = push_all vs (v ∷ stack)

pub push_all-eq : (vs stack : List Text) → push_all vs stack ≡ reverse_aux vs stack
push_all-eq [] stack = refl
push_all-eq (v ∷ vs) stack = push_all-eq vs (v ∷ stack)

length-push_all : (vs stack : List Text) → length (push_all vs stack) ≡ length vs + length stack
length-push_all [] stack = omega arith
length-push_all (v ∷ vs) stack = omega (arith, length-push_all vs (v ∷ stack))

length-reverse : (vs : List Text) → length vs ≡ length (reverse vs)
length-reverse vs = omega (arith, length-push_all vs [])

concat_top-append :
    (xs ys : List Text) → concat_top (length xs) (xs ++ ys) ≡ ok (join slash (reverse xs) ∷ ys)
concat_top-append xs ys =
    rw (le→ltb (length (xs ++ ys)) (length xs) (omega (arith, length-append xs ys)))
      (rw (take-append-length xs ys, drop-append-length xs ys))

-- `OpConcatN` joins the texts in the order in which they were pushed.
pub concat_top-push_all :
    (vs stack : List Text) → concat_top (length vs) (push_all vs stack) ≡ ok (join slash vs ∷ stack)
concat_top-push_all vs stack =
    concat_top (length vs) (push_all vs stack)
    ≡⟨ ap₂ concat_top (length-reverse vs) (push_all-eq vs stack ∙ reverse_aux-eq vs stack) ⟩
      concat_top (length (reverse vs)) (reverse vs ++ stack)
    ≡⟨ concat_top-append (reverse vs) stack ⟩ ok (join slash (reverse (reverse vs)) ∷ stack)
    ≡⟨ ap (λ l. ok (join slash l ∷ stack)) (reverse-reverse vs) ⟩ ok (join slash vs ∷ stack) ∎

-- What a run has read of the path, and what it has put on the stack.
abbrev pub AtomRun : Segment → Run → Run → Type 0
AtomRun s r r' =
    (cs : List Text) × (v : Text) × AtomReads s cs v
    × (r.rest ≡ cs ++ r'.rest)
    × (r'.stack ≡ v ∷ r.stack)
    × (r'.captured ≡ r.captured)

push_component_sound :
    (cs : List Text) (r r' : Run)
    → r.rest ≡ cs
    → push_component cs r ≡ ok r'
    → AtomRun wildcard r r'
push_component_sound [] r r' e h = absurd (ground arith)
push_component_sound (c ∷ cs) r r' e h =
    (c ∷ [], c, any c, ground arith, ground arith, ground arith)

push_literal_sound :
    (l : Text) (cs : List Text) (r r' : Run)
    → r.rest ≡ cs
    → push_literal l cs r ≡ ok r'
    → AtomRun (literal l) r r'
push_literal_sound l [] r r' e h = absurd (ground arith)
push_literal_sound l (c ∷ cs) r r' e h = (
  l ∷ [],
  l,
  exact l,
  ground (arith, text_eq_iff c l),
  ground (arith, text_eq_iff c l),
  ground arith,
)

many-rest : (t : ℕ) (r r' : Run) → push_many t r ≡ ok r' → drop (length r.rest - t) r.rest ≡ r'.rest
many-rest t r r' h = ground arith

push_many_sound : (t : ℕ) (r r' : Run) → push_many t r ≡ ok r' → AtomRun deep_wildcard r r'
push_many_sound t r r' h =
    let n = length r.rest - t in
    (
      take n r.rest,
      _,
      many (take n r.rest),
      sym (take-append-drop n r.rest) ∙ ap (λ l. take n r.rest ++ l) (many-rest t r r' h),
      ground arith,
      ground arith,
    )

pub exec_one : (t : ℕ) (o : RawOp) (r : Run) → exec t (o ∷ []) r ≡ exec_op t o.code o.str o.num r
unfolding exec
exec_one t o r = bind-ok (exec_op t o.code o.str o.num r)

pub atom_sound :
    (t : ℕ) (s : Segment) (r r' : Run)
    → IsAtom s
    → exec t (compile_segment s) r ≡ ok r'
    → AtomRun s r r'
unfolding compile_segment
atom_sound t wildcard r r' a h = push_component_sound r.rest r r' refl (sym (exec_one t _ r) ∙ h)
atom_sound t deep_wildcard r r' a h = push_many_sound t r r' (sym (exec_one t _ r) ∙ h)
atom_sound t (literal l) r r' a h = push_literal_sound l r.rest r r' refl (sym (exec_one t _ r) ∙ h)
atom_sound t (variable path segs) r r' a h = absurd a
