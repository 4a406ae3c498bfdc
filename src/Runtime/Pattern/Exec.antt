-- ===== src/Runtime/Pattern/Exec.antt =====
-- runtime/pattern.go: `Match` on linked op codes is a run of the raw ops of
-- internal/httprule/compile.go, with texts in place of pool numbers and a list in place of the array
-- of captures.
use grpc_gateway.Prelude.{
  ℕ, suc, ◌<◌, ◌≡◌, refl, ap, subst, Bool, List, [], ◌∷◌, ◌++◌, some, Text, length, set, replicate,
  Result, ok, fail, ◌>>=◌, pos, arith, length-append, length-replicate, All, Post, Result-cases,
  inl, inr, lt→ltb,
}
use grpc_gateway.Utilities.OpCode.{OpCode, nop, push, lit_push, push_m, concat_n, capture, invalid}
use grpc_gateway.HttpRule.Compile.{RawOp}
use grpc_gateway.HttpRule.Compile.Pool.{InPool}
use grpc_gateway.Runtime.Pattern.{
  Pattern, MatchError, panic, Run, step_code, run, push_component, push_literal, push_many,
  concat_top, push_from_pool, pop_capture,
}
use grpc_gateway.Runtime.Pattern.Link.{link, link_operand, next_var, Checks, Valid}

abbrev pub pop_value : List Text → Run → Result MatchError Run
pop_value [] r = fail panic
pop_value (v ∷ stack) r = ok (record r { stack = stack; captured = r.captured ++ v ∷ [] })

abbrev pub exec_op : ℕ → OpCode → Text → ℕ → Run → Result MatchError Run
exec_op t push str num r = push_component r.rest r
exec_op t lit_push str num r = push_literal str r.rest r
exec_op t push_m str num r = push_many t r
exec_op t concat_n str num r = do stack ← concat_top num r.stack; ok (record r { stack = stack })
exec_op t capture str num r = pop_value r.stack r
exec_op t nop str num r = ok r
exec_op t invalid str num r = ok r

-- `t` components are left for the ops behind a deep wildcard.
unfoldable pub exec : ℕ → List RawOp → Run → Result MatchError Run
exec t [] r = ok r
exec t (o ∷ ops) r = do r₁ ← exec_op t o.code o.str o.num r; exec t ops r₁

-- The two ops at the end of a variable.
abbrev pub variable_ops : Text → ℕ → List RawOp
variable_ops path n =
    record { code = concat_n; str = []; num = n }
    ∷ record { code = capture; str = path; num = 0 }
    ∷ []

-- The array of captures, with room for `m` more.
abbrev pub spread : ℕ → Run → Run
spread m r = record r { captured = r.captured ++ replicate m [] }

abbrev pub spread_all : ℕ → Result MatchError Run → Result MatchError Run
spread_all m (ok r) = ok (spread m r)
spread_all m (fail e) = fail e

set-append :
    (vals : List Text) (m : ℕ) (v : Text)
    → set (vals ++ replicate (suc m) []) (length vals) v ≡ (vals ++ v ∷ []) ++ replicate m []
set-append [] m v = refl
set-append (x ∷ vals) m v = ap (◌∷◌ x) (set-append vals m v)

pop_capture-spread :
    (m : ℕ) (stack : List Text) (r : Run)
    → pop_capture (pos (length r.captured)) stack (spread (suc m) r)
      ≡ spread_all m (pop_value stack r)
pop_capture-spread m [] r = refl
pop_capture-spread m (v ∷ stack) r =
    let room : length r.captured < length (r.captured ++ replicate (suc m) []) = omega (
      arith,
      length-append r.captured (replicate (suc m) []),
      length-replicate (suc m) (let e : Text = [] in e),
    ) in
    rw (lt→ltb _ _ room, set-append r.captured m v)

push_component-spread :
    (m : ℕ) (cs : List Text) (r : Run)
    → push_component cs (spread m r) ≡ spread_all m (push_component cs r)
push_component-spread m [] r = refl
push_component-spread m (c ∷ cs) r = refl

push_from_pool-spread :
    (m : ℕ) (t : Text) (cs : List Text) (r : Run)
    → push_from_pool (some t) cs (spread m r) ≡ spread_all m (push_literal t cs r)
push_from_pool-spread m t [] r = refl
push_from_pool-spread m t (c ∷ cs) r = ground arith

-- The room for the captures of an op and of what follows it.
abbrev pub room : OpCode → ℕ → ℕ
room capture m = suc m
room _ m = m

abbrev pub captures_left : List RawOp → ℕ
captures_left [] = 0
captures_left (o ∷ ops) = room o.code (captures_left ops)

abbrev raw : OpCode → Text → ℕ → RawOp
raw c str num = record { code = c; str = str; num = num }

concat-spread :
    (m num : ℕ) (r : Run)
    → (concat_top num r.stack >>= λ stack. ok (record (spread m r) { stack = stack }))
      ≡ spread_all m (concat_top num r.stack >>= λ stack. ok (record r { stack = stack }))
concat-spread m num r = ground arith

step_code-exec_op :
    (p : Pattern) (m : ℕ) (c : OpCode) (str : Text) (num : ℕ) (later : Bool → ℕ → Type 0)
    (seen : Bool) (d : ℕ) (r : Run)
    → Checks c str num seen d later
    → InPool p.pool (raw c str num)
    → step_code p c
        (pos (link_operand p.pool (length r.captured) c (raw c str num)))
        (spread (room c m) r)
      ≡ spread_all m (exec_op p.tail_len c str num r)
unfolding step_code
step_code-exec_op p m push str num later seen d r h found = push_component-spread m r.rest r
step_code-exec_op p m lit_push str num later seen d r h found =
    rw (h.0, found h.0) (push_from_pool-spread m str r.rest r)
step_code-exec_op p m push_m str num later seen d r h found = ground arith
step_code-exec_op p m concat_n str num later seen d r h found = rw h.0 (concat-spread m num r)
step_code-exec_op p m capture str num later seen d r h found = pop_capture-spread m r.stack r
step_code-exec_op p m nop str num later seen d r h found = absurd h
step_code-exec_op p m invalid str num later seen d r h found = absurd h

abbrev SameCaptured : Run → Result MatchError Run → Type 0
SameCaptured r = Post (λ r'. length r.captured ≡ length r'.captured) (λ _. Unit)

push_component-captured : (cs : List Text) (r : Run) → SameCaptured r (push_component cs r)
push_component-captured [] r = tt
push_component-captured (c ∷ cs) r = refl

push_literal-captured : (l : Text) (cs : List Text) (r : Run) → SameCaptured r (push_literal l cs r)
push_literal-captured l [] r = tt
push_literal-captured l (c ∷ cs) r = ground arith

pop_value-captured :
    (stack : List Text) (r : Run)
    → Post (λ r'. suc (length r.captured) ≡ length r'.captured) (λ _. Unit) (pop_value stack r)
pop_value-captured [] r = tt
pop_value-captured (v ∷ stack) r = omega (arith, length-append r.captured (v ∷ []))

exec_op-captured :
    (t : ℕ) (c : OpCode) (str : Text) (num : ℕ) (r : Run)
    → Post
        (λ r'. next_var c (length r.captured) ≡ length r'.captured)
        (λ _. Unit)
        (exec_op t c str num r)
exec_op-captured t push str num r = push_component-captured r.rest r
exec_op-captured t lit_push str num r = push_literal-captured str r.rest r
exec_op-captured t push_m str num r = ground arith
exec_op-captured t concat_n str num r = ground arith
exec_op-captured t capture str num r = pop_value-captured r.stack r
exec_op-captured t nop str num r = refl
exec_op-captured t invalid str num r = refl

Checks-later :
    (c : OpCode) (str : Text) (num : ℕ) (seen : Bool) (d : ℕ) (later : Bool → ℕ → Type 0)
    → Checks c str num seen d later
    → (s : Bool) × (e : ℕ) × later s e
Checks-later push str num seen d later h = (_, _, h.1)
Checks-later lit_push str num seen d later h = (_, _, h.1)
Checks-later push_m str num seen d later h = (_, _, h.1)
Checks-later concat_n str num seen d later h = (_, _, h.3)
Checks-later capture str num seen d later h = (_, _, h.2)
Checks-later nop str num seen d later h = absurd h
Checks-later invalid str num seen d later h = absurd h

-- `Match` on linked ops does what the raw ops do.
pub run-link :
    (p : Pattern) (ops : List RawOp) (seen : Bool) (d : ℕ) (r : Run)
    → Valid ops seen d
    → All (InPool p.pool) ops
    → run p (link p.pool (length r.captured) ops) (spread (captures_left ops) r)
      ≡ spread_all 0 (exec p.tail_len ops r)
unfolding run exec link
run-link p [] seen d r v found = refl
run-link p (o ∷ ops) seen d r v (here, found) =
    let (s, e, v') = Checks-later o.code o.str o.num seen d (Valid ops) v in
    let step =
      step_code-exec_op p (captures_left ops) o.code o.str o.num (Valid ops) seen d r v here in
    elim (Result-cases (exec_op p.tail_len o.code o.str o.num r)) [
      | inl (r₁, e₁) ↦
          (let more : next_var o.code (length r.captured) ≡ length r₁.captured =
              subst
                (Post (λ r'. next_var o.code (length r.captured) ≡ length r'.captured) (λ _. Unit))
                e₁ (exec_op-captured p.tail_len o.code o.str o.num r) in
            rw (step, e₁, more) (run-link p ops s e r₁ v' found))
      | inr (err, e₁) ↦ rw (step, e₁)
    ]
