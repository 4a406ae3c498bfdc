-- ===== src/Runtime/Pattern/Built.antt =====
-- runtime/pattern.go: what `NewPattern` has checked of the patterns that it returns.
use grpc_gateway.Prelude.{
  ℕ, zero, suc, ◌+◌, ◌-◌, ◌≤◌, ◌<◌, ◌≡◌, refl, sym, ◌∙◌, ap, List, [], ◌∷◌, ◌++◌, some, Text,
  length, ok, ℤ, pos, negsuc, at_index, arith, append_assoc, append-nil, length-append,
  Option-cases, Bool-cases, subst, ok_injective, >>=-eq-ok, inl, inr,
}
use grpc_gateway.Utilities.OpCode.{
  OpCode, nop, push, lit_push, push_m, concat_n, capture, invalid, decode,
}
use grpc_gateway.Runtime.Pattern.{
  Op, Pattern, Build, build_op, build, empty_build, new_pattern, is_one, pattern_of,
}

-- An op that finds what it needs with `d` texts on the stack, and leaves `d'`.
abbrev pub OpFits : List Text → ℕ → OpCode → ℤ → ℕ → ℕ → Type 0
OpFits pool vars push n d d' = d' ≡ d + 1
OpFits pool vars push_m n d d' = d' ≡ d + 1
OpFits pool vars lit_push n d d' = ((t : Text) × (at_index pool n ≡ some t)) × (d' ≡ d + 1)
OpFits pool vars concat_n (pos k) d d' = (k ≤ d) × (d' ≡ d - k + 1)
OpFits pool vars concat_n (negsuc k) d d' = ⊥
OpFits pool vars capture (pos i) d d' = (i < vars) × (d ≡ suc d')
OpFits pool vars capture (negsuc i) d d' = ⊥
OpFits pool vars nop n d d' = d' ≡ d
OpFits pool vars invalid n d d' = d' ≡ d

-- So for a list of ops, with at most `cap` texts on the stack after each.
abbrev pub Fits : List Text → ℕ → ℕ → List Op → ℕ → ℕ → Type 0
Fits pool vars cap [] d d' = d ≡ d'
Fits pool vars cap (o ∷ ops) d d' =
    (m : ℕ) × OpFits pool vars o.code o.operand d m × (m ≤ cap) × Fits pool vars cap ops m d'

-- What one round of the loop of `NewPattern` does, unless it fails.
abbrev Grows : List Text → Build → Build → Type 0
Grows pool b b' =
    (o : Op) × (b'.typed_ops ≡ b.typed_ops ++ o ∷ [])
    × OpFits pool (length b'.vars) o.code o.operand b.stack b'.stack
    × (length b.vars ≤ length b'.vars)
    × (b.maxstack ≤ b'.maxstack)
    × (b'.stack ≤ b'.maxstack)

-- The ops that a stretch of the loop appends.
abbrev GrowsBy : List Text → Build → Build → Type 0
GrowsBy pool b b' =
    (new : List Op) × (b'.typed_ops ≡ b.typed_ops ++ new)
    × Fits pool (length b'.vars) b'.maxstack new b.stack b'.stack
    × (length b.vars ≤ length b'.vars)
    × (b.maxstack ≤ b'.maxstack)

module _ (pool : List Text) (n : ℤ) (b b' : Build) where
  build_op-push : build_op pool push n b ≡ ok b' → Grows pool b b'
  unfolding build_op
  build_op-push h = (
    record { code = push; operand = n },
    ground arith,
    ground arith,
    ground arith,
    ground arith,
    ground arith,
  )

  build_op-push_m : build_op pool push_m n b ≡ ok b' → Grows pool b b'
  unfolding build_op
  build_op-push_m h = (
    record { code = push_m; operand = n },
    ground arith,
    ground arith,
    ground arith,
    ground arith,
    ground arith,
  )

  build_op-lit_push : build_op pool lit_push n b ≡ ok b' → Grows pool b b'
  unfolding build_op
  build_op-lit_push h = elim (Option-cases (at_index pool n)) [
    | inl e ↦ absurd (ground arith)
    | inr (t, e) ↦ (
      record { code = lit_push; operand = n },
      ground arith,
      ((t, e), ground arith),
      ground arith,
      ground arith,
      ground arith,
    )
  ]

build_op-concat_n :
    (pool : List Text) (n : ℤ) (b b' : Build) → build_op pool concat_n n b ≡ ok b' → Grows pool b b'
unfolding build_op
build_op-concat_n pool (negsuc k) b b' h = absurd (ground arith)
build_op-concat_n pool (pos zero) b b' h = absurd (ground arith)
build_op-concat_n pool (pos (suc k)) b b' h = (
  record { code = concat_n; operand = pos (suc k) },
  ground arith,
  ground arith,
  ground arith,
  ground arith,
  ground arith,
)

build_op-capture :
    (pool : List Text) (n : ℤ) (b b' : Build) → build_op pool capture n b ≡ ok b' → Grows pool b b'
unfolding build_op
build_op-capture pool n b b' h = elim (Option-cases (at_index pool n)) [
  | inl e ↦ absurd (ground arith)
  | inr (v, e) ↦ (
    record { code = capture; operand = pos (length b.vars) },
    ground arith,
    ground (arith, length-append b.vars (v ∷ [])),
    ground (arith, length-append b.vars (v ∷ [])),
    ground arith,
    ground arith,
  )
]

-- More variables leave an op as it was.
OpFits-mono :
    (pool : List Text) (v v' : ℕ) (c : OpCode) (n : ℤ) (d d' : ℕ)
    → v ≤ v'
    → OpFits pool v c n d d'
    → OpFits pool v' c n d d'
OpFits-mono pool v v' push n d d' le h = h
OpFits-mono pool v v' concat_n (pos k) d d' le h = h
OpFits-mono pool v v' concat_n (negsuc k) d d' le h = h
OpFits-mono pool v v' capture (pos i) d d' le h = omega arith
OpFits-mono pool v v' capture (negsuc i) d d' le h = h
OpFits-mono pool v v' _ n d d' le h = h

GrowsBy-cons :
    (pool : List Text) (b b₁ b' : Build) → Grows pool b b₁ → GrowsBy pool b₁ b' → GrowsBy pool b b'
GrowsBy-cons pool b b₁ b' (o, e, f, v, m, s) (new, e', f', v', m') = (
  o ∷ new,
  e' ∙ (ap (λ l. l ++ new) e ∙ append_assoc b.typed_ops (o ∷ []) new),
  (b₁.stack, OpFits-mono pool _ _ o.code o.operand b.stack b₁.stack v' f, omega arith, f'),
  omega arith,
  omega arith,
)

GrowsBy-refl : (pool : List Text) (b : Build) → GrowsBy pool b b
GrowsBy-refl pool b = ([], sym (append-nil b.typed_ops), refl, omega arith, omega arith)

build_op-GrowsBy :
    (pool : List Text) (c : OpCode) (n : ℤ) (b b₁ b' : Build)
    → build_op pool c n b ≡ ok b₁
    → GrowsBy pool b₁ b'
    → GrowsBy pool b b'
unfolding build_op
build_op-GrowsBy pool nop n b b₁ b' h g =
    subst (λ x. GrowsBy pool x b') (sym (ok_injective b b₁ h)) g
build_op-GrowsBy pool push n b b₁ b' h g = GrowsBy-cons pool b b₁ b' (build_op-push pool n b b₁ h) g
build_op-GrowsBy pool push_m n b b₁ b' h g =
    GrowsBy-cons pool b b₁ b' (build_op-push_m pool n b b₁ h) g
build_op-GrowsBy pool lit_push n b b₁ b' h g =
    GrowsBy-cons pool b b₁ b' (build_op-lit_push pool n b b₁ h) g
build_op-GrowsBy pool concat_n n b b₁ b' h g =
    GrowsBy-cons pool b b₁ b' (build_op-concat_n pool n b b₁ h) g
build_op-GrowsBy pool capture n b b₁ b' h g =
    GrowsBy-cons pool b b₁ b' (build_op-capture pool n b b₁ h) g
build_op-GrowsBy pool invalid n b b₁ b' h g = absurd (ground arith)

-- The loop of `NewPattern` appends ops that fit the stack.
build-GrowsBy :
    (pool : List Text) (ops : List ℤ) (b b' : Build) → build pool ops b ≡ ok b' → GrowsBy pool b b'
unfolding build
build-GrowsBy pool [] b b' h =
    subst (λ x. GrowsBy pool b x) (ok_injective b b' h) (GrowsBy-refl pool b)
build-GrowsBy pool (c ∷ []) b b' h = absurd (ground arith)
build-GrowsBy pool (c ∷ n ∷ ops) b b' h =
    let (b₁, first, later) = >>=-eq-ok (build_op pool (decode c) n b) (build pool ops) h in
    build_op-GrowsBy pool (decode c) n b b₁ b' first (build-GrowsBy pool ops b₁ b' later)

-- What every pattern that `NewPattern` returns satisfies.
abbrev pub IsBuilt : Pattern → Type 0
IsBuilt p = (d : ℕ) × Fits p.pool (length p.vars) p.stacksize p.ops 0 d

-- `NewPattern` returns only patterns whose ops find their operands: each literal and variable is in
-- range, no op takes more texts than the stack holds, and the stack never outgrows `stacksize`.
pub new_pattern-IsBuilt :
    (version : ℤ) (ops : List ℤ) (pool : List Text) (verb : Text) (p : Pattern)
    → new_pattern version ops pool verb ≡ ok p
    → IsBuilt p
unfolding new_pattern
new_pattern-IsBuilt version ops pool verb p h = elim (Bool-cases (is_one version)) [
  | inr other ↦ absurd (ground arith)
  | inl one ↦
      (let (b, built, same) =
          >>=-eq-ok (build pool ops empty_build) (λ b. ok (pattern_of pool verb b)) (rw one at h) in
        let (new, e, f, _, _) = build-GrowsBy pool ops empty_build b built in
        subst IsBuilt (ok_injective (pattern_of pool verb b) p same)
          (b.stack, subst (λ l. Fits pool (length b.vars) b.maxstack l 0 b.stack) (sym e) f))
]
