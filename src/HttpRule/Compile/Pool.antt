-- ===== src/HttpRule/Compile/Pool.antt =====
-- internal/httprule/compile.go: the constant pool. The numbers in the op codes name texts of the
-- final pool, though the pool grows while they are written.
use grpc_gateway.Prelude.{
  ℕ, zero, suc, ◌≡◌, refl, sym, ◌∙◌, ap, false, List, [], ◌∷◌, ◌++◌, none, some, Text, text_eq_iff,
  text_eq_refl, length, get_elem?, if◌then◌else◌, is_empty, ℤ, pos, Option-cases, Bool-cases, inl,
  inr, arith, append_assoc, append-nil, All, subst, ap₂,
}
use grpc_gateway.Utilities.OpCode.{number}
use grpc_gateway.HttpRule.Compile.{RawOp, position, intern, operand, emit}

-- A text that has a position stands there.
pub get_elem?-position :
    (s : Text) (pool : List Text) (i : ℕ) → position s pool ≡ some i → get_elem? pool i ≡ some s
unfolding position
get_elem?-position s [] i h = absurd (ground arith)
get_elem?-position s (x ∷ pool) zero h = ground (arith, text_eq_iff s x)
get_elem?-position s (x ∷ pool) (suc i) h = get_elem?-position s pool i (ground arith)

position-append :
    (s : Text) (pool more : List Text) (i : ℕ)
    → position s pool ≡ some i
    → position s (pool ++ more) ≡ some i
unfolding position
position-append s [] more i h = absurd (ground arith)
position-append s (x ∷ pool) more zero h = ground arith
position-append s (x ∷ pool) more (suc i) h = ground (arith, position-append s pool more i)

position-append_new :
    (s : Text) (pool : List Text)
    → position s pool ≡ none
    → position s (pool ++ s ∷ []) ≡ some (length pool)
unfolding position
position-append_new s [] h = rw (text_eq_refl s)
position-append_new s (x ∷ pool) h = ground (arith, position-append_new s pool)

-- The number of a text in a pool that holds it.
unfoldable pub index : Text → List Text → ℕ
index s pool = elim (position s pool) [ none ↦ 0 | some i ↦ i ]

abbrev pub operand_in : List Text → RawOp → ℕ
operand_in pool o = if is_empty o.str then o.num else index o.str pool

-- The op codes of raw ops over a pool that is complete.
unfoldable pub encode : List Text → List RawOp → List ℤ
encode pool [] = []
encode pool (o ∷ ops) = pos (number o.code) ∷ pos (operand_in pool o) ∷ encode pool ops

abbrev pub InPool : List Text → RawOp → Type 0
InPool pool o = is_empty o.str ≡ false → get_elem? pool (index o.str pool) ≡ some o.str

intern_lem :
    (s : Text) (pool : List Text)
    → (more : List Text) × ((intern s pool).0 ≡ pool ++ more)
      × (position s (intern s pool).0 ≡ some (intern s pool).1)
unfolding intern
intern_lem s pool = elim (Option-cases (position s pool)) [
  | inl e ↦ (s ∷ [], rw (e, intern), rw (e, intern) (position-append_new s pool e))
  | inr (i, e) ↦ ([], rw (e, intern) (sym (append-nil pool)), rw (e, intern) e)
]

index-append :
    (s : Text) (pool more : List Text) (i : ℕ)
    → position s pool ≡ some i
    → index s (pool ++ more) ≡ i
unfolding index
index-append s pool more i h = rw (position-append s pool more i h, index)

operand_lem :
    (o : RawOp) (pool : List Text)
    → (more : List Text) × ((operand o pool).0 ≡ pool ++ more)
      × ((later : List Text)
          → ((operand o pool).1 ≡ operand_in ((operand o pool).0 ++ later) o)
            × InPool ((operand o pool).0 ++ later) o)
unfolding operand
operand_lem o pool = elim (Bool-cases (is_empty o.str)) [
  | inl e ↦ (
    [],
    rw (e, operand) (sym (append-nil pool)),
    λ later. rw e (refl, λ h. absurd (ground arith)),
  )
  | inr e ↦
      (let (more, grown, found) = intern_lem o.str pool in
        (
          more,
          rw (e, operand) grown,
          λ later. rw e (
            sym (index-append o.str _ later _ found),
            λ _.
                rw (index-append o.str _ later _ found)
                  (get_elem?-position o.str _ _ (position-append o.str _ later _ found)),
          ),
        ))
]

-- `Compile` writes the op codes of its raw ops over the pool that it returns, and that pool holds
-- every operand.
pub emit_lem :
    (ops : List RawOp) (pool : List Text)
    → (more : List Text) × ((emit ops pool).1 ≡ pool ++ more)
      × ((emit ops pool).0 ≡ encode (emit ops pool).1 ops)
      × All (InPool (emit ops pool).1) ops
unfolding emit encode
emit_lem [] pool = ([], sym (append-nil pool), refl, tt)
emit_lem (o ∷ ops) pool =
    let (more, e, holds) = operand_lem o pool in
    let pool₁ = (operand o pool).0 in
    let (more', e', enc, all) = emit_lem ops pool₁ in
    let (same, here) =
      subst (λ l. ((operand o pool).1 ≡ operand_in l o) × InPool l o) (sym e') (holds more') in
    (
      more ++ more',
      e' ∙ (ap (λ l. l ++ more') e ∙ append_assoc pool more more'),
      ap₂ (λ n l. pos (number o.code) ∷ pos n ∷ l) same enc,
      (here, all),
    )
