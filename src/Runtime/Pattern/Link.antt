-- ===== src/Runtime/Pattern/Link.antt =====
-- runtime/pattern.go on the op codes of internal/httprule/compile.go: what `NewPattern` makes of the
-- op codes that `Compile` writes.
use grpc_gateway.Prelude.{
  ℕ, zero, suc, ◌+◌, ◌-◌, ◌≤◌, ◌<◌, ◌≡◌, refl, sym, ◌∙◌, ap, ap₂, subst, Bool, true, false, List,
  [], ◌∷◌, ◌++◌, Text, length, if◌then◌else◌, is_empty, ok, pos, arith, append_assoc, append-nil,
  length-append, All,
}
use grpc_gateway.Utilities.OpCode.{
  OpCode, nop, push, lit_push, push_m, concat_n, capture, invalid, decode, number,
}
use grpc_gateway.HttpRule.Compile.{RawOp, field_of, fields_of}
use grpc_gateway.HttpRule.Compile.Pool.{operand_in, encode, InPool, index}
use grpc_gateway.Runtime.Pattern.{Op, Build, build_op, build, record_op, push_one}

-- The operand of a typed op: a capture is numbered anew, the rest keep theirs.
abbrev pub link_operand : List Text → ℕ → OpCode → RawOp → ℕ
link_operand pool k capture o = k
link_operand pool k _ o = operand_in pool o

abbrev pub next_var : OpCode → ℕ → ℕ
next_var capture k = suc k
next_var _ k = k

-- The typed ops of raw ops, behind `k` captures.
unfoldable pub link : List Text → ℕ → List RawOp → List Op
link pool k [] = []
link pool k (o ∷ ops) =
    record { code = o.code; operand = pos (link_operand pool k o.code o) }
    ∷ link pool (next_var o.code k) ops

-- What an op adds to the tail behind a deep wildcard.
abbrev pub tail_of : OpCode → Bool → ℕ
tail_of push seen = if seen then 1 else 0
tail_of lit_push seen = if seen then 1 else 0
tail_of _ seen = 0

abbrev pub next_seen : OpCode → Bool → Bool
next_seen push_m seen = true
next_seen _ seen = seen

unfoldable pub tail_width : Bool → List RawOp → ℕ
tail_width seen [] = 0
tail_width seen (o ∷ ops) = tail_of o.code seen + tail_width (next_seen o.code seen) ops

-- The checks of `NewPattern` on a raw op, and of what stands behind it.
abbrev pub Checks : OpCode → Text → ℕ → Bool → ℕ → (Bool → ℕ → Type 0) → Type 0
Checks push str num seen d later = (is_empty str ≡ true) × later seen (d + 1)
Checks lit_push str num seen d later = (is_empty str ≡ false) × later seen (d + 1)
Checks push_m str num seen d later = (seen ≡ false) × later true (d + 1)
Checks concat_n str num seen d later =
    (is_empty str ≡ true) × (0 < num) × (num ≤ d) × later seen (d - num + 1)
Checks capture str num seen d later = (is_empty str ≡ false) × (0 < d) × later seen (d - 1)
Checks nop str num seen d later = ⊥
Checks invalid str num seen d later = ⊥

abbrev pub Valid : List RawOp → Bool → ℕ → Type 0
Valid [] seen d = Unit
Valid (o ∷ ops) seen d = Checks o.code o.str o.num seen d (Valid ops)

abbrev raw : OpCode → Text → ℕ → RawOp
raw c str num = record { code = c; str = str; num = num }

-- One round of the loop of `NewPattern` on such an op.
abbrev Linked : List Text → OpCode → Text → ℕ → Build → (Bool → ℕ → Type 0) → Type 0
Linked pool c str num b later =
    (b₁ : Build) × (build_op pool (decode (pos (number c))) (pos (operand_in pool (raw c str num)))
        b
      ≡ ok b₁)
    × (b₁.typed_ops
        ≡ b.typed_ops
          ++ record {
            code = c;
            operand = pos (link_operand pool (length b.vars) c (raw c str num));
          }
            ∷ [])
    × (b₁.vars ≡ b.vars ++ field_of c str)
    × (b₁.tail_len ≡ b.tail_len + tail_of c b.push_m_seen)
    × (b₁.push_m_seen ≡ next_seen c b.push_m_seen)
    × later b₁.push_m_seen b₁.stack

module _ (pool : List Text) (str : Text) (num : ℕ) (b : Build) (later : Bool → ℕ → Type 0) where
  link-push : Checks push str num b.push_m_seen b.stack later → Linked pool push str num b later
  unfolding build_op
  link-push h = (_, refl, refl, sym (append-nil b.vars), ground arith, refl, h.1)

  link-lit_push :
      Checks lit_push str num b.push_m_seen b.stack later
      → InPool pool (raw lit_push str num)
      → Linked pool lit_push str num b later
  unfolding build_op
  link-lit_push h found = (
    record_op lit_push (pos (index str pool)) (push_one b),
    rw (h.0, found h.0, build_op) (rw h.0),
    rw h.0,
    sym (append-nil b.vars),
    ground arith,
    refl,
    h.1,
  )

  link-push_m :
      Checks push_m str num b.push_m_seen b.stack later → Linked pool push_m str num b later
  unfolding build_op
  link-push_m h = (
    record_op push_m _ (record b { push_m_seen = true; stack = b.stack + 1 }),
    rw (h.0),
    refl,
    sym (append-nil b.vars),
    omega arith,
    refl,
    h.1,
  )

  link-capture :
      Checks capture str num b.push_m_seen b.stack later
      → InPool pool (raw capture str num)
      → Linked pool capture str num b later
  unfolding build_op
  link-capture h found = (
    record_op capture (pos (length b.vars))
        (record b { vars = b.vars ++ str ∷ []; stack = b.stack - 1 }),
    rw (h.0, found h.0, build_op) (ground arith),
    refl,
    refl,
    omega arith,
    refl,
    h.2,
  )

link-concat_n :
    (pool : List Text) (str : Text) (num : ℕ) (b : Build) (later : Bool → ℕ → Type 0)
    → Checks concat_n str num b.push_m_seen b.stack later
    → Linked pool concat_n str num b later
unfolding build_op
link-concat_n pool str zero b later h = absurd (omega arith)
link-concat_n pool str (suc k) b later h = (
  record_op concat_n (pos (suc k)) (record b { stack = b.stack - suc k + 1 }),
  rw (h.0) (ground arith),
  rw (h.0),
  sym (append-nil b.vars),
  omega arith,
  refl,
  h.3,
)

link-step :
    (pool : List Text) (c : OpCode) (str : Text) (num : ℕ) (b : Build) (later : Bool → ℕ → Type 0)
    → Checks c str num b.push_m_seen b.stack later
    → InPool pool (raw c str num)
    → Linked pool c str num b later
link-step pool push str num b later h found = link-push pool str num b later h
link-step pool lit_push str num b later h found = link-lit_push pool str num b later h found
link-step pool push_m str num b later h found = link-push_m pool str num b later h
link-step pool concat_n str num b later h found = link-concat_n pool str num b later h
link-step pool capture str num b later h found = link-capture pool str num b later h found
link-step pool nop str num b later h found = absurd h
link-step pool invalid str num b later h found = absurd h

length-field_of :
    (c : OpCode) (str : Text) (vars : List Text)
    → length (vars ++ field_of c str) ≡ next_var c (length vars)
length-field_of capture str vars = omega (arith, length-append vars (str ∷ []))
length-field_of nop str vars = rw append-nil
length-field_of _ str vars = rw append-nil

-- `NewPattern` accepts the op codes of valid raw ops, and links them.
pub build-encode :
    (pool : List Text) (ops : List RawOp) (b : Build)
    → Valid ops b.push_m_seen b.stack
    → All (InPool pool) ops
    → (b' : Build) × (build pool (encode pool ops) b ≡ ok b')
      × (b'.typed_ops ≡ b.typed_ops ++ link pool (length b.vars) ops)
      × (b'.vars ≡ b.vars ++ fields_of ops)
      × (b'.tail_len ≡ b.tail_len + tail_width b.push_m_seen ops)
unfolding build encode link fields_of tail_width
build-encode pool [] b v found = (b, refl, sym (append-nil _), sym (append-nil _), omega arith)
build-encode pool (o ∷ ops) b v (here, found) =
    let (b₁, step, typed, vars, tail, seen, v₁) =
      link-step pool o.code o.str o.num b (Valid ops) v here in
    let (b', rest, typed', vars', tail') = build-encode pool ops b₁ v₁ found in
    let tail'' = subst (λ x. b'.tail_len ≡ b₁.tail_len + tail_width x ops) seen tail' in
    (
      b',
      rw step rest,
      typed'
          ∙ (ap₂ (λ l k. l ++ link pool k ops) typed
                (ap length vars ∙ length-field_of o.code o.str b.vars)
              ∙ append_assoc b.typed_ops _ _),
      vars' ∙ (ap (λ l. l ++ fields_of ops) vars ∙ append_assoc b.vars _ _),
      omega arith,
    )
