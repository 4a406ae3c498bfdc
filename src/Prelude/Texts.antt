-- ===== src/Prelude/Texts.antt =====
-- Go strings as lists of bytes, with the operations of package strings that the program calls.
use Prim.Native.Nat.{ℕ, ◌-◌}
use Prim.Native.Char.{code}
use Prim.Native.String.{String}
use mathlib.Core.Path.{◌≡◌, refl}
use mathlib.Core.Logic.{◌↔◌}
use mathlib.Core.Bool.{Bool, true, false, ◌&&◌, ◌||◌}
use mathlib.Core.List.{List, [], ◌∷◌, ◌++◌}
use mathlib.Core.Option.{Option, none, some}
use native.Mathlib.Omega.{arith}
use grpc_gateway.Prelude.Tests.{leb, ◌==◌, if◌then◌else◌}
use grpc_gateway.Prelude.Lists.{length, drop}

abbrev pub Text : Type 0
Text = List ℕ

-- The code points of a literal: its bytes, if it is ASCII.
abbrev pub codes : String → Text
codes String.[] = []
codes (String.◌∷◌ c s) = code c ∷ codes s

-- `a == b`
unfoldable pub text_eq : Text → Text → Bool
text_eq [] [] = true
text_eq [] (y ∷ b) = false
text_eq (x ∷ a) [] = false
text_eq (x ∷ a) (y ∷ b) = x == y && text_eq a b

pub text_eq→eq : (a b : Text) → text_eq a b ≡ true → a ≡ b
unfolding text_eq
text_eq→eq [] [] h = refl
text_eq→eq [] (y ∷ b) h = ground arith
text_eq→eq (x ∷ a) [] h = ground arith
text_eq→eq (x ∷ a) (y ∷ b) h = ground (arith, text_eq→eq a b)

pub text_eq_refl : (a : Text) → text_eq a a ≡ true
unfolding text_eq
text_eq_refl [] = refl
text_eq_refl (x ∷ a) = ground (arith, text_eq_refl a)

pub text_eq_iff : (a b : Text) → (text_eq a b ≡ true) ↔ (a ≡ b)
text_eq_iff a b = (text_eq→eq a b, λ e. rw e (text_eq_refl b))

-- `s == ""`
abbrev pub is_empty {ℓ} : {A : Type ℓ} → List A → Bool
is_empty [] = true
is_empty (x ∷ s) = false

-- `strings.HasPrefix(s, p)`
unfoldable pub has_prefix : Text → Text → Bool
has_prefix s [] = true
has_prefix [] (y ∷ p) = false
has_prefix (x ∷ s) (y ∷ p) = x == y && has_prefix s p

-- `strings.HasSuffix(s, p)`: the last `len(p)` bytes of `s` are `p`.
unfoldable pub has_suffix : Text → Text → Bool
unfolding text_eq
has_suffix s p = leb (length p) (length s) && text_eq (drop (length s - length p) s) p

-- Is the byte one of `set`?
unfoldable pub contains_byte : Text → ℕ → Bool
contains_byte [] c = false
contains_byte (x ∷ cs) c = c == x || contains_byte cs c

-- `strings.IndexAny(s, set)`, with the text before the byte found, that byte, and the text after it.
unfoldable pub split_any : (ℕ → Bool) → Text → Option (Text × ℕ × Text)
split_any test [] = none
split_any test (c ∷ s) =
    let later = split_any test s in
    elim (test c) [
      | true ↦ some ([], c, s)
      | false ↦ elim later [ none ↦ none | some (p, d, r) ↦ some (c ∷ p, d, r) ]
    ]

-- `strings.Index(s, c)` for one byte, as the texts before and after it.
unfoldable pub split_first : ℕ → Text → Option (Text × Text)
split_first b [] = none
split_first b (c ∷ s) =
    let later = split_first b s in
    elim (c == b) [
      | true ↦ some ([], s)
      | false ↦ elim later [ none ↦ none | some (p, r) ↦ some (c ∷ p, r) ]
    ]

-- `strings.LastIndex(s, c)` for one byte, as the texts before and after it.
unfoldable pub split_last : ℕ → Text → Option (Text × Text)
split_last b [] = none
split_last b (c ∷ s) = elim (split_last b s) [
  | some (p, r) ↦ some (c ∷ p, r)
  | none ↦ if c == b then some ([], s) else none
]

-- `strings.Join(parts, sep)`
unfoldable pub join : Text → List Text → Text
join sep [] = []
join sep (x ∷ []) = x
join sep (x ∷ y ∷ xs) = x ++ (sep ++ join sep (y ∷ xs))

-- `strings.Split(s, c)` for a separator of one byte.
unfoldable pub split : ℕ → Text → List Text
split b [] = [] ∷ []
split b (c ∷ s) =
    let rest = split b s in
    if c == b then [] ∷ rest else elim rest [ [] ↦ (c ∷ []) ∷ [] | x ∷ xs ↦ (c ∷ x) ∷ xs ]

abbrev pub slash : Text
slash = codes "/"
