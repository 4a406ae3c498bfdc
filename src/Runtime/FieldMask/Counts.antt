-- ===== src/Runtime/FieldMask/Counts.antt =====
-- Lists of texts up to order, by how often each text occurs.
use grpc_gateway.Prelude.{
  ℕ, ◌+◌, ◌≡◌, refl, ◌∙◌, ap, List, [], ◌∷◌, ◌++◌, Option, none, some, Text, text_eq, if◌then◌else◌,
  append-nil, append_assoc, Bool-cases, inl, inr, arith,
}
use grpc_gateway.Runtime.FieldMask.{less, insert_sorted, sort_strings}

unfoldable pub count : Text → List Text → ℕ
count t [] = 0
count t (x ∷ xs) = (if text_eq x t then 1 else 0) + count t xs

pub count-append : (t : Text) (xs ys : List Text) → count t (xs ++ ys) ≡ count t xs + count t ys
unfolding count
count-append t [] ys = omega arith
count-append t (x ∷ xs) ys = omega (arith, count-append t xs ys)

pub count-insert_sorted :
    (t s : Text) (ts : List Text) → count t (insert_sorted s ts) ≡ count t (s ∷ ts)
unfolding count insert_sorted
count-insert_sorted t s [] = refl
count-insert_sorted t s (u ∷ ts) = elim (Bool-cases (less u s)) [
  | inl e ↦ rw e (omega (arith, count-insert_sorted t s ts))
  | inr e ↦ rw e refl
]

pub count-sort_strings : (t : Text) (ts : List Text) → count t (sort_strings ts) ≡ count t ts
unfolding count sort_strings
count-sort_strings t [] = refl
count-sort_strings t (s ∷ ts) =
    count-insert_sorted t s (sort_strings ts)
    ∙ ap (λ n. (if text_eq s t then 1 else 0) + n) (count-sort_strings t ts)

-- Two lists, put together where there are two.
abbrev pub both : Option (List Text) → Option (List Text) → Option (List Text)
both none o = none
both (some a) none = none
both (some a) (some b) = some (a ++ b)

-- The same texts as often, or nothing on both sides.
abbrev pub SameTexts : Option (List Text) → Option (List Text) → Type 0
SameTexts none none = Unit
SameTexts (some a) (some b) = (t : Text) → count t a ≡ count t b
SameTexts none (some b) = ⊥
SameTexts (some a) none = ⊥

pub SameTexts-refl : (o p : Option (List Text)) → o ≡ p → SameTexts o p
SameTexts-refl none none e = tt
SameTexts-refl (some a) (some b) e = λ t. ap (count t) (cc)
SameTexts-refl none (some b) e = cc
SameTexts-refl (some a) none e = cc

pub SameTexts-trans : (o p q : Option (List Text)) → SameTexts o p → SameTexts p q → SameTexts o q
SameTexts-trans none none none h k = tt
SameTexts-trans (some a) (some b) (some c) h k = λ t. h t ∙ k t
SameTexts-trans none none (some c) h k = k
SameTexts-trans none (some b) q h k = absurd h
SameTexts-trans (some a) none q h k = absurd h
SameTexts-trans (some a) (some b) none h k = k

pub both_assoc : (o p q : Option (List Text)) → both (both o p) q ≡ both o (both p q)
both_assoc none p q = refl
both_assoc (some a) none q = refl
both_assoc (some a) (some b) none = refl
both_assoc (some a) (some b) (some c) = ap some (append_assoc a b c)

pub both-nil : (o : Option (List Text)) → both o (some []) ≡ o
both-nil none = refl
both-nil (some a) = ap some (append-nil a)

pub both-none : (o : Option (List Text)) → both o none ≡ none
both-none none = refl
both-none (some a) = refl

pub both_comm : (o p : Option (List Text)) → SameTexts (both o p) (both p o)
both_comm none none = tt
both_comm none (some b) = tt
both_comm (some a) none = tt
both_comm (some a) (some b) = λ t. omega (arith, count-append t a b, count-append t b a)

pub both_congr : (o p q : Option (List Text)) → SameTexts o p → SameTexts (both o q) (both p q)
both_congr none none q h = tt
both_congr (some a) (some b) none h = tt
both_congr (some a) (some b) (some c) h =
    λ t. omega (arith, count-append t a c, count-append t b c, h t)
both_congr none (some b) q h = absurd h
both_congr (some a) none q h = absurd h

pub both_congr_right :
    (a : List Text) (o p : Option (List Text))
    → SameTexts o p
    → SameTexts (both (some a) o) (both (some a) p)
both_congr_right a none none h = tt
both_congr_right a (some b) (some c) h =
    λ t. omega (arith, count-append t a b, count-append t a c, h t)
both_congr_right a none (some c) h = absurd h
both_congr_right a (some b) none h = absurd h
