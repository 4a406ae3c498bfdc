-- ===== src/Descriptor/Registry/Pigeons.antt =====
-- Among more distinct texts than a list has, one is not in the list.
use grpc_gateway.Prelude.{
  suc, ◌≤◌, ◌≡◌, refl, ◌∙◌, ap, Bool, true, false, ◌||◌, List, [], ◌∷◌, Text, length, All, text_eq,
  text_eq→eq, if◌then◌else◌, Bool-cases, inl, inr, arith,
}
use grpc_gateway.Descriptor.Registry.{contains_text}

abbrev pub AreDistinct : List Text → Type 0
AreDistinct [] = Unit
AreDistinct (c ∷ cs) = All (λ d. text_eq c d ≡ false) cs × AreDistinct cs

remove : Text → List Text → List Text
remove c [] = []
remove c (x ∷ xs) = if text_eq x c then xs else x ∷ remove c xs

length-remove :
    (c : Text) (xs : List Text) → contains_text c xs ≡ true → length xs ≡ suc (length (remove c xs))
unfolding remove contains_text
length-remove c [] h = cc
length-remove c (x ∷ xs) h = elim (Bool-cases (text_eq x c)) [
  | inl e ↦ rw e refl
  | inr e ↦ rw e (ap suc (length-remove c xs (ground arith)))
]

or_right : (b c : Bool) → b ≡ false → (b || c) ≡ true → c ≡ true
or_right b c e h = ground arith

contains_text-remove :
    (c d : Text) (xs : List Text)
    → text_eq c d ≡ false
    → contains_text d xs ≡ true
    → contains_text d (remove c xs) ≡ true
unfolding remove contains_text
contains_text-remove c d [] n h = cc
contains_text-remove c d (x ∷ xs) n h = elim (Bool-cases (text_eq x c)) [
  | inl e ↦
      rw e (
        or_right (text_eq x d) (contains_text d xs) (ap (λ y. text_eq y d) (text_eq→eq x c e) ∙ n)
          h)
  | inr e ↦ rw e (elim (Bool-cases (text_eq x d)) [
    | inl f ↦ rw f refl
    | inr f ↦ rw f (contains_text-remove c d xs n (ground arith))
  ])
]

All-remove :
    (c : Text) (cs xs : List Text)
    → All (λ d. text_eq c d ≡ false) cs
    → All (λ d. contains_text d xs ≡ true) cs
    → All (λ d. contains_text d (remove c xs) ≡ true) cs
All-remove c [] xs n h = tt
All-remove c (d ∷ cs) xs (n, ns) (h, hs) =
    (contains_text-remove c d xs n h, All-remove c cs xs ns hs)

pub pigeons :
    (cs xs : List Text)
    → AreDistinct cs
    → All (λ d. contains_text d xs ≡ true) cs
    → length cs ≤ length xs
pigeons [] xs d h = omega arith
pigeons (c ∷ cs) xs (n, d) (h, hs) =
    omega (arith, length-remove c xs h, pigeons cs (remove c xs) d (All-remove c cs xs n hs))
