-- ===== src/Casing/Idempotent.antt =====
-- internal/casing/camel.go: what is in camel case stays as it is.
use grpc_gateway.Prelude.{
  ℕ, ◌≡◌, refl, ap, ◌∙◌, sym, subst, Bool, true, false, not, [], ◌∷◌, ◌++◌, ◌&&◌, Text, ◌==◌,
  if◌then◌else◌, arith, Bool-cases, inl, inr, if-intro,
}
use grpc_gateway.Casing.{is_ascii_lower, is_ascii_digit, starts_lower, capital, camel_loop, camel}

-- No lower case letter at the start or behind a digit, and no underscore in front of one. The flag says
-- that a lower case letter may come.
abbrev pub is_camel : Bool → Text → Bool
is_camel in_word [] = true
is_camel in_word (c ∷ s) =
    let outside = is_camel false s in
    let inside = is_camel true s in
    if is_ascii_lower c
    then in_word && inside
    else if is_ascii_digit c
    then outside
    else not (c == b'_' && starts_lower s) && inside

-- No underscore in front.
abbrev pub starts_plain : Text → Bool
starts_plain [] = true
starts_plain (c ∷ s) = not (c == b'_')

starts_lower-camel_loop : (s : Text) → starts_lower (camel_loop false s) ≡ false
unfolding camel_loop
starts_lower-camel_loop [] = refl
starts_lower-camel_loop (c ∷ s) = ground (arith, starts_lower-camel_loop s)

starts_lower-inside : (s : Text) → starts_lower (camel_loop true s) ≡ starts_lower s
unfolding camel_loop
starts_lower-inside [] = refl
starts_lower-inside (c ∷ s) = ground (arith, starts_lower-camel_loop s)

is_camel_weaken : (s : Text) → is_camel false s ≡ true → is_camel true s ≡ true
is_camel_weaken [] h = refl
is_camel_weaken (c ∷ s) h = ground arith

is_camel-lower :
    (c : ℕ) (t : Text)
    → is_ascii_lower c ≡ true
    → is_camel true t ≡ true
    → is_camel true (c ∷ t) ≡ true
is_camel-lower c t l h = rw (l, h)

digit_not_lower : (c : ℕ) → is_ascii_digit c ≡ true → is_ascii_lower c ≡ false
digit_not_lower c d = ground arith

is_camel-digit :
    (in_word : Bool) (c : ℕ) (t : Text)
    → is_ascii_digit c ≡ true
    → is_camel false t ≡ true
    → is_camel in_word (c ∷ t) ≡ true
is_camel-digit in_word c t d h = rw (digit_not_lower c d, d, h)

capital_not_lower : (c : ℕ) → is_ascii_lower (capital c) ≡ false
capital_not_lower c = ground arith

capital_not_digit : (c : ℕ) → is_ascii_digit c ≡ false → is_ascii_digit (capital c) ≡ false
capital_not_digit c d = ground arith

capital_underscore : (c : ℕ) → (capital c == b'_') ≡ (c == b'_')
capital_underscore c = ground arith

is_camel-capital :
    (in_word : Bool) (c : ℕ) (t : Text)
    → is_ascii_digit c ≡ false
    → (c == b'_' && starts_lower t) ≡ false
    → is_camel true t ≡ true
    → is_camel in_word (capital c ∷ t) ≡ true
is_camel-capital in_word c t d u h =
    rw (capital_not_lower c, capital_not_digit c d, capital_underscore c, u, h)

is_camel-outside : (in_word : Bool) (s : Text) → is_camel false s ≡ true → is_camel in_word s ≡ true
is_camel-outside true s h = is_camel_weaken s h
is_camel-outside false s h = h

and_true : (a b : Bool) → (a && b) ≡ true → (a ≡ true) × (b ≡ true)
and_true true b h = (refl, h)
and_true false b h = cc

-- The name that `Camel` has made is in camel case.
is_camel-camel_loop : (in_word : Bool) (s : Text) → is_camel in_word (camel_loop in_word s) ≡ true
unfolding camel_loop
is_camel-camel_loop in_word [] = refl
is_camel-camel_loop in_word (c ∷ s) =
    let inside = is_camel-camel_loop true s in
    let outside = is_camel-camel_loop false s in
    elim (Bool-cases (in_word && is_ascii_lower c)) [
      | inl l ↦
          (let (w, low) = and_true in_word (is_ascii_lower c) l in
            rw l (
              subst (λ b. is_camel b (c ∷ camel_loop true s) ≡ true) (sym w)
                (is_camel-lower c (camel_loop true s) low inside)))
      | inr l ↦ elim (Bool-cases (c == b'_' && starts_lower s)) [
        | inl u ↦ rw (l, u) (is_camel-outside in_word (camel_loop false s) outside)
        | inr u ↦ elim (Bool-cases (is_ascii_digit c)) [
          | inl d ↦ rw (l, u, d) (is_camel-digit in_word c (camel_loop false s) d outside)
          | inr d ↦
              rw (l, u, d)
                (is_camel-capital in_word c (camel_loop true s) d
                  (ap (λ b. c == b'_' && b) (starts_lower-inside s) ∙ u) inside)
        ]
      ]
    ]

camel_loop-is_camel :
    (in_word : Bool) (s : Text) → is_camel in_word s ≡ true → camel_loop in_word s ≡ s
unfolding camel_loop
camel_loop-is_camel in_word [] h = refl
camel_loop-is_camel in_word (c ∷ s) h =
    ground (arith, camel_loop-is_camel true s, camel_loop-is_camel false s)

starts_plain-camel : (s : Text) → starts_plain (camel s) ≡ true
unfolding camel camel_loop
starts_plain-camel [] = refl
starts_plain-camel (c ∷ s) = ground arith

camel-is_camel : (s : Text) → is_camel false s ≡ true → starts_plain s ≡ true → camel s ≡ s
unfolding camel
camel-is_camel [] h p = refl
camel-is_camel (c ∷ s) h p = elim (Bool-cases (c == b'_')) [
  | inl u ↦ absurd (cc (p, ap not u))
  | inr u ↦ rw u (camel_loop-is_camel false (c ∷ s) h)
]

is_camel-camel : (s : Text) → is_camel false (camel s) ≡ true
unfolding camel
is_camel-camel [] = refl
is_camel-camel (c ∷ s) =
    if-intro (λ t. is_camel false t ≡ true) (c == b'_')
      (is_camel-outside true (camel_loop false s) (is_camel-camel_loop false s))
      (is_camel-camel_loop false (c ∷ s))

-- `Camel` of a name that `Camel` has made is that name, whatever bytes the first name had.
pub camel-camel : (s : Text) → camel (camel s) ≡ camel s
camel-camel s = camel-is_camel (camel s) (is_camel-camel s) (starts_plain-camel s)

is_camel-first : (c : ℕ) (s : Text) → is_camel false (c ∷ s) ≡ true → is_ascii_lower c ≡ false
is_camel-first c s h = ground arith

is_camel-rest :
    (in_word : Bool) (c : ℕ) (s : Text) → is_camel in_word (c ∷ s) ≡ true → is_camel true s ≡ true
is_camel-rest in_word c s h = ground (arith, is_camel_weaken s)

is_camel-neighbours :
    (in_word : Bool) (c d : ℕ) (s : Text)
    → is_camel in_word (c ∷ d ∷ s) ≡ true
    → is_ascii_lower d ≡ true
    → (is_ascii_digit c ≡ false) × ((c == b'_') ≡ false)
is_camel-neighbours in_word c d s h low = ground arith

is_camel-inside :
    (in_word : Bool) (front back : Text) (c d : ℕ)
    → is_camel in_word (front ++ c ∷ d ∷ back) ≡ true
    → is_ascii_lower d ≡ true
    → (is_ascii_digit c ≡ false) × ((c == b'_') ≡ false)
is_camel-inside in_word [] back c d h low = is_camel-neighbours in_word c d back h low
is_camel-inside in_word (b ∷ front) back c d h low =
    is_camel-inside true front back c d (is_camel-rest in_word b (front ++ c ∷ d ∷ back) h) low

-- In what `Camel` makes, a lower case letter never stands directly behind a digit or an underscore.
pub camel-shape :
    (s front back : Text) (c d : ℕ)
    → camel s ≡ front ++ c ∷ d ∷ back
    → is_ascii_lower d ≡ true
    → (is_ascii_digit c ≡ false) × ((c == b'_') ≡ false)
camel-shape s front back c d e low =
    is_camel-inside false front back c d (subst (λ t. is_camel false t ≡ true) e (is_camel-camel s))
      low

starts_plain-first : (c : ℕ) (s : Text) → starts_plain (c ∷ s) ≡ true → (c == b'_') ≡ false
starts_plain-first c s h = ground arith

-- Neither a lower case letter nor an underscore comes first in what `Camel` makes.
pub camel-first :
    (s rest : Text) (c : ℕ)
    → camel s ≡ c ∷ rest
    → (is_ascii_lower c ≡ false) × ((c == b'_') ≡ false)
camel-first s rest c e = (
  is_camel-first c rest (subst (λ t. is_camel false t ≡ true) e (is_camel-camel s)),
  starts_plain-first c rest (subst (λ t. starts_plain t ≡ true) e (starts_plain-camel s)),
)
