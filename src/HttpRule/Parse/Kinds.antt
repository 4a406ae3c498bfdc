-- ===== src/HttpRule/Parse/Kinds.antt =====
-- internal/httprule/parse.go: the mode of the tokens behind a token that the parser takes.
use grpc_gateway.Prelude.{
  ℕ, ◌≡◌, ◌⊎◌, refl, sym, ◌∙◌, subst, true, false, List, [], ◌∷◌, Text, codes, slash, ◌==◌,
  contains_byte, text_eq, arith, Bool-cases, inl, inr, text_eq→eq,
}
use grpc_gateway.HttpRule.Chars.{
  expect_pchars, pchars, is_plain, expect_ident, ident_chars, is_ident_char,
}
use grpc_gateway.HttpRule.Tokenize.{Mode, init, field, nested, next_mode}
use grpc_gateway.HttpRule.Tokenize.Grammar.{is_separator}
use grpc_gateway.HttpRule.Tokenize.Shape.{
  Tokens, Rest, rest, end, separator, behind-text, behind-separator,
}
use grpc_gateway.HttpRule.Parse.{symbol, fits}

pub symbol-cases : (s t : Text) → fits (symbol s) t ≡ true → (t ≡ s) ⊎ (t ≡ slash)
unfolding fits
symbol-cases s t h = elim (Bool-cases (text_eq t s)) [
  | inl e ↦ inl (text_eq→eq t s e)
  | inr e ↦ inr (text_eq→eq t slash (ground arith))
]

separator-init : (r : ℕ) → is_separator init r ≡ true → (r ≡ b'/') ⊎ (r ≡ b'{')
unfolding contains_byte
separator-init r h = elim (Bool-cases (r == b'/')) [
  | inl e ↦ inl (ground arith)
  | inr e ↦ inr (ground arith)
]

separator-nested : (r : ℕ) → is_separator nested r ≡ true → (r ≡ b'/') ⊎ (r ≡ b'}')
unfolding contains_byte
separator-nested r h = elim (Bool-cases (r == b'/')) [
  | inl e ↦ inl (ground arith)
  | inr e ↦ inr (ground arith)
]

separator-field : (r : ℕ) → is_separator field r ≡ true → (r ≡ b'.') ⊎ (r ≡ b'=') ⊎ (r ≡ b'}')
unfolding contains_byte
separator-field r h = elim (Bool-cases (r == b'.')) [
  | inl e ↦ inl (ground arith)
  | inr e ↦ elim (Bool-cases (r == b'=')) [
    | inl f ↦ inr (inl (ground arith))
    | inr f ↦ inr (inr (ground arith))
  ]
]

-- The modes in which segments are read.
abbrev pub IsPath : Mode → Type 0
IsPath init = Unit
IsPath nested = Unit
IsPath field = ⊥

head_eq : (r s : ℕ) → ◌≡◌ {A = Text} (r ∷ []) (s ∷ []) → r ≡ s
head_eq r s e = cc

-- Behind a slash the mode stays.
pub slash-Tokens :
    (st : Mode) (t : Text) (ts : List Text)
    → IsPath st
    → Tokens st (t ∷ ts)
    → t ≡ slash
    → Tokens st ts
unfolding contains_byte
slash-Tokens init t ts i d e =
    behind-separator init b'/' ts (subst (λ t. Tokens init (t ∷ ts)) e d) refl
slash-Tokens nested t ts i d e =
    behind-separator nested b'/' ts (subst (λ t. Tokens nested (t ∷ ts)) e d) refl
slash-Tokens field t ts i d e = absurd i

-- Behind a wildcard, or the slash that is taken for one.
pub star-Tokens :
    (st : Mode) (s t : Text) (ts : List Text)
    → ((r : ℕ) → s ≡ r ∷ [] → is_separator st r ≡ false)
    → IsPath st
    → Tokens st (t ∷ ts)
    → fits (symbol s) t ≡ true
    → Tokens st ts
star-Tokens st s t ts plain i d h = elim (symbol-cases s t h) [
  | inl e ↦ rest (behind-text st t ts d (λ r eq. plain r (sym e ∙ eq)))
  | inr e ↦ slash-Tokens st t ts i d e
]

pub one_star : (st : Mode) → IsPath st → (r : ℕ) → codes "*" ≡ r ∷ [] → is_separator st r ≡ false
unfolding contains_byte
one_star init i r e = rw (← head_eq b'*' r e) refl
one_star nested i r e = rw (← head_eq b'*' r e) refl
one_star field i r e = absurd i

pub two_stars : (st : Mode) (r : ℕ) → codes "**" ≡ r ∷ [] → is_separator st r ≡ false
two_stars st r e = cc

pchars-plain :
    (st : Mode) (r : ℕ) → IsPath st → expect_pchars (r ∷ []) ≡ true → is_separator st r ≡ false
unfolding expect_pchars pchars is_plain contains_byte
pchars-plain init r i h = elim (Bool-cases (is_separator init r)) [
  | inr n ↦ n
  | inl y ↦ elim (separator-init r y) [ inl e ↦ cc | inr e ↦ cc ]
]
pchars-plain nested r i h = elim (Bool-cases (is_separator nested r)) [
  | inr n ↦ n
  | inl y ↦ elim (separator-nested r y) [ inl e ↦ cc | inr e ↦ cc ]
]
pchars-plain field r i h = absurd i

-- Behind a literal.
pub pchars-Tokens :
    (st : Mode) (t : Text) (ts : List Text)
    → IsPath st
    → Tokens st (t ∷ ts)
    → expect_pchars t ≡ true
    → Tokens st ts
pchars-Tokens st t ts i d h =
    rest
      (behind-text st t ts d (λ r e. pchars-plain st r i (subst (λ t. expect_pchars t ≡ true) e h)))

-- Behind the brace that opens a variable.
pub brace-Tokens :
    (t : Text) (ts : List Text) → Tokens init (t ∷ ts) → t ≡ codes "{" → Tokens field ts
unfolding contains_byte
brace-Tokens t ts d e = behind-separator init b'{' ts (subst (λ t. Tokens init (t ∷ ts)) e d) refl

-- In a variable that brace is a text, if it stands alone.
pub brace-Rest :
    (t : Text) (ts : List Text) → Tokens nested (t ∷ ts) → t ≡ codes "{" → Rest nested ts
unfolding contains_byte
brace-Rest t ts d e = behind-text nested t ts d (λ r eq. rw (← head_eq b'{' r (sym e ∙ eq)) refl)

-- Behind the brace that closes a variable.
pub close-Tokens :
    (t : Text) (ts : List Text) → Tokens nested (t ∷ ts) → t ≡ codes "}" → Tokens init ts
unfolding contains_byte
close-Tokens t ts d e =
    behind-separator nested b'}' ts (subst (λ t. Tokens nested (t ∷ ts)) e d) refl

ident-plain : (r : ℕ) → expect_ident (r ∷ []) ≡ true → is_separator field r ≡ false
unfolding expect_ident ident_chars is_ident_char contains_byte
ident-plain r h = elim (Bool-cases (is_separator field r)) [
  | inr n ↦ n
  | inl y ↦ elim (separator-field r y) [
    | inl e ↦ cc (subst (λ r. expect_ident (r ∷ []) ≡ true) e h)
    | inr (inl e) ↦ cc (subst (λ r. expect_ident (r ∷ []) ≡ true) e h)
    | inr (inr e) ↦ cc (subst (λ r. expect_ident (r ∷ []) ≡ true) e h)
  ]
]

-- Behind a component of a field path.
pub ident-Rest :
    (t : Text) (ts : List Text) → Tokens field (t ∷ ts) → expect_ident t ≡ true → Rest field ts
ident-Rest t ts d h =
    behind-text field t ts d (λ r e. ident-plain r (subst (λ t. expect_ident t ≡ true) e h))

-- A separator is no component of a field path.
pub ident-Rest_nested :
    (t : Text) (ts : List Text) → Rest nested (t ∷ ts) → expect_ident t ≡ true → ⊥
unfolding expect_ident ident_chars is_ident_char
ident-Rest_nested t ts end h = cc h
ident-Rest_nested t ts (separator {r = r} y d) h = elim (separator-nested r y) [
  | inl e ↦ cc (subst (λ r. expect_ident (r ∷ []) ≡ true) e h)
  | inr e ↦ cc (subst (λ r. expect_ident (r ∷ []) ≡ true) e h)
]

-- What stands behind a component of a field path, by the symbol that is taken.
pub symbol-Rest :
    (r : ℕ) (t : Text) (ts : List Text)
    → is_separator field r ≡ true
    → Rest field (t ∷ ts)
    → fits (symbol (r ∷ [])) t ≡ true
    → Tokens (next_mode field r) ts
unfolding contains_byte
symbol-Rest r t ts y d h = elim (symbol-cases (r ∷ []) t h) [
  | inl e ↦ behind-separator field r ts (rest (subst (λ t. Rest field (t ∷ ts)) e d)) y
  | inr e ↦ absurd (no_slash t ts d e)
]
  where
    no_slash : (t : Text) (ts : List Text) → Rest field (t ∷ ts) → t ≡ slash → ⊥
    no_slash t ts end e = cc e
    no_slash t ts (separator {r = s} y d) e =
        cc (subst (λ s. is_separator field s ≡ true) (head_eq s b'/' e) y)
