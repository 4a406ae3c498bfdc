-- ===== src/HttpRule/Parse/Good.antt =====
-- internal/httprule/parse.go: what a parser that takes tokens leaves, and how two of them follow each
-- other.
use grpc_gateway.Prelude.{
  ℕ, suc, ◌≤◌, ◌<◌, ◌≡◌, refl, false, List, [], ◌∷◌, Text, length, text_eq, Result, ok, fail, ◌>>=◌,
  Post, arith, contains_byte,
}
use grpc_gateway.HttpRule.Chars.{
  expect_pchars, pchars, is_plain, expect_ident, ident_chars, is_ident_char,
}
use grpc_gateway.HttpRule.Tokenize.{eof}
use grpc_gateway.HttpRule.Parse.{
  ParseError, empty_tokens, out_of_fuel, Term, symbol, ident, Parser, Parsed, fits, accept_in,
  accept, if_accepted,
}

abbrev pub EndsEof : List Text → Type 0
EndsEof [] = ⊥
EndsEof (t ∷ []) = t ≡ eof
EndsEof (t ∷ u ∷ ts) = EndsEof (u ∷ ts)

-- An error that the source returns, as against a panic or the end of the fuel.
abbrev pub IsSyntaxError : ParseError → Type 0
IsSyntaxError empty_tokens = ⊥
IsSyntaxError out_of_fuel = ⊥
IsSyntaxError _ = Unit

-- At most `n` tokens are left, the terminal one among them.
abbrev pub Leaves {ℓ} : {A : Type ℓ} → ℕ → A × Parser → Type 0
Leaves n (_, p) = EndsEof p.tokens × (length p.tokens ≤ n)

abbrev pub Good {ℓ} : {A : Type ℓ} → ℕ → Result ParseError (A × Parser) → Type 0
Good n = Post (Leaves n) IsSyntaxError

-- A term that does not take the terminal token.
abbrev pub Consumes : Term → Type 0
Consumes term = fits term eof ≡ false

accept_in-Good :
    (term : Term) (n : ℕ) (tokens accepted : List Text)
    → Consumes term
    → EndsEof tokens
    → length tokens ≤ suc n
    → Good n (accept_in term tokens accepted)
unfolding accept_in
accept_in-Good term n [] accepted c e l = absurd e
accept_in-Good term n (t ∷ []) accepted c e l = rw (e, c) tt
accept_in-Good term n (t ∷ u ∷ ts) accepted c e l = ground arith

module _ (n : ℕ) (p : Parser) (e : EndsEof p.tokens) (l : length p.tokens ≤ suc n) where
  pub accept-Good : (term : Term) → Consumes term → Good n (accept term p)
  unfolding accept
  accept-Good term c = accept_in-Good term n p.tokens p.accepted c e l

pub if_accepted-Good :
    {A : Type 0} (n : ℕ) (r : Parsed Text) (taken : Text → Parser → Parsed A) (otherwise : Parsed A)
    (m : ℕ)
    → Good n r
    → ((t : Text) (p : Parser) → EndsEof p.tokens → length p.tokens ≤ n → Good m (taken t p))
    → Good m otherwise
    → Good m (if_accepted r taken otherwise)
if_accepted-Good n (ok (t, p)) taken otherwise m h y o = y t p h.0 h.1
if_accepted-Good n (fail empty_tokens) taken otherwise m h y o = absurd h
if_accepted-Good n (fail out_of_fuel) taken otherwise m h y o = absurd h
if_accepted-Good n (fail _) taken otherwise m h y o = o

pub ident-Consumes : Consumes ident
unfolding fits expect_ident ident_chars is_ident_char
ident-Consumes = refl

pub pchars-Consumes : Consumes Term.pchars
unfolding fits expect_pchars pchars is_plain contains_byte
pchars-Consumes = refl

-- The symbols that the parser asks for.
abbrev pub IsSymbol : Text → Type 0
IsSymbol s = text_eq eof s ≡ false

pub symbol-Consumes : (s : Text) → IsSymbol s → Consumes (symbol s)
unfolding fits text_eq
symbol-Consumes s h = rw h

pub EndsEof-pos : (l : List Text) → EndsEof l → 0 < length l
EndsEof-pos [] e = absurd e
EndsEof-pos (t ∷ ts) e = omega arith

pub no_tokens : {A : Type 0} (p : Parser) → EndsEof p.tokens → length p.tokens ≤ 0 → A
no_tokens p e l = absurd (omega (arith, EndsEof-pos p.tokens e))

pub Good-mono {ℓ} :
    {A : Type ℓ} (n m : ℕ) (r : Result ParseError (A × Parser)) → Good n r → n ≤ m → Good m r
Good-mono n m (ok (a, p)) (e, l) le = (e, omega arith)
Good-mono n m (fail err) h le = h

-- Two parsers in a row.
pub Good-bind {ℓ κ} :
    {A : Type ℓ} {B : Type κ} (n m : ℕ) (r : Result ParseError (A × Parser))
    (f : A × Parser → Result ParseError (B × Parser))
    → Good n r
    → ((a : A) (p : Parser) → EndsEof p.tokens → length p.tokens ≤ n → Good m (f (a, p)))
    → Good m (r >>= f)
Good-bind n m (ok (a, p)) f (e, l) k = k a p e l
Good-bind n m (fail err) f h k = h
