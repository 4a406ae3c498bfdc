-- ===== src/HttpRule/Tokenize/Shape.antt =====
-- internal/httprule/parse.go: the tokens that the parser has before it, by the mode that they were
-- cut in, and what is left behind each kind of token.
use grpc_gateway.Prelude.{ℕ, ◌≡◌, refl, true, false, List, [], ◌∷◌, ◌++◌, Text, is_empty}
use grpc_gateway.HttpRule.Tokenize.{eof, Mode, init, next_mode, tokenize}
use grpc_gateway.HttpRule.Tokenize.Grammar.{
  is_separator, IsPlain, TokensOf, done, last, separated, behind_text, scan-TokensOf,
  take_verb-TokensOf,
}

mutual
  -- A text or none, and what may stand behind a text.
  pub data Tokens : Mode → List Text → Type 0 where
    text : {st : Mode} {t : Text} {ts : List Text} → IsPlain st t → Rest st ts → Tokens st (t ∷ ts)
    rest : {st : Mode} {ts : List Text} → Rest st ts → Tokens st ts

  -- A separator, the terminal symbol, or nothing.
  pub data Rest : Mode → List Text → Type 0 where
    taken : {st : Mode} → Rest st []
    end : {st : Mode} → Rest st (eof ∷ [])
    separator :
        {st : Mode} {r : ℕ} {ts : List Text}
        → is_separator st r ≡ true
        → Tokens (next_mode st r) ts
        → Rest st ((r ∷ []) ∷ ts)

append-Tokens : (st : Mode) (l : List Text) → TokensOf st l → Tokens st (l ++ eof ∷ [])
append-Tokens st [] done = rest end
append-Tokens st (t ∷ []) (last p) = text p end
append-Tokens st (t ∷ ts) (separated {r = r} e d) =
    rest (separator e (append-Tokens (next_mode st r) ts d))
append-Tokens st (t ∷ u ∷ ts) (behind_text {r = r} p e d) =
    text p (separator e (append-Tokens (next_mode st r) ts d))

pub tokenize-Tokens : (path : Text) → Tokens init (tokenize path).0
unfolding tokenize
tokenize-Tokens [] = rest end
tokenize-Tokens (c ∷ path) =
    append-Tokens init _ (take_verb-TokensOf init false _ (scan-TokensOf _ init (c ∷ path)))

-- No token is empty.
pub Tokens-nonempty :
    (st : Mode) (t : Text) (ts : List Text) → Tokens st (t ∷ ts) → is_empty t ≡ false
Tokens-nonempty st t ts (text p r) = p.0
Tokens-nonempty st t ts (rest end) = refl
Tokens-nonempty st t ts (rest (separator e d)) = refl

-- Behind a token that is no separator.
pub behind-text :
    (st : Mode) (t : Text) (ts : List Text)
    → Tokens st (t ∷ ts)
    → ((r : ℕ) → t ≡ r ∷ [] → is_separator st r ≡ false)
    → Rest st ts
behind-text st t ts (text p r) plain = r
behind-text st t ts (rest end) plain = taken
behind-text st t ts (rest (separator {r = r} e d)) plain = cc (plain r refl)

-- Behind a separator.
pub behind-separator :
    (st : Mode) (r : ℕ) (ts : List Text)
    → Tokens st ((r ∷ []) ∷ ts)
    → is_separator st r ≡ true
    → Tokens (next_mode st r) ts
behind-separator st r ts (text p d) e = cc (p.1.0)
behind-separator st r ts (rest end) e = rest taken
behind-separator st r ts (rest (separator e' d)) e = d
