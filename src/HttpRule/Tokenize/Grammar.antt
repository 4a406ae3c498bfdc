-- ===== src/HttpRule/Tokenize/Grammar.antt =====
-- internal/httprule/parse.go: the shape of the tokens that `tokenize` makes, by the mode it starts in.
use grpc_gateway.Prelude.{
  ℕ, zero, suc, ◌≡◌, refl, Bool, true, false, List, [], ◌∷◌, ◌++◌, Option, none, some, Text, codes,
  All, ◌==◌, if◌then◌else◌, contains_byte, split_any, split_first, split_last, text_eq, is_empty,
  arith,
}
use grpc_gateway.HttpRule.Tokenize.{
  Mode, init, field, nested, separators, next_mode, pieces, scan, find_colon, cut_verb, take_verb,
}
use grpc_gateway.Prelude.{if-intro}

abbrev pub is_separator : Mode → ℕ → Bool
is_separator st = contains_byte (separators st)

-- A text between separators.
abbrev pub IsPlain : Mode → Text → Type 0
IsPlain st t = (is_empty t ≡ false) × All (λ c. is_separator st c ≡ false) t

-- Texts and separators in turn; a separator has a text in front or none.
pub data TokensOf : Mode → List Text → Type 0 where
  done : {st : Mode} → TokensOf st []
  last : {st : Mode} {t : Text} → IsPlain st t → TokensOf st (t ∷ [])
  separated :
      {st : Mode} {r : ℕ} {ts : List Text}
      → is_separator st r ≡ true
      → TokensOf (next_mode st r) ts
      → TokensOf st ((r ∷ []) ∷ ts)
  behind_text :
      {st : Mode} {t : Text} {r : ℕ} {ts : List Text}
      → IsPlain st t
      → is_separator st r ≡ true
      → TokensOf (next_mode st r) ts
      → TokensOf st (t ∷ (r ∷ []) ∷ ts)

abbrev SplitsAt : (ℕ → Bool) → Text → Option (Text × ℕ × Text) → Type 0
SplitsAt test s none = All (λ c. test c ≡ false) s
SplitsAt test s (some (p, r, rest)) = All (λ c. test c ≡ false) p × (test r ≡ true)

split_any-SplitsAt : (test : ℕ → Bool) (s : Text) → SplitsAt test s (split_any test s)
unfolding split_any
split_any-SplitsAt test [] = tt
split_any-SplitsAt test (c ∷ s) = first (test c) refl (split_any test s) (split_any-SplitsAt test s)
  where
    first :
        (b : Bool)
        → test c ≡ b
        → (o : Option (Text × ℕ × Text)) → SplitsAt test s o
        → SplitsAt test (c ∷ s) (elim b [
          | true ↦ some ([], c, s)
          | false ↦ elim o [ none ↦ none | some (p, d, r) ↦ some (c ∷ p, d, r) ]
        ])
    first true e o h = (tt, e)
    first false e none h = (e, h)
    first false e (some (p, d, r)) h = ((e, h.0), h.1)

pieces-TokensOf :
    (st : Mode) (p : Text) (r : ℕ) (ts : List Text)
    → All (λ c. is_separator st c ≡ false) p
    → is_separator st r ≡ true
    → TokensOf (next_mode st r) ts
    → TokensOf st (pieces p r ++ ts)
pieces-TokensOf st [] r ts a e d = separated e d
pieces-TokensOf st (c ∷ p) r ts a e d = behind_text (refl, a) e d

pub scan-TokensOf : (f : ℕ) (st : Mode) (path : Text) → TokensOf st (scan f st path)
unfolding scan
scan-TokensOf zero st path = done
scan-TokensOf (suc f) st [] = done
scan-TokensOf (suc f) st (c ∷ path) =
    piece (split_any (is_separator st) (c ∷ path)) (split_any-SplitsAt (is_separator st) (c ∷ path))
      (scan-TokensOf f)
  where
    piece :
        (o : Option (Text × ℕ × Text))
        → SplitsAt (is_separator st) (c ∷ path) o
        → ((st : Mode) (path : Text) → TokensOf st (scan f st path))
        → TokensOf st (elim o [
          | none ↦ (c ∷ path) ∷ []
          | some (p, r, rest) ↦ pieces p r ++ scan f (next_mode st r) rest
        ])
    piece none h ih = last (refl, h)
    piece (some (p, r, rest)) h ih =
        pieces-TokensOf st p r (scan f (next_mode st r) rest) h.0 h.1 (ih (next_mode st r) rest)

abbrev FrontAll : (ℕ → Type 0) → Option (Text × Text) → Type 0
FrontAll P none = Unit
FrontAll P (some (p, v)) = All P p

split_first-FrontAll : (P : ℕ → Type 0) (b : ℕ) (t : Text) → All P t → FrontAll P (split_first b t)
unfolding split_first
split_first-FrontAll P b [] a = tt
split_first-FrontAll P b (c ∷ t) a =
    first (c == b) (split_first b t) (split_first-FrontAll P b t a.1)
  where
    first :
        (found : Bool) (o : Option (Text × Text))
        → FrontAll P o
        → FrontAll P (elim found [
          | true ↦ some ([], t)
          | false ↦ elim o [ none ↦ none | some (p, r) ↦ some (c ∷ p, r) ]
        ])
    first true o h = tt
    first false none h = tt
    first false (some (p, r)) h = (a.0, h)

split_last-FrontAll : (P : ℕ → Type 0) (b : ℕ) (t : Text) → All P t → FrontAll P (split_last b t)
unfolding split_last
split_last-FrontAll P b [] a = tt
split_last-FrontAll P b (c ∷ t) a = first (split_last b t) (split_last-FrontAll P b t a.1)
  where
    first :
        (o : Option (Text × Text))
        → FrontAll P o
        → FrontAll P (elim o [
          | some (p, r) ↦ some (c ∷ p, r)
          | none ↦ if c == b then some ([], t) else none
        ])
    first (some (p, r)) h = (a.0, h)
    first none h = if-intro (FrontAll P) (c == b) tt tt

find_colon-FrontAll :
    (P : ℕ → Type 0) (after_var : Bool) (t : Text) → All P t → FrontAll P (find_colon after_var t)
find_colon-FrontAll P true t a = split_first-FrontAll P b':' t a
find_colon-FrontAll P false t a = split_last-FrontAll P b':' t a

cut_verb-TokensOf :
    (st : Mode) (t : Text) (o : Option (Text × Text))
    → TokensOf st (t ∷ [])
    → FrontAll (λ c. is_separator st c ≡ false) o
    → TokensOf st (cut_verb t o).0
cut_verb-TokensOf st t none d f = d
cut_verb-TokensOf st t (some ([], v)) d f = done
cut_verb-TokensOf st t (some (c ∷ p, v)) d f = last (refl, f)

separator-ne-colon : (st : Mode) (r : ℕ) → is_separator st r ≡ true → (r == b':') ≡ false
unfolding contains_byte
separator-ne-colon init r e = ground arith
separator-ne-colon field r e = ground arith
separator-ne-colon nested r e = ground arith

find_colon-separator :
    (st : Mode) (r : ℕ) (after_var : Bool)
    → is_separator st r ≡ true
    → find_colon after_var (r ∷ []) ≡ none
unfolding split_first split_last
find_colon-separator st r true e = rw (separator-ne-colon st r e, split_first) refl
find_colon-separator st r false e = rw (separator-ne-colon st r e, split_last) refl

-- Taking the verb off leaves the shape of the tokens.
pub take_verb-TokensOf :
    (st : Mode) (after_var : Bool) (l : List Text)
    → TokensOf st l
    → TokensOf st (take_verb after_var l).0
unfolding take_verb
take_verb-TokensOf st after_var [] done = done
take_verb-TokensOf st after_var (t ∷ []) (last p) =
    cut_verb-TokensOf st t (find_colon after_var t) (last p)
      (find_colon-FrontAll (λ c. is_separator st c ≡ false) after_var t p.1)
take_verb-TokensOf st after_var (t ∷ []) (separated {r = r} e done) =
    rw (find_colon-separator st r after_var e) (separated e done)
take_verb-TokensOf st after_var (t ∷ u ∷ ts) (separated {r = r} e d) =
    separated e (take_verb-TokensOf (next_mode st r) (text_eq t (codes "}")) (u ∷ ts) d)
take_verb-TokensOf st after_var (t ∷ u ∷ []) (behind_text {r = r} p e d) =
    rw (find_colon-separator st r (text_eq t (codes "}")) e) (behind_text p e d)
take_verb-TokensOf st after_var (t ∷ u ∷ v ∷ ts) (behind_text {r = r} p e d) =
    behind_text p e (take_verb-TokensOf (next_mode st r) (text_eq u (codes "}")) (v ∷ ts) d)
