-- ===== src/HttpRule/Parse.antt =====
-- internal/httprule/parse.go: the recursive descent parser of path templates.
-- `empty_tokens` is the panic of `p.tokens[0]` on no tokens; `out_of_fuel` belongs to the model only.
pub mod Good
pub mod Kinds
pub mod WellFormed
pub mod Total
use grpc_gateway.Prelude.{
  ℕ, zero, suc, ◌+◌, ◌*◌, Bool, true, false, List, [], ◌∷◌, ◌++◌, ◌&&◌, ◌||◌, not, Text, codes,
  length, if◌then◌else◌, text_eq, has_prefix, drop, join, slash, Result, ok, fail, ◌>>=◌,
}
use grpc_gateway.HttpRule.Template.{
  Segment, wildcard, deep_wildcard, literal, variable, Segments, nil, cons, append, Template,
}
use grpc_gateway.HttpRule.Chars.{expect_pchars, expect_ident}
use grpc_gateway.HttpRule.Tokenize.{eof, tokenize}

pub data ParseError : Type 0 where
  no_leading_slash unexpected_term unterminated_variable empty_tokens out_of_fuel : ParseError

-- The `termType`s: a symbol by its text, and the three named ones.
pub data Term : Type 0 where
  symbol : Text → Term
  end_of_input ident pchars : Term

pub record Parser : Type 0 where
  pub tokens : List Text
  pub accepted : List Text

abbrev pub Parsed : Type 0 → Type 0
Parsed A = Result ParseError (A × Parser)

-- Does `accept` take the token? A symbol is matched by its own text, and by a slash.
unfoldable pub fits : Term → Text → Bool
fits (symbol s) t = text_eq t s || text_eq t slash
fits end_of_input t = text_eq t eof
fits ident t = expect_ident t
fits pchars t = expect_pchars t

unfoldable pub accept_in : Term → List Text → List Text → Parsed Text
accept_in term [] accepted = fail empty_tokens
accept_in term (t ∷ ts) accepted =
    if fits term t
    then ok (t, record { tokens = ts; accepted = accepted ++ t ∷ [] })
    else fail unexpected_term

-- `parser.accept`
unfoldable pub accept : Term → Parser → Parsed Text
accept term p = accept_in term p.tokens p.accepted

-- `if _, err := p.accept(term); err == nil { … } else { … }`; a panic is no error value.
abbrev pub if_accepted :
    {A : Type 0} → Parsed Text → (Text → Parser → Parsed A) → Parsed A → Parsed A
if_accepted (ok (t, p)) yes_case no_case = yes_case t p
if_accepted (fail empty_tokens) yes_case no_case = fail empty_tokens
if_accepted (fail _) yes_case no_case = no_case

-- The loop of `fieldPath`, over the components read so far.
unfoldable pub field_path_loop : ℕ → List Text → Parser → Parsed Text
field_path_loop zero components p = fail out_of_fuel
field_path_loop (suc f) components p =
    if_accepted (accept (symbol (codes ".")) p)
      (λ _ p₁. do (c, p₂) ← accept ident p₁; field_path_loop f (components ++ c ∷ []) p₂)
      (ok (join (codes ".") components, p))

-- `parser.fieldPath`
unfoldable pub field_path : ℕ → Parser → Parsed Text
field_path f p = do (c, p₁) ← accept ident p; field_path_loop f (c ∷ []) p₁

-- The end of `parser.variable`
unfoldable pub close_variable : Text → Segments → Parser → Parsed Segment
close_variable path segs p =
    if_accepted (accept (symbol (codes "}")) p) (λ _ p₁. ok (variable path segs, p₁))
      (fail unterminated_variable)

-- `parser.segments`, its loop, `parser.segment` and `parser.variable`. The fuel bounds the depth of
-- the calls.
unfoldable mutual
  pub parse_segments : ℕ → Parser → Parsed Segments
  parse_segments zero p = fail out_of_fuel
  parse_segments (suc f) p = do (s, p₁) ← parse_segment f p; segments_loop f (cons s nil) p₁

  pub segments_loop : ℕ → Segments → Parser → Parsed Segments
  segments_loop zero segs p = fail out_of_fuel
  segments_loop (suc f) segs p =
      if_accepted (accept (symbol slash) p)
        (λ _ p₁. do (s, p₂) ← parse_segment f p₁; segments_loop f (append segs (cons s nil)) p₂)
        (ok (segs, p))

  pub parse_segment : ℕ → Parser → Parsed Segment
  parse_segment zero p = fail out_of_fuel
  parse_segment (suc f) p =
      if_accepted (accept (symbol (codes "*")) p) (λ _ p₁. ok (wildcard, p₁))
        (if_accepted (accept (symbol (codes "**")) p) (λ _ p₁. ok (deep_wildcard, p₁))
          (if_accepted (accept pchars p) (λ l p₁. ok (literal l, p₁)) (parse_variable f p)))

  pub parse_variable : ℕ → Parser → Parsed Segment
  parse_variable zero p = fail out_of_fuel
  parse_variable (suc f) p = do
    (_, p₁) ← accept (symbol (codes "{")) p
    (path, p₂) ← field_path f p₁
    if_accepted (accept (symbol (codes "=")) p₂)
        (λ _ p₃. do (segs, p₄) ← parse_segments f p₃; close_variable path segs p₄)
        (close_variable path (cons wildcard nil) p₂)

-- `parser.topLevelSegments`
unfoldable pub top_level_segments : ℕ → Parser → Result ParseError Segments
top_level_segments f p = do
  (segs, p₁) ← parse_segments f p
  (_, p₂) ← accept end_of_input p₁
  ok segs

-- Enough for the deepest calls on so many tokens.
abbrev pub fuel_for : List Text → ℕ
fuel_for tokens = 3 * length tokens + 3

-- `Parse`
unfoldable pub parse : Text → Result ParseError Template
parse tmpl =
    if not (has_prefix tmpl slash)
    then fail no_leading_slash
    else let (tokens, verb) = tokenize (drop 1 tmpl) in
      do
        segs ← top_level_segments (fuel_for tokens) (record { tokens = tokens; accepted = [] })
        ok (record { segments = segs; verb = verb; template = tmpl })
