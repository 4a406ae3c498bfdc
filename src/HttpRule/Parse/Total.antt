-- ===== src/HttpRule/Parse/Total.antt =====
-- internal/httprule/parse.go: the parser ends on every input, with segments or a syntax error. The
-- terminal token is never taken before the end, so `p.tokens[0]` is always there.
use grpc_gateway.Prelude.{
  ℕ, zero, suc, ◌+◌, ◌*◌, ◌≤◌, ◌<◌, refl, false, List, [], ◌∷◌, ◌++◌, Text, codes, length, text_eq,
  has_prefix, drop, slash, Result, ok, fail, ◌>>=◌, Post, arith, Bool-cases, inl, inr,
}
use grpc_gateway.HttpRule.Template.{wildcard, Segments, nil, cons, append}
use grpc_gateway.HttpRule.Tokenize.{eof, tokenize, take_verb, scan, init}
use grpc_gateway.HttpRule.Parse.{
  ParseError, Term, symbol, end_of_input, ident, Parser, accept_in, accept, field_path_loop,
  field_path, close_variable, parse_segments, segments_loop, parse_segment, parse_variable,
  top_level_segments, parse, fuel_for,
}
use grpc_gateway.HttpRule.Parse.Good.{
  EndsEof, IsSyntaxError, Leaves, Good, if_accepted-Good, ident-Consumes, pchars-Consumes,
  symbol-Consumes, no_tokens, Good-mono, Good-bind, accept-Good,
}

field_path_loop-Good :
    (f n : ℕ) (components : List Text) (p : Parser)
    → EndsEof p.tokens
    → length p.tokens ≤ n
    → n < f
    → Good n (field_path_loop f components p)
unfolding field_path_loop text_eq
field_path_loop-Good zero n components p e l h = absurd (omega arith)
field_path_loop-Good (suc f) zero components p e l h = no_tokens p e l
field_path_loop-Good (suc f) (suc n) components p e l h =
    if_accepted-Good n (accept (symbol (codes ".")) p) _ _ (suc n)
      (accept-Good n p e l (symbol (codes ".")) (symbol-Consumes (codes ".") refl))
      (λ _ p₁ e₁ l₁.
        Good-bind n (suc n) (accept ident p₁) _
          (accept-Good n p₁ e₁ (omega arith) ident ident-Consumes)
          λ c p₂ e₂ l₂.
            Good-mono n (suc n) (field_path_loop f (components ++ c ∷ []) p₂)
              (field_path_loop-Good f n (components ++ c ∷ []) p₂ e₂ l₂ (omega arith))
              (omega arith))
      (e, l)

field_path-Good :
    (f n : ℕ) (p : Parser)
    → EndsEof p.tokens
    → length p.tokens ≤ suc n
    → n < f
    → Good n (field_path f p)
unfolding field_path
field_path-Good f n p e l h =
    Good-bind n n (accept ident p) _ (accept-Good n p e l ident ident-Consumes)
      λ c p₁ e₁ l₁. field_path_loop-Good f n (c ∷ []) p₁ e₁ l₁ h

close_variable-Good :
    (path : Text) (segs : Segments) (n : ℕ) (p : Parser)
    → EndsEof p.tokens
    → length p.tokens ≤ suc n
    → Good n (close_variable path segs p)
unfolding close_variable text_eq
close_variable-Good path segs n p e l =
    if_accepted-Good n (accept (symbol (codes "}")) p) _ _ n
      (accept-Good n p e l (symbol (codes "}")) (symbol-Consumes (codes "}") refl))
      (λ _ p₁ e₁ l₁. (e₁, l₁)) tt

mutual
  unfolding parse_segments segments_loop parse_segment parse_variable text_eq

  parse_segments-Good :
      (f n : ℕ) (p : Parser)
      → EndsEof p.tokens
      → length p.tokens ≤ suc n
      → 3 * n + 6 ≤ f
      → Good n (parse_segments f p)
  parse_segments-Good zero n p e l h = absurd (omega arith)
  parse_segments-Good (suc f) n p e l h =
      Good-bind n n (parse_segment f p) _ (parse_segment-Good f n p e l (omega arith))
        λ s p₁ e₁ l₁. segments_loop-Good f n (cons s nil) p₁ e₁ l₁ (omega arith)

  segments_loop-Good :
      (f n : ℕ) (segs : Segments) (p : Parser)
      → EndsEof p.tokens
      → length p.tokens ≤ n
      → 3 * n + 3 ≤ f
      → Good n (segments_loop f segs p)
  segments_loop-Good zero n segs p e l h = absurd (omega arith)
  segments_loop-Good (suc f) zero segs p e l h = no_tokens p e l
  segments_loop-Good (suc f) (suc n) segs p e l h =
      if_accepted-Good n (accept (symbol slash) p) _ _ (suc n)
        (accept-Good n p e l (symbol slash) (symbol-Consumes slash refl))
        (λ _ p₁ e₁ l₁.
          Good-bind n (suc n) (parse_segment f p₁) _
            (parse_segment-Good f n p₁ e₁ (omega arith) (omega arith))
            λ s p₂ e₂ l₂.
              Good-mono n (suc n) (segments_loop f (append segs (cons s nil)) p₂)
                (segments_loop-Good f n (append segs (cons s nil)) p₂ e₂ l₂ (omega arith))
                (omega arith))
        (e, l)

  parse_segment-Good :
      (f n : ℕ) (p : Parser)
      → EndsEof p.tokens
      → length p.tokens ≤ suc n
      → 3 * n + 5 ≤ f
      → Good n (parse_segment f p)
  parse_segment-Good zero n p e l h = absurd (omega arith)
  parse_segment-Good (suc f) n p e l h =
      if_accepted-Good n (accept (symbol (codes "*")) p) _ _ n
        (accept-Good n p e l (symbol (codes "*")) (symbol-Consumes (codes "*") refl))
        (λ _ p₁ e₁ l₁. (e₁, l₁))
        (if_accepted-Good n (accept (symbol (codes "**")) p) _ _ n
          (accept-Good n p e l (symbol (codes "**")) (symbol-Consumes (codes "**") refl))
          (λ _ p₁ e₁ l₁. (e₁, l₁))
          (if_accepted-Good n (accept Term.pchars p) _ _ n
            (accept-Good n p e l Term.pchars pchars-Consumes) (λ _ p₁ e₁ l₁. (e₁, l₁))
            (parse_variable-Good f n p e l (omega arith))))

  parse_variable-Good :
      (f n : ℕ) (p : Parser)
      → EndsEof p.tokens
      → length p.tokens ≤ suc n
      → 3 * n + 4 ≤ f
      → Good n (parse_variable f p)
  parse_variable-Good zero n p e l h = absurd (omega arith)
  parse_variable-Good (suc f) zero p e l h =
      Good-bind 0 0 (accept (symbol (codes "{")) p) _
        (accept-Good 0 p e l (symbol (codes "{")) (symbol-Consumes (codes "{") refl))
        λ _ p₁ e₁ l₁. no_tokens p₁ e₁ l₁
  parse_variable-Good (suc f) (suc zero) p e l h =
      Good-bind 1 1 (accept (symbol (codes "{")) p) _
        (accept-Good 1 p e l (symbol (codes "{")) (symbol-Consumes (codes "{") refl))
        λ _ p₁ e₁ l₁.
          Good-bind 0 1 (field_path f p₁) _ (field_path-Good f 0 p₁ e₁ l₁ (omega arith))
            λ path p₂ e₂ l₂. no_tokens p₂ e₂ l₂
  parse_variable-Good (suc f) (suc (suc n)) p e l h =
      Good-bind (suc (suc n)) (suc (suc n)) (accept (symbol (codes "{")) p) _
        (accept-Good (suc (suc n)) p e l (symbol (codes "{")) (symbol-Consumes (codes "{") refl))
        λ _ p₁ e₁ l₁.
          Good-bind (suc n) (suc (suc n)) (field_path f p₁) _
            (field_path-Good f (suc n) p₁ e₁ l₁ (omega arith))
            λ path p₂ e₂ l₂.
              if_accepted-Good n (accept (symbol (codes "=")) p₂) _ _ (suc (suc n))
                (accept-Good n p₂ e₂ l₂ (symbol (codes "=")) (symbol-Consumes (codes "=") refl))
                (λ _ p₃ e₃ l₃.
                  Good-bind n (suc (suc n)) (parse_segments f p₃) _
                    (parse_segments-Good f n p₃ e₃ (omega arith) (omega arith))
                    λ segs p₄ e₄ l₄.
                      Good-mono n (suc (suc n)) (close_variable path segs p₄)
                        (close_variable-Good path segs n p₄ e₄ (omega arith)) (omega arith))
                (Good-mono n (suc (suc n)) (close_variable path (cons wildcard nil) p₂)
                  (close_variable-Good path (cons wildcard nil) n p₂ e₂ l₂) (omega arith))

EndsEof-append : (l : List Text) → EndsEof (l ++ eof ∷ [])
EndsEof-append [] = refl
EndsEof-append (t ∷ []) = refl
EndsEof-append (t ∷ u ∷ l) = EndsEof-append (u ∷ l)

tokenize-EndsEof : (path : Text) → EndsEof (tokenize path).0
unfolding tokenize
tokenize-EndsEof [] = refl
tokenize-EndsEof (c ∷ path) =
    EndsEof-append (take_verb false (scan (length (c ∷ path)) init (c ∷ path))).0

-- What the top of the parser may return.
abbrev pub Ends {ℓ} : {A : Type ℓ} → Result ParseError A → Type 0
Ends = Post (λ _. Unit) IsSyntaxError

accept_in-Ends :
    (term : Term) (tokens accepted : List Text)
    → EndsEof tokens
    → Ends (accept_in term tokens accepted)
unfolding accept_in
accept_in-Ends term [] accepted e = absurd e
accept_in-Ends term (t ∷ ts) accepted e = ground arith

Ends-bind {ℓ κ} :
    {A : Type ℓ} {B : Type κ} (P : A → Type 0) (r : Result ParseError A)
    (f : A → Result ParseError B)
    → Post P IsSyntaxError r
    → ((a : A) → P a → Ends (f a))
    → Ends (r >>= f)
Ends-bind P (ok a) f h k = k a h
Ends-bind P (fail e) f h k = h

top_level-Ends :
    (tokens : List Text)
    → EndsEof tokens
    → Ends (top_level_segments (fuel_for tokens) (record { tokens = tokens; accepted = [] }))
unfolding top_level_segments accept
top_level-Ends [] e = absurd e
top_level-Ends (t ∷ ts) e =
    Ends-bind (Leaves (length ts)) (parse_segments (fuel_for (t ∷ ts)) _) _
      (parse_segments-Good (fuel_for (t ∷ ts)) (length ts) _ e (omega arith) (omega arith))
      λ (segs, p) (e₁, l₁).
        Ends-bind (λ _. Unit) (accept end_of_input p) _
          (accept_in-Ends end_of_input p.tokens p.accepted e₁) λ _ _. tt

-- `Parse` ends on every text with a template or an error of its syntax: the fuel is enough, and it
-- never asks for a token when there is none.
pub parse-Ends : (tmpl : Text) → Ends (parse tmpl)
unfolding parse
parse-Ends tmpl = elim (Bool-cases (has_prefix tmpl slash)) [
  | inl e ↦ rw e (
      Ends-bind (λ _. Unit) (top_level_segments _ _) _
        (top_level-Ends (tokenize (drop 1 tmpl)).0 (tokenize-EndsEof (drop 1 tmpl))) λ _ _. tt)
  | inr e ↦ rw e tt
]
