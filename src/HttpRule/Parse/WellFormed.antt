-- ===== src/HttpRule/Parse/WellFormed.antt =====
-- internal/httprule/parse.go: the segments that the parser returns are well-formed.
use grpc_gateway.Prelude.{
  ℕ, zero, suc, ◌<◌, ◌≡◌, refl, subst, true, false, List, [], ◌∷◌, ◌++◌, Text, codes, slash, join,
  is_empty, Result, ok, fail, ◌>>=◌, Post, Post-bind, arith, Bool-cases, inl, inr, text_eq,
}
use grpc_gateway.HttpRule.Template.{
  Segment, wildcard, deep_wildcard, literal, variable, Segments, nil, cons, append, count,
}
use grpc_gateway.HttpRule.Tokenize.{init, field, nested}
use grpc_gateway.HttpRule.Tokenize.Shape.{Tokens, Rest, Tokens-nonempty}
use grpc_gateway.HttpRule.Parse.{
  ParseError, Term, symbol, ident, Parser, Parsed, fits, accept_in, accept, if_accepted,
  field_path_loop, field_path, close_variable, parse_segments, segments_loop, parse_segment,
  parse_variable,
}
use grpc_gateway.HttpRule.Parse.Kinds.{
  slash-Tokens, star-Tokens, one_star, two_stars, pchars-Tokens, brace-Tokens, brace-Rest,
  close-Tokens, ident-Rest, ident-Rest_nested, symbol-Rest, symbol-cases,
}
use grpc_gateway.Runtime.Pattern.Spec.{IsAtom, AllAtoms, IsWellFormed}
use grpc_gateway.Prelude.{contains_byte}
use grpc_gateway.HttpRule.Parse.{parse}
use grpc_gateway.HttpRule.Parse.{top_level_segments}
use grpc_gateway.HttpRule.Parse.{Template}
use grpc_gateway.Prelude.{if-intro}
use grpc_gateway.HttpRule.Parse.{end_of_input}
use grpc_gateway.HttpRule.Parse.{not}
use grpc_gateway.HttpRule.Parse.{has_prefix}
use grpc_gateway.HttpRule.Tokenize.Shape.{tokenize-Tokens}
use grpc_gateway.HttpRule.Parse.{drop}
use grpc_gateway.HttpRule.Parse.{fuel_for}
use grpc_gateway.HttpRule.Parse.{tokenize}

-- `R` holds of what is returned and of the tokens that are left.
abbrev Gives {ℓ} : {A : Type ℓ} → (A → List Text → Type 0) → Result ParseError (A × Parser) → Type 0
Gives R = Post (λ r. R r.0 r.1.tokens) (λ _. Unit)

-- The next token is not taken for `term`.
abbrev Refuses : Term → List Text → Type 0
Refuses term [] = Unit
Refuses term (t ∷ ts) = fits term t ≡ false

module _ {A : Type 0} (R : A → List Text → Type 0) (I : List Text → Type 0) (term : Term)
    (taken : Text → Parser → Parsed A) where
  -- The tokens are `I`; what is done behind the token, and without it.
  if_accepted-Gives :
      (otherwise : Parsed A) (tokens accepted : List Text)
      → I tokens
      → ((t : Text) (ts later : List Text)
          → I (t ∷ ts)
          → fits term t ≡ true
          → Gives R (taken t (record { tokens = ts; accepted = later })))
      → (Refuses term tokens → Gives R otherwise)
      → Gives R (if_accepted (accept_in term tokens accepted) taken otherwise)
  unfolding accept_in
  if_accepted-Gives otherwise [] accepted h y n = tt
  if_accepted-Gives otherwise (t ∷ ts) accepted h y n = elim (Bool-cases (fits term t)) [
    | inl e ↦ rw e (y t ts (accepted ++ t ∷ []) h e)
    | inr e ↦ rw e (n e)
  ]

  accept-Gives :
      (tokens accepted : List Text)
      → I tokens
      → ((t : Text) (ts later : List Text)
          → I (t ∷ ts)
          → fits term t ≡ true
          → Gives R (taken t (record { tokens = ts; accepted = later })))
      → Gives R (accept_in term tokens accepted >>= λ (t, p). taken t p)
  unfolding accept_in
  accept-Gives [] accepted h y = tt
  accept-Gives (t ∷ ts) accepted h y = elim (Bool-cases (fits term t)) [
    | inl e ↦ rw e (y t ts (accepted ++ t ∷ []) h e)
    | inr e ↦ rw e tt
  ]

Gives-bind :
    {A B : Type 0} (P : A → List Text → Type 0) (R : B → List Text → Type 0) (r : Parsed A)
    (f : A × Parser → Parsed B)
    → Gives P r
    → ((a : A) (tokens accepted : List Text)
        → P a tokens
        → Gives R (f (a, record { tokens = tokens; accepted = accepted })))
    → Gives R (r >>= f)
Gives-bind P R (ok (a, p)) f h k = k a p.tokens p.accepted h
Gives-bind P R (fail e) f h k = tt

abbrev IsPathOf : Text → List Text → Type 0
IsPathOf path tokens = (is_empty path ≡ false) × Rest field tokens

-- Components joined, the first of which is not empty.
join-nonempty :
    (c : Text) (cs : List Text) → is_empty c ≡ false → is_empty (join (codes ".") (c ∷ cs)) ≡ false
unfolding join
join-nonempty c [] e = e
join-nonempty [] (d ∷ cs) e = cc
join-nonempty (x ∷ c) (d ∷ cs) e = refl

field_path_loop-Gives :
    (f : ℕ) (c : Text) (cs tokens accepted : List Text)
    → is_empty c ≡ false
    → Rest field tokens
    → Gives IsPathOf (field_path_loop f (c ∷ cs) (record { tokens = tokens; accepted = accepted }))
unfolding field_path_loop accept fits contains_byte
field_path_loop-Gives zero c cs tokens accepted e d = tt
field_path_loop-Gives (suc f) c cs tokens accepted e d =
    if_accepted-Gives IsPathOf (Rest field) (symbol (codes ".")) _ _ tokens accepted d
      (λ t ts later d' h.
        accept-Gives IsPathOf (Tokens field) ident
          (λ c' p₂. field_path_loop f (c ∷ (cs ++ c' ∷ [])) p₂) ts later
          (symbol-Rest b'.' t ts refl d' h)
          λ c' ts' later' d'' h'.
            field_path_loop-Gives f c (cs ++ c' ∷ []) ts' later' e (ident-Rest c' ts' d'' h'))
      (λ _. (join-nonempty c cs e, d))

field_path-Gives :
    (f : ℕ) (tokens accepted : List Text)
    → Tokens field tokens
    → Gives IsPathOf (field_path f (record { tokens = tokens; accepted = accepted }))
unfolding field_path accept fits
field_path-Gives f tokens accepted d =
    accept-Gives IsPathOf (Tokens field) ident (λ c p₁. field_path_loop f (c ∷ []) p₁) tokens
      accepted d
      λ c ts later d' h.
        field_path_loop-Gives f c [] ts later (Tokens-nonempty field c ts d') (ident-Rest c ts d' h)

-- In a variable there is no component to read.
field_path-Gives_nested :
    (R : Text → List Text → Type 0) (f : ℕ) (tokens accepted : List Text)
    → Rest nested tokens
    → Gives R (field_path f (record { tokens = tokens; accepted = accepted }))
unfolding field_path accept fits
field_path-Gives_nested R f tokens accepted d =
    accept-Gives R (Rest nested) ident (λ c p₁. field_path_loop f (c ∷ []) p₁) tokens accepted d
      λ c ts later d' h. absurd (ident-Rest_nested c ts d' h)

-- In a variable, the segments; a slash in front would have been taken.
abbrev AtomsThen : Segments → List Text → Type 0
AtomsThen segs tokens =
    AllAtoms segs × (0 < count segs) × Tokens nested tokens × Refuses (symbol slash) tokens

abbrev AtomThen : Segment → List Text → Type 0
AtomThen s tokens = IsAtom s × Tokens nested tokens

AllAtoms-append :
    (segs : Segments) (s : Segment) → AllAtoms segs → IsAtom s → AllAtoms (append segs (cons s nil))
AllAtoms-append nil s a h = (h, tt)
AllAtoms-append (cons t segs) s a h = (a.0, AllAtoms-append segs s a.1 h)

count-append : (segs : Segments) (s : Segment) → 0 < count (append segs (cons s nil))
count-append nil s = omega arith
count-append (cons t segs) s = omega arith

not_slash : fits (symbol (codes "*")) slash ≡ false → ⊥
unfolding fits text_eq
not_slash e = cc e

variable-Gives_nested :
    (f : ℕ) (tokens accepted : List Text)
    → Tokens nested tokens
    → Refuses (symbol (codes "*")) tokens
    → Gives AtomThen (parse_variable f (record { tokens = tokens; accepted = accepted }))
unfolding parse_variable accept
variable-Gives_nested zero tokens accepted d n = tt
variable-Gives_nested (suc f) tokens accepted d n =
    accept-Gives AtomThen (λ l. Tokens nested l × Refuses (symbol (codes "*")) l)
      (symbol (codes "{")) _ tokens accepted (d, n)
      λ t ts later h e.
        Gives-bind (λ _ _. ⊥) AtomThen (field_path f (record { tokens = ts; accepted = later })) _
          (field_path-Gives_nested (λ _ _. ⊥) f ts later (lone_brace t ts h.0 h.1 e))
          λ _ _ _ b. absurd b
  where
    lone_brace :
        (t : Text) (ts : List Text)
        → Tokens nested (t ∷ ts)
        → fits (symbol (codes "*")) t ≡ false
        → fits (symbol (codes "{")) t ≡ true
        → Rest nested ts
    lone_brace t ts d n e = elim (symbol-cases (codes "{") t e) [
      | inl b ↦ brace-Rest t ts d b
      | inr b ↦ absurd (not_slash (subst (λ t. fits (symbol (codes "*")) t ≡ false) b n))
    ]

segment-Gives_nested :
    (f : ℕ) (tokens accepted : List Text)
    → Tokens nested tokens
    → Gives AtomThen (parse_segment f (record { tokens = tokens; accepted = accepted }))
unfolding parse_segment accept fits
segment-Gives_nested zero tokens accepted d = tt
segment-Gives_nested (suc f) tokens accepted d =
    if_accepted-Gives AtomThen (Tokens nested) (symbol (codes "*")) _ _ tokens accepted d
      (λ t ts later d' h. (tt, star-Tokens nested (codes "*") t ts (one_star nested tt) tt d' h))
      λ no_star.
        if_accepted-Gives AtomThen (Tokens nested) (symbol (codes "**")) _ _ tokens accepted d
          (λ t ts later d' h. (tt, star-Tokens nested (codes "**") t ts (two_stars nested) tt d' h))
          λ _.
            if_accepted-Gives AtomThen (Tokens nested) Term.pchars _ _ tokens accepted d
              (λ t ts later d' h.
                (Tokens-nonempty nested t ts d', pchars-Tokens nested t ts tt d' h))
              λ _. variable-Gives_nested f tokens accepted d no_star

loop-Gives_nested :
    (f : ℕ) (segs : Segments) (tokens accepted : List Text)
    → AllAtoms segs
    → 0 < count segs
    → Tokens nested tokens
    → Gives AtomsThen (segments_loop f segs (record { tokens = tokens; accepted = accepted }))
unfolding segments_loop accept
loop-Gives_nested zero segs tokens accepted a c d = tt
loop-Gives_nested (suc f) segs tokens accepted a c d =
    if_accepted-Gives AtomsThen (Tokens nested) (symbol slash) _ _ tokens accepted d
      (λ t ts later d' h.
        Gives-bind AtomThen AtomsThen (parse_segment f (record { tokens = ts; accepted = later })) _
          (segment-Gives_nested f ts later (after_slash t ts d' h))
          λ s ts' later' g.
            loop-Gives_nested f (append segs (cons s nil)) ts' later' (AllAtoms-append segs s a g.0)
              (count-append segs s) g.1)
      λ no_slash. (a, c, d, no_slash)
  where
    after_slash :
        (t : Text) (ts : List Text)
        → Tokens nested (t ∷ ts)
        → fits (symbol slash) t ≡ true
        → Tokens nested ts
    after_slash t ts d h = elim (symbol-cases slash t h) [
      | inl e ↦ slash-Tokens nested t ts tt d e
      | inr e ↦ slash-Tokens nested t ts tt d e
    ]

segments-Gives_nested :
    (f : ℕ) (tokens accepted : List Text)
    → Tokens nested tokens
    → Gives AtomsThen (parse_segments f (record { tokens = tokens; accepted = accepted }))
unfolding parse_segments
segments-Gives_nested zero tokens accepted d = tt
segments-Gives_nested (suc f) tokens accepted d =
    Gives-bind AtomThen AtomsThen
      (parse_segment f (record { tokens = tokens; accepted = accepted })) _
      (segment-Gives_nested f tokens accepted d)
      λ s ts later g. loop-Gives_nested f (cons s nil) ts later (g.0, tt) (omega arith) g.1

-- At the top, the segments.
abbrev SegmentsThen : Segments → List Text → Type 0
SegmentsThen segs tokens = IsWellFormed segs × Tokens init tokens

abbrev SegmentThen : Segment → List Text → Type 0
SegmentThen s tokens = IsWellFormed (cons s nil) × Tokens init tokens

IsWellFormed-append :
    (segs : Segments) (s : Segment)
    → IsWellFormed segs
    → IsWellFormed (cons s nil)
    → IsWellFormed (append segs (cons s nil))
IsWellFormed-append nil s w h = h
IsWellFormed-append (cons wildcard segs) s w h = IsWellFormed-append segs s w h
IsWellFormed-append (cons deep_wildcard segs) s w h = IsWellFormed-append segs s w h
IsWellFormed-append (cons (literal l) segs) s w h = (w.0, IsWellFormed-append segs s w.1 h)
IsWellFormed-append (cons (variable path inner) segs) s w h =
    (w.0, w.1, w.2, IsWellFormed-append segs s w.3 h)

close_variable-Gives :
    (I : List Text → Type 0) (path : Text) (segs : Segments) (tokens accepted : List Text)
    → I tokens
    → IsWellFormed (cons (variable path segs) nil)
    → ((t : Text) (ts : List Text)
        → I (t ∷ ts)
        → fits (symbol (codes "}")) t ≡ true
        → Tokens init ts)
    → Gives SegmentThen (close_variable path segs (record { tokens = tokens; accepted = accepted }))
unfolding close_variable accept
close_variable-Gives I path segs tokens accepted d w k =
    if_accepted-Gives SegmentThen I (symbol (codes "}")) _ _ tokens accepted d
      (λ t ts later d' h. (w, k t ts d' h)) λ _. tt

slash_taken : fits (symbol slash) slash ≡ false → ⊥
unfolding fits text_eq
slash_taken e = cc e

-- Behind the segments of a variable.
close_nested :
    (t : Text) (ts : List Text)
    → Tokens nested (t ∷ ts) × (fits (symbol slash) t ≡ false)
    → fits (symbol (codes "}")) t ≡ true
    → Tokens init ts
close_nested t ts (d, n) h = elim (symbol-cases (codes "}") t h) [
  | inl e ↦ close-Tokens t ts d e
  | inr e ↦ absurd (slash_taken (subst (λ t. fits (symbol slash) t ≡ false) e n))
]

open_brace :
    (t : Text) (ts : List Text)
    → Tokens init (t ∷ ts)
    → fits (symbol (codes "*")) t ≡ false
    → fits (symbol (codes "{")) t ≡ true
    → Tokens field ts
open_brace t ts d n e = elim (symbol-cases (codes "{") t e) [
  | inl b ↦ brace-Tokens t ts d b
  | inr b ↦ absurd (not_slash (subst (λ t. fits (symbol (codes "*")) t ≡ false) b n))
]

variable-Gives :
    (f : ℕ) (tokens accepted : List Text)
    → Tokens init tokens
    → Refuses (symbol (codes "*")) tokens
    → Gives SegmentThen (parse_variable f (record { tokens = tokens; accepted = accepted }))
unfolding parse_variable accept contains_byte
variable-Gives zero tokens accepted d n = tt
variable-Gives (suc f) tokens accepted d n =
    accept-Gives SegmentThen (λ l. Tokens init l × Refuses (symbol (codes "*")) l)
      (symbol (codes "{")) _ tokens accepted (d, n)
      λ t ts later h e.
        Gives-bind IsPathOf SegmentThen (field_path f (record { tokens = ts; accepted = later })) _
          (field_path-Gives f ts later (open_brace t ts h.0 h.1 e))
          λ path ts₁ later₁ p.
            if_accepted-Gives SegmentThen (Rest field) (symbol (codes "=")) _ _ ts₁ later₁ p.1
              (λ t₂ ts₂ later₂ d₂ h₂.
                Gives-bind AtomsThen SegmentThen
                  (parse_segments f (record { tokens = ts₂; accepted = later₂ })) _
                  (segments-Gives_nested f ts₂ later₂ (symbol-Rest b'=' t₂ ts₂ refl d₂ h₂))
                  λ segs ts₃ later₃ g.
                    close_variable-Gives (λ l. Tokens nested l × Refuses (symbol slash) l) path segs
                      ts₃ later₃ (g.2, g.3) (p.0, g.1, g.0, tt) close_nested)
              λ _.
                close_variable-Gives (Rest field) path (cons wildcard nil) ts₁ later₁ p.1
                  (p.0, omega arith, (tt, tt), tt)
                  λ t₂ ts₂ d₂ h₂. symbol-Rest b'}' t₂ ts₂ refl d₂ h₂

segment-Gives :
    (f : ℕ) (tokens accepted : List Text)
    → Tokens init tokens
    → Gives SegmentThen (parse_segment f (record { tokens = tokens; accepted = accepted }))
unfolding parse_segment accept fits
segment-Gives zero tokens accepted d = tt
segment-Gives (suc f) tokens accepted d =
    if_accepted-Gives SegmentThen (Tokens init) (symbol (codes "*")) _ _ tokens accepted d
      (λ t ts later d' h. (tt, star-Tokens init (codes "*") t ts (one_star init tt) tt d' h))
      λ no_star.
        if_accepted-Gives SegmentThen (Tokens init) (symbol (codes "**")) _ _ tokens accepted d
          (λ t ts later d' h. (tt, star-Tokens init (codes "**") t ts (two_stars init) tt d' h))
          λ _.
            if_accepted-Gives SegmentThen (Tokens init) Term.pchars _ _ tokens accepted d
              (λ t ts later d' h.
                ((Tokens-nonempty init t ts d', tt), pchars-Tokens init t ts tt d' h))
              λ _. variable-Gives f tokens accepted d no_star

loop-Gives :
    (f : ℕ) (segs : Segments) (tokens accepted : List Text)
    → IsWellFormed segs
    → Tokens init tokens
    → Gives SegmentsThen (segments_loop f segs (record { tokens = tokens; accepted = accepted }))
unfolding segments_loop accept
loop-Gives zero segs tokens accepted a d = tt
loop-Gives (suc f) segs tokens accepted a d =
    if_accepted-Gives SegmentsThen (Tokens init) (symbol slash) _ _ tokens accepted d
      (λ t ts later d' h.
        Gives-bind SegmentThen SegmentsThen
          (parse_segment f (record { tokens = ts; accepted = later })) _
          (segment-Gives f ts later (after_slash t ts d' h))
          λ s ts' later' g.
            loop-Gives f (append segs (cons s nil)) ts' later' (IsWellFormed-append segs s a g.0)
              g.1)
      λ _. (a, d)
  where
    after_slash :
        (t : Text) (ts : List Text)
        → Tokens init (t ∷ ts)
        → fits (symbol slash) t ≡ true
        → Tokens init ts
    after_slash t ts d h = elim (symbol-cases slash t h) [
      | inl e ↦ slash-Tokens init t ts tt d e
      | inr e ↦ slash-Tokens init t ts tt d e
    ]

segments-Gives :
    (f : ℕ) (tokens accepted : List Text)
    → Tokens init tokens
    → Gives SegmentsThen (parse_segments f (record { tokens = tokens; accepted = accepted }))
unfolding parse_segments
segments-Gives zero tokens accepted d = tt
segments-Gives (suc f) tokens accepted d =
    Gives-bind SegmentThen SegmentsThen
      (parse_segment f (record { tokens = tokens; accepted = accepted })) _
      (segment-Gives f tokens accepted d) λ s ts later g. loop-Gives f (cons s nil) ts later g.0 g.1

top_level-Gives :
    (f : ℕ) (p : Parser)
    → Tokens init p.tokens
    → Post IsWellFormed (λ _. Unit) (top_level_segments f p)
unfolding top_level_segments
top_level-Gives f p d =
    Post-bind (λ r. SegmentsThen r.0 r.1.tokens) IsWellFormed (λ _. Unit) (parse_segments f p) _
      (segments-Gives f p.tokens p.accepted d) λ r g. ends r.0 g.0 (accept end_of_input r.1)
  where
    ends :
        (segs : Segments)
        → IsWellFormed segs
        → (r : Parsed Text) → Post IsWellFormed (λ _. Unit) (r >>= λ (_, p₂). ok segs)
    ends segs w (ok q) = w
    ends segs w (fail e) = tt

parse-Gives : (tmpl : Text) → Post (λ t. IsWellFormed t.segments) (λ _. Unit) (parse tmpl)
unfolding parse
parse-Gives tmpl =
    if-intro (Post {E = ParseError} (λ (t : Template). IsWellFormed t.segments) (λ _. Unit))
      (not (has_prefix tmpl slash)) tt
      (Post-bind {E = ParseError} {B = Template} IsWellFormed (λ t. IsWellFormed t.segments)
        (λ _. Unit)
        (top_level_segments (fuel_for (tokenize (drop 1 tmpl)).0)
          (record { tokens = (tokenize (drop 1 tmpl)).0; accepted = [] }))
        (λ segs.
          ok (record { segments = segs; verb = (tokenize (drop 1 tmpl)).1; template = tmpl }))
        (top_level-Gives _ _ (tokenize-Tokens (drop 1 tmpl))) λ segs w. w)

-- When `parse` returns a template, its segments are well-formed: every variable has a name and at
-- least one segment, none of which is a variable, and no literal is empty.
pub parse-IsWellFormed : (tmpl : Text) (t : Template) → parse tmpl ≡ ok t → IsWellFormed t.segments
parse-IsWellFormed tmpl t e =
    subst (Post (λ t. IsWellFormed t.segments) (λ _. Unit)) e (parse-Gives tmpl)
