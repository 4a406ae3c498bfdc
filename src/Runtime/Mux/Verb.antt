-- ===== src/Runtime/Mux/Verb.antt =====
-- runtime/mux.go: how `ServeHTTP` takes the verb off the last component, and what it carries over
-- from one handler to the next.
use grpc_gateway.Prelude.{
  ℕ, suc, ◌+◌, ◌-◌, ◌≡◌, refl, ◌∙◌, ap, ap₂, true, false, List, [], ◌∷◌, ◌++◌, some, Text, codes,
  length, drop, text_eq_refl, is_empty, has_suffix, arith, length-append, take-append-length,
  drop-append-length, ok, fail,
}
use grpc_gateway.Runtime.Pattern.{Bindings, not_match, match}
use grpc_gateway.Runtime.Mux.{
  Handler, handled, stripped, strip, verb_index, last_component, set_last, answered, route,
}

has_suffix-append : (s p : Text) → has_suffix (s ++ p) p ≡ true
unfolding has_suffix
has_suffix-append s p =
    let n : length (s ++ p) - length p ≡ length s = omega (arith, length-append s p) in
    rw (n, drop-append-length s p, text_eq_refl p) (ground (arith, length-append s p))

last_component-append : (cs : List Text) (c : Text) → last_component (cs ++ c ∷ []) ≡ some c
last_component-append [] c = refl
last_component-append (d ∷ []) c = refl
last_component-append (d ∷ e ∷ cs) c = last_component-append (e ∷ cs) c

set_last-append : (cs : List Text) (c x : Text) → set_last x (cs ++ c ∷ []) ≡ cs ++ x ∷ []
set_last-append [] c x = refl
set_last-append (d ∷ []) c x = refl
set_last-append (d ∷ e ∷ cs) c x = ap (◌∷◌ d) (set_last-append (e ∷ cs) c x)

-- `components[l-1]` with a verb behind a colon.
abbrev pub with_verb : Text → Text → Text
with_verb x verb = x ++ (codes ":" ++ verb)

verb_index-with_verb :
    (x verb : Text) → is_empty verb ≡ false → verb_index verb (with_verb x verb) ≡ some (length x)
verb_index-with_verb x verb h =
    let n : length (with_verb x verb) - length verb - 1 ≡ length x =
      omega (arith, length-append x (codes ":" ++ verb)) in
    rw (h, has_suffix-append x (codes ":" ++ verb), n)

drop-with_verb : (x verb : Text) → drop (length x + 1) (with_verb x verb) ≡ verb
drop-with_verb [] verb = refl
drop-with_verb (c ∷ x) verb =
    let e : suc (length x) + 1 ≡ suc (length x + 1) = omega arith in rw e (drop-with_verb x verb)

-- A last component that ends in a colon and the verb of the pattern, with something in front, is
-- cut there.
pub strip-with_verb :
    (cs : List Text) (c : ℕ) (x verb seen : Text)
    → is_empty verb ≡ false
    → strip verb (cs ++ with_verb (c ∷ x) verb ∷ []) seen ≡ stripped (cs ++ (c ∷ x) ∷ []) verb
unfolding strip
strip-with_verb cs c x verb seen h =
    rw (last_component-append cs (with_verb (c ∷ x) verb), verb_index-with_verb (c ∷ x) verb h)
      (ap₂ stripped
        (ap (λ l. set_last l (cs ++ with_verb (c ∷ x) verb ∷ []))
            (take-append-length (c ∷ x) (codes ":" ++ verb))
          ∙ set_last-append cs (with_verb (c ∷ x) verb) (c ∷ x))
        (drop-with_verb (c ∷ x) verb))

module _ {H : Type 0} (cs : List Text) (c : ℕ) (x : Text) (h : Handler H)
    (hs : List (Handler H)) where
  -- A path that ends in the verb of the first pattern goes to its handler if the pattern matches the
  -- path without the verb.
  pub route-with_verb :
      (seen : Text) (b : Bindings)
      → is_empty h.pat.verb ≡ false
      → match h.pat (cs ++ (c ∷ x) ∷ []) h.pat.verb ≡ ok b
      → route (h ∷ hs) (cs ++ with_verb (c ∷ x) h.pat.verb ∷ []) seen ≡ answered (handled h.h b)
  unfolding route
  route-with_verb seen b filled m = rw (strip-with_verb cs c x h.pat.verb seen filled, m)

  -- The components and the verb that one handler has cut are what the next handler sees: behind a
  -- handler whose verb ends the path and whose pattern does not match, the pattern of the next
  -- handler `h` is tried on a path that has lost that verb, and `h` answers a path that ends in
  -- another verb than its own.
  pub route-verb_leak :
      (first : Handler H) (b : Bindings)
      → is_empty first.pat.verb ≡ false
      → is_empty h.pat.verb ≡ false
      → match first.pat (cs ++ with_verb (c ∷ x) h.pat.verb ∷ []) first.pat.verb ≡ fail not_match
      → match h.pat (cs ++ (c ∷ x) ∷ []) h.pat.verb ≡ ok b
      → route
          (first ∷ h ∷ hs)
          (cs ++ with_verb (with_verb (c ∷ x) h.pat.verb) first.pat.verb ∷ [])
          []
        ≡ answered (handled h.h b)
  unfolding route
  route-verb_leak first b filled₁ filled₂ miss m = rw (
    strip-with_verb cs c (x ++ (codes ":" ++ h.pat.verb)) first.pat.verb [] filled₁,
    miss,
    strip-with_verb cs c x h.pat.verb first.pat.verb filled₂,
    m,
  )
