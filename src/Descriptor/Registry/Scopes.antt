-- ===== src/Descriptor/Registry/Scopes.antt =====
-- internal/descriptor/registry.go: `LookupMsg` and `LookupEnum` look from the innermost scope outwards.
use grpc_gateway.Prelude.{
  ◌≡◌, ◌↔◌, refl, sym, ◌∙◌, ap, subst, false, List, [], ◌∷◌, ◌++◌, Option, none, some, Text,
  is_empty, has_prefix, join, split, reverse, get, Option-cases, inl, inr, append-nil, append_assoc,
}
use grpc_gateway.Descriptor.Types.{dot}
use grpc_gateway.Descriptor.Registry.{lookup_scopes, lookup_name, rooted}
use mathlib.Core.List.{reverse-reverse, reverse-append}

module _ {V : Type 0} (m : List (Text × V)) (name : Text) where
  -- The name in the scope whose components are given.
  abbrev in_scope : List Text → Option V
  in_scope components = get (join dot (components ++ name ∷ [])) m

  -- None of the scopes on the way from `scope` to `inner` has the name.
  abbrev pub Hidden : List Text → List Text → Type 0
  Hidden scope [] = Unit
  Hidden scope (c ∷ inner) = (in_scope (scope ++ c ∷ []) ≡ none) × Hidden (scope ++ c ∷ []) inner

  -- `v` has the name in a scope of the location, and no scope further in has it.
  pub record Innermost (location : List Text) (v : V) : Type 0 where
    pub scope : List Text
    pub inner : List Text
    pub splits : location ≡ scope ++ inner
    pub nonempty : is_empty scope ≡ false
    pub found : in_scope scope ≡ some v
    pub hidden : Hidden scope inner

  Hidden-snoc :
      (scope inner : List Text) (c : Text)
      → Hidden scope inner
      → in_scope ((scope ++ inner) ++ c ∷ []) ≡ none
      → Hidden scope (inner ++ c ∷ [])
  Hidden-snoc scope [] c h e = (subst (λ l. in_scope (l ++ c ∷ []) ≡ none) (append-nil scope) e, tt)
  Hidden-snoc scope (d ∷ inner) c (first, h) e = (
    first,
    Hidden-snoc (scope ++ d ∷ []) inner c h
        (subst (λ l. in_scope (l ++ c ∷ []) ≡ none) (sym (append_assoc scope (d ∷ []) inner)) e),
  )

  snoc-nonempty : (xs : List Text) (c : Text) → is_empty (xs ++ c ∷ []) ≡ false
  snoc-nonempty [] c = refl
  snoc-nonempty (x ∷ xs) c = refl

  reverse-cons : (c : Text) (outer : List Text) → reverse (c ∷ outer) ≡ reverse outer ++ c ∷ []
  reverse-cons c outer = reverse-append (c ∷ []) outer

  lookup_scopes-none :
      (c : Text) (outer : List Text)
      → in_scope (reverse (c ∷ outer)) ≡ none
      → lookup_scopes (c ∷ outer) name m ≡ lookup_scopes outer name m
  unfolding lookup_scopes
  lookup_scopes-none c outer e = rw (e, lookup_scopes) refl

  lookup_scopes-some :
      (c : Text) (outer : List Text) (v : V)
      → in_scope (reverse (c ∷ outer)) ≡ some v
      → lookup_scopes (c ∷ outer) name m ≡ some v
  unfolding lookup_scopes
  lookup_scopes-some c outer v e = rw (e, lookup_scopes) refl

  lookup_scopes_sound :
      (l : List Text) (v : V) → lookup_scopes l name m ≡ some v → Innermost (reverse l) v
  lookup_scopes_sound [] v e = unfold lookup_scopes in cc
  lookup_scopes_sound (c ∷ outer) v e = elim (Option-cases (in_scope (reverse (c ∷ outer)))) [
    | inr (w, f) ↦ record {
      scope = reverse (c ∷ outer);
      inner = [];
      splits = sym (append-nil (reverse (c ∷ outer)));
      nonempty = rw (reverse-cons c outer) (snoc-nonempty (reverse outer) c);
      found = f ∙ (sym (lookup_scopes-some c outer w f) ∙ e);
      hidden = tt;
    }
    | inl f ↦ deeper (lookup_scopes_sound outer v (sym (lookup_scopes-none c outer f) ∙ e)) f
  ]
    where
      deeper :
          Innermost (reverse outer) v
          → in_scope (reverse (c ∷ outer)) ≡ none
          → Innermost (reverse (c ∷ outer)) v
      deeper i f = record {
        scope = i.scope;
        inner = i.inner ++ c ∷ [];
        splits =
            reverse-cons c outer
            ∙ (ap (λ l. l ++ c ∷ []) i.splits ∙ append_assoc i.scope i.inner (c ∷ []));
        nonempty = i.nonempty;
        found = i.found;
        hidden = Hidden-snoc i.scope i.inner c i.hidden (
            subst (λ l. in_scope l ≡ none) (reverse-cons c outer ∙ ap (λ l. l ++ c ∷ []) i.splits)
              f);
      }

  skip-Hidden :
      (scope inner : List Text)
      → Hidden scope inner
      → lookup_scopes (reverse (scope ++ inner)) name m ≡ lookup_scopes (reverse scope) name m
  skip-Hidden scope [] h = ap (λ l. lookup_scopes (reverse l) name m) (append-nil scope)
  skip-Hidden scope (c ∷ inner) (first, h) =
      ap (λ l. lookup_scopes (reverse l) name m) (sym (append_assoc scope (c ∷ []) inner))
      ∙ skip-Hidden (scope ++ c ∷ []) inner h
      ∙ (ap (λ l. lookup_scopes l name m) (reverse-append scope (c ∷ []))
          ∙ (lookup_scopes-none c (reverse scope) (
              subst (λ l. in_scope l ≡ none)
                (sym
                  (reverse-cons c (reverse scope) ∙ ap (λ l. l ++ c ∷ []) (reverse-reverse scope)))
                first)))

  lookup_scopes_complete :
      (l : List Text) (v : V) → Innermost l v → lookup_scopes (reverse l) name m ≡ some v
  lookup_scopes_complete l v i =
      ap (λ l. lookup_scopes (reverse l) name m) i.splits
      ∙ (skip-Hidden i.scope i.inner i.hidden
          ∙ at_scope (reverse i.scope) i.scope (sym (reverse-reverse i.scope)) i.nonempty i.found)
    where
      at_scope :
          (l scope : List Text)
          → scope ≡ reverse l
          → is_empty scope ≡ false
          → in_scope scope ≡ some v
          → lookup_scopes l name m ≡ some v
      at_scope [] scope e n f = cc
      at_scope (c ∷ outer) scope e n f =
          lookup_scopes-some c outer v (subst (λ s. in_scope s ≡ some v) e f)

  -- The lookup of a name that does not begin with a dot finds a value exactly when a scope of the
  -- location gives the name that value, and no scope further in has the name.
  pub lookup_name_iff :
      (location : Text) (v : V)
      → has_prefix name dot ≡ false
      → (lookup_name location name m ≡ some v) ↔ Innermost (split b'.' (rooted location)) v
  unfolding lookup_name
  lookup_name_iff location v h = rw h (
    λ e.
        subst (λ l. Innermost l v) (reverse-reverse (split b'.' (rooted location)))
          (lookup_scopes_sound (reverse (split b'.' (rooted location))) v e),
    lookup_scopes_complete (split b'.' (rooted location)) v,
  )
