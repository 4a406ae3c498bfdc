-- ===== src/Prelude/Maps.antt =====
-- A Go map from strings as an association list.
use mathlib.Core.Path.{◌≡◌, refl, sym, ap, ◌∙◌}
use mathlib.Core.Bool.{false}
use mathlib.Core.Logic.{◌⊎◌, inl, inr}
use mathlib.Core.List.{List, [], ◌∷◌}
use mathlib.Core.Option.{Option, none, some}
use grpc_gateway.Prelude.Tests.{if◌then◌else◌, Bool-cases}
use grpc_gateway.Prelude.Texts.{Text, text_eq, text_eq→eq, text_eq_refl}

module _ {ℓ} {V : Type ℓ} where
  -- `m[k]`
  unfoldable pub get : Text → List (Text × V) → Option V
  get k [] = none
  get k ((j, v) ∷ m) = if text_eq j k then some v else get k m

  -- `m[k] = v`
  unfoldable pub put : Text → V → List (Text × V) → List (Text × V)
  put k v [] = (k, v) ∷ []
  put k v ((j, w) ∷ m) = if text_eq j k then (k, v) ∷ m else (j, w) ∷ put k v m

  pub get-put_self : (k : Text) (v : V) (m : List (Text × V)) → get k (put k v m) ≡ some v
  unfolding get put
  get-put_self k v [] = rw (text_eq_refl k) refl
  get-put_self k v ((j, w) ∷ m) = elim (Bool-cases (text_eq j k)) [
    | inl e ↦ rw e (rw (text_eq_refl k) refl)
    | inr e ↦ rw e (rw e (get-put_self k v m))
  ]

  pub get-put_other :
      (k j : Text) (v : V) (m : List (Text × V)) → text_eq k j ≡ false → get j (put k v m) ≡ get j m
  unfolding get put
  get-put_other k j v [] h = rw h refl
  get-put_other k j v ((i, w) ∷ m) h = elim (Bool-cases (text_eq i k)) [
    | inl e ↦ rw e (rw (text_eq→eq i k e, h) refl)
    | inr e ↦ rw e (elim (Bool-cases (text_eq i j)) [
      | inl f ↦ rw f refl
      | inr f ↦ rw f (get-put_other k j v m h)
    ])
  ]

  -- What a map has after a write is what was written, or what it had.
  pub get-put-cases :
      (k j : Text) (v w : V) (m : List (Text × V))
      → get j (put k v m) ≡ some w
      → (v ≡ w) ⊎ (get j m ≡ some w)
  get-put-cases k j v w m e = elim (Bool-cases (text_eq k j)) [
    | inr h ↦ inr (sym (get-put_other k j v m h) ∙ e)
    | inl h ↦
        inl (same (sym (get-put_self k v m) ∙ (ap (λ l. get l (put k v m)) (text_eq→eq k j h) ∙ e)))
  ]
    where
      same : ◌≡◌ {A = Option V} (some v) (some w) → v ≡ w
      same e = cc

  -- A write keeps every key.
  pub get-put-keeps :
      (k j : Text) (v w : V) (m : List (Text × V))
      → get j m ≡ some w
      → (u : V) × (get j (put k v m) ≡ some u)
  get-put-keeps k j v w m e = elim (Bool-cases (text_eq k j)) [
    | inr h ↦ (w, get-put_other k j v m h ∙ e)
    | inl h ↦ (v, ap (λ l. get l (put k v m)) (sym (text_eq→eq k j h)) ∙ get-put_self k v m)
  ]
