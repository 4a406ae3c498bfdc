-- ===== src/Descriptor/Services/Paths.antt =====
-- internal/descriptor/services.go: what `resolveFieldPath` finds.
use grpc_gateway.Prelude.{
  ℕ, ◌≡◌, ◌≢◌, ◌↔◌, refl, sym, ◌∙◌, ap, subst, Bool, false, List, [], ◌∷◌, Option, none, some, Text,
  if◌then◌else◌, is_empty, split, join, ok, >>=-eq-ok, Bool-cases, inl, inr, ==_iff, ◌==◌,
  ok_injective,
}
use grpc_gateway.Descriptor.Types.{
  Message, dot, Field, fields, FieldPath, component_names, path_string,
}
use grpc_gateway.Descriptor.Registry.{Registry}
use grpc_gateway.Descriptor.Services.{
  lookup_field, enter_field, check_field, resolve_loop, resolve_field_path,
}
use grpc_gateway.Descriptor.Services.Steps.{
  IsAllowed, FirstNamed, Inside, lookup_field_sound, lookup_field_complete, enter_field_sound,
  enter_field_complete, check_field_sound, check_field_complete,
}

-- The pieces of a split, when a byte is put in front of the text.
abbrev split_step : ℕ → ℕ → List Text → List Text
split_step b c rest =
    if c == b then [] ∷ rest else elim rest [ [] ↦ (c ∷ []) ∷ [] | x ∷ xs ↦ (c ∷ x) ∷ xs ]

join-split_step :
    (b c : ℕ) (s : Text) (rest : List Text)
    → rest ≢ []
    → join (b ∷ []) rest ≡ s
    → (join (b ∷ []) (split_step b c rest) ≡ c ∷ s) × (split_step b c rest ≢ [])
unfolding join
join-split_step b c s [] h e = absurd (h refl)
join-split_step b c s (x ∷ xs) h e = elim (Bool-cases (c == b)) [
  | inl t ↦ rw t (rw ((==_iff c b).0 t) (ap (λ l. b ∷ l) e), λ f. cc)
  | inr t ↦ rw t (longer xs e, λ f. cc)
]
  where
    longer : (xs : List Text) → join (b ∷ []) (x ∷ xs) ≡ s → join (b ∷ []) ((c ∷ x) ∷ xs) ≡ c ∷ s
    longer [] e = ap (λ l. c ∷ l) e
    longer (y ∷ ys) e = ap (λ l. c ∷ l) e

-- `strings.Join` undoes `strings.Split`.
join-split : (b : ℕ) (s : Text) → (join (b ∷ []) (split b s) ≡ s) × (split b s ≢ [])
unfolding split
join-split b [] = unfold join in (refl, λ e. cc)
join-split b (c ∷ s) = let (e, h) = join-split b s in join-split_step b c s (split b s) h e

resolve_loop-names :
    (r : Registry) (is_path_param : Bool) (msg : Message) (before : Option Field) (cs : List Text)
    (p : FieldPath)
    → resolve_loop r is_path_param msg before cs ≡ ok p
    → component_names p ≡ cs
unfolding resolve_loop
resolve_loop-names r is_path_param msg before [] p e =
    ap component_names (sym (ok_injective [] p e))
resolve_loop-names r is_path_param msg before (c ∷ cs) p e =
    let (inner, _, e₁) = >>=-eq-ok (enter_field r msg before) _ e in
    let (f, _, e₂) =
      >>=-eq-ok
        (check_field is_path_param r.allow_repeated_fields_in_body (lookup_field (fields inner) c))
        _ e₁ in
    let (rest, later, e₃) = >>=-eq-ok (resolve_loop r is_path_param inner (some f) cs) _ e₂ in
    ap component_names (sym (ok_injective (record { name = c; target = f } ∷ rest) p e₃))
    ∙ ap (λ l. c ∷ l) (resolve_loop-names r is_path_param inner (some f) cs rest later)

-- When `resolveFieldPath` finds a path, `String` of what it finds is the path.
pub path_string-resolve_field_path :
    (r : Registry) (msg : Message) (path : Text) (is_path_param : Bool) (p : FieldPath)
    → resolve_field_path r msg path is_path_param ≡ ok p
    → path_string p ≡ path
unfolding resolve_field_path path_string join
path_string-resolve_field_path r msg [] is_path_param p e =
    ap (λ p. join dot (component_names p)) (sym (ok_injective [] p e))
path_string-resolve_field_path r msg (c ∷ path) is_path_param p e =
    ap (join dot) (resolve_loop-names r is_path_param msg none (split b'.' (c ∷ path)) p e)
    ∙ (join-split b'.' (c ∷ path)).0

-- A path of fields, each in the message that the field before it holds.
abbrev pub IsFieldPath : Registry → Bool → Message → Option Field → FieldPath → Type 0
IsFieldPath r is_path_param msg before [] = Unit
IsFieldPath r is_path_param msg before (c ∷ p) =
    (inner : Message) × Inside r msg before inner
    × FirstNamed c.name (fields inner) c.target
    × IsAllowed r is_path_param c.target
    × IsFieldPath r is_path_param inner (some c.target) p

resolve_loop_sound :
    (r : Registry) (is_path_param : Bool) (msg : Message) (before : Option Field) (cs : List Text)
    (p : FieldPath)
    → resolve_loop r is_path_param msg before cs ≡ ok p
    → IsFieldPath r is_path_param msg before p
unfolding resolve_loop
resolve_loop_sound r is_path_param msg before [] p e =
    subst (IsFieldPath r is_path_param msg before) (ok_injective [] p e) tt
resolve_loop_sound r is_path_param msg before (c ∷ cs) p e =
    let (inner, entered, e₁) = >>=-eq-ok (enter_field r msg before) _ e in
    let (f, checked, e₂) =
      >>=-eq-ok
        (check_field is_path_param r.allow_repeated_fields_in_body (lookup_field (fields inner) c))
        _ e₁ in
    let (rest, later, e₃) = >>=-eq-ok (resolve_loop r is_path_param inner (some f) cs) _ e₂ in
    let (found, allowed) =
      check_field_sound r is_path_param (lookup_field (fields inner) c) f checked in
    subst (IsFieldPath r is_path_param msg before)
      (ok_injective (record { name = c; target = f } ∷ rest) p e₃)
      (
        inner,
        enter_field_sound r msg before inner entered,
        lookup_field_sound (fields inner) c f found,
        allowed,
        resolve_loop_sound r is_path_param inner (some f) cs rest later,
      )

resolve_loop_complete :
    (r : Registry) (is_path_param : Bool) (msg : Message) (before : Option Field) (p : FieldPath)
    → IsFieldPath r is_path_param msg before p
    → resolve_loop r is_path_param msg before (component_names p) ≡ ok p
unfolding resolve_loop
resolve_loop_complete r is_path_param msg before [] w = refl
resolve_loop_complete r is_path_param msg before (c ∷ p) (inner, entered, found, allowed, w) =
    rw (enter_field_complete r msg before inner entered) (
      rw (lookup_field_complete (fields inner) c.name c.target found) (
        rw (check_field_complete r is_path_param c.target allowed)
          (rw (resolve_loop_complete r is_path_param inner (some c.target) p w) refl)))

-- `resolveFieldPath` finds `p` for a path that is not empty exactly when the components of the path
-- are the names of `p`, and `p` is a path of fields from the message. Each field is the first of its
-- name in its message, which is the one that the registry has for the type of the field before it, of
-- kind message or group; and each is allowed where it stands.
pub resolve_field_path_iff :
    (r : Registry) (msg : Message) (path : Text) (is_path_param : Bool) (p : FieldPath)
    → is_empty path ≡ false
    → (resolve_field_path r msg path is_path_param ≡ ok p)
      ↔ ((component_names p ≡ split b'.' path) × IsFieldPath r is_path_param msg none p)
unfolding resolve_field_path
resolve_field_path_iff r msg path is_path_param p h = rw h (
  λ e. (
    resolve_loop-names r is_path_param msg none (split b'.' path) p e,
    resolve_loop_sound r is_path_param msg none (split b'.' path) p e,
  ),
  λ (names, w).
      ap (resolve_loop r is_path_param msg none) (sym names)
      ∙ resolve_loop_complete r is_path_param msg none p w,
)
