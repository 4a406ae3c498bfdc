-- ===== src/Descriptor/Services/Steps.antt =====
-- internal/descriptor/services.go: one step of `resolveFieldPath`, against what it means.
use grpc_gateway.Prelude.{
  ◌≡◌, ◌≢◌, refl, sym, ◌∙◌, ap, subst, Bool, true, false, not, ◌&&◌, ◌||◌, List, [], ◌∷◌, Option,
  none, some, Text, if◌then◌else◌, ok, fail, Result, Bool-cases, ◌⊎◌, inl, inr, ok_injective,
}
use grpc_gateway.Descriptor.Types.{Message, Field, is_repeated_label}
use grpc_gateway.Descriptor.Convert.{DescriptorError}
use grpc_gateway.Descriptor.Registry.{Registry}
use grpc_gateway.Descriptor.Services.{lookup_field, enter_field, check_field}
use grpc_gateway.Descriptor.Convert.{repeated_field}
use grpc_gateway.Descriptor.Convert.{optional_field}
use grpc_gateway.Prelude.{text_eq_refl}
use grpc_gateway.Descriptor.Services.{FieldType}
use grpc_gateway.Descriptor.Services.{text_eq}
use grpc_gateway.Prelude.{text_eq→eq}
use grpc_gateway.Descriptor.Services.{is_aggregate}
use grpc_gateway.Descriptor.Registry.{lookup_msg}
use grpc_gateway.Descriptor.Services.{fqmn}
use grpc_gateway.Descriptor.Convert.{get_type_name}
use grpc_gateway.Descriptor.Convert.{not_aggregate}

-- What may stand in a path: a path parameter is not optional in proto3, and only there, or where the
-- registry allows it, a field may be repeated.
abbrev pub IsAllowed : Registry → Bool → Field → Type 0
IsAllowed r is_path_param f =
    (is_repeated_label f.proto.label ≡ true
      → (is_path_param || r.allow_repeated_fields_in_body) ≡ true)
    × (is_path_param ≡ true → f.proto.proto3_optional ≡ false)

-- The first of the fields that has this name.
abbrev pub FirstNamed : Text → List Field → Field → Type 0
FirstNamed name [] f = ⊥
FirstNamed name (g ∷ gs) f =
    ((g.proto.name ≡ name) × (g ≡ f)) ⊎ ((g.proto.name ≢ name) × FirstNamed name gs f)

-- The message in which the next field stands: the message where the path starts, or the one that the
-- registry has for the type of the field before it, which holds messages.
abbrev pub Inside : Registry → Message → Option Field → Message → Type 0
Inside r msg none inner = msg ≡ inner
Inside r msg (some f) inner =
    ((f.proto.type ≡ FieldType.message) ⊎ (f.proto.type ≡ FieldType.group))
    × (lookup_msg r (fqmn msg) (get_type_name f.proto.type_name) ≡ ok inner)

false_not_true : ◌≡◌ {A = Bool} false true → ⊥
false_not_true h = cc

pub lookup_field_sound :
    (fs : List Field) (name : Text) (f : Field)
    → lookup_field fs name ≡ some f
    → FirstNamed name fs f
unfolding lookup_field
lookup_field_sound [] name f e = cc
lookup_field_sound (g ∷ fs) name f e = elim (Bool-cases (text_eq g.proto.name name)) [
  | inl t ↦ inl (text_eq→eq g.proto.name name t, some_injective g f (sym (picked t) ∙ e))
  | inr t ↦ inr (different t, lookup_field_sound fs name f (sym (skipped t) ∙ e))
]
  where
    picked : text_eq g.proto.name name ≡ true → lookup_field (g ∷ fs) name ≡ some g
    picked t = rw (lookup_field, t) refl

    skipped : text_eq g.proto.name name ≡ false → lookup_field (g ∷ fs) name ≡ lookup_field fs name
    skipped t = rw (lookup_field, t) refl

    some_injective : (a b : Field) → ◌≡◌ {A = Option Field} (some a) (some b) → a ≡ b
    some_injective a b h = cc

    different : text_eq g.proto.name name ≡ false → g.proto.name ≢ name
    different t =
        λ same. false_not_true (sym t ∙ (ap (λ n. text_eq n name) same ∙ text_eq_refl name))

pub lookup_field_complete :
    (fs : List Field) (name : Text) (f : Field)
    → FirstNamed name fs f
    → lookup_field fs name ≡ some f
unfolding lookup_field
lookup_field_complete [] name f n = absurd n
lookup_field_complete (g ∷ fs) name f (inl (same, e)) =
    picked (ap (λ n. text_eq n name) same ∙ text_eq_refl name)
  where
    picked : text_eq g.proto.name name ≡ true → lookup_field (g ∷ fs) name ≡ some f
    picked t = rw (lookup_field, t) (ap some e)
lookup_field_complete (g ∷ fs) name f (inr (other, n)) =
    elim (Bool-cases (text_eq g.proto.name name)) [
      | inl t ↦ absurd (other (text_eq→eq g.proto.name name t))
      | inr t ↦ rw (lookup_field, t) (lookup_field_complete fs name f n)
    ]

is_aggregate_sound :
    (t : FieldType) → is_aggregate t ≡ true → (t ≡ FieldType.message) ⊎ (t ≡ FieldType.group)
is_aggregate_sound FieldType.message e = inl refl
is_aggregate_sound FieldType.group e = inr refl
is_aggregate_sound _ e = cc

pub enter_field_sound :
    (r : Registry) (msg : Message) (before : Option Field) (inner : Message)
    → enter_field r msg before ≡ ok inner
    → Inside r msg before inner
enter_field_sound r msg none inner e = ok_injective msg inner e
enter_field_sound r msg (some f) inner e =
    entered (is_aggregate f.proto.type) (is_aggregate_sound f.proto.type) e
  where
    entered :
        (b : Bool)
        → (b ≡ true → (f.proto.type ≡ FieldType.message) ⊎ (f.proto.type ≡ FieldType.group))
        → (if b
            then lookup_msg r (fqmn msg) (get_type_name f.proto.type_name)
            else fail not_aggregate)
          ≡ ok inner
        → Inside r msg (some f) inner
    entered true a e = (a refl, e)
    entered false a e = cc

pub enter_field_complete :
    (r : Registry) (msg : Message) (before : Option Field) (inner : Message)
    → Inside r msg before inner
    → enter_field r msg before ≡ ok inner
enter_field_complete r msg none inner e = ap ok e
enter_field_complete r msg (some f) inner (inl t, e) = rw t e
enter_field_complete r msg (some f) inner (inr t, e) = rw t e

-- The guards on Booleans alone.
abbrev guarded : Bool → Bool → Bool → Bool → Field → Result DescriptorError Field
guarded param allow many opt f =
    if not (param || allow) && many
    then fail repeated_field
    else if param && opt
    then fail optional_field
    else ok f

guarded_sound :
    (param allow many opt : Bool) (g f : Field)
    → guarded param allow many opt g ≡ ok f
    → (g ≡ f) × (many ≡ true → (param || allow) ≡ true) × (param ≡ true → opt ≡ false)
guarded_sound true allow many true g f e = cc
guarded_sound true allow many false g f e = (ok_injective g f e, λ _. refl, λ _. refl)
guarded_sound false true many opt g f e = (ok_injective g f e, λ _. refl, λ h. cc)
guarded_sound false false true opt g f e = cc
guarded_sound false false false opt g f e = (ok_injective g f e, λ h. cc, λ h. cc)

guarded_complete :
    (param allow many opt : Bool) (f : Field)
    → (many ≡ true → (param || allow) ≡ true)
    → (param ≡ true → opt ≡ false)
    → guarded param allow many opt f ≡ ok f
guarded_complete true allow many true f h k = cc (k refl)
guarded_complete true allow many false f h k = refl
guarded_complete false true many opt f h k = refl
guarded_complete false false true opt f h k = cc (h refl)
guarded_complete false false false opt f h k = refl

pub check_field_sound :
    (r : Registry) (is_path_param : Bool) (o : Option Field) (f : Field)
    → check_field is_path_param r.allow_repeated_fields_in_body o ≡ ok f
    → (o ≡ some f) × IsAllowed r is_path_param f
check_field_sound r is_path_param none f e = cc
check_field_sound r is_path_param (some g) f e =
    let (same, h, k) =
      guarded_sound is_path_param r.allow_repeated_fields_in_body (is_repeated_label g.proto.label)
        g.proto.proto3_optional g f e in
    (ap some same, subst (IsAllowed r is_path_param) same (h, k))

pub check_field_complete :
    (r : Registry) (is_path_param : Bool) (f : Field)
    → IsAllowed r is_path_param f
    → check_field is_path_param r.allow_repeated_fields_in_body (some f) ≡ ok f
check_field_complete r is_path_param f a =
    guarded_complete is_path_param r.allow_repeated_fields_in_body (is_repeated_label f.proto.label)
      f.proto.proto3_optional f a.0 a.1
