-- ===== src/Descriptor/Services/Converters.antt =====
-- internal/descriptor: a path parameter that `newParam` takes has a converter.
use grpc_gateway.Prelude.{
  ◌≡◌, refl, subst, Bool, true, false, Option, none, some, Text, if◌then◌else◌, ok, fail, >>=-eq-ok,
  ok_injective, Bool-cases, inl, inr,
}
use grpc_gateway.Descriptor.Protos.{
  FieldType, double, float, int64, uint64, int32, fixed64, fixed32, bool, string, group, message,
  bytes, uint32, enum, sfixed32, sfixed64, sint32, sint64,
}
use grpc_gateway.Descriptor.Types.{
  Message, Field, FieldPath, is_optional_proto3, Parameter, is_repeated, is_proto2_parameter,
}
use grpc_gateway.Descriptor.Convert.{
  convert_table, convert_func_expr, well_known_type_conv, is_well_known_type, get_type_name,
  proto3_convert_funcs, proto3_repeated_convert_funcs, proto3_optional_convert_funcs, or_well_known,
  is_some, message_parameter,
}
use grpc_gateway.Descriptor.Registry.{Registry}
use grpc_gateway.Descriptor.Services.{
  is_aggregate, resolve_field_path, last_target, check_message, parameter_of, new_param,
}

abbrev HasEntry : (FieldType → Option Text) → FieldType → Type 0
HasEntry table typ = (conv : Text) × (table typ ≡ some conv)

-- The proto3 tables have every type but the two aggregates.
proto3_repeated_convert_funcs_lem :
    (typ : FieldType) → is_aggregate typ ≡ false → HasEntry proto3_repeated_convert_funcs typ
unfolding proto3_repeated_convert_funcs
proto3_repeated_convert_funcs_lem double h = (_, refl)
proto3_repeated_convert_funcs_lem float h = (_, refl)
proto3_repeated_convert_funcs_lem int64 h = (_, refl)
proto3_repeated_convert_funcs_lem uint64 h = (_, refl)
proto3_repeated_convert_funcs_lem int32 h = (_, refl)
proto3_repeated_convert_funcs_lem fixed64 h = (_, refl)
proto3_repeated_convert_funcs_lem fixed32 h = (_, refl)
proto3_repeated_convert_funcs_lem bool h = (_, refl)
proto3_repeated_convert_funcs_lem string h = (_, refl)
proto3_repeated_convert_funcs_lem group h = cc
proto3_repeated_convert_funcs_lem message h = cc
proto3_repeated_convert_funcs_lem bytes h = (_, refl)
proto3_repeated_convert_funcs_lem uint32 h = (_, refl)
proto3_repeated_convert_funcs_lem enum h = (_, refl)
proto3_repeated_convert_funcs_lem sfixed32 h = (_, refl)
proto3_repeated_convert_funcs_lem sfixed64 h = (_, refl)
proto3_repeated_convert_funcs_lem sint32 h = (_, refl)
proto3_repeated_convert_funcs_lem sint64 h = (_, refl)

proto3_optional_convert_funcs_lem :
    (typ : FieldType) → is_aggregate typ ≡ false → HasEntry proto3_optional_convert_funcs typ
unfolding proto3_optional_convert_funcs
proto3_optional_convert_funcs_lem double h = (_, refl)
proto3_optional_convert_funcs_lem float h = (_, refl)
proto3_optional_convert_funcs_lem int64 h = (_, refl)
proto3_optional_convert_funcs_lem uint64 h = (_, refl)
proto3_optional_convert_funcs_lem int32 h = (_, refl)
proto3_optional_convert_funcs_lem fixed64 h = (_, refl)
proto3_optional_convert_funcs_lem fixed32 h = (_, refl)
proto3_optional_convert_funcs_lem bool h = (_, refl)
proto3_optional_convert_funcs_lem string h = (_, refl)
proto3_optional_convert_funcs_lem group h = cc
proto3_optional_convert_funcs_lem message h = cc
proto3_optional_convert_funcs_lem bytes h = (_, refl)
proto3_optional_convert_funcs_lem uint32 h = (_, refl)
proto3_optional_convert_funcs_lem enum h = (_, refl)
proto3_optional_convert_funcs_lem sfixed32 h = (_, refl)
proto3_optional_convert_funcs_lem sfixed64 h = (_, refl)
proto3_optional_convert_funcs_lem sint32 h = (_, refl)
proto3_optional_convert_funcs_lem sint64 h = (_, refl)

proto3_convert_funcs_lem :
    (typ : FieldType) → is_aggregate typ ≡ false → HasEntry proto3_convert_funcs typ
unfolding proto3_convert_funcs
proto3_convert_funcs_lem double h = (_, refl)
proto3_convert_funcs_lem float h = (_, refl)
proto3_convert_funcs_lem int64 h = (_, refl)
proto3_convert_funcs_lem uint64 h = (_, refl)
proto3_convert_funcs_lem int32 h = (_, refl)
proto3_convert_funcs_lem fixed64 h = (_, refl)
proto3_convert_funcs_lem fixed32 h = (_, refl)
proto3_convert_funcs_lem bool h = (_, refl)
proto3_convert_funcs_lem string h = (_, refl)
proto3_convert_funcs_lem group h = cc
proto3_convert_funcs_lem message h = cc
proto3_convert_funcs_lem bytes h = (_, refl)
proto3_convert_funcs_lem uint32 h = (_, refl)
proto3_convert_funcs_lem enum h = (_, refl)
proto3_convert_funcs_lem sfixed32 h = (_, refl)
proto3_convert_funcs_lem sfixed64 h = (_, refl)
proto3_convert_funcs_lem sint32 h = (_, refl)
proto3_convert_funcs_lem sint64 h = (_, refl)

table_complete :
    (many opt : Bool) (typ : FieldType)
    → is_aggregate typ ≡ false
    → HasEntry (convert_table false many opt) typ
unfolding convert_table
table_complete true opt typ h = proto3_repeated_convert_funcs_lem typ h
table_complete false true typ h = proto3_optional_convert_funcs_lem typ h
table_complete false false typ h = proto3_convert_funcs_lem typ h

-- What `newParam` has checked of the target.
abbrev IsConvertible : Field → Type 0
IsConvertible f =
    is_aggregate f.proto.type ≡ true
    → (conv : Text) × (well_known_type_conv (get_type_name f.proto.type_name) ≡ some conv)

known : (o : Option Text) → is_some o ≡ true → (conv : Text) × (o ≡ some conv)
known none h = cc
known (some conv) h = (conv, refl)

check_message-known :
    (o : Option Text) (p q : Parameter)
    → check_message o p ≡ ok q
    → (p ≡ q) × ((conv : Text) × (well_known_type_conv (get_type_name o) ≡ some conv))
unfolding is_well_known_type
check_message-known none p q e = cc
check_message-known (some n) p q e = passed (is_well_known_type n) refl e
  where
    passed :
        (b : Bool)
        → is_well_known_type n ≡ b
        → (if b then ok p else fail message_parameter) ≡ ok q
        → (p ≡ q) × ((conv : Text) × (well_known_type_conv n ≡ some conv))
    passed true h e = (ok_injective p q e, known (well_known_type_conv n) h)
    passed false h e = cc

parameter_of-IsConvertible :
    (fields : FieldPath) (o : Option Field) (p : Parameter)
    → parameter_of fields o ≡ ok p
    → IsConvertible p.target
parameter_of-IsConvertible fields none p e = cc
parameter_of-IsConvertible fields (some f) p e = checked (is_aggregate f.proto.type) refl e
  where
    checked :
        (b : Bool)
        → is_aggregate f.proto.type ≡ b
        → (if b
            then check_message f.proto.type_name (record { field_path = fields; target = f })
            else ok (record { field_path = fields; target = f }))
          ≡ ok p
        → IsConvertible p.target
    checked true h e =
        let (same, k) =
          check_message-known f.proto.type_name (record { field_path = fields; target = f }) p e in
        subst (λ (p : Parameter). IsConvertible p.target) same (λ _. k)
    checked false h e =
        subst (λ (p : Parameter). IsConvertible p.target)
          (ok_injective (record { field_path = fields; target = f }) p e) (λ a. cc)

or_well_known-ok :
    (o type_name : Option Text)
    → (conv : Text) × (well_known_type_conv (get_type_name type_name) ≡ some conv)
    → (conv : Text) × (or_well_known o type_name ≡ ok conv)
or_well_known-ok (some c) type_name h = (c, refl)
or_well_known-ok none type_name (conv, e) = (conv, rw e refl)

convertible :
    (many opt : Bool) (f : Field)
    → IsConvertible f
    → (conv : Text) × (or_well_known (convert_table false many opt f.proto.type) f.proto.type_name
        ≡ ok conv)
convertible many opt f h = elim (Bool-cases (is_aggregate f.proto.type)) [
  | inr plain ↦ (let (conv, e) = table_complete many opt f.proto.type plain in (conv, rw e refl))
  | inl aggregate ↦
      or_well_known-ok (convert_table false many opt f.proto.type) f.proto.type_name (h aggregate)
]

-- A path parameter that `newParam` takes, of a field in a proto3 file, has a converter:
-- `ConvertFuncExpr` returns no error.
pub new_param-convert_func_expr :
    (r : Registry) (request : Message) (path : Text) (p : Parameter)
    → new_param r request path ≡ ok p
    → is_proto2_parameter p ≡ false
    → (conv : Text) × (convert_func_expr p ≡ ok conv)
unfolding new_param convert_func_expr
new_param-convert_func_expr r request path p e three =
    let (fields, _, of) = >>=-eq-ok (resolve_field_path r request path true) _ e in
    rw three (
      convertible (is_repeated p) (is_optional_proto3 p.field_path) p.target
        (parameter_of-IsConvertible fields (last_target fields) p of))
