-- ===== src/Descriptor/Convert.antt =====
-- internal/descriptor/types.go: the Go expressions that generated code converts path parameters with,
-- and assigns to fields.
use grpc_gateway.Prelude.{
  ℕ, Bool, true, false, not, ◌&&◌, List, [], ◌∷◌, ◌++◌, Option, none, some, Text, codes,
  if◌then◌else◌, join, get_elem?, get, Result, ok, fail, ◌>>=◌,
}
use grpc_gateway.Casing.{camel}
use grpc_gateway.HttpRule.Parse.{ParseError}
use grpc_gateway.Descriptor.Protos.{
  FieldType, double, float, int64, uint64, int32, fixed64, fixed32, bool, string, group, message,
  bytes, uint32, enum, sfixed32, sfixed64, sint32, sint64, message_name, message_oneofs,
}
use grpc_gateway.Descriptor.Types.{
  pkg, proto2, dot, FieldPathComponent, FieldPath, is_optional_proto3, Parameter, is_repeated,
  is_proto2_parameter,
}

-- `parsing` is an error of the template parser; `nil_pointer` and `out_of_range` are panics, and
-- `out_of_fuel` belongs to the model only.
pub data DescriptorError : Type 0 where
  no_message no_file no_field not_aggregate repeated_field optional_field : DescriptorError
  invalid_access message_parameter unsupported_type alias_taken : DescriptorError
  get_with_body delete_with_body client_streaming nested_bindings bad_extension : DescriptorError
  parsing : ParseError → DescriptorError
  nil_pointer out_of_range out_of_fuel : DescriptorError

-- The names of package runtime.
abbrev pub runtime : Text → Option Text
runtime name = some (codes "runtime." ++ name)

-- `proto3ConvertFuncs`
unfoldable pub proto3_convert_funcs : FieldType → Option Text
proto3_convert_funcs double = runtime (codes "Float64")
proto3_convert_funcs float = runtime (codes "Float32")
proto3_convert_funcs int64 = runtime (codes "Int64")
proto3_convert_funcs uint64 = runtime (codes "Uint64")
proto3_convert_funcs int32 = runtime (codes "Int32")
proto3_convert_funcs fixed64 = runtime (codes "Uint64")
proto3_convert_funcs fixed32 = runtime (codes "Uint32")
proto3_convert_funcs bool = runtime (codes "Bool")
proto3_convert_funcs string = runtime (codes "String")
proto3_convert_funcs group = none
proto3_convert_funcs message = none
proto3_convert_funcs bytes = runtime (codes "Bytes")
proto3_convert_funcs uint32 = runtime (codes "Uint32")
proto3_convert_funcs enum = runtime (codes "Enum")
proto3_convert_funcs sfixed32 = runtime (codes "Int32")
proto3_convert_funcs sfixed64 = runtime (codes "Int64")
proto3_convert_funcs sint32 = runtime (codes "Int32")
proto3_convert_funcs sint64 = runtime (codes "Int64")

abbrev pub with_p : Option Text → Option Text
with_p none = none
with_p (some conv) = some (conv ++ codes "P")

-- `proto3OptionalConvertFuncs`
unfoldable pub proto3_optional_convert_funcs : FieldType → Option Text
unfolding proto3_convert_funcs
proto3_optional_convert_funcs typ = with_p (proto3_convert_funcs typ)

-- `proto3RepeatedConvertFuncs`
unfoldable pub proto3_repeated_convert_funcs : FieldType → Option Text
proto3_repeated_convert_funcs double = runtime (codes "Float64Slice")
proto3_repeated_convert_funcs float = runtime (codes "Float32Slice")
proto3_repeated_convert_funcs int64 = runtime (codes "Int64Slice")
proto3_repeated_convert_funcs uint64 = runtime (codes "Uint64Slice")
proto3_repeated_convert_funcs int32 = runtime (codes "Int32Slice")
proto3_repeated_convert_funcs fixed64 = runtime (codes "Uint64Slice")
proto3_repeated_convert_funcs fixed32 = runtime (codes "Uint32Slice")
proto3_repeated_convert_funcs bool = runtime (codes "BoolSlice")
proto3_repeated_convert_funcs string = runtime (codes "StringSlice")
proto3_repeated_convert_funcs group = none
proto3_repeated_convert_funcs message = none
proto3_repeated_convert_funcs bytes = runtime (codes "BytesSlice")
proto3_repeated_convert_funcs uint32 = runtime (codes "Uint32Slice")
proto3_repeated_convert_funcs enum = runtime (codes "EnumSlice")
proto3_repeated_convert_funcs sfixed32 = runtime (codes "Int32Slice")
proto3_repeated_convert_funcs sfixed64 = runtime (codes "Int64Slice")
proto3_repeated_convert_funcs sint32 = runtime (codes "Int32Slice")
proto3_repeated_convert_funcs sint64 = runtime (codes "Int64Slice")

-- `proto2ConvertFuncs`
unfoldable pub proto2_convert_funcs : FieldType → Option Text
proto2_convert_funcs double = runtime (codes "Float64P")
proto2_convert_funcs float = runtime (codes "Float32P")
proto2_convert_funcs int64 = runtime (codes "Int64P")
proto2_convert_funcs uint64 = runtime (codes "Uint64P")
proto2_convert_funcs int32 = runtime (codes "Int32P")
proto2_convert_funcs fixed64 = runtime (codes "Uint64P")
proto2_convert_funcs fixed32 = runtime (codes "Uint32P")
proto2_convert_funcs bool = runtime (codes "BoolP")
proto2_convert_funcs string = runtime (codes "StringP")
proto2_convert_funcs group = none
proto2_convert_funcs message = none
proto2_convert_funcs bytes = none
proto2_convert_funcs uint32 = runtime (codes "Uint32P")
proto2_convert_funcs enum = runtime (codes "EnumP")
proto2_convert_funcs sfixed32 = runtime (codes "Int32P")
proto2_convert_funcs sfixed64 = runtime (codes "Int64P")
proto2_convert_funcs sint32 = runtime (codes "Int32P")
proto2_convert_funcs sint64 = runtime (codes "Int64P")

-- `proto2RepeatedConvertFuncs`
unfoldable pub proto2_repeated_convert_funcs : FieldType → Option Text
proto2_repeated_convert_funcs double = runtime (codes "Float64Slice")
proto2_repeated_convert_funcs float = runtime (codes "Float32Slice")
proto2_repeated_convert_funcs int64 = runtime (codes "Int64Slice")
proto2_repeated_convert_funcs uint64 = runtime (codes "Uint64Slice")
proto2_repeated_convert_funcs int32 = runtime (codes "Int32Slice")
proto2_repeated_convert_funcs fixed64 = runtime (codes "Uint64Slice")
proto2_repeated_convert_funcs fixed32 = runtime (codes "Uint32Slice")
proto2_repeated_convert_funcs bool = runtime (codes "BoolSlice")
proto2_repeated_convert_funcs string = runtime (codes "StringSlice")
proto2_repeated_convert_funcs group = none
proto2_repeated_convert_funcs message = none
proto2_repeated_convert_funcs bytes = none
proto2_repeated_convert_funcs uint32 = runtime (codes "Uint32Slice")
proto2_repeated_convert_funcs enum = runtime (codes "EnumSlice")
proto2_repeated_convert_funcs sfixed32 = runtime (codes "Int32Slice")
proto2_repeated_convert_funcs sfixed64 = runtime (codes "Int64Slice")
proto2_repeated_convert_funcs sint32 = runtime (codes "Int32Slice")
proto2_repeated_convert_funcs sint64 = runtime (codes "Int64Slice")

abbrev pub well_known_types : List (Text × Text)
well_known_types =
    (codes ".google.protobuf.Timestamp", codes "runtime.Timestamp")
    ∷ (codes ".google.protobuf.Duration", codes "runtime.Duration")
    ∷ (codes ".google.protobuf.StringValue", codes "runtime.StringValue")
    ∷ (codes ".google.protobuf.FloatValue", codes "runtime.FloatValue")
    ∷ (codes ".google.protobuf.DoubleValue", codes "runtime.DoubleValue")
    ∷ (codes ".google.protobuf.BoolValue", codes "runtime.BoolValue")
    ∷ (codes ".google.protobuf.BytesValue", codes "runtime.BytesValue")
    ∷ (codes ".google.protobuf.Int32Value", codes "runtime.Int32Value")
    ∷ (codes ".google.protobuf.UInt32Value", codes "runtime.UInt32Value")
    ∷ (codes ".google.protobuf.Int64Value", codes "runtime.Int64Value")
    ∷ (codes ".google.protobuf.UInt64Value", codes "runtime.UInt64Value")
    ∷ []

-- `wellKnownTypeConv[typeName]`
unfoldable pub well_known_type_conv : Text → Option Text
well_known_type_conv type_name = get type_name well_known_types

abbrev pub is_some {ℓ} : {A : Type ℓ} → Option A → Bool
is_some none = false
is_some (some a) = true

-- `IsWellKnownType`
unfoldable pub is_well_known_type : Text → Bool
unfolding well_known_type_conv
is_well_known_type type_name = is_some (well_known_type_conv type_name)

-- `GetTypeName`
abbrev pub get_type_name : Option Text → Text
get_type_name none = []
get_type_name (some t) = t

-- The table of `ConvertFuncExpr`.
unfoldable pub convert_table : Bool → Bool → Bool → FieldType → Option Text
unfolding proto3_convert_funcs proto3_repeated_convert_funcs proto3_optional_convert_funcs
    proto2_convert_funcs proto2_repeated_convert_funcs
convert_table two many opt typ =
    if not two && many
    then proto3_repeated_convert_funcs typ
    else if not two && opt
    then proto3_optional_convert_funcs typ
    else if two && not many
    then proto2_convert_funcs typ
    else if two && many
    then proto2_repeated_convert_funcs typ
    else proto3_convert_funcs typ

abbrev pub conv_or_error : Option Text → Result DescriptorError Text
conv_or_error none = fail unsupported_type
conv_or_error (some conv) = ok conv

abbrev pub or_well_known : Option Text → Option Text → Result DescriptorError Text
or_well_known none type_name = conv_or_error (well_known_type_conv (get_type_name type_name))
or_well_known (some conv) type_name = ok conv

-- `Parameter.ConvertFuncExpr`
unfoldable pub convert_func_expr : Parameter → Result DescriptorError Text
unfolding is_repeated is_proto2_parameter is_optional_proto3 convert_table well_known_type_conv
convert_func_expr p =
    or_well_known
      (convert_table (is_proto2_parameter p) (is_repeated p) (is_optional_proto3 p.field_path)
        p.target.proto.type)
      p.target.proto.type_name

-- `FieldPathComponent.AssignableExpr`
unfoldable pub component_assignable_expr : FieldPathComponent → Text
component_assignable_expr c = camel c.name

-- `FieldPathComponent.ValueExpr`
unfoldable pub value_expr : FieldPathComponent → Text
unfolding proto2
value_expr c =
    if proto2 c.target.message.file
    then codes "Get" ++ (camel c.name ++ codes "()")
    else camel c.name

abbrev newline : Text
newline = 10 ∷ []

abbrev tabs : Text
tabs = 9 ∷ 9 ∷ 9 ∷ []

abbrev quote : Text
quote = 34 ∷ []

-- The statement that sets the oneof to the wanted case, if it is nil.
unfoldable pub oneof_preparation : Text → Text → Text
oneof_preparation components field_name = join [] (
    codes "if "
    ∷ components
    ∷ codes " == nil {"
    ∷ newline
    ∷ tabs
    ∷ (9 ∷ [])
    ∷ components
    ∷ codes " =&"
    ∷ field_name
    ∷ codes "{}"
    ∷ newline
    ∷ tabs
    ∷ codes "} else if _, ok := "
    ∷ components
    ∷ codes ".(*"
    ∷ field_name
    ∷ codes "); !ok {"
    ∷ newline
    ∷ tabs
    ∷ (9 ∷ [])
    ∷ codes "return nil, metadata, status.Errorf(codes.InvalidArgument, "
    ∷ quote
    ∷ codes "expect type: *"
    ∷ field_name
    ∷ codes ", but: %t"
    ∷ (92 ∷ [])
    ∷ codes "n"
    ∷ quote
    ∷ codes ","
    ∷ components
    ∷ codes ")"
    ∷ newline
    ∷ tabs
    ∷ codes "}"
    ∷ [])

-- `oneofFieldName`
abbrev oneof_field_name : FieldPathComponent → Text
oneof_field_name c =
    let name = message_name c.target.message.proto ++ (codes "_" ++ component_assignable_expr c) in
    if c.target.force_prefixed_name then pkg c.target.message.file ++ (dot ++ name) else name

-- The first statement of a round: the case of the oneof, if the field stands in one.
abbrev enter_oneof :
    FieldPathComponent → Option ℕ → Text → List Text → Result DescriptorError (Text × List Text)
enter_oneof c none components preparations = ok (components, preparations)
enter_oneof c (some index) components preparations =
    if c.target.proto.proto3_optional
    then ok (components, preparations)
    else elim (get_elem? (message_oneofs c.target.message.proto) index) [
      | none ↦ fail out_of_range
      | some oneof ↦
          (let inside = components ++ (dot ++ camel oneof) in
            ok (
              inside ++ (codes ".(*" ++ (oneof_field_name c ++ codes ")")),
              preparations ++ oneof_preparation inside (oneof_field_name c) ∷ [],
            ))
    ]

-- The loop of `FieldPath.AssignableExpr`.
unfoldable pub assignable_loop : FieldPath → Text → List Text → Result DescriptorError Text
unfolding component_assignable_expr value_expr pkg
assignable_loop [] components preparations = ok (join newline (preparations ++ components ∷ []))
assignable_loop (c ∷ []) components preparations = do
  (inside, before) ← enter_oneof c c.target.proto.oneof_index components preparations
  ok (join newline (before ++ (inside ++ (dot ++ component_assignable_expr c)) ∷ []))
assignable_loop (c ∷ d ∷ p) components preparations = do
  (inside, before) ← enter_oneof c c.target.proto.oneof_index components preparations
  assignable_loop (d ∷ p) (inside ++ (dot ++ value_expr c)) before

abbrev assignable_path : FieldPath → Text → Result DescriptorError Text
assignable_path [] msg_expr = ok msg_expr
assignable_path (c ∷ p) msg_expr = assignable_loop (c ∷ p) msg_expr []

-- `FieldPath.AssignableExpr`
unfoldable pub assignable_expr : FieldPath → Text → Result DescriptorError Text
assignable_expr p msg_expr = assignable_path p msg_expr
