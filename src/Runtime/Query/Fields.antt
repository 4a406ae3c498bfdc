-- ===== src/Runtime/Query/Fields.antt =====
-- runtime/query.go: `parseField` and `parseMessage`. The parsers of strconv, of package time and of
-- base64 are the fields of a record. A `panic` is an error of its own.
use grpc_gateway.Prelude.{
  ℕ, ◌-◌, ◌%◌, ◌^◌, Bool, false, List, [], ◌∷◌, Option, none, some, Text, codes, text_eq, ltb,
  if◌then◌else◌, ◌==◌, Result, ok, fail, split, ℤ, pos, negsuc,
}

-- `protoreflect.Kind`; `unknown_kind` is a number that is none of them.
pub data Kind : Type 0 where
  bool_kind enum_kind string_kind bytes_kind message_kind group_kind unknown_kind : Kind
  int32_kind sint32_kind sfixed32_kind int64_kind sint64_kind sfixed64_kind : Kind
  uint32_kind fixed32_kind uint64_kind fixed64_kind float_kind double_kind : Kind

-- What the registry of types says of an enum: the names and numbers of its values, if it is there.
pub data EnumLookup : Type 0 where
  not_registered lookup_failed : EnumLookup
  registered : List (Text × ℤ) → EnumLookup

-- What is used of the type of a field: `message_name` and `enum` of these kinds only.
pub record FieldType : Type 0 where
  pub kind : Kind
  pub message_name : Text
  pub enum : EnumLookup

pub data QueryError : Type 0 where
  no_field_path no_value not_a_message already_set too_many_values wrong_map_values : QueryError
  malformed enum_missing enum_failed invalid_enum unsupported_message : QueryError
  panic : QueryError

-- A value that is parsed, with the width of a number in bits; times and floats are of types `T`, `F`.
pub data Value (T F : Type 0) : Type 0 where
  of_bool : Bool → Value T F
  of_enum : ℤ → Value T F
  of_int : ℕ → ℤ → Value T F
  of_uint : ℕ → ℕ → Value T F
  of_float : ℕ → F → Value T F
  of_string of_bytes : Text → Value T F
  of_timestamp of_duration : T → Value T F
  of_wrapper : Value T F → Value T F
  of_field_mask : List Text → Value T F

-- The parsers that are called; `none` is an error. `parse_timestamp` is `time.Parse` with `ptypes.TimestampProto`.
pub record Parsers (T F : Type 0) : Type 0 where
  pub parse_bool : Text → Option Bool
  pub parse_int : ℕ → Text → Option ℤ
  pub parse_uint : ℕ → Text → Option ℕ
  pub parse_float : ℕ → Text → Option F
  pub atoi : Text → Option ℤ
  pub decode_string : Text → Option Text
  pub parse_timestamp : Text → Option T
  pub parse_duration : Text → Option T

unfoldable pub parsed : {A B : Type 0} → (A → B) → Option A → Result QueryError B
parsed make none = fail malformed
parsed make (some a) = ok (make a)

-- A number below `2 ^ 32` as the signed number with these bits.
abbrev pub signed : ℕ → ℤ
signed m = if ltb m (2 ^ 31) then pos m else negsuc (2 ^ 32 - 1 - m)

-- `protoreflect.EnumNumber(i)`
abbrev pub enum_number : ℤ → ℤ
enum_number (pos n) = signed (n % 2 ^ 32)
enum_number (negsuc n) = signed (2 ^ 32 - 1 - n % 2 ^ 32)

abbrev pub int_eq : ℤ → ℤ → Bool
int_eq (pos m) (pos n) = m == n
int_eq (negsuc m) (negsuc n) = m == n
int_eq (pos m) (negsuc n) = false
int_eq (negsuc m) (pos n) = false

-- `Values().ByName`
unfoldable pub number_by_name : Text → List (Text × ℤ) → Option ℤ
unfolding text_eq
number_by_name name [] = none
number_by_name name ((n, v) ∷ vs) = if text_eq n name then some v else number_by_name name vs

-- `Values().ByNumber`
unfoldable pub by_number : ℤ → List (Text × ℤ) → Option ℤ
by_number i [] = none
by_number i ((n, v) ∷ vs) = if int_eq v i then some v else by_number i vs

unfoldable pub enum_by_number :
    {T F : Type 0} → List (Text × ℤ) → Option ℤ → Result QueryError (Value T F)
unfolding by_number
enum_by_number vs none = fail invalid_enum
enum_by_number vs (some i) = elim (by_number (enum_number i) vs) [
  | none ↦ fail invalid_enum
  | some v ↦ ok (of_enum v)
]

-- The case of an enum in `parseField`.
unfoldable pub parse_enum :
    {T F : Type 0} → Parsers T F → EnumLookup → Text → Result QueryError (Value T F)
unfolding number_by_name enum_by_number
parse_enum p not_registered value = fail enum_missing
parse_enum p lookup_failed value = fail enum_failed
parse_enum p (registered vs) value = elim (number_by_name value vs) [
  | some v ↦ ok (of_enum v)
  | none ↦ enum_by_number vs (p.atoi value)
]

-- `parseMessage`. A value `null` leaves the message nil, and `msg.ProtoReflect()` panics.
unfoldable pub parse_message :
    {T F : Type 0} → Parsers T F → Text → Text → Result QueryError (Value T F)
unfolding text_eq split parsed
parse_message p name value =
    if text_eq name (codes "google.protobuf.Timestamp")
    then (if text_eq value (codes "null")
        then fail panic
        else parsed of_timestamp (p.parse_timestamp value))
    else if text_eq name (codes "google.protobuf.Duration")
    then (if text_eq value (codes "null")
        then fail panic
        else parsed of_duration (p.parse_duration value))
    else if text_eq name (codes "google.protobuf.DoubleValue")
    then parsed (λ v. of_wrapper (of_float 64 v)) (p.parse_float 64 value)
    else if text_eq name (codes "google.protobuf.FloatValue")
    then parsed (λ v. of_wrapper (of_float 32 v)) (p.parse_float 32 value)
    else if text_eq name (codes "google.protobuf.Int64Value")
    then parsed (λ v. of_wrapper (of_int 64 v)) (p.parse_int 64 value)
    else if text_eq name (codes "google.protobuf.Int32Value")
    then parsed (λ v. of_wrapper (of_int 32 v)) (p.parse_int 32 value)
    else if text_eq name (codes "google.protobuf.UInt64Value")
    then parsed (λ v. of_wrapper (of_uint 64 v)) (p.parse_uint 64 value)
    else if text_eq name (codes "google.protobuf.UInt32Value")
    then parsed (λ v. of_wrapper (of_uint 32 v)) (p.parse_uint 32 value)
    else if text_eq name (codes "google.protobuf.BoolValue")
    then parsed (λ v. of_wrapper (of_bool v)) (p.parse_bool value)
    else if text_eq name (codes "google.protobuf.StringValue")
    then ok (of_wrapper (of_string value))
    else if text_eq name (codes "google.protobuf.BytesValue")
    then parsed (λ v. of_wrapper (of_bytes v)) (p.decode_string value)
    else if text_eq name (codes "google.protobuf.FieldMask")
    then ok (of_field_mask (split b',' value))
    else fail unsupported_message

-- The switch of `parseField` over the kind.
unfoldable pub parse_kind :
    {T F : Type 0} → Parsers T F → Kind → FieldType → Text → Result QueryError (Value T F)
unfolding parse_enum parse_message parsed
parse_kind p bool_kind type value = parsed of_bool (p.parse_bool value)
parse_kind p enum_kind type value = parse_enum p type.enum value
parse_kind p int32_kind type value = parsed (of_int 32) (p.parse_int 32 value)
parse_kind p sint32_kind type value = parsed (of_int 32) (p.parse_int 32 value)
parse_kind p sfixed32_kind type value = parsed (of_int 32) (p.parse_int 32 value)
parse_kind p int64_kind type value = parsed (of_int 64) (p.parse_int 64 value)
parse_kind p sint64_kind type value = parsed (of_int 64) (p.parse_int 64 value)
parse_kind p sfixed64_kind type value = parsed (of_int 64) (p.parse_int 64 value)
parse_kind p uint32_kind type value = parsed (of_uint 32) (p.parse_uint 32 value)
parse_kind p fixed32_kind type value = parsed (of_uint 32) (p.parse_uint 32 value)
parse_kind p uint64_kind type value = parsed (of_uint 64) (p.parse_uint 64 value)
parse_kind p fixed64_kind type value = parsed (of_uint 64) (p.parse_uint 64 value)
parse_kind p float_kind type value = parsed (of_float 32) (p.parse_float 32 value)
parse_kind p double_kind type value = parsed (of_float 64) (p.parse_float 64 value)
parse_kind p string_kind type value = ok (of_string value)
parse_kind p bytes_kind type value = parsed of_bytes (p.decode_string value)
parse_kind p message_kind type value = parse_message p type.message_name value
parse_kind p group_kind type value = parse_message p type.message_name value
parse_kind p unknown_kind type value = fail panic

-- `parseField`
unfoldable pub parse_field :
    {T F : Type 0} → Parsers T F → FieldType → Text → Result QueryError (Value T F)
unfolding parse_kind
parse_field p type value = parse_kind p type.kind type value
