-- ===== src/Runtime/Query/Calm.antt =====
-- runtime/query.go: where the parsing of one value can panic.
use grpc_gateway.Prelude.{
  Bool, false, ◌≡◌, List, Option, none, some, Text, codes, text_eq, if-intro, Result, ok, fail,
  Option-cases, inl, inr, if◌then◌else◌,
}
use grpc_gateway.Runtime.Query.Fields.{
  Kind, FieldType, QueryError, panic, Value, Parsers, parsed, EnumLookup, not_registered,
  lookup_failed, registered, number_by_name, by_number, enum_number, enum_by_number, parse_enum,
  parse_message, parse_kind, parse_field,
}
use grpc_gateway.Prelude.{ℤ}
use grpc_gateway.Prelude.{subst}
use grpc_gateway.Runtime.Query.Fields.{unsupported_message}

-- The kind is one of those that protoreflect has.
abbrev pub Known : Kind → Type 0
Known Kind.unknown_kind = ⊥
Known _ = Unit

abbrev pub Plain : Text → Type 0
Plain value = text_eq value (codes "null") ≡ false

-- An error that is no panic.
abbrev pub CalmError : QueryError → Type 0
CalmError panic = ⊥
CalmError _ = Unit

unfoldable pub Calm : {A : Type 0} → Result QueryError A → Type 0
Calm (ok a) = Unit
Calm (fail e) = CalmError e

pub calm_error :
    {A : Type 0} {o : Result QueryError A} {x : QueryError} → o ≡ fail x → Calm o → CalmError x
unfolding Calm
calm_error e h = subst Calm e h

ok-Calm : {A : Type 0} (a : A) → Calm (ok a)
unfolding Calm
ok-Calm a = tt

unsupported-Calm : (A : Type 0) → Calm {A = A} (fail unsupported_message)
unfolding Calm
unsupported-Calm A = tt

parsed-Calm : {A B : Type 0} (make : A → B) (o : Option A) → Calm (parsed make o)
unfolding Calm parsed
parsed-Calm make none = tt
parsed-Calm make (some a) = tt

module _ {T F : Type 0} (p : Parsers T F) where
  enum_by_number-Calm :
      (vs : List (Text × ℤ)) (o : Option ℤ) → Calm (enum_by_number {T = T} {F = F} vs o)
  unfolding enum_by_number Calm
  enum_by_number-Calm vs none = tt
  enum_by_number-Calm vs (some i) = elim (Option-cases (by_number (enum_number i) vs)) [
    | inl h ↦ rw (enum_by_number, h) tt
    | inr (v, h) ↦ rw (enum_by_number, h) tt
  ]

  parse_enum-Calm : (l : EnumLookup) (value : Text) → Calm (parse_enum p l value)
  unfolding parse_enum Calm
  parse_enum-Calm not_registered value = tt
  parse_enum-Calm lookup_failed value = tt
  parse_enum-Calm (registered vs) value = elim (Option-cases (number_by_name value vs)) [
    | inl h ↦ rw (parse_enum, h) (enum_by_number-Calm vs (p.atoi value))
    | inr (v, h) ↦ rw (parse_enum, h) tt
  ]

  parse_message-Calm : (name value : Text) → Plain value → Calm (parse_message p name value)
  unfolding parse_message
  parse_message-Calm name value plain = rw plain (
      either (text_eq name (codes "google.protobuf.Timestamp")) _ _ (parsed-Calm _ _) (
        either (text_eq name (codes "google.protobuf.Duration")) _ _ (parsed-Calm _ _) (
          either (text_eq name (codes "google.protobuf.DoubleValue")) _ _ (parsed-Calm _ _) (
            either (text_eq name (codes "google.protobuf.FloatValue")) _ _ (parsed-Calm _ _) (
              either (text_eq name (codes "google.protobuf.Int64Value")) _ _ (parsed-Calm _ _) (
                either (text_eq name (codes "google.protobuf.Int32Value")) _ _ (parsed-Calm _ _) (
                  either (text_eq name (codes "google.protobuf.UInt64Value")) _ _ (parsed-Calm _ _)
                    (either (text_eq name (codes "google.protobuf.UInt32Value")) _ _
                      (parsed-Calm _ _)
                      (either (text_eq name (codes "google.protobuf.BoolValue")) _ _
                        (parsed-Calm _ _)
                        (either (text_eq name (codes "google.protobuf.StringValue")) _ _ (ok-Calm _)
                          (either (text_eq name (codes "google.protobuf.BytesValue")) _ _
                            (parsed-Calm _ _)
                            (either (text_eq name (codes "google.protobuf.FieldMask")) _ _
                              (ok-Calm _) (unsupported-Calm _)))))))))))))
    where
      either :
          (b : Bool) (x y : Result QueryError (Value T F))
          → Calm x
          → Calm y
          → Calm (if b then x else y)
      either b x y = if-intro Calm b

  parse_kind-Calm :
      (k : Kind) (type : FieldType) (value : Text)
      → Known k
      → Plain value
      → Calm (parse_kind p k type value)
  unfolding parse_kind Calm
  parse_kind-Calm Kind.bool_kind type value k h = parsed-Calm _ _
  parse_kind-Calm Kind.enum_kind type value k h = parse_enum-Calm type.enum value
  parse_kind-Calm Kind.string_kind type value k h = tt
  parse_kind-Calm Kind.message_kind type value k h = parse_message-Calm type.message_name value h
  parse_kind-Calm Kind.group_kind type value k h = parse_message-Calm type.message_name value h
  parse_kind-Calm Kind.unknown_kind type value k h = absurd k
  parse_kind-Calm Kind.bytes_kind type value k h = parsed-Calm _ _
  parse_kind-Calm Kind.int32_kind type value k h = parsed-Calm _ _
  parse_kind-Calm Kind.sint32_kind type value k h = parsed-Calm _ _
  parse_kind-Calm Kind.sfixed32_kind type value k h = parsed-Calm _ _
  parse_kind-Calm Kind.int64_kind type value k h = parsed-Calm _ _
  parse_kind-Calm Kind.sint64_kind type value k h = parsed-Calm _ _
  parse_kind-Calm Kind.sfixed64_kind type value k h = parsed-Calm _ _
  parse_kind-Calm Kind.uint32_kind type value k h = parsed-Calm _ _
  parse_kind-Calm Kind.fixed32_kind type value k h = parsed-Calm _ _
  parse_kind-Calm Kind.uint64_kind type value k h = parsed-Calm _ _
  parse_kind-Calm Kind.fixed64_kind type value k h = parsed-Calm _ _
  parse_kind-Calm Kind.float_kind type value k h = parsed-Calm _ _
  parse_kind-Calm Kind.double_kind type value k h = parsed-Calm _ _

  pub parse_field-Calm :
      (type : FieldType) (value : Text)
      → Known type.kind
      → Plain value
      → Calm (parse_field p type value)
  unfolding parse_field
  parse_field-Calm type value k h = parse_kind-Calm type.kind type value k h
