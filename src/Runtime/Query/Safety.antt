-- ===== src/Runtime/Query/Safety.antt =====
-- runtime/query.go: where the parsing of query parameters can panic.
use grpc_gateway.Prelude.{
  ◌≡◌, ◌≢◌, List, [], ◌∷◌, Option, none, some, Text, split, All, Option-cases, inl, inr, ◌&&◌,
  Bool-cases, Result-cases,
}
use grpc_gateway.Utilities.Trie.{DoubleArray, new_double_array}
use grpc_gateway.Utilities.Trie.Total.{built-answers}
use grpc_gateway.Runtime.Query.Fields.{FieldType, QueryError, panic, Value, Parsers, parse_field}
use grpc_gateway.Runtime.Query.Parse.{
  Shape, Field, Reflection, find_field, unbracket, populate_field, populate_repeated_field,
  populate_map_field, populate_shape, is_taken, populate_last, walk, is_message_kind, is_singular,
  populate_field_value_from_path, parse,
}
use grpc_gateway.Prelude.{subst}
use grpc_gateway.Runtime.Query.Calm.{Known, Plain, CalmError, calm_error, parse_field-Calm}

abbrev pub KnownShape : Shape → Type 0
KnownShape (Shape.map_of key value) = Known key.kind × Known value.kind
KnownShape _ = Unit

abbrev pub KnownField : Field → Type 0
KnownField fd = Known fd.type.kind × KnownShape fd.shape

-- Every field that a message has is of a known kind.
abbrev pub KnownFields : {M V : Type 0} → Reflection M V → Type 0
KnownFields {M = M} r =
    (m : M) (name : Text) (fd : Field) → find_field r m name ≡ some fd → KnownField fd

abbrev CalmEnd : Option QueryError → Type 0
CalmEnd none = Unit
CalmEnd (some e) = CalmError e

module _ {T F M : Type 0} (p : Parsers T F) (r : Reflection M (Value T F)) where
  populate_field-Calm :
      (fd : Field) (m : M) (value : Text)
      → KnownField fd
      → Plain value
      → CalmEnd (populate_field p r fd m value).1
  unfolding populate_field
  populate_field-Calm fd m value k h = elim (Result-cases (parse_field p fd.type value)) [
    | inl (v, e) ↦ rw (populate_field, e) tt
    | inr (x, e) ↦ rw (populate_field, e) (calm_error e (parse_field-Calm p fd.type value k.0 h))
  ]

  populate_repeated_field-Calm :
      (fd : Field) (m : M) (values : List Text)
      → KnownField fd
      → All Plain values
      → CalmEnd (populate_repeated_field p r fd m values).1
  unfolding populate_repeated_field
  populate_repeated_field-Calm fd m [] k hs = tt
  populate_repeated_field-Calm fd m (value ∷ values) k (h, hs) =
      elim (Result-cases (parse_field p fd.type value)) [
        | inl (v, e) ↦
            rw (populate_repeated_field, e)
              (populate_repeated_field-Calm fd (r.append m fd v) values k hs)
        | inr (x, e) ↦
            rw (populate_repeated_field, e) (calm_error e (parse_field-Calm p fd.type value k.0 h))
      ]

  populate_map_field-Calm :
      (fd : Field) (kt vt : FieldType) (m : M) (values : List Text)
      → Known kt.kind
      → Known vt.kind
      → All Plain values
      → CalmEnd (populate_map_field p r fd kt vt m values).1
  unfolding populate_map_field
  populate_map_field-Calm fd kt vt m [] k l hs = tt
  populate_map_field-Calm fd kt vt m (key ∷ []) k l hs = tt
  populate_map_field-Calm fd kt vt m (key ∷ value ∷ _ ∷ _) k l hs = tt
  populate_map_field-Calm fd kt vt m (key ∷ value ∷ []) k l (h, (g, hs)) =
      elim (Result-cases (parse_field p kt key)) [
        | inr (x, e) ↦ rw (populate_map_field, e) (calm_error e (parse_field-Calm p kt key k h))
        | inl (a, e) ↦ elim (Result-cases (parse_field p vt value)) [
          | inr (x, f) ↦
              rw (populate_map_field, e, f) (calm_error f (parse_field-Calm p vt value l g))
          | inl (b, f) ↦ rw (populate_map_field, e, f) tt
        ]
      ]

  populate_shape-Calm :
      (fd : Field) (s : Shape) (m : M) (values : List Text)
      → KnownField fd
      → KnownShape s
      → All Plain values
      → CalmEnd (populate_shape p r fd s m values).1
  unfolding populate_shape
  populate_shape-Calm fd Shape.list m values k l hs = populate_repeated_field-Calm fd m values k hs
  populate_shape-Calm fd (Shape.map_of kt vt) m values k l hs =
      populate_map_field-Calm fd kt vt m values l.0 l.1 hs
  populate_shape-Calm fd Shape.singular m [] k l hs = tt
  populate_shape-Calm fd Shape.singular m (value ∷ []) k l (h, _) =
      populate_field-Calm fd m value k h
  populate_shape-Calm fd Shape.singular m (_ ∷ _ ∷ _) k l hs = tt

  populate_last-Calm :
      (fd : Field) (m : M) (values : List Text)
      → KnownField fd
      → All Plain values
      → CalmEnd (populate_last p r fd m values).1
  unfolding populate_last
  populate_last-Calm fd m values k hs = elim (Bool-cases (is_taken p r m fd.oneof)) [
    | inl e ↦ rw (populate_last, e) tt
    | inr e ↦ rw (populate_last, e) (populate_shape-Calm fd fd.shape m values k k.1 hs)
  ]

  walk-Calm :
      (m : M) (path values : List Text)
      → KnownFields r
      → All Plain values
      → CalmEnd (walk p r m path values).1
  unfolding walk
  walk-Calm m [] values ks hs = tt
  walk-Calm m (name ∷ []) values ks hs = elim (Option-cases (find_field r m name)) [
    | inl e ↦ rw (walk, e) tt
    | inr (fd, e) ↦ rw (walk, e) (populate_last-Calm fd m values (ks m name fd e) hs)
  ]
  walk-Calm m (name ∷ next ∷ path) values ks hs = elim (Option-cases (find_field r m name)) [
    | inl e ↦ rw (walk, e) tt
    | inr (fd, e) ↦ elim (Bool-cases (is_message_kind fd.type.kind && is_singular fd.shape)) [
      | inr h ↦ rw (walk, e, h) tt
      | inl h ↦ rw (walk, e, h) (walk-Calm (r.child m fd) (next ∷ path) values ks hs)
    ]
  ]

  populate_field_value_from_path-Calm :
      (m : M) (path values : List Text)
      → KnownFields r
      → All Plain values
      → CalmEnd (populate_field_value_from_path p r m path values).1
  unfolding populate_field_value_from_path
  populate_field_value_from_path-Calm m [] values ks hs = tt
  populate_field_value_from_path-Calm m (_ ∷ _) [] ks hs = tt
  populate_field_value_from_path-Calm m (name ∷ path) (value ∷ values) ks hs =
      walk-Calm m (name ∷ path) (value ∷ values) ks hs

  parse-Calm :
      (seqs : List (List Text)) (filter : DoubleArray) (m : M) (params : List (Text × List Text))
      → KnownFields r
      → new_double_array seqs ≡ some filter
      → All (λ kv. All Plain (unbracket kv.0 kv.1).1) params
      → CalmEnd (parse p r filter m params).1
  unfolding parse
  parse-Calm seqs filter m [] ks b hs = tt
  parse-Calm seqs filter m ((key, values) ∷ rest) ks b (h, hs) =
      let path = split b'.' (unbracket key values).0 in
      let step = populate_field_value_from_path p r m path (unbracket key values).1 in
      elim (built-answers seqs filter path b) [
        | inl e ↦ rw (parse, e) (parse-Calm seqs filter m rest ks b hs)
        | inr e ↦ elim (Option-cases step.1) [
          | inl f ↦ rw (parse, e, f) (parse-Calm seqs filter step.0 rest ks b hs)
          | inr (x, f) ↦
              rw (parse, e, f)
                (subst CalmEnd f
                  (populate_field_value_from_path-Calm m path (unbracket key values).1 ks h))
        ]
      ]

-- With a filter that `NewDoubleArray` has made, and a message whose fields are all of kinds that
-- protoreflect has, `Parse` does not panic when no value, and no text in the brackets of a key, is `null`.
pub parse-safe :
    {T F M : Type 0} (p : Parsers T F) (r : Reflection M (Value T F)) (seqs : List (List Text))
    (filter : DoubleArray) (m : M) (params : List (Text × List Text))
    → KnownFields r
    → new_double_array seqs ≡ some filter
    → All (λ kv. All Plain (unbracket kv.0 kv.1).1) params
    → (parse p r filter m params).1 ≢ some panic
parse-safe p r seqs filter m params ks b hs e =
    subst CalmEnd e (parse-Calm p r seqs filter m params ks b hs)
