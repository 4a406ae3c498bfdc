-- ===== src/Runtime/Query/Parse.antt =====
-- runtime/query.go: the walk along a field path, and `Parse`. A message is a value of a type `M` with
-- the operations of protoreflect; a call gives the message that it leaves, and an error if there is one.
use grpc_gateway.Prelude.{
  Bool, true, false, List, [], ◌∷◌, Option, none, some, Text, contains_byte, split_last, split,
  if◌then◌else◌, ok, fail, ◌&&◌,
}
use grpc_gateway.Utilities.Trie.{DoubleArray, has_common_prefix}
use grpc_gateway.Runtime.Query.Fields.{Kind, FieldType, QueryError, Value, Parsers, parse_field}
use grpc_gateway.Runtime.Query.Fields.{no_field_path}
use grpc_gateway.Runtime.Query.Fields.{no_value}
use grpc_gateway.Runtime.Query.Fields.{wrong_map_values}
use grpc_gateway.Runtime.Query.Fields.{panic}
use grpc_gateway.Runtime.Query.Fields.{already_set}
use grpc_gateway.Runtime.Query.Fields.{too_many_values}
use grpc_gateway.Runtime.Query.Fields.{not_a_message}

-- A field is singular, a list, or a map with the types of its keys and values.
pub data Shape : Type 0 where
  singular list : Shape
  map_of : FieldType → FieldType → Shape

-- What is used of a `protoreflect.FieldDescriptor`, with the oneof that it is in.
pub record Field : Type 0 where
  pub name : Text
  pub type : FieldType
  pub shape : Shape
  pub oneof : Option Text

-- What is used of a `protoreflect.Message`. `child` is the message behind `Mutable(fd).Message()`, which
-- `put_child` puts back when it has changed; a list or map that is empty counts as not set.
pub record Reflection (M V : Type 0) : Type 0 where
  pub by_name : M → Text → Option Field
  pub by_json_name : M → Text → Option Field
  pub is_oneof_set : M → Text → Bool
  pub child : M → Field → M
  pub put_child : M → Field → M → M
  pub set : M → Field → V → M
  pub append : M → Field → V → M
  pub put : M → Field → V → V → M

-- `fields.ByName`, and `fields.ByJSONName` where that finds nothing.
unfoldable pub find_field : {M V : Type 0} → Reflection M V → M → Text → Option Field
find_field r m name = elim (r.by_name m name) [ some fd ↦ some fd | none ↦ r.by_json_name m name ]

abbrev pub is_message_kind : Kind → Bool
is_message_kind Kind.message_kind = true
is_message_kind Kind.group_kind = true
is_message_kind _ = false

-- A list or a map is `protoreflect.Repeated`.
abbrev pub is_singular : Shape → Bool
is_singular Shape.singular = true
is_singular _ = false

-- What `valuesKeyRegexp` finds in a key `name[index]`; its dots match every byte but a line feed.
unfoldable pub match_key : Text → Option (Text × Text)
unfolding contains_byte split_last
match_key key = if contains_byte key 10 then none else elim (split_last b']' key) [
  | some (front, []) ↦ split_last b'[' front
  | some (front, _ ∷ _) ↦ none
  | none ↦ none
]

-- The key and the values of a parameter, with what stands in the brackets as the first value.
unfoldable pub unbracket : Text → List Text → Text × List Text
unfolding match_key
unbracket key values = elim (match_key key) [
  | none ↦ (key, values)
  | some (name, index) ↦ (name, index ∷ values)
]

module _ {T F M : Type 0} (p : Parsers T F) (r : Reflection M (Value T F)) where
  unfoldable pub populate_field : Field → M → Text → M × Option QueryError
  unfolding parse_field
  populate_field fd m value = elim (parse_field p fd.type value) [
    | ok v ↦ (r.set m fd v, none)
    | fail e ↦ (m, some e)
  ]

  unfoldable pub populate_repeated_field : Field → M → List Text → M × Option QueryError
  unfolding parse_field
  populate_repeated_field fd m [] = (m, none)
  populate_repeated_field fd m (value ∷ values) = elim (parse_field p fd.type value) [
    | ok v ↦ populate_repeated_field fd (r.append m fd v) values
    | fail e ↦ (m, some e)
  ]

  unfoldable pub populate_map_field :
      Field → FieldType → FieldType → M → List Text → M × Option QueryError
  unfolding parse_field
  populate_map_field fd key_type value_type m (key ∷ value ∷ []) =
      elim (parse_field p key_type key) [
        | fail e ↦ (m, some e)
        | ok k ↦ elim (parse_field p value_type value) [
          | fail e ↦ (m, some e)
          | ok v ↦ (r.put m fd k v, none)
        ]
      ]
  populate_map_field fd key_type value_type m _ = (m, some wrong_map_values)

  -- The switch over the shape of the field.
  unfoldable pub populate_shape : Field → Shape → M → List Text → M × Option QueryError
  unfolding populate_field populate_repeated_field populate_map_field
  populate_shape fd list m values = populate_repeated_field fd m values
  populate_shape fd (map_of key value) m values = populate_map_field fd key value m values
  populate_shape fd singular m [] = (m, some no_value)
  populate_shape fd singular m (value ∷ []) = populate_field fd m value
  populate_shape fd singular m (_ ∷ _ ∷ _) = (m, some too_many_values)

  abbrev pub is_taken : M → Option Text → Bool
  is_taken m none = false
  is_taken m (some name) = r.is_oneof_set m name

  -- What is done with the last field of a path.
  unfoldable pub populate_last : Field → M → List Text → M × Option QueryError
  unfolding populate_shape
  populate_last fd m values =
      if is_taken m fd.oneof then (m, some already_set) else populate_shape fd fd.shape m values

  abbrev pub put_back : Field → M → M × Option QueryError → M × Option QueryError
  put_back fd m (c, e) = (r.put_child m fd c, e)

  -- The loop over the field path. A field that is not there ends it without an error.
  unfoldable pub walk : M → List Text → List Text → M × Option QueryError
  unfolding find_field populate_last
  walk m [] values = (m, some no_field_path)
  walk m (name ∷ []) values = elim (find_field r m name) [
    | none ↦ (m, none)
    | some fd ↦ populate_last fd m values
  ]
  walk m (name ∷ next ∷ path) values = elim (find_field r m name) [
    | none ↦ (m, none)
    | some fd ↦ elim (is_message_kind fd.type.kind && is_singular fd.shape) [
      | false ↦ (m, some not_a_message)
      | true ↦ put_back fd m (walk (r.child m fd) (next ∷ path) values)
    ]
  ]

  unfoldable pub populate_field_value_from_path : M → List Text → List Text → M × Option QueryError
  unfolding walk
  populate_field_value_from_path m [] values = (m, some no_field_path)
  populate_field_value_from_path m (_ ∷ _) [] = (m, some no_value)
  populate_field_value_from_path m (name ∷ path) (value ∷ values) =
      walk m (name ∷ path) (value ∷ values)

  unfoldable pub populate_field_from_path : M → Text → Text → M × Option QueryError
  unfolding populate_field_value_from_path split
  populate_field_from_path m path value =
      populate_field_value_from_path m (split b'.' path) (value ∷ [])

  -- The loop of `Parse`, over the parameters in the order in which the map is walked.
  unfoldable pub parse : DoubleArray → M → List (Text × List Text) → M × Option QueryError
  unfolding populate_field_value_from_path split has_common_prefix unbracket
  parse filter m [] = (m, none)
  parse filter m ((key, values) ∷ rest) =
      let (name, all) = unbracket key values in
      elim (has_common_prefix filter (split b'.' name)) [
        | none ↦ (m, some panic)
        | some true ↦ parse filter m rest
        | some false ↦
            let (m₁, err) = populate_field_value_from_path m (split b'.' name) all in
            elim err [ some e ↦ (m₁, some e) | none ↦ parse filter m₁ rest ]
      ]
