-- ===== src/Tests/Queries.antt =====
-- runtime/query.go on a message with a list of texts and a time.
use grpc_gateway.Prelude.{
  ℕ, ◌≡◌, ◌≢◌, refl, Bool, true, false, List, [], ◌∷◌, ◌++◌, Option, none, some, Text, codes, get,
  put, text_eq, split, contains_byte, split_last,
}
use grpc_gateway.Utilities.Trie.{new_double_array, DoubleArray}
use grpc_gateway.Runtime.Query.Fields.{
  FieldType, Kind, not_registered, Parsers, Value, of_string, of_timestamp, panic,
}
use grpc_gateway.Runtime.Query.Parse.{Field, Shape, Reflection, find_field, unbracket, parse}
use grpc_gateway.Runtime.Query.Safety.{KnownField, KnownFields, parse-safe}
use grpc_gateway.Runtime.Query.Filter.{no_filter, kept, parse-kept}
use grpc_gateway.Prelude.{subst}

abbrev parsers : Parsers ℕ ℕ
parsers = record {
  parse_bool = λ v. none;
  parse_int = λ w v. none;
  parse_uint = λ w v. none;
  parse_float = λ w v. none;
  atoi = λ v. none;
  decode_string = λ v. none;
  parse_timestamp = λ v. some 7;
  parse_duration = λ v. none;
}

abbrev plain_text : FieldType
plain_text = record { kind = Kind.string_kind; message_name = []; enum = not_registered }

abbrev timestamp : FieldType
timestamp = record {
  kind = Kind.message_kind;
  message_name = codes "google.protobuf.Timestamp";
  enum = not_registered;
}

abbrev tags : Field
tags = record { name = codes "tags"; type = plain_text; shape = Shape.list; oneof = none }

abbrev since : Field
since = record { name = codes "since"; type = timestamp; shape = Shape.singular; oneof = none }

-- The values of each field that is set.
abbrev Fields : Type 0
Fields = List (Text × List (Value ℕ ℕ))

abbrev values_of : Option (List (Value ℕ ℕ)) → List (Value ℕ ℕ)
values_of none = []
values_of (some vs) = vs

abbrev choose : Bool → Bool → Option Field
choose true _ = some tags
choose false true = some since
choose false false = none

abbrev reflection : Reflection Fields (Value ℕ ℕ)
reflection = record {
  by_name = λ m name. choose (text_eq name (codes "tags")) (text_eq name (codes "since"));
  by_json_name = λ m name. none;
  is_oneof_set = λ m name. false;
  child = λ m fd. [];
  put_child = λ m fd c. m;
  set = λ m fd v. put fd.name (v ∷ []) m;
  append = λ m fd v. put fd.name (values_of (get fd.name m) ++ v ∷ []) m;
  put = λ m fd k v. put fd.name (k ∷ v ∷ []) m;
}

known_fields : KnownFields reflection
unfolding find_field
known_fields m name fd e = chosen (text_eq name (codes "tags")) (text_eq name (codes "since")) e
  where
    chosen :
        (b c : Bool) → elim (choose b c) [ some f ↦ some f | none ↦ none ] ≡ some fd → KnownField fd
    chosen true c e = subst KnownField {x = tags} {y = fd} (cc) (tt, tt)
    chosen false true e = subst KnownField {x = since} {y = fd} (cc) (tt, tt)
    chosen false false e = absurd (cc)

-- The filter of the field `hidden`.
abbrev filter : DoubleArray
filter = record {
  encoding = (codes "hidden", 0) ∷ [];
  base = 1 ∷ 1 ∷ 0 ∷ [];
  check = 0 ∷ 1 ∷ 2 ∷ [];
}

filter_built : new_double_array ((codes "hidden" ∷ []) ∷ []) ≡ some filter
unfolding new_double_array get put text_eq
filter_built = refl

abbrev params : List (Text × List Text)
params =
    (codes "tags", codes "x" ∷ codes "y" ∷ [])
    ∷ (codes "hidden.tags", codes "z" ∷ [])
    ∷ (codes "since", codes "now" ∷ [])
    ∷ []

parsed_params : parse parsers reflection filter [] params ≡ (
  (codes "tags", of_string (codes "x") ∷ of_string (codes "y") ∷ [])
      ∷ (codes "since", of_timestamp 7 ∷ [])
      ∷ [],
  none,
)
unfolding parse get put text_eq split contains_byte split_last
parsed_params = refl

bracketed :
    unbracket (codes "labels[a]") (codes "v" ∷ []) ≡ (codes "labels", codes "a" ∷ codes "v" ∷ [])
unfolding unbracket contains_byte split_last
bracketed = refl

-- A time that is given as `null` is a panic.
null_panics :
    parse parsers reflection filter [] ((codes "since", codes "null" ∷ []) ∷ []) ≡ ([], some panic)
unfolding parse get put text_eq split contains_byte split_last
null_panics = refl

parse-safe_example : (parse parsers reflection filter [] params).1 ≢ some panic
unfolding unbracket contains_byte split_last text_eq
parse-safe_example =
    parse-safe parsers reflection ((codes "hidden" ∷ []) ∷ []) filter [] params known_fields
      filter_built ((refl, (refl, tt)), ((refl, tt), ((refl, tt), tt)))

parse-kept_example :
    parse parsers reflection filter [] params
    ≡ parse parsers reflection no_filter [] (kept filter params)
parse-kept_example =
    parse-kept parsers reflection ((codes "hidden" ∷ []) ∷ []) filter [] params filter_built
