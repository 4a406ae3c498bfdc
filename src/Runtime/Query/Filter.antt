-- ===== src/Runtime/Query/Filter.antt =====
-- runtime/query.go: the filter of `Parse`, against the parameters with those taken out for which
-- `HasCommonPrefix` answers true.
use grpc_gateway.Prelude.{
  Bool, true, false, ◌≡◌, refl, sym, ap, ◌∙◌, List, [], ◌∷◌, Option, none, some, Text, split, inl,
  inr, if◌then◌else◌,
}
use grpc_gateway.Utilities.Trie.{DoubleArray, new_double_array, has_common_prefix}
use grpc_gateway.Utilities.Trie.Total.{built-answers}
use grpc_gateway.Runtime.Query.Fields.{Value, Parsers, QueryError}
use grpc_gateway.Runtime.Query.Parse.{Reflection, unbracket, populate_field_value_from_path, parse}

abbrev passes : Option Bool → Bool
passes (some false) = true
passes _ = false

-- The parameters for whose field path `HasCommonPrefix` of the filter answers false.
unfoldable pub kept : DoubleArray → List (Text × List Text) → List (Text × List Text)
kept filter [] = []
kept filter ((key, values) ∷ rest) =
    if passes (has_common_prefix filter (split b'.' (unbracket key values).0))
    then (key, values) ∷ kept filter rest
    else kept filter rest

-- The filter of no sequences.
abbrev pub no_filter : DoubleArray
no_filter = record { encoding = []; base = []; check = [] }

no_filter-passes : (seq : List Text) → has_common_prefix no_filter seq ≡ some false
unfolding has_common_prefix
no_filter-passes seq = refl

-- What `Parse` does behind one parameter.
after : {M : Type 0} → M × Option QueryError → (M → M × Option QueryError) → M × Option QueryError
after step next = elim step.1 [ some e ↦ (step.0, some e) | none ↦ next step.0 ]

parse-keeps :
    {T F M : Type 0} (p : Parsers T F) (r : Reflection M (Value T F)) (filter : DoubleArray) (m : M)
    (key : Text) (values : List Text) (rest : List (Text × List Text))
    → has_common_prefix filter (split b'.' (unbracket key values).0) ≡ some false
    → parse p r filter m ((key, values) ∷ rest)
      ≡ after
          (populate_field_value_from_path p r m
            (split b'.' (unbracket key values).0)
            (unbracket key values).1)
          (λ m₁. parse p r filter m₁ rest)
unfolding parse after
parse-keeps p r filter m key values rest e = rw (parse, e) refl

-- With a filter that `NewDoubleArray` has made, `Parse` leaves the message and gives the error that it
-- would without a filter on the parameters for whose field path `HasCommonPrefix` of the filter answers
-- false, in the same order. Nothing is said of which paths these are.
pub parse-kept :
    {T F M : Type 0} (p : Parsers T F) (r : Reflection M (Value T F)) (seqs : List (List Text))
    (filter : DoubleArray) (m : M) (params : List (Text × List Text))
    → new_double_array seqs ≡ some filter
    → parse p r filter m params ≡ parse p r no_filter m (kept filter params)
unfolding parse kept
parse-kept p r seqs filter m [] b = refl
parse-kept p r seqs filter m ((key, values) ∷ rest) b =
    let path = split b'.' (unbracket key values).0 in
    elim (built-answers seqs filter path b) [
      | inl e ↦ rw (parse, kept, e) (parse-kept p r seqs filter m rest b)
      | inr e ↦
          rw (kept, e)
            (parse-keeps p r filter m key values rest e
              ∙ ap (after _) (λ i m₁. parse-kept p r seqs filter m₁ rest b i)
              ∙ sym (
                  parse-keeps p r no_filter m key values (kept filter rest)
                    (no_filter-passes path)))
    ]
