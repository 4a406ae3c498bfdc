-- ===== src/Tests/Tries.antt =====
-- Runs of the trie of utilities/trie.go.
use grpc_gateway.Prelude.{
  Option, some, none, List, ◌∷◌, [], Text, codes, get, put, text_eq, true, false, Bool, ℕ, ◌≡◌,
  refl,
}
use grpc_gateway.Utilities.Trie.{DoubleArray, new_double_array, has_common_prefix}
use grpc_gateway.Utilities.Trie.Total.{asked, new_double_array-has_common_prefix}

abbrev a : Text
a = codes "a"

abbrev b : Text
b = codes "b"

abbrev c : Text
c = codes "c"

abbrev arrays : Option DoubleArray → Option (List ℕ × List ℕ)
arrays none = none
arrays (some da) = some (da.base, da.check)

abbrev lone : List (List Text)
lone = (a ∷ b ∷ []) ∷ []

lone_itself : asked (a ∷ b ∷ []) (new_double_array lone) ≡ some true
unfolding new_double_array asked get put text_eq
lone_itself = refl

lone_longer : asked (a ∷ b ∷ c ∷ []) (new_double_array lone) ≡ some true
unfolding new_double_array asked get put text_eq
lone_longer = refl

lone_shorter : asked (a ∷ []) (new_double_array lone) ≡ some false
unfolding new_double_array asked get put text_eq
lone_shorter = refl

abbrev apart : List (List Text)
apart = (a ∷ b ∷ []) ∷ (c ∷ []) ∷ []

apart_first : asked (a ∷ b ∷ []) (new_double_array apart) ≡ some true
unfolding new_double_array asked get put text_eq
apart_first = refl

apart_second : asked (c ∷ a ∷ []) (new_double_array apart) ≡ some true
unfolding new_double_array asked get put text_eq
apart_second = refl

abbrev siblings : List (List Text)
siblings = (a ∷ a ∷ []) ∷ (a ∷ b ∷ []) ∷ []

-- A sequence of the set is not found: its sibling has taken its place.
siblings_missed : asked (a ∷ a ∷ []) (new_double_array siblings) ≡ some false
unfolding new_double_array asked get put text_eq
siblings_missed = refl

-- The arrays of a trie of `a` and `a`, `b`, `c` in which siblings share a node.
abbrev shared : DoubleArray
shared = record {
  encoding = (a, 0) ∷ (b, 1) ∷ (c, 2) ∷ [];
  base = 1 ∷ 1 ∷ 1 ∷ 2 ∷ 0 ∷ 0 ∷ [];
  check = 0 ∷ 1 ∷ 2 ∷ 3 ∷ 2 ∷ 4 ∷ [];
}

-- The walk ends behind `a`, `b`, where no sequence ends, though `a` alone is a prefix.
shared_missed : has_common_prefix shared (a ∷ b ∷ []) ≡ some false
unfolding has_common_prefix get text_eq
shared_missed = refl

abbrev mixed : List (List Text)
mixed = (a ∷ a ∷ []) ∷ (b ∷ b ∷ []) ∷ (b ∷ c ∷ []) ∷ []

-- No sequence of the set is a prefix of this one.
mixed_found : asked (b ∷ a ∷ []) (new_double_array mixed) ≡ some true
unfolding new_double_array asked get put text_eq
mixed_found = refl

-- The arrays for two sequences, as trie_test.go expects them.
expected_arrays :
    arrays (new_double_array ((a ∷ []) ∷ (b ∷ []) ∷ []))
    ≡ some (1 ∷ 1 ∷ 2 ∷ 0 ∷ 0 ∷ [], 0 ∷ 1 ∷ 1 ∷ 2 ∷ 3 ∷ [])
unfolding new_double_array get put text_eq
expected_arrays = refl

new_double_array-has_common_prefix_example :
    (answer : Bool) × (asked (a ∷ a ∷ []) (new_double_array siblings) ≡ some answer)
new_double_array-has_common_prefix_example =
    new_double_array-has_common_prefix siblings (a ∷ a ∷ [])
