-- ===== src/Utilities/Trie.antt =====
-- utilities/trie.go: a double array trie over sequences of strings. None stands for a panic, or for the
-- end of the fuel.
pub mod Space
pub mod Rows
pub mod Total
use grpc_gateway.Prelude.{
  ℕ, zero, suc, ◌+◌, ◌-◌, Bool, true, false, not, ◌&&◌, ◌||◌, List, [], ◌∷◌, ◌++◌, map, Option,
  none, some, Text, length, get_elem?, set, take, replicate, get, put, leb, ltb, ◌==◌,
  if◌then◌else◌, is_empty,
}

pub record DoubleArray : Type 0 where
  pub encoding : List (Text × ℕ)
  pub base : List ℕ
  pub check : List ℕ

-- `da.Encoding[token]`, given a number if it has none.
unfoldable pub encode : List (Text × ℕ) → Text → List (Text × ℕ) × ℕ
encode enc token = elim (get token enc) [
  | some code ↦ (enc, code)
  | none ↦ (put token (length enc) enc, length enc)
]

-- The inner loop of `registerTokens`.
unfoldable pub encode_seq : List (Text × ℕ) → List Text → List (Text × ℕ) × List ℕ
unfolding encode
encode_seq enc [] = (enc, [])
encode_seq enc (t ∷ ts) =
    let (enc₁, code) = encode enc t in
    let (enc₂, codes) = encode_seq enc₁ ts in (enc₂, code ∷ codes)

unfoldable pub encode_all : List (Text × ℕ) → List (List Text) → List (Text × ℕ) × List (List ℕ)
unfolding encode_seq
encode_all enc [] = (enc, [])
encode_all enc (s ∷ ss) =
    let (enc₁, row) = encode_seq enc s in
    let (enc₂, rows) = encode_all enc₁ ss in (enc₂, row ∷ rows)

-- Every row ends with the terminator.
abbrev pub terminate : ℕ → List (List ℕ) → List (List ℕ)
terminate term [] = []
terminate term (row ∷ rows) = (row ++ term ∷ []) ∷ terminate term rows

-- `byLex.Less`
unfoldable pub less : List ℕ → List ℕ → Bool
less [] [] = false
less [] (y ∷ ys) = true
less (x ∷ xs) [] = false
less (x ∷ xs) (y ∷ ys) = if ltb x y then true else if ltb y x then false else less xs ys

unfoldable pub insert_row : List ℕ → List (List ℕ) → List (List ℕ)
unfolding less
insert_row r [] = r ∷ []
insert_row r (s ∷ rows) = if less s r then s ∷ insert_row r rows else r ∷ s ∷ rows

-- `sort.Sort(byLex(encoded))`
unfoldable pub sort_rows : List (List ℕ) → List (List ℕ)
unfolding insert_row
sort_rows [] = []
sort_rows (r ∷ rows) = insert_row r (sort_rows rows)

-- `da` with room for index `i`: both arrays get one entry more than they have, until it is there.
unfoldable pub ensure_size : ℕ → ℕ → DoubleArray → DoubleArray
ensure_size zero i da = da
ensure_size (suc f) i da =
    let grown = ensure_size f i (record da {
      base = da.base ++ replicate (length da.base + 1) 0;
      check = da.check ++ replicate (length da.check + 1) 0;
    }) in
    if leb (length da.base) i then grown else da

-- The rows are few, or the index is in reach, after so many rounds.
unfoldable pub with_room : ℕ → DoubleArray → DoubleArray
unfolding ensure_size
with_room i da = ensure_size (suc i) i da

-- `seqs[row][col]`
unfoldable pub cell : List (List ℕ) → ℕ → ℕ → Option ℕ
cell seqs row col = elim (get_elem? seqs row) [ none ↦ none | some r ↦ get_elem? r col ]

abbrev pub same_value : Option ℕ → ℕ → Bool
same_value none v = false
same_value (some last) v = last == v

-- A node whose next column is `col`: `n.col + 1` in the source. Its value stands in the column before.
pub record Node : Type 0 where
  pub row : ℕ
  pub value : ℕ
  pub left : ℕ
  pub right : ℕ

-- The loop of `children` over `k` rows from row `i`; `lastVal` is -1 (none) and stays so.
unfoldable pub starts : List (List ℕ) → ℕ → Option ℕ → ℕ → ℕ → Option (List (ℕ × ℕ))
unfolding cell
starts seqs col last_val zero i = some []
starts seqs col last_val (suc k) i = elim (cell seqs i col) [
  | none ↦ none
  | some v ↦ elim (starts seqs col last_val k (i + 1)) [
    | none ↦ none
    | some more ↦ some (if same_value last_val v then more else (i, v) ∷ more)
  ]
]

-- `last.right`: a child ends where the next one starts, and the last one where its parent ends.
abbrev pub close_nodes : ℕ → List (ℕ × ℕ) → List Node
close_nodes right [] = []
close_nodes right ((i, v) ∷ []) = record { row = i; value = v; left = i; right = right } ∷ []
close_nodes right ((i, v) ∷ (j, w) ∷ more) =
    record { row = i; value = v; left = i; right = j } ∷ close_nodes right ((j, w) ∷ more)

abbrev close_some : ℕ → Option (List (ℕ × ℕ)) → Option (List Node)
close_some right none = none
close_some right (some found) = some (close_nodes right found)

-- `children`
unfoldable pub children : List (List ℕ) → ℕ → ℕ → ℕ → Option (List Node)
unfolding starts
children seqs col left right = close_some right (starts seqs col none (right - left) left)

abbrev pub is_free : Option ℕ → Bool
is_free none = false
is_free (some c) = c == 0

-- The function that is called in the loop of `addSeqs`: are the slots of all children free?
unfoldable pub fits : ℕ → List Node → DoubleArray → DoubleArray × Bool
unfolding with_room
fits i [] da = (da, true)
fits i (n ∷ ns) da =
    let da₁ = with_room (i + n.value) da in
    let rest = fits i ns da₁ in
    if is_free (get_elem? da₁.check (i + n.value)) then rest else (da₁, false)

-- The loop of `addSeqs` over `i`.
unfoldable pub search : ℕ → ℕ → List Node → DoubleArray → Option (ℕ × DoubleArray)
unfolding fits
search zero i ns da = none
search (suc f) i ns da =
    let (da₁, ok) = fits i ns da in
    let rest = search f (i + 1) ns da₁ in if ok then some (i, da₁) else rest

-- The loop that writes `Check` for the children.
unfoldable pub mark : ℕ → ℕ → List Node → DoubleArray → DoubleArray
mark pos i [] da = da
mark pos i (n ∷ ns) da = mark pos i ns (record da { check = set da.check (i + n.value) (pos + 1) })

-- The last loop of `addSeqs`, with `rec` for the call.
unfoldable pub add_each :
    (ℕ → ℕ → ℕ → ℕ → DoubleArray → Option DoubleArray)
    → ℕ
    → ℕ
    → List Node
    → DoubleArray
    → Option DoubleArray
add_each rec i col [] da = some da
add_each rec i col (n ∷ ns) da = elim (n.value == length da.encoding) [
  | true ↦ add_each rec i col ns da
  | false ↦ elim (rec (i + n.value) (col + 1) n.left n.right da) [
    | none ↦ none
    | some da₁ ↦ add_each rec i col ns da₁
  ]
]

-- `addSeqs`. The fuel bounds the length of the sequences.
unfoldable pub add_seqs : ℕ → List (List ℕ) → ℕ → ℕ → ℕ → ℕ → DoubleArray → Option DoubleArray
unfolding children search mark with_room add_each
add_seqs zero seqs pos col left right da = none
add_seqs (suc f) seqs pos col left right da =
    let roomy = with_room pos da in
    elim (children seqs col left right) [
      | none ↦ none
      | some ns ↦ elim (search (length roomy.check + 2) 1 ns roomy) [
        | none ↦ none
        | some (i, da₁) ↦
            add_each (add_seqs f seqs) i col ns
              (mark pos i ns (record da₁ { base = set da₁.base pos i }))
      ]
    ]

-- The length of the longest row.
unfoldable pub longest : List (List ℕ) → ℕ
longest [] = 0
longest (row ∷ rows) = if leb (length row) (longest rows) then longest rows else length row

-- How many entries stay when the zeros at the end are cut off; all of them when there is nothing else.
unfoldable pub used : ℕ → List ℕ → ℕ
used zero check = length check
used (suc k) check = elim (get_elem? check k) [
  | none ↦ length check
  | some zero ↦ used k check
  | some (suc c) ↦ suc k
]

unfoldable pub trim : DoubleArray → DoubleArray
unfolding used
trim da =
    let n = used (length da.base) da.check in
    record da { base = take n da.base; check = take n da.check }

abbrev pub trim_some : Option DoubleArray → Option DoubleArray
trim_some none = none
trim_some (some da) = some (trim da)

-- `NewDoubleArray`
unfoldable pub new_double_array : List (List Text) → Option DoubleArray
unfolding encode_all sort_rows add_seqs longest trim
new_double_array [] = some (record { encoding = []; base = []; check = [] })
new_double_array (seq ∷ seqs) =
    let (enc, rows) = encode_all [] (seq ∷ seqs) in
    let encoded = sort_rows (terminate (length enc) rows) in
    trim_some (
      add_seqs (longest encoded) encoded 0 0 0 (length encoded)
        (record { encoding = enc; base = []; check = [] }))

-- `len(da.Check) <= j || da.Check[j] != i+1`, the other way round.
unfoldable pub owns : DoubleArray → ℕ → ℕ → Bool
owns da i j = elim (get_elem? da.check j) [ none ↦ false | some c ↦ c == i + 1 ]

-- The loop of `HasCommonPrefix`: the state it ends in.
unfoldable pub walk : DoubleArray → ℕ → List Text → Option ℕ
unfolding owns
walk da i [] = some i
walk da i (t ∷ ts) = elim (get t da.encoding) [
  | none ↦ some i
  | some code ↦ elim (get_elem? da.base i) [
    | none ↦ none
    | some b ↦ let rest = walk da (b + code) ts in if owns da i (b + code) then rest else some i
  ]
]

abbrev pub terminated : DoubleArray → Option ℕ → Option Bool
terminated da none = none
terminated da (some i) = elim (get_elem? da.base i) [
  | none ↦ none
  | some b ↦ some (owns da i (b + length da.encoding))
]

-- `HasCommonPrefix`
unfoldable pub has_common_prefix : DoubleArray → List Text → Option Bool
unfolding walk
has_common_prefix da seq = if is_empty da.base then some false else terminated da (walk da 0 seq)
