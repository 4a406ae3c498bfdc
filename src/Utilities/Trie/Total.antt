-- ===== src/Utilities/Trie/Total.antt =====
-- utilities/trie.go: a double array is always built, and can always be asked.
use grpc_gateway.Prelude.{
  ℕ, zero, suc, ◌+◌, ◌<◌, ◌≡◌, ◌≢◌, refl, sym, ap, ◌∙◌, Bool, true, false, List, [], ◌∷◌, Option,
  none, some, Text, get, length, get_elem?, take, ◌==◌, is_empty, length-set, get_elem?-lt,
  Bool-cases, Option-cases, ◌⊎◌, inl, inr, All, arith,
}
use grpc_gateway.Utilities.Trie.{
  DoubleArray, Node, add_each, add_seqs, with_room, encode_all, terminate, sort_rows, longest, trim,
  trim_some, used, new_double_array, owns, walk, terminated, has_common_prefix,
}
use grpc_gateway.Utilities.Trie.Space.{Even, Quiet-length, with_room-Grown, search-found, mark-Even}
use grpc_gateway.Utilities.Trie.Rows.{
  Closes, Reach, Single, terminate-Closes, All-sort_rows, length-sort_rows, longest-bound,
  children-Single, Reach-child, All-at,
}

-- There is a result, with arrays of one length.
abbrev pub Built : ℕ → Option DoubleArray → Type 0
Built m o = (da : DoubleArray) × (o ≡ some da) × Even m da

abbrev Keeps : ℕ → (DoubleArray → Option DoubleArray) → Type 0
Keeps m g = (da : DoubleArray) → Even m da → Built m (g da)

add_each-Built :
    (m : ℕ) (rec : ℕ → ℕ → ℕ → ℕ → DoubleArray → Option DoubleArray) (i col : ℕ) (ns : List Node)
    → All (λ n. n.value ≢ m → Keeps m (rec (i + n.value) (col + 1) n.left n.right)) ns
    → Keeps m (add_each rec i col ns)
unfolding add_each
add_each-Built m rec i col [] ks da e = (da, refl, e)
add_each-Built m rec i col (n ∷ ns) (k, ks) da e =
    elim (Bool-cases (n.value == length da.encoding)) [
      | inl b ↦ rw (add_each, b) (add_each-Built m rec i col ns ks da e)
      | inr b ↦
          let (da₁, g, e₁) = k (λ s. not_equal b (s ∙ sym e.1)) da e in
          rw (add_each, b, g) ((add_each-Built m rec i col ns ks da₁ e₁))
    ]
  where
    not_equal : {a c : ℕ} → (a == c) ≡ false → a ≢ c
    not_equal b s = ground arith

children-Keep :
    (m : ℕ) (seqs : List (List ℕ)) (f i col left right : ℕ) (ns : List Node)
    → All (Closes m) seqs
    → Reach seqs (suc f) col left right
    → ((pos l r : ℕ)
        → l < r
        → Reach seqs f (col + 1) l r
        → Keeps m (add_seqs f seqs pos (col + 1) l r))
    → All (Single seqs col left right) ns
    → All (λ n. n.value ≢ m → Keeps m (add_seqs f seqs (i + n.value) (col + 1) n.left n.right)) ns
children-Keep m seqs f i col left right [] cl h rec ss = tt
children-Keep m seqs f i col left right (n ∷ ns) cl h rec (s, ss) = (
  (λ ne.
      let (l, r) = Reach-child seqs f m col left right n cl h s ne in
      rec (i + n.value) n.left n.right l r),
  children-Keep m seqs f i col left right ns cl h rec ss,
)

-- The fuel is enough when no row is longer.
add_seqs-Built :
    (m : ℕ) (seqs : List (List ℕ)) (f pos col left right : ℕ)
    → All (Closes m) seqs
    → left < right
    → Reach seqs f col left right
    → Keeps m (add_seqs f seqs pos col left right)
unfolding add_seqs
add_seqs-Built m seqs zero pos col left right cl l h da e =
    let (row, g, k, b) = h left (omega arith) l in absurd (omega arith)
add_seqs-Built m seqs (suc f) pos col left right cl l h da e =
    let roomy = with_room pos da in
    let (e₀, _, _) =
      with_room-Grown m (length da.check) pos da e
        (Quiet-length (length da.check) da.check (omega arith)) in
    let (ns, c, ss) = children-Single seqs (suc f) col left right l h in
    let ((i, da₁), s, (e₁, e₁')) =
      search-found m (length roomy.check + 1) (length roomy.check + 2) 1 ns roomy e₀
        (Quiet-length (length roomy.check + 1) roomy.check (omega arith)) (omega arith)
        (omega arith) in
    rw (add_seqs, c, s)
      (add_each-Built m (add_seqs f seqs) i col ns
        (children-Keep m seqs f i col left right ns cl h
          (λ p k r. add_seqs-Built m seqs f p (col + 1) k r cl) ss)
        _ (mark-Even m pos i ns _ (length-set da₁.base pos i ∙ e₁, e₁')))

length-take_congr {ℓ κ} :
    {A : Type ℓ} {B : Type κ} (n : ℕ) (xs : List A) (ys : List B)
    → length xs ≡ length ys
    → length (take n xs) ≡ length (take n ys)
length-take_congr zero xs ys e = refl
length-take_congr (suc n) [] [] e = refl
length-take_congr (suc n) [] (y ∷ ys) e = absurd (omega arith)
length-take_congr (suc n) (x ∷ xs) [] e = absurd (omega arith)
length-take_congr (suc n) (x ∷ xs) (y ∷ ys) e = ap suc (length-take_congr n xs ys (omega arith))

trim-Built : (m : ℕ) (o : Option DoubleArray) → Built m o → Built m (trim_some o)
unfolding trim
trim-Built m o (da, e, (l, k)) = (
  trim da,
  ap trim_some e,
  (length-take_congr (used (length da.base) da.check) da.base da.check l, k),
)

-- Every row that a list of rows has is as `All` says.
rows-Reach :
    (m : ℕ) (seqs : List (List ℕ))
    → All (Closes m) seqs
    → Reach seqs (longest seqs) 0 0 (length seqs)
rows-Reach m seqs cl r l h =
    let (row, e) = get_elem?-lt seqs r h in
    (
      row,
      e,
      (All-at seqs r row _ cl e).0,
      omega (arith, All-at seqs r row _ (longest-bound seqs) e),
    )

-- `NewDoubleArray` returns, and its two arrays have the same length.
pub new_double_array-Built : (seqs : List (List Text)) → (m : ℕ) × Built m (new_double_array seqs)
unfolding new_double_array
new_double_array-Built [] =
    (0, (record { encoding = []; base = []; check = [] }, refl, (refl, refl)))
new_double_array-Built (seq ∷ seqs) =
    let coded = encode_all [] (seq ∷ seqs) in
    let m = length coded.0 in
    let rows = sort_rows (terminate m coded.1) in
    let cl = All-sort_rows (Closes m) (terminate m coded.1) (terminate-Closes m coded.1) in
    (
      m,
      trim-Built m _ (
          add_seqs-Built m rows (longest rows) 0 0 0 (length rows) cl
            (rw (length-sort_rows (terminate m coded.1)) (omega arith)) (rows-Reach m rows cl)
            (record { encoding = coded.0; base = []; check = [] }) (refl, refl)),
    )

abbrev Safe : DoubleArray → ℕ → List Text → Type 0
Safe da i seq = (j : ℕ) × (walk da i seq ≡ some j) × (j < length da.base)

get_elem?-some {ℓ} :
    {A : Type ℓ} (xs : List A) (i : ℕ) (a : A) → get_elem? xs i ≡ some a → i < length xs
get_elem?-some [] i a e = cc
get_elem?-some (x ∷ xs) zero a e = omega arith
get_elem?-some (x ∷ xs) (suc i) a e = omega (arith, get_elem?-some xs i a e)

owns-lt : (da : DoubleArray) (i j : ℕ) → owns da i j ≡ true → j < length da.check
unfolding owns
owns-lt da i j h = elim (Option-cases (get_elem? da.check j)) [
  | inl e ↦ absurd (clash (sym (owned none e) ∙ h))
  | inr (c, e) ↦ get_elem?-some da.check j c e
]
  where
    owned :
        (o : Option ℕ)
        → get_elem? da.check j ≡ o
        → owns da i j ≡ elim o [ none ↦ false | some c ↦ c == i + 1 ]
    owned o e = ap {B = Bool} (λ o. elim o [ none ↦ false | some c ↦ c == i + 1 ]) e

    clash : ◌≡◌ {A = Bool} false true → ⊥
    clash e = cc

walk-Safe :
    (m : ℕ) (da : DoubleArray) (i : ℕ) (seq : List Text)
    → Even m da
    → i < length da.base
    → Safe da i seq
unfolding walk
walk-Safe m da i [] e l = (i, refl, l)
walk-Safe m da i (t ∷ ts) e l = elim (Option-cases (get t da.encoding)) [
  | inl n ↦ rw (walk, n) (i, refl, l)
  | inr (code, c) ↦
      let (b, g) = get_elem?-lt da.base i l in
      elim (Bool-cases (owns da i (b + code))) [
        | inr h ↦ rw (walk, c, g, h) (i, refl, l)
        | inl h ↦
            rw (walk, c, g, h)
              (walk-Safe m da (b + code) ts e (omega (arith, e.0, owns-lt da i (b + code) h)))
      ]
]

-- `HasCommonPrefix` never reads out of range in arrays of one length.
has_common_prefix-returns :
    (m : ℕ) (da : DoubleArray) (seq : List Text)
    → Even m da
    → (b : Bool) × (has_common_prefix da seq ≡ some b)
unfolding has_common_prefix
has_common_prefix-returns m da seq e = elim (Bool-cases (is_empty da.base)) [
  | inl h ↦ rw (has_common_prefix, h) (false, refl)
  | inr h ↦
      let (i, w, l) = walk-Safe m da 0 seq e (nonempty da.base h) in
      let (b, g) = get_elem?-lt da.base i l in
      rw (has_common_prefix, h, w, terminated, g) (owns da i (b + length da.encoding), refl)
]
  where
    nonempty : (xs : List ℕ) → is_empty xs ≡ false → 0 < length xs
    nonempty [] h = cc
    nonempty (x ∷ xs) h = omega arith

-- What `HasCommonPrefix` answers when there is a double array.
unfoldable pub asked : List Text → Option DoubleArray → Option Bool
unfolding has_common_prefix
asked seq none = none
asked seq (some da) = has_common_prefix da seq

-- For every set of sequences `NewDoubleArray` returns: its search for free slots ends, its recursion
-- ends, and it reads no row out of range. On what it returns, `HasCommonPrefix` answers true or false
-- for every sequence, and reads neither array out of range.
pub new_double_array-has_common_prefix :
    (seqs : List (List Text)) (seq : List Text)
    → (b : Bool) × (asked seq (new_double_array seqs) ≡ some b)
unfolding asked
new_double_array-has_common_prefix seqs seq =
    let (m, (da, e, even)) = new_double_array-Built seqs in
    let (b, h) = has_common_prefix-returns m da seq even in (b, ap (asked seq) e ∙ h)

-- What has been built answers.
pub built-answers :
    (seqs : List (List Text)) (da : DoubleArray) (seq : List Text)
    → new_double_array seqs ≡ some da
    → (has_common_prefix da seq ≡ some true) ⊎ (has_common_prefix da seq ≡ some false)
unfolding asked
built-answers seqs da seq e =
    let (b, h) = new_double_array-has_common_prefix seqs seq in which b (sym (ap (asked seq) e) ∙ h)
  where
    which : (b : Bool) {o : Option Bool} → o ≡ some b → (o ≡ some true) ⊎ (o ≡ some false)
    which true h = inl h
    which false h = inr h
