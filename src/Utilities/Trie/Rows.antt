-- ===== src/Utilities/Trie/Rows.antt =====
-- utilities/trie.go: the encoded rows end with the terminator, and the children of a node lie in them.
use grpc_gateway.Prelude.{
  ℕ, zero, suc, ◌+◌, ◌-◌, ◌≤◌, ◌<◌, ◌≡◌, ◌≢◌, refl, sym, ap, ◌∙◌, false, List, [], ◌∷◌, ◌++◌, none,
  some, length, get_elem?, leb, leb→le, Bool-cases, inl, inr, All, arith,
}
use grpc_gateway.Utilities.Trie.{
  Node, less, insert_row, sort_rows, terminate, longest, cell, starts, close_nodes, children,
}
use grpc_gateway.Prelude.{get_elem?-lt}
use grpc_gateway.Prelude.{subst}

-- The terminator stands at the end of the row, and only there is no further column.
abbrev pub Closes : ℕ → List ℕ → Type 0
Closes term row =
    (0 < length row) × ((c v : ℕ) → get_elem? row c ≡ some v → v ≢ term → c + 1 < length row)

Closes-append : (term : ℕ) (row : List ℕ) → Closes term (row ++ term ∷ [])
Closes-append term [] = (omega arith, last)
  where
    last : (c v : ℕ) → get_elem? (term ∷ []) c ≡ some v → v ≢ term → c + 1 < 1
    last zero v e ne = absurd (ne (cc))
    last (suc c) v e ne = cc
Closes-append term (x ∷ row) = (omega arith, inner (Closes-append term row))
  where
    inner :
        Closes term (row ++ term ∷ [])
        → (c v : ℕ) → get_elem? (x ∷ (row ++ term ∷ [])) c ≡ some v
        → v ≢ term
        → c + 1 < suc (length (row ++ term ∷ []))
    inner (p, q) zero v e ne = omega arith
    inner (p, q) (suc c) v e ne = omega (arith, q c v e ne)

pub terminate-Closes : (term : ℕ) (rows : List (List ℕ)) → All (Closes term) (terminate term rows)
terminate-Closes term [] = tt
terminate-Closes term (row ∷ rows) = (Closes-append term row, terminate-Closes term rows)

All-insert_row {ℓ} :
    (P : List ℕ → Type ℓ) (r : List ℕ) (rows : List (List ℕ))
    → P r
    → All P rows
    → All P (insert_row r rows)
unfolding insert_row
All-insert_row P r [] p ps = (p, tt)
All-insert_row P r (s ∷ rows) p (q, qs) = elim (Bool-cases (less s r)) [
  | inl e ↦ rw e (q, All-insert_row P r rows p qs)
  | inr e ↦ rw e (p, (q, qs))
]

pub All-sort_rows {ℓ} :
    (P : List ℕ → Type ℓ) (rows : List (List ℕ)) → All P rows → All P (sort_rows rows)
unfolding sort_rows
All-sort_rows P [] ps = tt
All-sort_rows P (r ∷ rows) (p, ps) = All-insert_row P r _ p (All-sort_rows P rows ps)

length-insert_row :
    (r : List ℕ) (rows : List (List ℕ)) → length (insert_row r rows) ≡ suc (length rows)
unfolding insert_row
length-insert_row r [] = refl
length-insert_row r (s ∷ rows) = elim (Bool-cases (less s r)) [
  | inl e ↦ rw e (ap suc (length-insert_row r rows))
  | inr e ↦ rw e refl
]

pub length-sort_rows : (rows : List (List ℕ)) → length (sort_rows rows) ≡ length rows
unfolding sort_rows
length-sort_rows [] = refl
length-sort_rows (r ∷ rows) = length-insert_row r (sort_rows rows) ∙ ap suc (length-sort_rows rows)

All-weaken :
    (rows : List (List ℕ)) {m n : ℕ}
    → m ≤ n
    → All (λ row. length row ≤ m) rows
    → All (λ row. length row ≤ n) rows
All-weaken [] h t = tt
All-weaken (row ∷ rows) h (p, ps) = (omega arith, All-weaken rows h ps)

longest-step :
    (row : List ℕ) (rows : List (List ℕ))
    → (length row ≤ longest (row ∷ rows)) × (longest rows ≤ longest (row ∷ rows))
unfolding longest
longest-step row rows = elim (Bool-cases (leb (length row) (longest rows))) [
  | inl e ↦ rw e (leb→le _ _ e, omega arith)
  | inr e ↦ rw e (omega arith, not_leb→le _ _ e)
]
  where
    not_leb→le : (a b : ℕ) → leb a b ≡ false → b ≤ a
    not_leb→le a b e = ground arith

pub longest-bound : (rows : List (List ℕ)) → All (λ row. length row ≤ longest rows) rows
longest-bound [] = tt
longest-bound (row ∷ rows) =
    ((longest-step row rows).0, All-weaken rows (longest-step row rows).1 (longest-bound rows))

-- Row `r` is there, goes on in column `col`, and has at most `f` columns from there on.
abbrev pub Goes : List (List ℕ) → ℕ → ℕ → ℕ → Type 0
Goes seqs f col r =
    (row : List ℕ) × (get_elem? seqs r ≡ some row) × (col < length row) × (length row ≤ f + col)

-- `Goes` for the rows from `left` and before `right`.
abbrev pub Reach : List (List ℕ) → ℕ → ℕ → ℕ → ℕ → Type 0
Reach seqs f col left right = (r : ℕ) → left ≤ r → r < right → Goes seqs f col r

-- A child has one row, which has the child's value in its column.
abbrev pub Single : List (List ℕ) → ℕ → ℕ → ℕ → Node → Type 0
Single seqs col left right n =
    (left ≤ n.left)
    × (n.left < right)
    × (n.right ≡ n.left + 1)
    × (cell seqs n.left col ≡ some n.value)

-- What `starts` finds in `k` rows from row `i`: one start for each.
unfoldable Found : List (List ℕ) → ℕ → ℕ → ℕ → List (ℕ × ℕ) → Type 0
Found seqs col zero i [] = Unit
Found seqs col zero i (_ ∷ _) = ⊥
Found seqs col (suc k) i [] = ⊥
Found seqs col (suc k) i ((j, v) ∷ more) =
    (j ≡ i) × (cell seqs i col ≡ some v) × Found seqs col k (i + 1) more

close_nodes-Single :
    (seqs : List (List ℕ)) (col left right k i : ℕ) (found : List (ℕ × ℕ))
    → left ≤ i
    → i + k ≡ right
    → Found seqs col k i found
    → All (Single seqs col left right) (close_nodes right found)
unfolding Found
close_nodes-Single seqs col left right zero i [] l e f = tt
close_nodes-Single seqs col left right zero i (c ∷ found) l e f = absurd f
close_nodes-Single seqs col left right (suc k) i [] l e f = absurd f
close_nodes-Single seqs col left right (suc zero) i ((j, v) ∷ []) l e (h, c, f) =
    ((omega arith, omega arith, omega arith, ap (λ r. cell seqs r col) h ∙ c), tt)
close_nodes-Single seqs col left right (suc (suc k)) i ((j, v) ∷ []) l e (h, c, f) = absurd f
close_nodes-Single seqs col left right (suc zero) i ((j, v) ∷ d ∷ found) l e (h, c, f) = absurd f
close_nodes-Single seqs col left right (suc (suc k)) i ((j, v) ∷ (j', w) ∷ found) l e (h, c, f) = (
  (omega arith, omega arith, omega (arith, f.0), ap (λ r. cell seqs r col) h ∙ c),
  close_nodes-Single seqs col left right (suc k) (i + 1) ((j', w) ∷ found) (omega arith)
      (omega arith) f,
)

cell-row :
    (seqs : List (List ℕ)) (row : List ℕ) (r col : ℕ)
    → get_elem? seqs r ≡ some row
    → cell seqs r col ≡ get_elem? row col
unfolding cell
cell-row seqs row r col e = rw (e, cell) refl

Goes-cell :
    (seqs : List (List ℕ)) (f col r : ℕ) → Goes seqs f col r → (v : ℕ) × (cell seqs r col ≡ some v)
Goes-cell seqs f col r (row, e, l, b) =
    let (v, g) = get_elem?-lt row col l in (v, cell-row seqs row r col e ∙ g)

starts-suc :
    (seqs : List (List ℕ)) (col k i v : ℕ) (more : List (ℕ × ℕ))
    → cell seqs i col ≡ some v
    → starts seqs col none k (i + 1) ≡ some more
    → starts seqs col none (suc k) i ≡ some ((i, v) ∷ more)
unfolding starts
starts-suc seqs col k i v more c e = rw (starts, c, e) refl

starts-Found :
    (seqs : List (List ℕ)) (f col k i : ℕ)
    → Reach seqs f col i (i + k)
    → (found : List (ℕ × ℕ)) × (starts seqs col none k i ≡ some found) × Found seqs col k i found
unfolding starts Found
starts-Found seqs f col zero i h = ([], refl, tt)
starts-Found seqs f col (suc k) i h =
    let (v, c) = Goes-cell seqs f col i (h i (omega arith) (omega arith)) in
    let (more, e, p) =
      starts-Found seqs f col k (i + 1) (λ r l m. h r (omega arith) (omega arith)) in
    ((i, v) ∷ more, starts-suc seqs col k i v more c e, (refl, c, p))

-- Each row of a node is a child of its own.
pub children-Single :
    (seqs : List (List ℕ)) (f col left right : ℕ)
    → left < right
    → Reach seqs f col left right
    → (ns : List Node) × (children seqs col left right ≡ some ns)
      × All (Single seqs col left right) ns
unfolding children
children-Single seqs f col left right l h =
    let (found, e, p) =
      starts-Found seqs f col (right - left) left (λ r m n. h r m (omega arith)) in
    (
      close_nodes right found,
      rw e refl,
      close_nodes-Single seqs col left right (right - left) left found (omega arith) (omega arith)
          p,
    )

pub All-at :
    (seqs : List (List ℕ)) (r : ℕ) (row : List ℕ) (P : List ℕ → Type 0)
    → All P seqs
    → get_elem? seqs r ≡ some row
    → P row
All-at [] r row P ps e = absurd (cc)
All-at (s ∷ seqs) zero row P (p, ps) e = subst P (cc) p
All-at (s ∷ seqs) (suc r) row P (p, ps) e = All-at seqs r row P ps e

-- The row of a child that is not the terminator's goes on.
pub Reach-child :
    (seqs : List (List ℕ)) (f term col left right : ℕ) (n : Node)
    → All (Closes term) seqs
    → Reach seqs (suc f) col left right
    → Single seqs col left right n
    → n.value ≢ term
    → (n.left < n.right) × Reach seqs f (col + 1) n.left n.right
Reach-child seqs f term col left right n cl h (l, m, e, c) ne =
    let (row, g, k, b) = h n.left l m in
    let inner =
      (All-at seqs n.left row _ cl g).1 col n.value (sym (cell-row seqs row n.left col g) ∙ c) ne in
    (
      omega arith,
      λ r p q. subst (Goes seqs f (col + 1)) (same r p q) (row, g, omega arith, omega arith),
    )
  where
    same : (r : ℕ) → n.left ≤ r → r < n.right → n.left ≡ r
    same r p q = omega (arith, e)
