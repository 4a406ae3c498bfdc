-- ===== src/Utilities/Trie/Space.antt =====
-- utilities/trie.go: the room in the two arrays, and the search for free slots.
use grpc_gateway.Prelude.{
  ℕ, zero, suc, ◌+◌, ◌≤◌, ◌<◌, ◌≡◌, refl, sym, ap, ◌∙◌, Bool, true, false, List, [], ◌∷◌, ◌++◌,
  some, length, get_elem?, replicate, leb, length-append, length-replicate, length-set, Bool-cases,
  ◌⊎◌, inl, inr, arith,
}
use grpc_gateway.Utilities.Trie.{
  DoubleArray, Node, ensure_size, with_room, fits, search, mark, is_free,
}

-- The two arrays have the same length, and the names are the `n` ones that were there.
abbrev pub Even : ℕ → DoubleArray → Type 0
Even n da = (length da.base ≡ length da.check) × (length da.encoding ≡ n)

-- No slot from `n` on is taken.
unfoldable pub Quiet : ℕ → List ℕ → Type 0
Quiet n [] = Unit
Quiet zero (c ∷ cs) = (c ≡ 0) × Quiet zero cs
Quiet (suc n) (c ∷ cs) = Quiet n cs

Quiet-zeros : (n k : ℕ) → Quiet n (replicate k 0)
unfolding Quiet
Quiet-zeros n zero = tt
Quiet-zeros zero (suc k) = (refl, Quiet-zeros zero k)
Quiet-zeros (suc n) (suc k) = Quiet-zeros n k

Quiet-append : (n k : ℕ) (cs : List ℕ) → Quiet n cs → Quiet n (cs ++ replicate k 0)
unfolding Quiet
Quiet-append n k [] h = Quiet-zeros n k
Quiet-append zero k (c ∷ cs) (e, h) = (e, Quiet-append zero k cs h)
Quiet-append (suc n) k (c ∷ cs) h = Quiet-append n k cs h

-- Nothing is taken behind the end.
pub Quiet-length : (n : ℕ) (cs : List ℕ) → length cs ≤ n → Quiet n cs
unfolding Quiet
Quiet-length n [] h = tt
Quiet-length zero (c ∷ cs) h = absurd (omega arith)
Quiet-length (suc n) (c ∷ cs) h = Quiet-length n cs (omega arith)

Quiet-is_free :
    (n i : ℕ) (cs : List ℕ) → Quiet n cs → n ≤ i → i < length cs → is_free (get_elem? cs i) ≡ true
unfolding Quiet
Quiet-is_free n i [] h l k = absurd (omega arith)
Quiet-is_free zero zero (c ∷ cs) (e, h) l k = rw e refl
Quiet-is_free zero (suc i) (c ∷ cs) (e, h) l k =
    Quiet-is_free zero i cs h (omega arith) (omega arith)
Quiet-is_free (suc n) zero (c ∷ cs) h l k = absurd (omega arith)
Quiet-is_free (suc n) (suc i) (c ∷ cs) h l k = Quiet-is_free n i cs h (omega arith) (omega arith)

length-grow :
    (xs : List ℕ) → length (xs ++ replicate (length xs + 1) 0) ≡ length xs + (length xs + 1)
length-grow xs =
    length-append xs (replicate (length xs + 1) 0)
    ∙ ap (λ k. length xs + k) (length-replicate {A = ℕ} (length xs + 1) 0)

not_both : {b : Bool} → b ≡ false → b ≡ true → ⊥
not_both e f = cc

≤-cases : (a b : ℕ) → (a ≤ b) ⊎ (b < a)
≤-cases a b = elim (Bool-cases (leb a b)) [
  | inl e ↦ inl (ground arith)
  | inr e ↦ inr (ground arith)
]

-- Growing keeps both, and after enough rounds `i` is in reach.
abbrev pub Grown : ℕ → ℕ → ℕ → DoubleArray → Type 0
Grown m n i da = Even m da × Quiet n da.check × (i < length da.check)

ensure_size-Grown :
    (m n f i : ℕ) (da : DoubleArray)
    → Even m da
    → Quiet n da.check
    → i < f + length da.check
    → Grown m n i (ensure_size f i da)
unfolding ensure_size
ensure_size-Grown m n zero i da e q h = (e, q, omega arith)
ensure_size-Grown m n (suc f) i da (e, e') q h = elim (Bool-cases (leb (length da.base) i)) [
  | inl b ↦ rw b (
      ensure_size-Grown m n f i _ (rw (length-grow da.base, length-grow da.check) (omega arith), e')
        (Quiet-append n (length da.check + 1) da.check q) (rw (length-grow da.check) (omega arith)))
  | inr b ↦ rw b ((e, e'), q, ground arith)
]

pub with_room-Grown :
    (m n i : ℕ) (da : DoubleArray) → Even m da → Quiet n da.check → Grown m n i (with_room i da)
unfolding with_room
with_room-Grown m n i da e q = ensure_size-Grown m n (suc i) i da e q (omega arith)

-- From `n` on, the slots of all children are free.
pub fits-Quiet :
    (m n i : ℕ) (ns : List Node) (da : DoubleArray)
    → Even m da
    → Quiet n da.check
    → Even m (fits i ns da).0 × Quiet n (fits i ns da).0.check × (n ≤ i → (fits i ns da).1 ≡ true)
unfolding fits
fits-Quiet m n i [] da e q = (e, q, λ _. refl)
fits-Quiet m n i (c ∷ ns) da e q =
    let (e₁, q₁, l) = with_room-Grown m n (i + c.value) da e q in
    let rest = fits-Quiet m n i ns (with_room (i + c.value) da) e₁ q₁ in
    elim (Bool-cases (is_free (get_elem? (with_room (i + c.value) da).check (i + c.value)))) [
      | inl b ↦ rw b rest
      | inr b ↦
          rw b
            (e₁, q₁, λ h. absurd (not_both b (Quiet-is_free n (i + c.value) _ q₁ (omega arith) l)))
    ]

-- The search ends at the first slot that is free by itself, `n`, at the latest.
pub search-found :
    (m n f i : ℕ) (ns : List Node) (da : DoubleArray)
    → Even m da
    → Quiet n da.check
    → i ≤ n
    → n < f + i
    → (found : ℕ × DoubleArray) × (search f i ns da ≡ some found) × Even m found.1
unfolding search
search-found m n zero i ns da e q l h = absurd (omega arith)
search-found m n (suc f) i ns da e q l h =
    let (e₁, q₁, free) = fits-Quiet m n i ns da e q in
    elim (Bool-cases (fits i ns da).1) [
      | inl b ↦ rw b ((i, (fits i ns da).0), refl, e₁)
      | inr b ↦
          rw b (search-found m n f (i + 1) ns (fits i ns da).0 e₁ q₁ (early b free) (omega arith))
    ]
  where
    early : (fits i ns da).1 ≡ false → (n ≤ i → (fits i ns da).1 ≡ true) → i + 1 ≤ n
    early b free = elim (≤-cases n i) [ inl k ↦ absurd (not_both b (free k)) | inr k ↦ omega arith ]

-- Marking keeps the lengths.
pub mark-Even :
    (m pos i : ℕ) (ns : List Node) (da : DoubleArray) → Even m da → Even m (mark pos i ns da)
unfolding mark
mark-Even m pos i [] da e = e
mark-Even m pos i (c ∷ ns) da (e, e') =
    mark-Even m pos i ns _ (e ∙ sym (length-set da.check (i + c.value) (pos + 1)), e')
