-- ===== src/Descriptor/Registry/Aliases.antt =====
-- internal/descriptor/registry.go: the aliases of Go packages. `loadFile` always finds one, and with it
-- a package name stands for one path.
use grpc_gateway.Prelude.{
  ℕ, zero, suc, ◌<◌, ◌≡◌, refl, ap, Bool, true, false, List, [], ◌∷◌, ◌++◌, Option, none, some,
  Text, codes, length, All, text_eq, text_eq→eq, get, put, itoa, itoa_injective, if◌then◌else◌,
  Bool-cases, Option-cases, inl, inr, arith,
}
use grpc_gateway.Descriptor.Protos.{ProtogenFile}
use grpc_gateway.Descriptor.Types.{GoPackage}
use grpc_gateway.Descriptor.Registry.{
  Registry, contains_text, reserve_go_package_alias, numbered, alias_loop, reserve_package,
  alias_or_loop, title, register_file, load_file, load_files,
}
use grpc_gateway.Descriptor.Registry.Pigeons.{AreDistinct, pigeons}

keys : List (Text × Text) → List Text
keys [] = []
keys ((k, v) ∷ m) = k ∷ keys m

length-keys : (m : List (Text × Text)) → length (keys m) ≡ length m
unfolding keys
length-keys [] = refl
length-keys ((k, v) ∷ m) = ap suc (length-keys m)

contains_text-keys :
    (k v : Text) (m : List (Text × Text)) → get k m ≡ some v → contains_text k (keys m) ≡ true
unfolding keys contains_text get
contains_text-keys k v [] e = cc
contains_text-keys k v ((j, w) ∷ m) e = elim (Bool-cases (text_eq j k)) [
  | inl h ↦ rw h refl
  | inr h ↦ rw h (contains_text-keys k v m (ground arith))
]

append_cancel : (a b c : Text) → a ++ b ≡ a ++ c → b ≡ c
append_cancel [] b c e = e
append_cancel (x ∷ a) b c e = append_cancel a b c (cc)

numbered_injective : (name : Text) (i j : ℕ) → numbered name i ≡ numbered name j → i ≡ j
numbered_injective name i j e =
    itoa_injective i j (tail (append_cancel name (b'_' ∷ itoa i) (b'_' ∷ itoa j) e))
  where
    tail : {a b : Text} → (b'_' ∷ a) ≡ (b'_' ∷ b) → a ≡ b
    tail e = cc

numbered-distinct :
    (name : Text) (i j : ℕ) → i < j → text_eq (numbered name i) (numbered name j) ≡ false
numbered-distinct name i j h = elim (Bool-cases (text_eq (numbered name i) (numbered name j))) [
  | inr e ↦ e
  | inl e ↦ absurd (
      omega (arith, numbered_injective name i j (text_eq→eq (numbered name i) (numbered name j) e)))
]

module _ (name : Text) where
  -- The aliases that `f` rounds try, from number `i`.
  candidates : ℕ → ℕ → List Text
  candidates zero i = []
  candidates (suc f) i = numbered name i ∷ candidates f (suc i)

  length-candidates : (f i : ℕ) → length (candidates f i) ≡ f
  unfolding candidates
  length-candidates zero i = refl
  length-candidates (suc f) i = ap suc (length-candidates f (suc i))

  candidates-later :
      (f i k : ℕ) → k < i → All (λ d. text_eq (numbered name k) d ≡ false) (candidates f i)
  unfolding candidates
  candidates-later zero i k h = tt
  candidates-later (suc f) i k h =
      (numbered-distinct name k i h, candidates-later f (suc i) k (omega arith))

  candidates-AreDistinct : (f i : ℕ) → AreDistinct (candidates f i)
  unfolding candidates
  candidates-AreDistinct zero i = tt
  candidates-AreDistinct (suc f) i =
      (candidates-later f (suc i) i (omega arith), candidates-AreDistinct f (suc i))

  module _ (path : Text) (aliases : List (Text × Text)) where
    reserve-taken :
        (alias : Text)
        → reserve_go_package_alias alias path aliases ≡ none
        → contains_text alias (keys aliases) ≡ true
    unfolding reserve_go_package_alias
    reserve-taken alias e = elim (Option-cases (get alias aliases)) [
      | inl g ↦
          (let free : reserve_go_package_alias alias path aliases ≡ some (put alias path aliases) =
              rw (g, reserve_go_package_alias) refl in
            cc)
      | inr (v, g) ↦ contains_text-keys alias v aliases g
    ]

    alias_loop-taken :
        (f i : ℕ)
        → alias_loop f i name path aliases ≡ none
        → All (λ d. contains_text d (keys aliases) ≡ true) (candidates f i)
    unfolding alias_loop candidates
    alias_loop-taken zero i e = tt
    alias_loop-taken (suc f) i e =
        round (reserve_go_package_alias (numbered name i) path aliases)
          (reserve-taken (numbered name i)) (alias_loop-taken f (suc i)) e
      where
        round :
            (o : Option (List (Text × Text)))
            → (o ≡ none → contains_text (numbered name i) (keys aliases) ≡ true)
            → (alias_loop f (suc i) name path aliases ≡ none
                → All (λ d. contains_text d (keys aliases) ≡ true) (candidates f (suc i)))
            → elim o [
              | some aliases' ↦ some (numbered name i, aliases')
              | none ↦ alias_loop f (suc i) name path aliases
            ]
              ≡ none
            → All (λ d. contains_text d (keys aliases) ≡ true) (candidates (suc f) i)
        round none taken later e = (taken refl, later e)
        round (some a) taken later e = cc

    -- The loop of `loadFile` ends.
    alias_loop-ends :
        (i : ℕ)
        → (found : Text × List (Text × Text)) × (alias_loop
              (suc (length aliases))
              i
              name
              path
              aliases
            ≡ some found)
    alias_loop-ends i =
        elim (Option-cases (alias_loop (suc (length aliases)) i name path aliases)) [
          | inr found ↦ found
          | inl e ↦ absurd (
              omega (
                arith,
                length-candidates (suc (length aliases)) i,
                length-keys aliases,
                pigeons (candidates (suc (length aliases)) i) (keys aliases)
                    (candidates-AreDistinct (suc (length aliases)) i)
                    (alias_loop-taken (suc (length aliases)) i e),
              ))
        ]

alias_or_loop-ends :
    (o : Option (List (Text × Text))) (p : GoPackage) (aliases : List (Text × Text))
    → (found : GoPackage × List (Text × Text)) × (alias_or_loop o p aliases ≡ some found)
alias_or_loop-ends (some a) p aliases = (_, refl)
alias_or_loop-ends none p aliases =
    let (found, ended) = alias_loop-ends p.name p.path aliases 0 in
    ((record p { alias = found.0 }, found.1), rw (ended, alias_or_loop) refl)

-- The package of a file before its alias is chosen.
abbrev first_package : Bool → ProtogenFile → GoPackage
first_package standalone file = record {
  path = file.go_import_path;
  name = file.go_package_name;
  alias = if standalone then codes "ext" ++ title file.go_package_name else [];
}

load_file-ends :
    (path : Text) (file : ProtogenFile) (r : Registry)
    → (r' : Registry) × (load_file path file r ≡ some r')
unfolding load_file reserve_package
load_file-ends path file r =
    let (found, e) =
      alias_or_loop-ends
        (reserve_go_package_alias file.go_package_name file.go_import_path r.pkg_aliases)
        (first_package r.standalone file) r.pkg_aliases in
    (register_file path file r found, rw (e, load_file) refl)

-- Loading files into a registry always ends: for every package whose name is taken, the loop over the
-- numbered aliases finds one that is free, or is of the same path, in as many rounds as aliases are
-- taken and one more.
pub load_files-ends :
    (files : List (Text × ProtogenFile)) (r : Registry)
    → (r' : Registry) × (load_files files r ≡ some r')
unfolding load_files
load_files-ends [] r = (r, refl)
load_files-ends ((path, file) ∷ files) r =
    let (r₁, e) = load_file-ends path file r in
    let (r', e') = load_files-ends files r₁ in (r', rw (e, load_files) e')
