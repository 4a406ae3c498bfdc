-- ===== src/Runtime/Pattern/Spec.antt =====
-- What a path template means, with no op codes in it: which components its segments read, and what
-- its variables are bound to. This is the specification of internal/httprule/compile.go together
-- with runtime/pattern.go.
use grpc_gateway.Prelude.{
  ℕ, suc, ◌+◌, ◌<◌, ◌≡◌, false, List, [], ◌∷◌, ◌++◌, Text, join, slash, is_empty,
}
use grpc_gateway.HttpRule.Template.{
  Segment, wildcard, deep_wildcard, literal, variable, Segments, nil, cons, count,
}

-- The components that a segment other than a variable reads, and the text that stands for them.
pub data AtomReads : Segment → List Text → Text → Type 0 where
  any : (c : Text) → AtomReads wildcard (c ∷ []) c
  exact : (l : Text) → AtomReads (literal l) (l ∷ []) l
  many : (cs : List Text) → AtomReads deep_wildcard cs (join slash cs)

-- So for the segments of a variable, one text for each.
pub data Reads : Segments → List Text → List Text → Type 0 where
  none : Reads nil [] []
  some :
      {s : Segment} {ss : Segments} {cs ds es : List Text} {v : Text} {vs : List Text}
      → AtomReads s cs v
      → Reads ss ds vs
      → es ≡ cs ++ ds
      → Reads (cons s ss) es (v ∷ vs)

-- The components that a template reads, and its variables in order with their values.
pub data Matches : Segments → List Text → List (Text × Text) → Type 0 where
  done : Matches nil [] []
  atom :
      {s : Segment} {ss : Segments} {cs ds es : List Text} {v : Text} {caps : List (Text × Text)}
      → AtomReads s cs v
      → Matches ss ds caps
      → es ≡ cs ++ ds
      → Matches (cons s ss) es caps
  bound :
      {path : Text} {segs ss : Segments} {cs ds es vs : List Text} {caps : List (Text × Text)}
      → Reads segs cs vs
      → Matches ss ds caps
      → es ≡ cs ++ ds
      → Matches (cons (variable path segs) ss) es ((path, join slash vs) ∷ caps)

-- A segment that may stand in a variable: no variable, and no empty literal.
abbrev pub IsAtom : Segment → Type 0
IsAtom wildcard = Unit
IsAtom deep_wildcard = Unit
IsAtom (literal l) = is_empty l ≡ false
IsAtom (variable path segs) = ⊥

abbrev pub AllAtoms : Segments → Type 0
AllAtoms nil = Unit
AllAtoms (cons s ss) = IsAtom s × AllAtoms ss

-- Variables have names and segments, and are not nested; literals are not empty.
abbrev pub IsWellFormed : Segments → Type 0
IsWellFormed nil = Unit
IsWellFormed (cons wildcard ss) = IsWellFormed ss
IsWellFormed (cons deep_wildcard ss) = IsWellFormed ss
IsWellFormed (cons (literal l) ss) = (is_empty l ≡ false) × IsWellFormed ss
IsWellFormed (cons (variable path segs) ss) =
    (is_empty path ≡ false) × (0 < count segs) × AllAtoms segs × IsWellFormed ss

-- How many deep wildcards there are.
abbrev pub deeps : Segments → ℕ
deeps nil = 0
deeps (cons wildcard ss) = deeps ss
deeps (cons deep_wildcard ss) = suc (deeps ss)
deeps (cons (literal l) ss) = deeps ss
deeps (cons (variable path segs) ss) = deeps segs + deeps ss
