-- ===== src/HttpRule/Template.antt =====
-- internal/httprule/types.go: path templates as data, and their text.
use grpc_gateway.Prelude.{
  ℕ, suc, List, [], ◌∷◌, ◌++◌, Text, codes, join, slash, is_empty, if◌then◌else◌,
}

-- The interface `segment` with its four implementations. The list of segments of a variable
-- stands in the block, since a data type may not hold a list of itself.
mutual
  pub data Segment : Type 0 where
    wildcard : Segment
    deep_wildcard : Segment
    literal : Text → Segment
    variable : Text → Segments → Segment

  pub data Segments : Type 0 where
    nil : Segments
    cons : Segment → Segments → Segments

pub record Template : Type 0 where
  pub segments : Segments
  pub verb : Text
  pub template : Text

abbrev pub append : Segments → Segments → Segments
append nil ts = ts
append (cons s ss) ts = cons s (append ss ts)

-- `len(segments)`
abbrev pub count : Segments → ℕ
count nil = 0
count (cons s ss) = suc (count ss)

-- `String` of the segments, and the texts that `String` of a template or a variable joins.
unfoldable mutual
  pub show_segment : Segment → Text
  show_segment wildcard = codes "*"
  show_segment deep_wildcard = codes "**"
  show_segment (literal l) = l
  show_segment (variable path segs) =
      codes "{" ++ (path ++ (codes "=" ++ (join slash (show_each segs) ++ codes "}")))

  pub show_each : Segments → List Text
  show_each nil = []
  show_each (cons s ss) = show_segment s ∷ show_each ss

-- `template.String`
unfoldable pub show : Template → Text
show t =
    let str = join slash (show_each t.segments) in
    slash ++ (if is_empty t.verb then str else str ++ (codes ":" ++ t.verb))
