-- ===== src/Casing.antt =====
-- internal/casing/camel.go: the names of Go fields.
pub mod Idempotent
use grpc_gateway.Prelude.{
  ℕ, ◌-◌, Bool, true, false, List, [], ◌∷◌, ◌&&◌, Text, leb, ◌==◌, if◌then◌else◌,
}

-- `isASCIILower` and `isASCIIDigit`
abbrev pub is_ascii_lower : ℕ → Bool
is_ascii_lower c = leb b'a' c && leb c b'z'

abbrev pub is_ascii_digit : ℕ → Bool
is_ascii_digit c = leb b'0' c && leb c b'9'

-- `i+1 < len(s) && isASCIILower(s[i+1])`
abbrev pub starts_lower : Text → Bool
starts_lower [] = false
starts_lower (c ∷ s) = is_ascii_lower c

-- `c ^= ' '` of a lower case letter
abbrev pub capital : ℕ → ℕ
capital c = if is_ascii_lower c then c - 32 else c

-- The loop of `Camel`. The flag says that it is in the inner loop, which takes lower case letters as
-- they are.
unfoldable pub camel_loop : Bool → Text → Text
camel_loop in_word [] = []
camel_loop in_word (c ∷ s) =
    let outside = camel_loop false s in
    let inside = camel_loop true s in
    if in_word && is_ascii_lower c
    then c ∷ inside
    else if c == b'_' && starts_lower s
    then outside
    else if is_ascii_digit c
    then c ∷ outside
    else capital c ∷ inside

-- `Camel`
unfoldable pub camel : Text → Text
camel [] = []
camel (c ∷ s) = if c == b'_' then b'X' ∷ camel_loop false s else camel_loop false (c ∷ s)
