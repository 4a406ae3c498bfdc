-- ===== src/HttpRule/Chars.antt =====
-- internal/httprule/parse.go: the characters of literals and identifiers. The loops of the source
-- go over runes; every byte of a rune outside ASCII is refused as that rune is, so the model goes
-- over bytes.
use grpc_gateway.Prelude.{
  ℕ, Bool, true, false, [], ◌∷◌, ◌&&◌, ◌||◌, Text, codes, leb, ◌==◌, if◌then◌else◌, contains_byte,
}

abbrev pub is_upper : ℕ → Bool
is_upper r = leb b'A' r && leb r b'Z'

abbrev pub is_lower : ℕ → Bool
is_lower r = leb b'a' r && leb r b'z'

abbrev pub is_digit : ℕ → Bool
is_digit r = leb b'0' r && leb r b'9'

-- `isHexDigit`
unfoldable pub is_hex_digit : ℕ → Bool
is_hex_digit r =
    if is_digit r then true else if leb b'A' r && leb r b'F' then true else leb b'a' r && leb r b'f'

-- The states of the loop of `expectPChars`: how much of a `%xx` is still to come.
pub data PctState : Type 0 where
  init pct1 pct2 : PctState

-- The characters that stand for themselves: unreserved, sub-delims, `:` and `@`.
unfoldable pub is_plain : ℕ → Bool
is_plain r = is_upper r || is_lower r || is_digit r || contains_byte (codes "-._~!$&'()*+,;=:@") r

-- The loop of `expectPChars`, true where it returns nil.
unfoldable pub pchars : PctState → Text → Bool
pchars init [] = true
pchars pct1 [] = false
pchars pct2 [] = false
pchars init (r ∷ t) =
    let plain = pchars init t in
    let escape = pchars pct1 t in if is_plain r then plain else if r == b'%' then escape else false
pchars pct1 (r ∷ t) = is_hex_digit r && pchars pct2 t
pchars pct2 (r ∷ t) = is_hex_digit r && pchars init t

-- `expectPChars`
unfoldable pub expect_pchars : Text → Bool
expect_pchars t = pchars init t

unfoldable pub is_ident_char : ℕ → Bool
is_ident_char r = is_digit r || is_upper r || is_lower r || r == b'_'

unfoldable pub ident_chars : Text → Bool
ident_chars [] = true
ident_chars (r ∷ t) = is_ident_char r && ident_chars t

-- `expectIdent`: not empty, and no digit in front.
unfoldable pub expect_ident : Text → Bool
expect_ident [] = false
expect_ident (r ∷ t) = if is_digit r then false else ident_chars (r ∷ t)
