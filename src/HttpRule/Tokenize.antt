-- ===== src/HttpRule/Tokenize.antt =====
-- internal/httprule/parse.go: `tokenize`, which cuts a path into tokens and takes the verb off.
pub mod Grammar
pub mod Shape
use grpc_gateway.Prelude.{
  ℕ, zero, suc, Bool, false, List, [], ◌∷◌, ◌++◌, Option, none, some, Text, codes, length, ◌==◌,
  if◌then◌else◌, contains_byte, split_any, split_first, split_last, text_eq, is_empty,
}

-- The terminal symbol at the end of the tokens.
abbrev pub eof : Text
eof = 0 ∷ []

pub data Mode : Type 0 where
  init field nested : Mode

-- The bytes that end a token.
abbrev pub separators : Mode → Text
separators init = codes "/{"
separators field = codes ".=}"
separators nested = codes "/}"

-- The mode after a separator.
abbrev pub next_mode : Mode → ℕ → Mode
next_mode st r =
    if r == b'{' then field else if r == b'=' then nested else if r == b'}' then init else st

-- The text before a separator, if any, and the separator.
abbrev pub pieces : Text → ℕ → List Text
pieces [] r = (r ∷ []) ∷ []
pieces (c ∷ p) r = (c ∷ p) ∷ (r ∷ []) ∷ []

-- The loop. Each round takes a byte at least, so the fuel is the length of the path.
unfoldable pub scan : ℕ → Mode → Text → List Text
scan zero st path = []
scan (suc f) st [] = []
scan (suc f) st (c ∷ path) = elim (split_any (contains_byte (separators st)) (c ∷ path)) [
  | none ↦ (c ∷ path) ∷ []
  | some (p, r, rest) ↦ pieces p r ++ scan f (next_mode st r) rest
]

-- `strings.Index` behind a closing brace, else `strings.LastIndex`.
abbrev pub find_colon : Bool → Text → Option (Text × Text)
find_colon after_var t = if after_var then split_first b':' t else split_last b':' t

-- What becomes of the last token, and the verb.
abbrev pub cut_verb : Text → Option (Text × Text) → List Text × Text
cut_verb t none = (t ∷ [], [])
cut_verb t (some ([], v)) = ([], v)
cut_verb t (some (c ∷ p, v)) = ((c ∷ p) ∷ [], v)

-- The statements behind the loop, on the tokens; the flag says that the token before is `}`.
unfoldable pub take_verb : Bool → List Text → List Text × Text
take_verb after_var [] = ([], [])
take_verb after_var (t ∷ []) = cut_verb t (find_colon after_var t)
take_verb after_var (t ∷ u ∷ ts) =
    let (rest, verb) = take_verb (text_eq t (codes "}")) (u ∷ ts) in (t ∷ rest, verb)

unfoldable pub tokenize : Text → List Text × Text
tokenize path =
    if is_empty path
    then (eof ∷ [], [])
    else let (tokens, verb) = take_verb false (scan (length path) init path) in
      (tokens ++ eof ∷ [], verb)
