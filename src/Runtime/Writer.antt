-- ===== src/Runtime/Writer.antt =====
-- What the runtime does to an `http.ResponseWriter` of net/http.
use grpc_gateway.Prelude.{
  ℕ, suc, Bool, true, false, List, [], ◌∷◌, ◌++◌, Option, none, some, Text, text_eq, if◌then◌else◌,
  has_prefix,
}
use grpc_gateway.Runtime.Http.{Header, values, canonical_key}

-- `status` is what has been sent of the header, and `body` the chunks that have been written.
pub record Writer : Type 0 where
  pub header : Header
  pub status : Option ℕ
  pub body : List Text
  pub flushes : ℕ

-- `Header.Set`, `Header.Add` and `Header.Del`
unfoldable pub put_values : Header → Text → List Text → Header
put_values [] key vs = (key, vs) ∷ []
put_values ((k, old) ∷ h) key vs =
    if text_eq k key then (k, vs) ∷ h else (k, old) ∷ put_values h key vs

unfoldable pub remove_key : Header → Text → Header
remove_key [] key = []
remove_key ((k, vs) ∷ h) key =
    let rest = remove_key h key in if text_eq k key then rest else (k, vs) ∷ rest

unfoldable pub set_header : Text → Text → Writer → Writer
set_header key v w = record w { header = put_values w.header (canonical_key key) (v ∷ []) }

unfoldable pub add_header : Text → Text → Writer → Writer
add_header key v w = record w {
  header = put_values w.header (canonical_key key) (values w.header (canonical_key key) ++ v ∷ []);
}

unfoldable pub del_header : Text → Writer → Writer
del_header key w = record w { header = remove_key w.header (canonical_key key) }

abbrev pub status_or {ℓ} : {A : Type ℓ} → Option A → A → A
status_or none n = n
status_or (some m) n = m

-- `WriteHeader`: only the first call counts.
abbrev pub write_header : ℕ → Writer → Writer
write_header n w = record w { status = some (status_or w.status n) }

-- `Write` of a chunk that the connection takes: the first one sends the header.
abbrev pub put_chunk : Text → Writer → Writer
put_chunk buf w = record (write_header 200 w) { body = w.body ++ buf ∷ [] }

-- Whether the connection takes a chunk may depend on what has been written.
abbrev pub Connection : Type 0
Connection = List Text → Text → Bool

abbrev pub write : Connection → Text → Writer → Writer
write accepts buf w = if accepts w.body buf then put_chunk buf w else write_header 200 w

abbrev pub flush : Writer → Writer
flush w = record w { flushes = suc w.flushes }

-- `strings.Contains`
unfoldable pub contains : Text → Text → Bool
contains s sub = if has_prefix s sub then true else in_rest s
  where
    in_rest : Text → Bool
    in_rest [] = false
    in_rest (c ∷ t) = if has_prefix t sub then true else in_rest t
