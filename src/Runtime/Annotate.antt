-- ===== src/Runtime/Annotate.antt =====
-- runtime/context.go: `annotateContext`, which turns the headers of a request into gRPC metadata.
-- base64 and the split of an address are functions that the section takes. `metadata.Pairs` turns the
-- keys, which are ASCII, to lower case.
pub mod Keys
use grpc_gateway.Prelude.{
  ℕ, ◌%◌, Bool, true, false, not, List, [], ◌∷◌, ◌++◌, Option, none, some, Text, codes, length,
  ◌==◌, if◌then◌else◌, text_eq, is_empty, has_suffix, Result, ok, fail, ◌>>=◌, ℤ, pos,
}
use grpc_gateway.Runtime.Http.{Header, get, canonical_key, to_lower}
use grpc_gateway.Runtime.Timeout.{TimeoutError, timeout_decode}

pub data AnnotateError : Type 0 where
  invalid_timeout invalid_binary_header : AnnotateError

-- What `annotateContext` reads of a request. The header is walked in the order of the list.
pub record Incoming : Type 0 where
  pub header : Header
  pub host : Text
  pub remote_addr : Text

-- The timeout that the context gets, 0 for none, and the metadata as a list of keys with a value.
pub record Annotated : Type 0 where
  pub timeout : ℤ
  pub pairs : List (Text × Text)

abbrev pub x_forwarded_for : Text
x_forwarded_for = codes "X-Forwarded-For"

abbrev pub x_forwarded_host : Text
x_forwarded_host = codes "X-Forwarded-Host"

abbrev pub timeout_or_error : Result TimeoutError ℤ → Result AnnotateError ℤ
timeout_or_error (ok d) = ok d
timeout_or_error (fail e) = fail invalid_timeout

abbrev pub timeout_of : ℤ → Text → Result AnnotateError ℤ
timeout_of default_timeout tm =
    if is_empty tm then ok default_timeout else timeout_or_error (timeout_decode tm)

-- `metadata.Pairs`
unfoldable pub lower_keys : List (Text × Text) → List (Text × Text)
unfolding to_lower
lower_keys [] = []
lower_keys ((k, v) ∷ ps) = (to_lower k, v) ∷ lower_keys ps

-- The old name of the header, for one value.
abbrev pub authorization_pair : Text → Text → List (Text × Text)
authorization_pair key v =
    if text_eq key (codes "Authorization") then (codes "authorization", v) ∷ [] else []

abbrev pub decoded : Option Text → Result AnnotateError Text
decoded none = fail invalid_binary_header
decoded (some v) = ok v

-- The host of the request, unless a proxy has sent one.
unfoldable pub host_pair : Text → Text → List (Text × Text)
host_pair forwarded host =
    if not (is_empty forwarded)
    then (to_lower x_forwarded_host, forwarded) ∷ []
    else if not (is_empty host)
    then (to_lower x_forwarded_host, host) ∷ []
    else []

-- The address of the client behind those that proxies have sent.
unfoldable pub address_pair : Text → Option Text → List (Text × Text)
address_pair forwarded none = []
address_pair forwarded (some remote_ip) =
    if is_empty forwarded
    then (to_lower x_forwarded_for, remote_ip) ∷ []
    else (to_lower x_forwarded_for, forwarded ++ (codes ", " ++ remote_ip)) ∷ []

module _ (matcher : Text → Option Text) (std_decode raw_decode : Text → Option Text)
    (split_host_port : Text → Option Text) where
  -- `decodeBinHeader`
  unfoldable pub decode_bin_header : Text → Option Text
  decode_bin_header v = if length v % 4 == 0 then std_decode v else raw_decode v

  abbrev pub matched_value : Text → Text → Result AnnotateError Text
  matched_value key v =
      if has_suffix key (codes "-Bin") then decoded (decode_bin_header v) else ok v

  abbrev pub matched_pair : Text → Option Text → Text → Result AnnotateError (List (Text × Text))
  matched_pair key none v = ok []
  matched_pair key (some h) v = do val ← matched_value key v; ok ((h, val) ∷ [])

  -- The inner loop, over the values of a key in canonical form.
  unfoldable pub value_pairs : Text → List Text → Result AnnotateError (List (Text × Text))
  value_pairs key [] = ok []
  value_pairs key (v ∷ vs) = do
    m ← matched_pair key (matcher key) v
    rest ← value_pairs key vs
    ok (authorization_pair key v ++ (m ++ rest))

  -- The loop over the header.
  unfoldable pub header_pairs : Header → Result AnnotateError (List (Text × Text))
  header_pairs [] = ok []
  header_pairs ((key, vs) ∷ header) = do
    ps ← value_pairs (canonical_key key) vs
    rest ← header_pairs header
    ok (ps ++ rest)

  abbrev pub remote_ip_of : Text → Option Text
  remote_ip_of addr = if is_empty addr then none else split_host_port addr

  -- `annotateContext`, before the annotators of the multiplexer add their metadata.
  unfoldable pub annotate_context : ℤ → Incoming → Result AnnotateError Annotated
  annotate_context default_timeout r = do
    timeout ← timeout_of default_timeout (get r.header (codes "Grpc-Timeout"))
    ps ← header_pairs r.header
    ok (record {
      timeout = timeout;
      pairs = lower_keys (
          ps
          ++ (host_pair (get r.header x_forwarded_host) r.host
              ++ address_pair (get r.header x_forwarded_for) (remote_ip_of r.remote_addr)));
    })
