-- ===== src/Runtime/Http.antt =====
-- What runtime reads of an HTTP request: net/http headers, and the header keys of runtime/mux.go and
-- runtime/context.go. Header keys and methods are ASCII, as their syntax demands.
use grpc_gateway.Prelude.{
  ℕ, ◌+◌, ◌-◌, Bool, true, false, List, [], ◌∷◌, ◌++◌, ◌&&◌, ◌||◌, Option, none, some, Text, codes,
  length, drop, leb, ◌==◌, if◌then◌else◌, text_eq, has_prefix, contains_byte,
}

-- Keys in canonical form with their values, in some order.
abbrev pub Header : Type 0
Header = List (Text × List Text)

-- `header[key]`
unfoldable pub values : Header → Text → List Text
values [] key = []
values ((k, vs) ∷ h) key = if text_eq k key then vs else values h key

abbrev pub first_or_empty : List Text → Text
first_or_empty [] = []
first_or_empty (v ∷ vs) = v

-- `Header.Get` at a canonical key
unfoldable pub get : Header → Text → Text
get h key = first_or_empty (values h key)

-- `form_ok` is what `ParseForm` answers of the request's body and query.
pub record Request : Type 0 where
  pub method : Text
  pub path : Text
  pub header : Header
  pub form_ok : Bool

abbrev upper_byte : ℕ → ℕ
upper_byte c = if leb b'a' c && leb c b'z' then c - 32 else c

abbrev lower_byte : ℕ → ℕ
lower_byte c = if leb b'A' c && leb c b'Z' then c + 32 else c

-- `strings.ToUpper` and `strings.ToLower` on ASCII: a method that `X-HTTP-Method-Override` gives is
-- taken to be ASCII, as methods are.
unfoldable pub to_upper : Text → Text
to_upper [] = []
to_upper (c ∷ s) = upper_byte c ∷ to_upper s

unfoldable pub to_lower : Text → Text
to_lower [] = []
to_lower (c ∷ s) = lower_byte c ∷ to_lower s

-- The bytes of a token of RFC 7230, which a header key is made of.
unfoldable pub is_token_byte : ℕ → Bool
is_token_byte c =
    (leb b'0' c && leb c b'9')
    || (leb b'A' c && leb c b'Z')
    || (leb b'a' c && leb c b'z')
    || contains_byte (codes "!#$%&'*+-.^_`|~") c

unfoldable pub all_token_bytes : Text → Bool
all_token_bytes [] = true
all_token_bytes (c ∷ s) = is_token_byte c && all_token_bytes s

-- Upper case at the start and behind a dash, lower case elsewhere.
unfoldable pub canonical_case : Bool → Text → Text
canonical_case up [] = []
canonical_case up (c ∷ s) =
    (if up then upper_byte c else lower_byte c) ∷ canonical_case (c == b'-') s

-- `textproto.CanonicalMIMEHeaderKey`: a key with other bytes is left as it is.
unfoldable pub canonical_key : Text → Text
canonical_key s = if all_token_bytes s then canonical_case true s else s

abbrev pub metadata_header_prefix : Text
metadata_header_prefix = codes "Grpc-Metadata-"

abbrev pub metadata_prefix : Text
metadata_prefix = codes "grpcgateway-"

abbrev permanent_headers : List Text
permanent_headers =
    codes "Accept"
    ∷ codes "Accept-Charset"
    ∷ codes "Accept-Language"
    ∷ codes "Accept-Ranges"
    ∷ codes "Authorization"
    ∷ codes "Cache-Control"
    ∷ codes "Content-Type"
    ∷ codes "Cookie"
    ∷ codes "Date"
    ∷ codes "Expect"
    ∷ codes "From"
    ∷ codes "Host"
    ∷ codes "If-Match"
    ∷ codes "If-Modified-Since"
    ∷ codes "If-None-Match"
    ∷ codes "If-Schedule-Tag-Match"
    ∷ codes "If-Unmodified-Since"
    ∷ codes "Max-Forwards"
    ∷ codes "Origin"
    ∷ codes "Pragma"
    ∷ codes "Referer"
    ∷ codes "User-Agent"
    ∷ codes "Via"
    ∷ codes "Warning"
    ∷ []

unfoldable pub contains_text : List Text → Text → Bool
contains_text [] s = false
contains_text (x ∷ xs) s = text_eq x s || contains_text xs s

-- `isPermanentHTTPHeader`
unfoldable pub is_permanent_http_header : Text → Bool
is_permanent_http_header hdr = contains_text permanent_headers hdr

abbrev match_canonical : Text → Option Text
match_canonical key =
    if is_permanent_http_header key
    then some (metadata_prefix ++ key)
    else if has_prefix key metadata_header_prefix
    then some (drop (length metadata_header_prefix) key)
    else none

-- `DefaultHeaderMatcher`; none is its false.
unfoldable pub default_header_matcher : Text → Option Text
default_header_matcher key = match_canonical (canonical_key key)
