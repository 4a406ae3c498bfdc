-- ===== src/Tests/Metadata.antt =====
-- runtime/context.go: the metadata of a request with an authorization and a host.
use grpc_gateway.Prelude.{
  ◌≡◌, refl, [], ◌∷◌, Option, some, Text, codes, text_eq, has_prefix, has_suffix, contains_byte, ok,
  inl, All, pos,
}
use grpc_gateway.Runtime.Http.{
  values, get, canonical_key, all_token_bytes, is_token_byte, canonical_case, to_lower,
  contains_text, is_permanent_http_header, default_header_matcher,
}
use grpc_gateway.Prelude.{◌++◌}
use grpc_gateway.Runtime.Http.{Header}
use grpc_gateway.Runtime.TransportStream.{ServerTransportStream}
use grpc_gateway.Runtime.TransportStream.Log.{
  Call, sets_header, sends_header, sets_trailer, perform_all, header_log, trailer_log,
  perform_all-logs,
}
use grpc_gateway.Runtime.Annotate.{
  Incoming, Annotated, host_pair, address_pair, lower_keys, value_pairs, header_pairs,
  annotate_context,
}
use grpc_gateway.Runtime.Annotate.Keys.{
  Allowed, Occurs, annotate_context-Allowed, annotate_context-authorization,
}
use grpc_gateway.Prelude.{List}

abbrev unchanged : Text → Option Text
unchanged v = some v

abbrev login : Incoming
login = record {
  header = (codes "Authorization", codes "me" ∷ []) ∷ [];
  host = codes "h";
  remote_addr = codes "1.2.3.4";
}

abbrev login_metadata : Annotated
login_metadata = record {
  timeout = pos 0;
  pairs =
      (codes "authorization", codes "me")
      ∷ (codes "grpcgateway-authorization", codes "me")
      ∷ (codes "x-forwarded-host", codes "h")
      ∷ (codes "x-forwarded-for", codes "1.2.3.4")
      ∷ [];
}

login_annotated :
    annotate_context default_header_matcher unchanged unchanged unchanged (pos 0) login
    ≡ ok login_metadata
unfolding annotate_context lower_keys header_pairs value_pairs host_pair address_pair
    default_header_matcher is_permanent_http_header contains_text canonical_key all_token_bytes
    is_token_byte canonical_case contains_byte to_lower get values text_eq has_prefix has_suffix
login_annotated = refl

login_key : canonical_key (codes "Authorization") ≡ codes "Authorization"
unfolding canonical_key all_token_bytes is_token_byte canonical_case contains_byte
login_key = refl

annotate_context-Allowed_example :
    All (Allowed default_header_matcher unchanged unchanged unchanged) login_metadata.pairs
annotate_context-Allowed_example =
    annotate_context-Allowed default_header_matcher unchanged unchanged unchanged (pos 0) login
      login_metadata login_annotated

annotate_context-authorization_example :
    Occurs default_header_matcher unchanged unchanged unchanged
      (codes "authorization", codes "me")
      login_metadata.pairs
annotate_context-authorization_example =
    annotate_context-authorization default_header_matcher unchanged unchanged unchanged (pos 0)
      login login_metadata (codes "me") (inl (login_key, inl refl)) login_annotated

abbrev joins : Header → Header → Header
joins a b = a ++ b

abbrev calls_made : List Call
calls_made =
    sets_header ((codes "a", codes "1" ∷ []) ∷ [])
    ∷ sets_trailer ((codes "b", codes "2" ∷ []) ∷ [])
    ∷ sends_header []
    ∷ []

abbrev empty_stream : ServerTransportStream
empty_stream = record { header = []; trailer = [] }

perform_all-logs_example :
    ((perform_all joins calls_made empty_stream).header ≡ header_log joins [] calls_made)
    × ((perform_all joins calls_made empty_stream).trailer ≡ trailer_log joins [] calls_made)
perform_all-logs_example = perform_all-logs joins calls_made empty_stream
