-- ===== src/Runtime/MarshalerRegistry.antt =====
-- runtime/marshaler_registry.go: which marshalers serve a request. A marshaler is a value of a type,
-- and none that is registered is nil.
pub mod Choice
use grpc_gateway.Prelude.{
  Bool, List, [], ◌∷◌, Option, none, some, Text, codes, Result, ok, fail, text_eq, is_empty,
  if◌then◌else◌,
}
use grpc_gateway.Runtime.Http.{Header, values}
use grpc_gateway.Runtime.Mux.{or_else}

pub data RegistryError : Type 0 where
  empty_mime_type : RegistryError

-- `MIMEWildcard`
abbrev pub mime_wildcard : Text
mime_wildcard = codes "*"

-- `marshalerRegistry`, its map as an association list with one entry for a key.
abbrev pub Registry : Type 0 → Type 0
Registry M = List (Text × M)

module _ {M : Type 0} where
  -- `m.mimeMap[mime]`
  unfoldable pub marshaler_of : Registry M → Text → Option M
  marshaler_of [] mime = none
  marshaler_of ((k, m) ∷ reg) mime = if text_eq k mime then some m else marshaler_of reg mime

  -- `m.mimeMap[mime] = marshaler`
  unfoldable pub put_marshaler : Registry M → Text → M → Registry M
  put_marshaler [] mime m = (mime, m) ∷ []
  put_marshaler ((k, old) ∷ reg) mime m =
      if text_eq k mime then (k, m) ∷ reg else (k, old) ∷ put_marshaler reg mime m

  -- `marshalerRegistry.add`; `WithMarshalerOption` panics on its error.
  unfoldable pub add : Text → M → Registry M → Result RegistryError (Registry M)
  add mime m reg = if is_empty mime then fail empty_mime_type else ok (put_marshaler reg mime m)

  -- `makeMarshalerMIMERegistry`, with the default marshaler.
  abbrev pub make_marshaler_mime_registry : M → Registry M
  make_marshaler_mime_registry default_marshaler = (mime_wildcard, default_marshaler) ∷ []

  -- The first value of `Accept` that is registered.
  unfoldable pub first_accepted : Registry M → List Text → Option M
  first_accepted reg [] = none
  first_accepted reg (v ∷ vs) = or_else (marshaler_of reg v) (first_accepted reg vs)

  module _ {E : Type 0} (parse_media_type : Text → Result E Text) where
    abbrev pub registered : Registry M → Result E Text → Option M
    registered reg (ok media_type) = marshaler_of reg media_type
    registered reg (fail e) = none

    -- The first value of `Content-Type` whose media type can be parsed and is registered.
    unfoldable pub first_content_type : Registry M → List Text → Option M
    first_content_type reg [] = none
    first_content_type reg (v ∷ vs) =
        or_else (registered reg (parse_media_type v)) (first_content_type reg vs)

    abbrev pub with_inbound : Option M → Option M → Option M × Option M
    with_inbound inbound accepted = (inbound, or_else accepted inbound)

    -- `MarshalerForRequest`; none is a nil marshaler. The keys are those of `CanonicalHeaderKey`.
    unfoldable pub marshaler_for_request : Registry M → Header → Option M × Option M
    marshaler_for_request reg header =
        with_inbound
          (or_else (first_content_type reg (values header (codes "Content-Type")))
            (marshaler_of reg mime_wildcard))
          (first_accepted reg (values header (codes "Accept")))
