-- ===== src/Runtime/MarshalerRegistry/Choice.antt =====
-- runtime/marshaler_registry.go: there is always a marshaler, and which one it is.
use grpc_gateway.Prelude.{
  ◌≡◌, refl, sym, ◌∙◌, ap, Bool, true, false, List, [], ◌∷◌, ◌++◌, All, Option, none, some, Text,
  codes, Result, ok, text_eq, text_eq_iff, if◌then◌else◌, arith,
}
use grpc_gateway.Runtime.Http.{Header, values}
use grpc_gateway.Runtime.Mux.{or_else}
use grpc_gateway.Runtime.MarshalerRegistry.{
  mime_wildcard, Registry, marshaler_of, put_marshaler, add, make_marshaler_mime_registry,
  first_accepted, first_content_type, marshaler_for_request,
}

module _ {M : Type 0} where
  marshaler_of-put_marshaler :
      (reg : Registry M) (k mime : Text) (m : M)
      → marshaler_of (put_marshaler reg k m) mime
        ≡ (if text_eq k mime then some m else marshaler_of reg mime)
  unfolding marshaler_of put_marshaler
  marshaler_of-put_marshaler [] k mime m = refl
  marshaler_of-put_marshaler ((j, old) ∷ reg) k mime m = ground (
    arith,
    text_eq_iff j k,
    text_eq_iff j mime,
    text_eq_iff k mime,
    marshaler_of-put_marshaler reg k mime m,
  )

  -- The options of a multiplexer, one `add` for each, from the registry that it starts with.
  pub data Registered (default_marshaler : M) : Registry M → Type 0 where
    start : Registered default_marshaler (make_marshaler_mime_registry default_marshaler)
    option :
        {reg reg' : Registry M} (mime : Text) (m : M)
        → Registered default_marshaler reg
        → add mime m reg ≡ ok reg'
        → Registered default_marshaler reg'

  abbrev Present : Option M → Type 0
  Present o = (m : M) × (o ≡ some m)

  wildcard-if : (b : Bool) (m : M) (o : Option M) → Present o → Present (if b then some m else o)
  wildcard-if true m o p = (m, refl)
  wildcard-if false m o p = p

  add-some :
      (mime : Text) (m : M) (reg reg' : Registry M)
      → add mime m reg ≡ ok reg'
      → put_marshaler reg mime m ≡ reg'
  unfolding add
  add-some mime m reg reg' e = ground arith

  has_wildcard :
      {d : M} {reg : Registry M}
      → Registered d reg
      → (m : M) × (marshaler_of reg mime_wildcard ≡ some m)
  unfolding marshaler_of text_eq
  has_wildcard {d = d} start = (d, refl)
  has_wildcard (option {reg = reg} {reg' = reg'} mime m r e) =
      let (n, f) =
        wildcard-if (text_eq mime mime_wildcard) m (marshaler_of reg mime_wildcard)
          (has_wildcard r) in
      (
        n,
        ap (λ x. marshaler_of x mime_wildcard) (sym (add-some mime m reg reg' e))
            ∙ (marshaler_of-put_marshaler reg mime mime_wildcard m ∙ f),
      )

  or_else-Present : (o p : Option M) → Present p → Present (or_else o p)
  or_else-Present (some m) p h = (m, refl)
  or_else-Present none p h = h

  -- Whatever marshalers the options of a multiplexer have added, every request gets an inbound and
  -- an outbound marshaler.
  pub marshaler_for_request-total :
      {E : Type 0} (parse_media_type : Text → Result E Text) (default_marshaler : M)
      (reg : Registry M) (header : Header)
      → Registered default_marshaler reg
      → ((m : M) × ((marshaler_for_request parse_media_type reg header).0 ≡ some m))
        × ((m : M) × ((marshaler_for_request parse_media_type reg header).1 ≡ some m))
  unfolding marshaler_for_request
  marshaler_for_request-total parse_media_type d reg header r =
      let inbound =
        or_else-Present
          (first_content_type parse_media_type reg (values header (codes "Content-Type"))) _
          (has_wildcard r) in
      (inbound, or_else-Present (first_accepted reg (values header (codes "Accept"))) _ inbound)

  first_accepted-append :
      (reg : Registry M) (before after : List Text) (v : Text) (m : M)
      → All (λ u. marshaler_of reg u ≡ none) before
      → marshaler_of reg v ≡ some m
      → first_accepted reg (before ++ v ∷ after) ≡ some m
  unfolding first_accepted
  first_accepted-append reg [] after v m a e = rw e
  first_accepted-append reg (u ∷ before) after v m a e =
      rw a.0 (first_accepted-append reg before after v m a.1 e)

  -- The outbound marshaler is that of the first value of `Accept` that is registered, whatever the
  -- content type is.
  pub marshaler_for_request-accept :
      {E : Type 0} (parse_media_type : Text → Result E Text) (reg : Registry M) (header : Header)
      (before after : List Text) (v : Text) (m : M)
      → values header (codes "Accept") ≡ before ++ v ∷ after
      → All (λ u. marshaler_of reg u ≡ none) before
      → marshaler_of reg v ≡ some m
      → (marshaler_for_request parse_media_type reg header).1 ≡ some m
  unfolding marshaler_for_request
  marshaler_for_request-accept parse_media_type reg header before after v m e a f =
      rw (e, first_accepted-append reg before after v m a f)
