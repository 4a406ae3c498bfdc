-- ===== src/Runtime/Annotate/Keys.antt =====
-- runtime/context.go: which keys of metadata a request can set, and that its authorization is kept.
use grpc_gateway.Prelude.{
  ◌≡◌, ◌⊎◌, inl, inr, refl, ap, List, [], ◌∷◌, ◌++◌, All, All-append, Option, none, some, Text,
  codes, text_eq, text_eq_refl, if-intro, is_empty, not, Result, ok, fail, Post, Post-bind,
  >>=-eq-ok, ok_injective, subst, ℤ,
}
use grpc_gateway.Runtime.Http.{Header, get, canonical_key, to_lower}
use grpc_gateway.Runtime.Annotate.{
  AnnotateError, Incoming, Annotated, x_forwarded_for, x_forwarded_host, timeout_of,
  authorization_pair, host_pair, address_pair, matched_value, matched_pair, value_pairs,
  header_pairs, remote_ip_of, lower_keys, annotate_context,
}

module _ (matcher : Text → Option Text) (std_decode raw_decode : Text → Option Text)
    (split_host_port : Text → Option Text) where
  -- A pair that is handed to `metadata.Pairs`.
  abbrev Given : Text × Text → Type 0
  Given p =
      (p.0 ≡ codes "authorization")
      ⊎ ((p.0 ≡ to_lower x_forwarded_host)
          ⊎ ((p.0 ≡ to_lower x_forwarded_for) ⊎ ((key : Text) × (matcher key ≡ some p.0))))

  abbrev NoMatter : AnnotateError → Type 0
  NoMatter e = Unit

  abbrev AllGiven : Result AnnotateError (List (Text × Text)) → Type 0
  AllGiven = Post (All Given) NoMatter

  authorization-Given : (key v : Text) → All Given (authorization_pair key v)
  authorization-Given key v =
      if-intro (All Given) (text_eq key (codes "Authorization")) (inl refl, tt) tt

  any_value : (r : Result AnnotateError Text) → Post (λ _. Unit) NoMatter r
  any_value (ok v) = tt
  any_value (fail e) = tt

  matched-Given :
      (key : Text) (o : Option Text) (v : Text)
      → matcher key ≡ o
      → AllGiven (matched_pair matcher std_decode raw_decode split_host_port key o v)
  matched-Given key none v e = tt
  matched-Given key (some h) v e =
      Post-bind (λ _. Unit) (All Given) NoMatter
        (matched_value matcher std_decode raw_decode split_host_port key v) _ (any_value _)
        λ val _. (inr (inr (inr (key, e))), tt)

  value_pairs-Given :
      (key : Text) (vs : List Text)
      → AllGiven (value_pairs matcher std_decode raw_decode split_host_port key vs)
  unfolding value_pairs
  value_pairs-Given key [] = tt
  value_pairs-Given key (v ∷ vs) =
      Post-bind (All Given) (All Given) NoMatter _ _ (matched-Given key (matcher key) v refl)
        λ m am. Post-bind (All Given) (All Given) NoMatter _ _ (value_pairs-Given key vs) λ rest ar.
          All-append Given (authorization_pair key v) (m ++ rest) (authorization-Given key v)
            (All-append Given m rest am ar)

  header_pairs-Given :
      (header : Header)
      → AllGiven (header_pairs matcher std_decode raw_decode split_host_port header)
  unfolding header_pairs
  header_pairs-Given [] = tt
  header_pairs-Given ((key, vs) ∷ header) =
      Post-bind (All Given) (All Given) NoMatter _ _ (value_pairs-Given (canonical_key key) vs)
        λ ps ap.
          Post-bind (All Given) (All Given) NoMatter _ _ (header_pairs-Given header)
            λ rest ar. All-append Given ps rest ap ar

  host_pair-Given : (forwarded host : Text) → All Given (host_pair forwarded host)
  unfolding host_pair
  host_pair-Given forwarded host =
      if-intro (All Given) (not (is_empty forwarded)) (inr (inl refl), tt)
        (if-intro (All Given) (not (is_empty host)) (inr (inl refl), tt) tt)

  address_pair-Given : (forwarded : Text) (o : Option Text) → All Given (address_pair forwarded o)
  unfolding address_pair
  address_pair-Given forwarded none = tt
  address_pair-Given forwarded (some ip) =
      if-intro (All Given) (is_empty forwarded) (inr (inr (inl refl)), tt)
        (inr (inr (inl refl)), tt)

  any_timeout : (r : Result AnnotateError ℤ) → Post (λ _. Unit) NoMatter r
  any_timeout (ok v) = tt
  any_timeout (fail e) = tt

  -- A key of metadata that a request may set. What the matcher gives is turned to lower case.
  abbrev pub Allowed : Text × Text → Type 0
  Allowed p =
      (p.0 ≡ codes "authorization")
      ⊎ ((p.0 ≡ codes "x-forwarded-host")
          ⊎ ((p.0 ≡ codes "x-forwarded-for")
              ⊎ ((key name : Text) × (matcher key ≡ some name) × (p.0 ≡ to_lower name))))

  lower_key-Allowed : (k v : Text) → Given (k, v) → Allowed (to_lower k, v)
  unfolding to_lower
  lower_key-Allowed k v (inl e) = inl (ap to_lower e)
  lower_key-Allowed k v (inr (inl e)) = inr (inl (ap to_lower e))
  lower_key-Allowed k v (inr (inr (inl e))) = inr (inr (inl (ap to_lower e)))
  lower_key-Allowed k v (inr (inr (inr (key, e)))) = inr (inr (inr (key, k, e, refl)))

  lower_keys-Allowed : (ps : List (Text × Text)) → All Given ps → All Allowed (lower_keys ps)
  unfolding lower_keys
  lower_keys-Allowed [] gs = tt
  lower_keys-Allowed ((k, v) ∷ ps) (g, gs) = (lower_key-Allowed k v g, lower_keys-Allowed ps gs)

  -- Every key of metadata that a request sets is `authorization`, `x-forwarded-host`,
  -- `x-forwarded-for`, or in lower case a name that the matcher of incoming headers gives to some key.
  pub annotate_context-Allowed :
      (default_timeout : ℤ) (r : Incoming) (a : Annotated)
      → annotate_context matcher std_decode raw_decode split_host_port default_timeout r ≡ ok a
      → All Allowed a.pairs
  unfolding annotate_context
  annotate_context-Allowed default_timeout r a e =
      subst (Post (λ x. All Allowed x.pairs) NoMatter) e (
        Post-bind (λ _. Unit) (λ x. All Allowed x.pairs) NoMatter _ _
          (any_timeout (timeout_of default_timeout (get r.header (codes "Grpc-Timeout"))))
          λ t _.
            Post-bind (All Given) (λ x. All Allowed x.pairs) NoMatter _ _
              (header_pairs-Given r.header)
              λ ps ap. lower_keys-Allowed _ (
                All-append Given ps _ ap (
                  All-append Given (host_pair (get r.header x_forwarded_host) r.host) _
                    (host_pair-Given (get r.header x_forwarded_host) r.host)
                    (address_pair-Given (get r.header x_forwarded_for)
                      (remote_ip_of matcher std_decode raw_decode split_host_port r.remote_addr)))))

  -- The pair is in the list.
  abbrev pub Occurs : Text × Text → List (Text × Text) → Type 0
  Occurs p [] = ⊥
  Occurs p (q ∷ ps) = (q ≡ p) ⊎ Occurs p ps

  Occurs-front : (p : Text × Text) (xs ys : List (Text × Text)) → Occurs p xs → Occurs p (xs ++ ys)
  Occurs-front p [] ys o = absurd o
  Occurs-front p (x ∷ xs) ys (inl e) = inl e
  Occurs-front p (x ∷ xs) ys (inr o) = inr (Occurs-front p xs ys o)

  Occurs-back : (p : Text × Text) (xs ys : List (Text × Text)) → Occurs p ys → Occurs p (xs ++ ys)
  Occurs-back p [] ys o = o
  Occurs-back p (x ∷ xs) ys o = inr (Occurs-back p xs ys o)

  abbrev pub OneOf : Text → List Text → Type 0
  OneOf v [] = ⊥
  OneOf v (u ∷ us) = (u ≡ v) ⊎ OneOf v us

  abbrev pub HasValue : Text → Text → Header → Type 0
  HasValue key v [] = ⊥
  HasValue key v ((k, vs) ∷ header) = ((canonical_key k ≡ key) × OneOf v vs) ⊎ HasValue key v header

  authorization-Occurs :
      (key v u : Text) (ps : List (Text × Text))
      → key ≡ codes "Authorization"
      → u ≡ v
      → Occurs (codes "authorization", v) (authorization_pair key u ++ ps)
  authorization-Occurs key v u ps same e =
      rw (same, text_eq_refl (codes "Authorization")) (inl (ap (λ x. (codes "authorization", x)) e))

  value_pairs-Occurs :
      (key v : Text) (vs : List Text) (ps : List (Text × Text))
      → key ≡ codes "Authorization"
      → OneOf v vs
      → value_pairs matcher std_decode raw_decode split_host_port key vs ≡ ok ps
      → Occurs (codes "authorization", v) ps
  unfolding value_pairs
  value_pairs-Occurs key v [] ps same o e = absurd o
  value_pairs-Occurs key v (u ∷ us) ps same o e =
      let (m, _, e₁) =
        >>=-eq-ok (matched_pair matcher std_decode raw_decode split_host_port key (matcher key) u) _
          e in
      let (rest, er, e₂) =
        >>=-eq-ok (value_pairs matcher std_decode raw_decode split_host_port key us) _ e₁ in
      subst (Occurs (codes "authorization", v))
        (ok_injective (authorization_pair key u ++ (m ++ rest)) ps e₂)
        (elim o [
          | inl q ↦ authorization-Occurs key v u (m ++ rest) same q
          | inr o' ↦
              Occurs-back (codes "authorization", v) (authorization_pair key u) (m ++ rest)
                (Occurs-back (codes "authorization", v) m rest
                  (value_pairs-Occurs key v us rest same o' er))
        ])

  header_pairs-Occurs :
      (v : Text) (header : Header) (ps : List (Text × Text))
      → HasValue (codes "Authorization") v header
      → header_pairs matcher std_decode raw_decode split_host_port header ≡ ok ps
      → Occurs (codes "authorization", v) ps
  unfolding header_pairs
  header_pairs-Occurs v [] ps o e = absurd o
  header_pairs-Occurs v ((k, vs) ∷ header) ps o e =
      let (qs, eq, e₁) =
        >>=-eq-ok (value_pairs matcher std_decode raw_decode split_host_port (canonical_key k) vs) _
          e in
      let (rest, er, e₂) =
        >>=-eq-ok (header_pairs matcher std_decode raw_decode split_host_port header) _ e₁ in
      subst (Occurs (codes "authorization", v)) (ok_injective (qs ++ rest) ps e₂) (elim o [
        | inl (same, one) ↦
            Occurs-front (codes "authorization", v) qs rest
              (value_pairs-Occurs (canonical_key k) v vs qs same one eq)
        | inr o' ↦
            Occurs-back (codes "authorization", v) qs rest (header_pairs-Occurs v header rest o' er)
      ])

  lower_keys-Occurs :
      (v : Text) (ps : List (Text × Text))
      → Occurs (codes "authorization", v) ps
      → Occurs (codes "authorization", v) (lower_keys ps)
  unfolding lower_keys to_lower
  lower_keys-Occurs v [] o = absurd o
  lower_keys-Occurs v (p ∷ ps) (inl e) = inl (ap (λ q. (to_lower q.0, q.1)) e)
  lower_keys-Occurs v (p ∷ ps) (inr o) = inr (lower_keys-Occurs v ps o)

  -- Every value of the header `Authorization` reaches the metadata unchanged, under the key
  -- `authorization`, whatever the matcher says, unless the request is refused.
  pub annotate_context-authorization :
      (default_timeout : ℤ) (r : Incoming) (a : Annotated) (v : Text)
      → HasValue (codes "Authorization") v r.header
      → annotate_context matcher std_decode raw_decode split_host_port default_timeout r ≡ ok a
      → Occurs (codes "authorization", v) a.pairs
  unfolding annotate_context
  annotate_context-authorization default_timeout r a v h e =
      let (t, _, e₁) =
        >>=-eq-ok (timeout_of default_timeout (get r.header (codes "Grpc-Timeout"))) _ e in
      let (ps, ep, e₂) =
        >>=-eq-ok (header_pairs matcher std_decode raw_decode split_host_port r.header) _ e₁ in
      subst (λ x. Occurs (codes "authorization", v) x.pairs) (ok_injective _ a e₂)
        (lower_keys-Occurs v _
          (Occurs-front (codes "authorization", v) ps _ (header_pairs-Occurs v r.header ps h ep)))
