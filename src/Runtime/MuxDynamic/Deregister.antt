-- ===== src/Runtime/MuxDynamic/Deregister.antt =====
-- runtime/mux_dynamic.go: `HandlerDeregister` cuts the list of handlers by offsets; what it leaves is a
-- filter.
use grpc_gateway.Prelude.{
  ℕ, ◌+◌, ◌≤◌, ◌≡◌, refl, sym, ◌∙◌, ap, List, [], ◌∷◌, ◌++◌, Text, length, drop, if◌then◌else◌,
  text_eq, text_eq→eq, ok, arith, append_assoc, append-nil, length-append, Bool-cases, inl, inr,
  All, drop-append_le, length-drop, take-append-length, ap₂, drop-length,
}
use grpc_gateway.Runtime.Pattern.{Pattern, MatchError}
use grpc_gateway.Runtime.Pattern
use grpc_gateway.Runtime.Mux.{Handler, ServeMux, handlers_of, set_handlers}
use grpc_gateway.Runtime.Mux.Table.{handlers_of-set_handlers}
use grpc_gateway.Runtime.MuxDynamic.{
  same_string, slice, collect, deregister_from, handler_deregister,
}

same_string-eq :
    (p q : Pattern) (a b : Text)
    → Pattern.show p ≡ ok a
    → Pattern.show q ≡ ok b
    → same_string p q ≡ ok (text_eq a b)
unfolding same_string
same_string-eq p q a b e f = rw (e, f)

module _ {H : Type 0} where
  -- The handlers whose pattern has another text.
  abbrev pub others : Text → (Handler H → Text) → List (Handler H) → List (Handler H)
  others s text [] = []
  others s text (h ∷ hs) = if text_eq (text h) s then others s text hs else h ∷ others s text hs

  slice-drop :
      (offset : ℕ) (before : List (Handler H)) (h : Handler H) (hs : List (Handler H))
      → offset ≤ length before
      → slice offset (length before) (before ++ h ∷ hs) ≡ drop offset before
  slice-drop offset before h hs le =
      rw (drop-append_le offset before (h ∷ hs) le, ← length-drop offset before)
        (take-append-length (drop offset before) (h ∷ hs))

  module _ (pat : Pattern) (s : Text) (text : Handler H → Text) (shown : Pattern.show pat ≡ ok s)
      (handlers : List (Handler H)) where
    -- The loop keeps in `new` and behind `offset` the handlers that it has passed and not dropped.
    collect-others :
        (hs before new : List (Handler H)) (offset : ℕ)
        → All (λ h. Pattern.show h.pat ≡ ok (text h)) hs
        → handlers ≡ before ++ hs
        → offset ≤ length before
        → collect pat handlers hs (length before) offset new
          ≡ ok (new ++ (drop offset before ++ others s text hs))
    unfolding collect
    collect-others [] before new offset a e le =
        rw (e, append-nil before, append-nil (drop offset before))
    collect-others (h ∷ hs) before new offset a e le =
        let next : length before + 1 ≡ length (before ++ h ∷ []) =
          omega (arith, length-append before (h ∷ [])) in
        let moved : handlers ≡ (before ++ h ∷ []) ++ hs =
          e ∙ sym (append_assoc before (h ∷ []) hs) in
        let cut : slice offset (length before) handlers ≡ drop offset before =
          ap (slice offset (length before)) e ∙ slice-drop offset before h hs le in
        elim (Bool-cases (text_eq (text h) s)) [
          | inl eq ↦
              rw (same_string-eq h.pat pat (text h) s a.0 shown, eq)
                (ap₂ (λ n l. collect pat handlers hs n n (new ++ l)) next cut
                  ∙ (collect-others hs (before ++ h ∷ []) (new ++ drop offset before)
                        (length (before ++ h ∷ [])) a.1 moved (omega arith)
                      ∙ ap ok (
                          append_assoc new (drop offset before) _
                          ∙ ap (λ l. new ++ (drop offset before ++ (l ++ others s text hs)))
                              (drop-length (before ++ h ∷ [])))))
          | inr ne ↦
              rw (same_string-eq h.pat pat (text h) s a.0 shown, ne)
                (ap (λ n. collect pat handlers hs n offset new) next
                  ∙ (collect-others hs (before ++ h ∷ []) new offset a.1 moved (omega arith)
                      ∙ ap (λ l. ok (new ++ l))
                          (ap (λ l. l ++ others s text hs)
                              (drop-append_le offset before (h ∷ []) le)
                            ∙ append_assoc (drop offset before) (h ∷ []) (others s text hs))))
        ]

  -- After `HandlerDeregister` the method has exactly the handlers whose pattern has another text, in
  -- their order, and every other method has what it had. The texts of the patterns are taken to
  -- exist, as they do for patterns from `NewPattern`.
  pub handler_deregister-others :
      (meth : Text) (pat : Pattern) (mux : ServeMux H) (str : Text) (text : Handler H → Text)
      → Pattern.show pat ≡ ok str
      → All (λ h. Pattern.show h.pat ≡ ok (text h)) (handlers_of mux.handlers meth)
      → (mux' : ServeMux H) × (handler_deregister meth pat mux ≡ ok mux')
        × ((m : Text)
            → handlers_of mux'.handlers m ≡ (
                if text_eq meth m
                then others str text (handlers_of mux.handlers meth)
                else handlers_of mux.handlers m))
  unfolding handler_deregister
  handler_deregister-others meth pat mux str text shown all =
      from (handlers_of mux.handlers meth) refl all
    where
      none_left :
          (m : Text)
          → handlers_of mux.handlers meth ≡ []
          → handlers_of mux.handlers m ≡ (if text_eq meth m then [] else handlers_of mux.handlers m)
      none_left m e = elim (Bool-cases (text_eq meth m)) [
        | inl q ↦ rw q (ap (handlers_of mux.handlers) (sym (text_eq→eq meth m q)) ∙ e)
        | inr q ↦ rw q
      ]

      from :
          (hs : List (Handler H))
          → handlers_of mux.handlers meth ≡ hs
          → All (λ h. Pattern.show h.pat ≡ ok (text h)) hs
          → (mux' : ServeMux H) × (deregister_from hs meth pat mux ≡ ok mux')
            × ((m : Text)
                → handlers_of mux'.handlers m
                  ≡ (if text_eq meth m then others str text hs else handlers_of mux.handlers m))
      from [] e a = (mux, refl, λ m. none_left m e)
      from (h ∷ hs) e a =
          let new = others str text (h ∷ hs) in
          (
            record mux { handlers = set_handlers mux.handlers meth new },
            rw (collect-others pat str text shown (h ∷ hs) (h ∷ hs) [] [] 0 a refl (omega arith)),
            λ m. handlers_of-set_handlers mux.handlers meth m new,
          )
