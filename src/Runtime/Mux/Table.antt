-- ===== src/Runtime/Mux/Table.antt =====
-- runtime/mux.go: the map from methods to handlers.
use grpc_gateway.Prelude.{
  ◌≡◌, refl, List, [], ◌∷◌, Text, text_eq, text_eq_iff, if◌then◌else◌, arith,
}
use grpc_gateway.Runtime.Pattern.{Pattern}
use grpc_gateway.Runtime.Mux.{Handler, Table, ServeMux, handlers_of, set_handlers, handle}

module _ {H : Type 0} where
  pub handlers_of-set_handlers :
      (t : Table H) (meth m : Text) (hs : List (Handler H))
      → handlers_of (set_handlers t meth hs) m ≡ (if text_eq meth m then hs else handlers_of t m)
  unfolding handlers_of set_handlers
  handlers_of-set_handlers [] meth m hs = refl
  handlers_of-set_handlers ((k, old) ∷ t) meth m hs = ground (
    arith,
    text_eq_iff k meth,
    text_eq_iff k m,
    text_eq_iff meth m,
    handlers_of-set_handlers t meth m hs,
  )

  -- `Handle` puts the new handler in front of those of its method, and leaves the other methods.
  pub handlers_of-handle :
      (meth m : Text) (pat : Pattern) (h : H) (s : ServeMux H)
      → handlers_of (handle meth pat h s).handlers m ≡ (
          if text_eq meth m
          then record { pat = pat; h = h } ∷ handlers_of s.handlers meth
          else handlers_of s.handlers m)
  unfolding handle
  handlers_of-handle meth m pat h s = handlers_of-set_handlers s.handlers meth m _
