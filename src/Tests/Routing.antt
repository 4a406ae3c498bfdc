-- ===== src/Tests/Routing.antt =====
-- runtime/mux.go and runtime/mux_dynamic.go with the handlers 7 and 8.
use grpc_gateway.Prelude.{
  ℕ, ◌≡◌, ◌≢◌, ◌⊎◌, refl, true, false, [], ◌∷◌, Text, codes, text_eq, if◌then◌else◌, ok, fail, All,
  has_suffix, pos,
}
use grpc_gateway.Utilities.OpCode.{lit_push}
use grpc_gateway.Runtime.Pattern
use grpc_gateway.Runtime.Pattern.{
  Pattern, Bindings, not_match, match, components_for, run, step_code, bind, bind_all, show_op,
  show_ops,
}
use grpc_gateway.Runtime.Http.{Request, get, values}
use grpc_gateway.Runtime.Mux
use grpc_gateway.Runtime.Mux.{
  Handler, Table, ServeMux, handled, routing_error, crashed, handlers_of, handle, stripped, strip,
  Routed, answered, unmatched, route,
}
use grpc_gateway.Runtime.Mux.Verb.{route-verb_leak}
use grpc_gateway.Runtime.Mux.Safety.{BuiltTable, serve_http-safe}
use grpc_gateway.Runtime.Mux.Dispatch.{
  HitsElsewhere, MissesElsewhere, dispatch-unmatched, dispatch-handle,
}
use grpc_gateway.Runtime.MuxDynamic
use grpc_gateway.Runtime.MuxDynamic.{calls, handler_deregister}
use grpc_gateway.Runtime.MuxDynamic.Answers.{answers}
use grpc_gateway.Runtime.MuxDynamic.Locking.{
  IsDisciplined, answers-serve_http, serve_http-IsDisciplined,
}
use grpc_gateway.Runtime.MuxDynamic.Deregister.{others, handler_deregister-others}
use grpc_gateway.Tests.Patterns.{item_pattern, item_match, item_show, item_IsBuilt}
use grpc_gateway.Runtime.MuxDynamic.Locking.{fresh}

-- `/z:b`
abbrev other_pattern : Pattern
other_pattern = record {
  ops = record { code = lit_push; operand = pos 0 } ∷ [];
  pool = codes "z" ∷ [];
  vars = [];
  stacksize = 1;
  tail_len = 0;
  verb = codes "b";
}

abbrev pub seven : Handler ℕ
seven = record { pat = item_pattern; h = 7 }

abbrev eight : Handler ℕ
eight = record { pat = other_pattern; h = 8 }

abbrev pub mux : ServeMux ℕ
mux = record { handlers = (codes "GET", seven ∷ []) ∷ []; disable_path_length_fallback = false }

abbrev pub post : Request
post = record { method = codes "POST"; path = codes "/a/x:get"; header = []; form_ok = true }

abbrev pub fetch : Request
fetch = record post { method = codes "GET" }

other_match : match other_pattern (codes "a" ∷ codes "x:get" ∷ []) (codes "b") ≡ fail not_match
unfolding match components_for run step_code text_eq
other_match = refl

route-verb_leak_example :
    route (eight ∷ seven ∷ []) (codes "a" ∷ codes "x:get:b" ∷ []) []
    ≡ answered (handled 7 ((codes "n", codes "x") ∷ []))
route-verb_leak_example =
    route-verb_leak (codes "a" ∷ []) b'x' [] seven [] eight ((codes "n", codes "x") ∷ []) refl refl
      other_match item_match

mux_BuiltTable : BuiltTable mux.handlers
mux_BuiltTable = ((item_IsBuilt, tt), tt)

serve_http-safe_example : Mux.serve_http mux fetch ≢ crashed
serve_http-safe_example = serve_http-safe mux fetch mux_BuiltTable

post_unmatched :
    route (handlers_of mux.handlers (codes "POST")) (codes "a" ∷ codes "x:get" ∷ []) []
    ≡ unmatched (codes "a" ∷ codes "x:get" ∷ []) []
unfolding route handlers_of text_eq
post_unmatched = refl

post_plain : Mux.is_path_length_fallback mux post ≡ false
unfolding Mux.is_path_length_fallback text_eq get values
post_plain = refl

dispatch-unmatched_example :
    ((Mux.dispatch mux post (codes "a" ∷ codes "x:get" ∷ []) ≡ routing_error 405)
      × HitsElsewhere (codes "a" ∷ codes "x:get" ∷ []) [] (codes "POST") mux.handlers)
    ⊎ ((Mux.dispatch mux post (codes "a" ∷ codes "x:get" ∷ []) ≡ routing_error 404)
        × MissesElsewhere (codes "a" ∷ codes "x:get" ∷ []) [] (codes "POST") mux.handlers)
dispatch-unmatched_example =
    dispatch-unmatched mux post (codes "a" ∷ codes "x:get" ∷ []) (codes "a" ∷ codes "x:get" ∷ []) []
      mux_BuiltTable post_plain post_unmatched

item_stripped :
    strip (codes "get") (codes "a" ∷ codes "x:get" ∷ []) []
    ≡ stripped (codes "a" ∷ codes "x" ∷ []) (codes "get")
unfolding strip has_suffix text_eq
item_stripped = refl

dispatch-handle_example :
    Mux.dispatch (handle (codes "GET") item_pattern 9 mux) fetch (codes "a" ∷ codes "x:get" ∷ [])
    ≡ handled 9 ((codes "n", codes "x") ∷ [])
dispatch-handle_example =
    dispatch-handle mux (codes "GET") item_pattern 9 fetch (codes "a" ∷ codes "x:get" ∷ [])
      (codes "a" ∷ codes "x" ∷ []) (codes "get") ((codes "n", codes "x") ∷ []) refl item_stripped
      item_match

answers-serve_http_example :
    answers (MuxDynamic.serve_http mux fetch) ≡ Mux.serve_http mux fetch ∷ []
answers-serve_http_example = answers-serve_http mux fetch

serve_http-IsDisciplined_example : IsDisciplined fresh (MuxDynamic.serve_http mux fetch)
serve_http-IsDisciplined_example =
    serve_http-IsDisciplined mux fetch (serve_http-safe mux fetch mux_BuiltTable)

shown :
    All
      (λ h. Pattern.show h.pat ≡ ok (codes "/a/{n=*}:get"))
      (handlers_of mux.handlers (codes "GET"))
unfolding handlers_of text_eq
shown = (item_show, tt)

handler_deregister-others_example :
    (mux' : ServeMux ℕ) × (handler_deregister (codes "GET") item_pattern mux ≡ ok mux')
    × ((m : Text)
        → handlers_of mux'.handlers m ≡ (
            if text_eq (codes "GET") m
            then others
                (codes "/a/{n=*}:get")
                (λ h. codes "/a/{n=*}:get")
                (handlers_of mux.handlers (codes "GET"))
            else handlers_of mux.handlers m))
handler_deregister-others_example =
    handler_deregister-others (codes "GET") item_pattern mux (codes "/a/{n=*}:get")
      (λ h. codes "/a/{n=*}:get") item_show shown
