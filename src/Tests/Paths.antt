-- ===== src/Tests/Paths.antt =====
-- runtime/mux.go: a handler registered by the text of a template.
use grpc_gateway.Prelude.{◌≡◌, refl, codes, ok, arith}
use grpc_gateway.HttpRule.Template.{Template}
use grpc_gateway.HttpRule.Parse.WellFormed.{parse-IsWellFormed}
use grpc_gateway.Runtime.Pattern.{Pattern}
use grpc_gateway.Runtime.Pattern.Spec.{IsWellFormed}
use grpc_gateway.Runtime.Mux.{handle, handle_path}
use grpc_gateway.Runtime.Mux.Path.{Stands, handle_path-Stands, handle_path-parse}
use grpc_gateway.Tests.Patterns.{item, item_pattern, item_compiled}
use grpc_gateway.Tests.Templates.{parse-item}
use grpc_gateway.Tests.Routing.{mux}

register_item :
    handle_path (codes "GET") (codes "/a/{n}:get") 7 mux
    ≡ ok (handle (codes "GET") item_pattern 7 mux)
unfolding handle_path
register_item = rw (parse-item, item_compiled) refl

parse-IsWellFormed_example : IsWellFormed item.segments
parse-IsWellFormed_example = parse-IsWellFormed (codes "/a/{n}:get") item parse-item

handle_path-Stands_example :
    (t : Template) × (p : Pattern) × (handle (codes "GET") item_pattern 7 mux
      ≡ handle (codes "GET") p 7 mux)
    × Stands (codes "/a/{n}:get") t p
handle_path-Stands_example =
    handle_path-Stands (codes "GET") 7 mux (codes "/a/{n}:get")
      (handle (codes "GET") item_pattern 7 mux) register_item

handle_path-parse_example :
    (p : Pattern) × (handle_path (codes "GET") (codes "/a/{n}:get") 7 mux
      ≡ ok (handle (codes "GET") p 7 mux))
handle_path-parse_example =
    handle_path-parse (codes "GET") 7 mux (codes "/a/{n}:get") item parse-item (omega arith)
