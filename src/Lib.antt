-- ===== src/Lib.antt =====
-- grpc-gateway: a proxy that serves gRPC services as HTTP and JSON.
--
-- The program has two halves. Code generators read service descriptions and write Go code; a runtime
-- library serves the requests. Both meet in path templates such as `/v1/{name=shelves/*}:get`:
-- internal/httprule parses a template (`Parse`) and compiles it to op codes (`Compile`), generated
-- code hands the op codes to `NewPattern` of runtime/pattern.go, and the multiplexers of
-- runtime/mux.go and runtime/mux_dynamic.go try patterns on the path of a request (`Match`) to find
-- the handler. This development models that road, from the text of a template to the handler that
-- is called, and the registry of descriptors that the generators fill with templates and parameters.
--
-- Files, each with the code that it models:
--   Prelude: shared lists, byte texts (`strings` of Go), results, Boolean tests, integers,
--     maps from strings, decimal numbers.
--   Utilities/OpCode: utilities/pattern.go, the op codes.
--   Utilities/Trie: utilities/trie.go (`NewDoubleArray`, `HasCommonPrefix`). Trie/Space is about the search for free
--     slots, Trie/Rows about the encoded rows and the children of a node, Trie/Total about termination and bounds.
--   HttpRule/Template: internal/httprule/types.go, segments and their printers.
--   HttpRule/Chars, Tokenize, Parse: internal/httprule/parse.go (`expectPChars`, `expectIdent`,
--     `tokenize`, the `parser` methods, `Parse`). Parse/Good and Parse/Total are about its termination;
--     Tokenize/Grammar, Tokenize/Shape, Parse/Kinds and Parse/WellFormed about the shape of what is parsed.
--   HttpRule/Compile: internal/httprule/compile.go. Compile/Pool is about its pool of constants.
--   Runtime/Pattern: runtime/pattern.go (`NewPattern` is `new_pattern`, `Pattern.Match` is `match`,
--     `Pattern.String` is `show`). Pattern/Spec says what a template means without op codes;
--     Pattern/Valid, Link, Exec, Width, Atoms, Sound, Complete and Refines lead from the op codes to that meaning;
--     Pattern/Built and Safety are about stack and index bounds, Pattern/Deep about deep wildcards,
--     Pattern/Printed about `String`, Pattern/Bound about the variables that a match binds.
--   Runtime/Http: requests, headers, `DefaultHeaderMatcher` of runtime/mux.go and
--     `isPermanentHTTPHeader` of runtime/context.go.
--   Runtime/Mux: runtime/mux.go (`Handle`, `HandlePath`, `ServeHTTP`). Mux/Table, Verb, Dispatch, Path
--     and Safety are about the table of handlers, the verb of a path, the choice of the answer, `HandlePath`, panics.
--   Runtime/MuxDynamic: runtime/mux_dynamic.go. Its loops are translated on their own, with the
--     events of the lock. MuxDynamic/Answers and Locking compare the answers with those of the plain multiplexer and follow
--     the lock; MuxDynamic/Deregister is about `HandlerDeregister`.
--   Runtime/Status: the codes of runtime/errors.go (`HTTPStatusFromCode`, `DefaultRoutingErrorHandler`).
--     Status/Routing follows the refusals of `ServeHTTP` through both default error handlers.
--   Runtime/Writer: what the runtime does to an `http.ResponseWriter`.
--   Runtime/Forward: runtime/handler.go (`ForwardResponseMessage`) and `DefaultHTTPErrorHandler` of
--     runtime/errors.go. Forward/Stream is `ForwardResponseStream`; Forward/Errors is about the error
--     handler.
--   Runtime/MarshalerRegistry: runtime/marshaler_registry.go. MarshalerRegistry/Choice is about the
--     marshalers that a request gets.
--   Runtime/Timeout: `timeoutDecode` of runtime/context.go. Timeout/Exact is about its range.
--   Runtime/Annotate: `annotateContext` and `decodeBinHeader` of runtime/context.go. Annotate/Keys is
--     about the keys of the metadata.
--   Runtime/TransportStream: `ServerTransportStream` of runtime/context.go. TransportStream/Log is about
--     sequences of its calls.
--   Runtime/FieldMask: runtime/fieldmask.go. FieldMask/Counts, Blind and Leaves compare the loops over
--     queues with recursion on the JSON value.
--   Runtime/Query/Fields, Parse: runtime/query.go (`parseField`, `parseMessage`; the walk along a field path and
--     `Parse`). Query/Calm and Safety are about panics, Query/Filter about the filter.
--   Casing: internal/casing/camel.go (`Camel`). Casing/Idempotent is about the names that it makes.
--   Descriptor/Protos, Types, Convert: the descriptors that internal/descriptor reads, and
--     internal/descriptor/types.go.
--   Descriptor/Registry: internal/descriptor/registry.go. Registry/Scopes, Names, Contents, Declared, Lookup are about
--     the lookup of names; Registry/Pigeons, Aliases, Unique about the aliases of Go packages.
--   Descriptor/Services: internal/descriptor/services.go. Services/Steps and Paths are about field paths,
--     Services/Bindings about the bindings of a method, Services/Handlers joins them with the matches
--     of the runtime, Services/Converters is about the converters of path parameters.
--   Tests: runs on small inputs.
--
-- State and errors. A text is the list of its bytes. A Go error or panic is a value of a type of
-- errors, and a panic has a constructor of its own (`panic`, `crashed`, `empty_tokens`). A Go map is
-- an association list; where Go walks a map, the order of the list stands for the order in which the
-- run happens to walk it. The handler functions are values of an arbitrary type, and serving a
-- request returns which function is called last and with what. The marshaler, the error handlers,
-- the options and the connection are fields of a record of functions that the functions of
-- runtime/handler.go take. Events of the read-write lock are recorded in order.
--
-- A message that query parameters are written into is a value of any type with the operations of
-- protoreflect as a record of functions; so are the parsers of numbers, times and base64.
--
-- Fuel. The parser calls itself to a depth that the tokens bound; `fuel_for` gives three units for
-- each token and three more, and `out_of_fuel` marks a model that ran out. The tokenizer has a unit
-- for each byte. The loop of `loadFile` over numbered aliases has one unit more than aliases are taken.
-- The loops of runtime/fieldmask.go have one unit more than the JSON value has values.
-- The search for free slots in the double array has two units more than the array has entries, its
-- recursion one for each column of the longest row.
--
-- Pointers between descriptors, such as the one from a message to its file, are the values that they
-- point to; the pointer from a binding to its method is left out, since only texts of errors use it.
--
-- Not modelled: the generators, the marshalers themselves, the annotators of the multiplexer, the texts
-- of error messages, logging, and the options of the multiplexers, which only fill fields. The parsers
-- of forms, of media types and of addresses, and base64, are no part of the repository: they are
-- arguments, or their results are a field of a request.
pub mod Prelude
pub mod Utilities
pub mod HttpRule
pub mod Runtime
pub mod Casing
pub mod Descriptor
pub mod Tests
