-- ===== src/Tests/Templates.antt =====
-- internal/httprule: the parser and the compiler on sample templates.
use grpc_gateway.Prelude.{
  ◌≡◌, refl, [], ◌∷◌, Text, codes, text_eq, has_prefix, split_any, split_first, split_last,
  contains_byte, join, Result, ok, fail, pos,
}
use grpc_gateway.HttpRule.Template.{wildcard, literal, variable, nil, cons, Template}
use grpc_gateway.HttpRule.Chars.{
  is_hex_digit, is_plain, pchars, expect_pchars, is_ident_char, ident_chars, expect_ident,
}
use grpc_gateway.HttpRule.Tokenize.{scan, take_verb, tokenize}
use grpc_gateway.HttpRule.Parse.{
  ParseError, unexpected_term, fits, accept_in, accept, field_path_loop, field_path, close_variable,
  parse_segments, segments_loop, parse_segment, parse_variable, top_level_segments, parse,
}
use grpc_gateway.HttpRule.Parse.Total.{Ends, parse-Ends}
use grpc_gateway.Utilities.OpCode.{push, capture}
use grpc_gateway.HttpRule.Compile.{
  RawOp, Compiled, position, intern, operand, emit, fields_of, compile_segment, compile_segments,
  compile,
}
use grpc_gateway.Tests.Patterns.{item}

run_parse : Text → Result ParseError Template
unfolding parse has_prefix text_eq tokenize scan take_verb split_any split_first split_last
    contains_byte top_level_segments parse_segments segments_loop parse_segment parse_variable
    accept accept_in fits field_path field_path_loop close_variable join expect_pchars pchars
    is_plain is_hex_digit expect_ident ident_chars is_ident_char
run_parse s = parse s

run_compile : Template → Compiled
unfolding compile position text_eq intern operand emit fields_of compile_segment compile_segments
run_compile t = compile t

abbrev shelf : Template
shelf = record {
  segments =
      cons (literal (codes "v1"))
        (cons (variable (codes "name") (cons (literal (codes "shelves")) (cons wildcard nil))) nil);
  verb = codes "get";
  template = codes "/v1/{name=shelves/*}:get";
}

parse_shelf : run_parse (codes "/v1/{name=shelves/*}:get") ≡ ok shelf
unfolding run_parse
parse_shelf = refl

-- A slash is taken where the parser looks for a star.
parse_slashes :
    run_parse (codes "///a")
    ≡ ok (record {
      segments = cons wildcard (cons (literal (codes "a")) nil);
      verb = [];
      template = codes "///a";
    })
unfolding run_parse
parse_slashes = refl

parse_double : run_parse (codes "/a//b") ≡ fail unexpected_term
unfolding run_parse
parse_double = refl

compile_shelf :
    (run_compile shelf).op_codes
    ≡ pos 2 ∷ pos 0 ∷ pos 2 ∷ pos 1 ∷ pos 1 ∷ pos 0 ∷ pos 4 ∷ pos 2 ∷ pos 5 ∷ pos 2 ∷ []
unfolding run_compile
compile_shelf = refl

parse-Ends_example : Ends (parse (codes "/v1/{name=shelves/*}:get"))
parse-Ends_example = parse-Ends (codes "/v1/{name=shelves/*}:get")

abbrev star_op : RawOp
star_op = record { code = push; str = []; num = 0 }

abbrev name_op : RawOp
name_op = record { code = capture; str = codes "name"; num = 0 }

pub parse-item : parse (codes "/a/{n}:get") ≡ ok item
unfolding run_parse
parse-item = refl
