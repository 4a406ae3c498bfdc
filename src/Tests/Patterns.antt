-- ===== src/Tests/Patterns.antt =====
-- runtime/pattern.go on the pattern of `/a/{n}:get`.
use grpc_gateway.Prelude.{
  ℤ, List, ◌≡◌, ◌≢◌, ◌↔◌, ◌≤◌, refl, [], ◌∷◌, Text, codes, length, text_eq, join, ok, fail, pos,
  arith, take, drop,
}
use grpc_gateway.Utilities.OpCode.{lit_push, push, concat_n, capture}
use grpc_gateway.HttpRule.Template.{wildcard, literal, variable, nil, cons, Template}
use grpc_gateway.HttpRule.Compile.{
  position, intern, operand, emit, fields_of, compile_segment, compile_segments, compile,
}
use grpc_gateway.Runtime.Pattern.{
  Pattern, build_op, build, new_pattern, panic, step_code, run, start_run, bind, bind_all,
  components_for, match, show_op, show_ops, show, Run, not_match,
}
use grpc_gateway.Runtime.Pattern.Spec.{IsWellFormed}
use grpc_gateway.Runtime.Pattern.Refines.{compiled_pattern, Means, match_iff}
use grpc_gateway.Runtime.Pattern.Built.{IsBuilt, new_pattern-IsBuilt}
use grpc_gateway.HttpRule.Template as Template_text
use grpc_gateway.Runtime.Pattern.Printed.{show-compile}
use grpc_gateway.Runtime.Pattern.Safety.{match-NoPanic, run-stack-bound}

abbrev pub item : Template
item = record {
  segments = cons (literal (codes "a")) (cons (variable (codes "n") (cons wildcard nil)) nil);
  verb = codes "get";
  template = codes "/a/{n}:get";
}

-- `Compile` makes these op codes of it, with the pool `item_pool`.
abbrev pub item_codes : List ℤ
item_codes = pos 2 ∷ pos 0 ∷ pos 1 ∷ pos 0 ∷ pos 4 ∷ pos 1 ∷ pos 5 ∷ pos 1 ∷ []

abbrev pub item_pool : List Text
item_pool = codes "a" ∷ codes "n" ∷ []

abbrev pub item_pattern : Pattern
item_pattern = record {
  ops =
      record { code = lit_push; operand = pos 0 }
      ∷ record { code = push; operand = pos 0 }
      ∷ record { code = concat_n; operand = pos 1 }
      ∷ record { code = capture; operand = pos 0 }
      ∷ [];
  pool = item_pool;
  vars = codes "n" ∷ [];
  stacksize = 2;
  tail_len = 0;
  verb = codes "get";
}

pub item_compiled : compiled_pattern item ≡ ok item_pattern
unfolding compile compile_segments compile_segment emit operand intern position text_eq fields_of
    new_pattern build build_op
item_compiled = refl

item_built : new_pattern (pos 1) item_codes item_pool (codes "get") ≡ ok item_pattern
unfolding new_pattern build build_op
item_built = refl

pub item_IsBuilt : IsBuilt item_pattern
item_IsBuilt =
    new_pattern-IsBuilt (pos 1) item_codes item_pool (codes "get") item_pattern item_built

item_IsWellFormed : IsWellFormed item.segments
item_IsWellFormed = (refl, (refl, omega arith, (tt, tt), tt))

pub item_match :
    match item_pattern (codes "a" ∷ codes "x" ∷ []) (codes "get") ≡ ok ((codes "n", codes "x") ∷ [])
unfolding match components_for run step_code text_eq join bind_all bind
item_match = refl

item_no_match : match item_pattern (codes "a" ∷ []) (codes "get") ≡ fail not_match
unfolding match components_for run step_code text_eq
item_no_match = refl

pub item_show : show item_pattern ≡ ok (codes "/a/{n=*}:get")
unfolding show show_ops show_op join
item_show = refl

match_iff_example :
    (match item_pattern (codes "a" ∷ codes "x" ∷ []) (codes "get")
      ≡ ok ((codes "n", codes "x") ∷ []))
    ↔ Means item (codes "a" ∷ codes "x" ∷ []) (codes "get") ((codes "n", codes "x") ∷ [])
match_iff_example =
    match_iff item item_pattern item_IsWellFormed (omega arith) item_compiled
      (codes "a" ∷ codes "x" ∷ []) (codes "get") ((codes "n", codes "x") ∷ [])

match-NoPanic_example : match item_pattern (codes "a" ∷ codes "x" ∷ []) (codes "get") ≢ fail panic
match-NoPanic_example =
    match-NoPanic (pos 1) item_codes item_pool (codes "get") item_pattern item_built
      (codes "a" ∷ codes "x" ∷ []) (codes "get")

-- The state after the two pushes.
abbrev pub item_pushed : Run
item_pushed = record { rest = []; stack = codes "x" ∷ codes "a" ∷ []; captured = [] ∷ [] }

item_run :
    run item_pattern (take 2 item_pattern.ops) (start_run item_pattern (codes "a" ∷ codes "x" ∷ []))
    ≡ ok item_pushed
unfolding run step_code text_eq
item_run = refl

run-stack-bound_example : length item_pushed.stack ≤ item_pattern.stacksize
run-stack-bound_example =
    run-stack-bound (pos 1) item_codes item_pool (codes "get") item_pattern item_built
      (take 2 item_pattern.ops) (drop 2 item_pattern.ops) refl (codes "a" ∷ codes "x" ∷ [])
      item_pushed item_run

show-compile_example : show item_pattern ≡ ok (Template_text.show item)
show-compile_example = show-compile item item_pattern item_IsWellFormed item_compiled
