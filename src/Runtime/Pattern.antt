-- ===== src/Runtime/Pattern.antt =====
-- runtime/pattern.go: `NewPattern`, `Match`, `Verb` and `String`.
-- A stack is a list with its top in front. `panic` is an index or a slice out of range.
pub mod Bound
pub mod Printed
pub mod Built
pub mod Link
pub mod Exec
pub mod Spec
pub mod Atoms
pub mod Sound
pub mod Width
pub mod Complete
pub mod Valid
pub mod Refines
pub mod Deep
pub mod Safety
use grpc_gateway.Prelude.{
  ℕ, zero, suc, ◌+◌, ◌-◌, Bool, true, false, List, [], ◌∷◌, ◌++◌, Option, none, some, Text, codes,
  length, get_elem?, set, take, drop, replicate, ltb, leb, ◌==◌, if◌then◌else◌, text_eq, join,
  slash, is_empty, reverse, Result, ok, fail, ◌>>=◌, ℤ, pos, negsuc, at_index,
}
use grpc_gateway.Utilities.OpCode.{
  OpCode, nop, push, lit_push, push_m, concat_n, capture, invalid, decode,
}

-- The struct `op`
pub record Op : Type 0 where
  pub code : OpCode
  pub operand : ℤ

pub record Pattern : Type 0 where
  pub ops : List Op
  pub pool : List Text
  pub vars : List Text
  pub stacksize : ℕ
  pub tail_len : ℕ
  pub verb : Text

pub data PatternError : Type 0 where
  invalid_pattern : PatternError

-- The variables of the loop of `NewPattern`.
pub record Build : Type 0 where
  pub typed_ops : List Op
  pub stack : ℕ
  pub maxstack : ℕ
  pub tail_len : ℕ
  pub push_m_seen : Bool
  pub vars : List Text

-- `maxstack` and `typedOps` after the switch.
abbrev pub record_op : OpCode → ℤ → Build → Build
record_op code n b = record b {
  typed_ops = b.typed_ops ++ record { code = code; operand = n } ∷ [];
  maxstack = if ltb b.maxstack b.stack then b.stack else b.maxstack;
}

abbrev pub push_one : Build → Build
push_one b = record b {
  stack = b.stack + 1;
  tail_len = if b.push_m_seen then b.tail_len + 1 else b.tail_len;
}

-- `stack -= n`, which fails below 0, and `stack++`
abbrev pub concat_stack : ℕ → ℤ → Build → Result PatternError Build
concat_stack n operand b =
    if ltb b.stack n
    then fail invalid_pattern
    else ok (record_op concat_n operand (record b { stack = b.stack - n + 1 }))

abbrev pub bind_variable : Text → Build → Result PatternError Build
bind_variable v b =
    if b.stack == 0
    then fail invalid_pattern
    else ok (
        record_op capture (pos (length b.vars))
          (record b { vars = b.vars ++ v ∷ []; stack = b.stack - 1 }))

abbrev pub concat_op : ℤ → Build → Result PatternError Build
concat_op (negsuc n) b = fail invalid_pattern
concat_op (pos zero) b = fail invalid_pattern
concat_op (pos (suc n)) b = concat_stack (suc n) (pos (suc n)) b

-- One round of the loop: the switch on the op code.
unfoldable pub build_op : List Text → OpCode → ℤ → Build → Result PatternError Build
build_op pool nop n b = ok b
build_op pool push n b = ok (record_op push n (push_one b))
build_op pool push_m n b =
    if b.push_m_seen
    then fail invalid_pattern
    else ok (record_op push_m n (record b { push_m_seen = true; stack = b.stack + 1 }))
build_op pool lit_push n b = elim (at_index pool n) [
  | none ↦ fail invalid_pattern
  | some _ ↦ ok (record_op lit_push n (push_one b))
]
build_op pool concat_n n b = concat_op n b
build_op pool capture n b = elim (at_index pool n) [
  | none ↦ fail invalid_pattern
  | some v ↦ bind_variable v b
]
build_op pool invalid n b = fail invalid_pattern

-- The loop of `NewPattern`; a number left alone is the check of the length, made before the loop.
unfoldable pub build : List Text → List ℤ → Build → Result PatternError Build
build pool [] b = ok b
build pool (c ∷ []) b = fail invalid_pattern
build pool (c ∷ n ∷ ops) b = do b₁ ← build_op pool (decode c) n b; build pool ops b₁

abbrev pub empty_build : Build
empty_build = record {
  typed_ops = [];
  stack = 0;
  maxstack = 0;
  tail_len = 0;
  push_m_seen = false;
  vars = [];
}

abbrev pub pattern_of : List Text → Text → Build → Pattern
pattern_of pool verb b = record {
  ops = b.typed_ops;
  pool = pool;
  vars = b.vars;
  stacksize = b.maxstack;
  tail_len = b.tail_len;
  verb = verb;
}

abbrev pub is_one : ℤ → Bool
is_one (pos n) = n == 1
is_one (negsuc n) = false

-- `NewPattern`
unfoldable pub new_pattern : ℤ → List ℤ → List Text → Text → Result PatternError Pattern
new_pattern version ops pool verb =
    if is_one version
    then (do b ← build pool ops empty_build; ok (pattern_of pool verb b))
    else fail invalid_pattern

pub data MatchError : Type 0 where
  not_match panic : MatchError

-- The variables of the loop of `Match`: the components from `pos` on, `stack` and `captured`.
pub record Run : Type 0 where
  pub rest : List Text
  pub stack : List Text
  pub captured : List Text

abbrev pub or_panic {ℓ} : {A : Type ℓ} → Option A → Result MatchError A
or_panic none = fail panic
or_panic (some a) = ok a

abbrev pub push_component : List Text → Run → Result MatchError Run
push_component [] r = fail not_match
push_component (c ∷ cs) r = ok (record r { rest = cs; stack = c ∷ r.stack })

abbrev pub push_literal : Text → List Text → Run → Result MatchError Run
push_literal lit [] r = fail not_match
push_literal lit (c ∷ cs) r =
    if text_eq c lit then ok (record r { rest = cs; stack = c ∷ r.stack }) else fail not_match

-- The pool is read only behind the check of the components.
abbrev pub push_from_pool : Option Text → List Text → Run → Result MatchError Run
push_from_pool o [] r = fail not_match
push_from_pool o (c ∷ cs) r = do lit ← or_panic o; push_literal lit (c ∷ cs) r

-- The components but the last `tailLen` of them, joined.
abbrev pub push_many : ℕ → Run → Result MatchError Run
push_many tail_len r =
    if ltb (length r.rest) tail_len
    then fail not_match
    else let n = length r.rest - tail_len in
      ok (record r { rest = drop n r.rest; stack = join slash (take n r.rest) ∷ r.stack })

-- `append(stack[:l], strings.Join(stack[l:], "/"))`
abbrev pub concat_top : ℕ → List Text → Result MatchError (List Text)
concat_top n stack =
    if ltb (length stack) n
    then fail panic
    else ok (join slash (reverse (take n stack)) ∷ drop n stack)

abbrev pub concat_any : ℤ → List Text → Result MatchError (List Text)
concat_any (pos n) stack = concat_top n stack
concat_any (negsuc n) stack = fail panic

-- `captured[i] = v`
abbrev pub store_at : ℤ → Text → List Text → Result MatchError (List Text)
store_at (pos i) v captured = if ltb i (length captured) then ok (set captured i v) else fail panic
store_at (negsuc i) v captured = fail panic

abbrev pub pop_capture : ℤ → List Text → Run → Result MatchError Run
pop_capture i [] r = fail panic
pop_capture i (v ∷ stack) r = do
  captured ← store_at i v r.captured
  ok (record r { captured = captured; stack = stack })

-- One round of the loop of `Match`.
unfoldable pub step_code : Pattern → OpCode → ℤ → Run → Result MatchError Run
step_code p push n r = push_component r.rest r
step_code p lit_push n r = push_from_pool (at_index p.pool n) r.rest r
step_code p push_m n r = push_many p.tail_len r
step_code p concat_n n r = do stack ← concat_any n r.stack; ok (record r { stack = stack })
step_code p capture n r = pop_capture n r.stack r
step_code p nop n r = ok r
step_code p invalid n r = ok r

unfoldable pub run : Pattern → List Op → Run → Result MatchError Run
run p [] r = ok r
run p (o ∷ ops) r = do r₁ ← step_code p o.code o.operand r; run p ops r₁

-- A Go map from texts to texts, as an association list with one entry for a key.
abbrev pub Bindings : Type 0
Bindings = List (Text × Text)

unfoldable pub lookup : Text → Bindings → Option Text
lookup k [] = none
lookup k ((j, v) ∷ m) = if text_eq j k then some v else lookup k m

unfoldable pub bind : Text → Text → Bindings → Bindings
bind k v [] = (k, v) ∷ []
bind k v ((j, w) ∷ m) = if text_eq j k then (k, v) ∷ m else (j, w) ∷ bind k v m

-- The loop that fills `bindings`: `p.vars[i]` panics past the end.
unfoldable pub bind_all : List Text → List Text → Bindings → Result MatchError Bindings
bind_all vars [] m = ok m
bind_all [] (v ∷ vs) m = fail panic
bind_all (k ∷ ks) (v ∷ vs) m = bind_all ks vs (bind k v m)

-- `components[len(components)-1] += ":" + verb`, and the one component for none.
unfoldable pub append_verb : Text → List Text → List Text
append_verb verb [] = (codes ":" ++ verb) ∷ []
append_verb verb (c ∷ []) = (c ++ (codes ":" ++ verb)) ∷ []
append_verb verb (c ∷ d ∷ cs) = c ∷ append_verb verb (d ∷ cs)

-- The components that the loop walks, by the verb of the pattern and of the request.
unfoldable pub components_for : Text → List Text → Text → Result MatchError (List Text)
components_for pat_verb components verb =
    if text_eq pat_verb verb
    then ok components
    else if is_empty pat_verb
    then ok (append_verb verb components)
    else fail not_match

abbrev pub finish : List Text → Run → Result MatchError Bindings
finish vars r = if is_empty r.rest then bind_all vars r.captured [] else fail not_match

-- The variables of `Match` before its loop.
abbrev pub start_run : Pattern → List Text → Run
start_run p cs = record { rest = cs; stack = []; captured = replicate (length p.vars) [] }

-- `Pattern.Match`
unfoldable pub match : Pattern → List Text → Text → Result MatchError Bindings
match p components verb = do
  cs ← components_for p.verb components verb
  r ← run p p.ops (start_run p cs)
  finish p.vars r

-- `String` works on a stack too. The capture rewrites the top.
abbrev pub show_capture : List Text → ℤ → List Text → Result MatchError (List Text)
show_capture vars n [] = fail panic
show_capture vars n (s ∷ stack) = do
  v ← or_panic (at_index vars n)
  ok ((codes "{" ++ (v ++ (codes "=" ++ (s ++ codes "}")))) ∷ stack)

unfoldable pub show_op : Pattern → OpCode → ℤ → List Text → Result MatchError (List Text)
show_op p push n stack = ok (codes "*" ∷ stack)
show_op p lit_push n stack = do lit ← or_panic (at_index p.pool n); ok (lit ∷ stack)
show_op p push_m n stack = ok (codes "**" ∷ stack)
show_op p concat_n n stack = concat_any n stack
show_op p capture n stack = show_capture p.vars n stack
show_op p nop n stack = ok stack
show_op p invalid n stack = ok stack

unfoldable pub show_ops : Pattern → List Op → List Text → Result MatchError (List Text)
show_ops p [] stack = ok stack
show_ops p (o ∷ ops) stack = do s ← show_op p o.code o.operand stack; show_ops p ops s

abbrev pub show_with_verb : Text → Text → Text
show_with_verb segs verb =
    if is_empty verb then slash ++ segs else slash ++ (segs ++ (codes ":" ++ verb))

-- `Pattern.String`
unfoldable pub show : Pattern → Result MatchError Text
show p = do stack ← show_ops p p.ops []; ok (show_with_verb (join slash (reverse stack)) p.verb)
