-- ===== src/Runtime/Pattern/Safety.antt =====
-- runtime/pattern.go: what `NewPattern` checks is what `Match` and `String` rely on.
use grpc_gateway.Prelude.{
  ℕ, suc, ◌+◌, ◌-◌, ◌≤◌, ◌<◌, ◌≡◌, ◌≢◌, refl, ◌∙◌, List, [], ◌∷◌, ◌++◌, some, Text, length, Result,
  ok, fail, Post, Post-bind, ℤ, pos, negsuc, arith, get_elem?-lt, length-set, length-drop,
  length-replicate, subst, join, slash, reverse,
}
use grpc_gateway.Runtime.Pattern.Built.{OpFits, Fits, IsBuilt, new_pattern-IsBuilt}
use grpc_gateway.Utilities.OpCode.{OpCode, nop, push, lit_push, push_m, concat_n, capture, invalid}
use grpc_gateway.Runtime.Pattern.{
  Op, Pattern, new_pattern, MatchError, panic, Run, step_code, run, match, Bindings, bind, bind_all,
  finish, components_for, push_component, push_literal, push_from_pool, push_many, concat_top,
  pop_capture, store_at, start_run, show, show_ops, show_op, show_with_verb,
}

-- What `Match` keeps while it runs: the depth of the stack, and room for every variable.
abbrev Holds : ℕ → ℕ → Run → Type 0
Holds vars d r = (length r.stack ≡ d) × (length r.captured ≡ vars)

abbrev pub NoPanic : MatchError → Type 0
NoPanic e = e ≢ panic

module _ (vars d : ℕ) (r : Run) (h : Holds vars d r) where
  push_component-Holds : (cs : List Text) → Post (Holds vars (d + 1)) NoPanic (push_component cs r)
  push_component-Holds [] = cc
  push_component-Holds (c ∷ cs) = omega arith

  push_literal-Holds :
      (lit : Text) (cs : List Text) → Post (Holds vars (d + 1)) NoPanic (push_literal lit cs r)
  push_literal-Holds lit [] = cc
  push_literal-Holds lit (c ∷ cs) = ground arith

  push_from_pool-Holds :
      (t : Text) (cs : List Text) → Post (Holds vars (d + 1)) NoPanic (push_from_pool (some t) cs r)
  push_from_pool-Holds t [] = cc
  push_from_pool-Holds t (c ∷ cs) = push_literal-Holds t (c ∷ cs)

  push_many-Holds : (t : ℕ) → Post (Holds vars (d + 1)) NoPanic (push_many t r)
  push_many-Holds t = ground arith

  concat_top-Holds :
      (k : ℕ) → k ≤ d → Post (λ s. length s ≡ d - k + 1) NoPanic (concat_top k r.stack)
  concat_top-Holds k le = ground (arith, length-drop k r.stack)

  store_at-Holds :
      (i : ℕ) (v : Text)
      → i < vars
      → Post (λ c. length c ≡ vars) NoPanic (store_at (pos i) v r.captured)
  store_at-Holds i v lt = ground (arith, length-set r.captured i v)

pop_capture-Holds :
    (vars i d : ℕ) (stack : List Text) (r : Run)
    → i < vars
    → length stack ≡ suc d
    → length r.captured ≡ vars
    → Post (Holds vars d) NoPanic (pop_capture (pos i) stack r)
pop_capture-Holds vars i d [] r lt e c = absurd (omega arith)
pop_capture-Holds vars i d (v ∷ stack) r lt e c = ground (arith, length-set r.captured i v)

step_code-Holds :
    (p : Pattern) (vars : ℕ) (c : OpCode) (n : ℤ) (d d' : ℕ) (r : Run)
    → OpFits p.pool vars c n d d'
    → Holds vars d r
    → Post (Holds vars d') NoPanic (step_code p c n r)
unfolding step_code
step_code-Holds p vars nop n d d' r f h = ground arith
step_code-Holds p vars push n d d' r f h = rw f (push_component-Holds vars d r h r.rest)
step_code-Holds p vars lit_push n d d' r f h =
    rw (f.0.1, f.1) (push_from_pool-Holds vars d r h f.0.0 r.rest)
step_code-Holds p vars push_m n d d' r f h = rw f (push_many-Holds vars d r h p.tail_len)
step_code-Holds p vars concat_n (pos k) d d' r f h = ground (arith, concat_top-Holds vars d r h k)
step_code-Holds p vars concat_n (negsuc k) d d' r f h = absurd f
step_code-Holds p vars capture (pos i) d d' r f h =
    pop_capture-Holds vars i d' r.stack r f.0 (h.0 ∙ f.1) h.1
step_code-Holds p vars capture (negsuc k) d d' r f h = absurd f
step_code-Holds p vars invalid n d d' r f h = ground arith

run-Holds :
    (p : Pattern) (vars cap : ℕ) (ops : List Op) (d d' : ℕ) (r : Run)
    → Fits p.pool vars cap ops d d'
    → Holds vars d r
    → Post (Holds vars d') NoPanic (run p ops r)
unfolding run
run-Holds p vars cap [] d d' r f h = (h.0 ∙ f, h.1)
run-Holds p vars cap (o ∷ ops) d d' r (m, first, _, later) h =
    Post-bind (Holds vars m) (Holds vars d') NoPanic (step_code p o.code o.operand r) (run p ops)
      (step_code-Holds p vars o.code o.operand d m r first h)
      λ r₁ h₁. run-Holds p vars cap ops m d' r₁ later h₁

bind_all-NoPanic :
    (vars vals : List Text) (m : Bindings)
    → length vals ≡ length vars
    → Post (λ _. Unit) NoPanic (bind_all vars vals m)
unfolding bind_all
bind_all-NoPanic vars [] m e = tt
bind_all-NoPanic [] (v ∷ vs) m e = absurd (omega arith)
bind_all-NoPanic (k ∷ ks) (v ∷ vs) m e = bind_all-NoPanic ks vs (bind k v m) (omega arith)

finish-NoPanic :
    (vars : List Text) (d : ℕ) (r : Run)
    → Holds (length vars) d r
    → Post (λ _. Unit) NoPanic (finish vars r)
finish-NoPanic vars d r h = ground (arith, bind_all-NoPanic vars r.captured [])

components_for-NoPanic :
    (pat_verb : Text) (components : List Text) (verb : Text)
    → Post (λ _. Unit) NoPanic (components_for pat_verb components verb)
unfolding components_for
components_for-NoPanic pat_verb components verb = ground arith

pub match-Post :
    (p : Pattern)
    → IsBuilt p
    → (cs : List Text) (verb : Text) → Post (λ _. Unit) NoPanic (match p cs verb)
unfolding match
match-Post p (d, f) components verb =
    Post-bind (λ _. Unit) (λ _. Unit) NoPanic (components_for p.verb components verb) _
      (components_for-NoPanic p.verb components verb)
      λ cs _.
        Post-bind (Holds (length p.vars) d) (λ _. Unit) NoPanic _ (finish p.vars)
          (run-Holds p (length p.vars) p.stacksize p.ops 0 d _ f
            (refl, length-replicate (length p.vars) []))
          λ r h. finish-NoPanic p.vars d r h

ne_of_Post {ℓ} :
    {A : Type ℓ} (r : Result MatchError A) → Post (λ _. Unit) NoPanic r → r ≢ fail panic
ne_of_Post (ok a) h = λ e. cc
ne_of_Post (fail e) h = λ q. h (cc)

-- A pattern from `NewPattern` never panics in `Match`, whatever path and verb it is given.
pub match-NoPanic :
    (version : ℤ) (ops : List ℤ) (pool : List Text) (verb : Text) (p : Pattern)
    → new_pattern version ops pool verb ≡ ok p
    → (components : List Text) (req_verb : Text) → match p components req_verb ≢ fail panic
match-NoPanic version ops pool verb p h components req_verb =
    ne_of_Post _ (match-Post p (new_pattern-IsBuilt version ops pool verb p h) components req_verb)

value_of_Post {ℓ} :
    {A : Type ℓ} (P : A → Type 0) (r : Result MatchError A)
    → Post P (λ _. ⊥) r
    → (a : A) × (r ≡ ok a)
value_of_Post P (ok a) h = (a, refl)
value_of_Post P (fail e) h = absurd h

-- `String` leaves a captured text on the stack, so its stack is at least as deep.
show_op-depth :
    (p : Pattern) (c : OpCode) (n : ℤ) (d d' : ℕ) (stack : List Text)
    → OpFits p.pool (length p.vars) c n d d'
    → d ≤ length stack
    → Post (λ s. d' ≤ length s) (λ _. ⊥) (show_op p c n stack)
unfolding show_op
show_op-depth p nop n d d' stack f h = omega arith
show_op-depth p push n d d' stack f h = omega arith
show_op-depth p lit_push n d d' stack f h = rw (f.0.1) (omega arith)
show_op-depth p push_m n d d' stack f h = omega arith
show_op-depth p concat_n (pos k) d d' stack f h = ground (arith, length-drop k stack)
show_op-depth p concat_n (negsuc k) d d' stack f h = absurd f
show_op-depth p capture (pos i) d d' [] f h = absurd (omega arith)
show_op-depth p capture (pos i) d d' (s ∷ stack) f h =
    rw ((get_elem?-lt p.vars i f.0).1) (omega arith)
show_op-depth p capture (negsuc k) d d' stack f h = absurd f
show_op-depth p invalid n d d' stack f h = omega arith

show_ops-depth :
    (p : Pattern) (cap : ℕ) (ops : List Op) (d d' : ℕ) (stack : List Text)
    → Fits p.pool (length p.vars) cap ops d d'
    → d ≤ length stack
    → Post (λ s. d' ≤ length s) (λ _. ⊥) (show_ops p ops stack)
unfolding show_ops
show_ops-depth p cap [] d d' stack f h = omega arith
show_ops-depth p cap (o ∷ ops) d d' stack (m, first, _, later) h =
    Post-bind (λ s. m ≤ length s) (λ s. d' ≤ length s) (λ _. ⊥) _ (show_ops p ops)
      (show_op-depth p o.code o.operand d m stack first h)
      λ s hs. show_ops-depth p cap ops m d' s later hs

-- `String` of a pattern from `NewPattern` returns a text: it never panics.
pub show-total :
    (version : ℤ) (ops : List ℤ) (pool : List Text) (verb : Text) (p : Pattern)
    → new_pattern version ops pool verb ≡ ok p
    → (text : Text) × (show p ≡ ok text)
unfolding show
show-total version ops pool verb p h =
    let (d, f) = new_pattern-IsBuilt version ops pool verb p h in
    let (stack, e) =
      value_of_Post (λ s. d ≤ length s) (show_ops p p.ops [])
        (show_ops-depth p p.stacksize p.ops 0 d [] f (omega arith)) in
    (show_with_verb (join slash (reverse stack)) p.verb, rw e)

Fits-split :
    (pool : List Text) (vars cap d d' : ℕ) (before after : List Op)
    → Fits pool vars cap (before ++ after) d d'
    → d ≤ cap
    → (m : ℕ) × Fits pool vars cap before d m × (m ≤ cap)
Fits-split pool vars cap d d' [] after f h = (d, refl, h)
Fits-split pool vars cap d d' (o ∷ before) after (m, first, le, later) h =
    let (k, f, le') = Fits-split pool vars cap m d' before after later le in
    (k, (m, first, le, f), le')

-- At every point of the loop of `Match` the stack holds at most `stacksize` texts, the capacity
-- that `Match` reserves for it.
pub run-stack-bound :
    (version : ℤ) (ops : List ℤ) (pool : List Text) (verb : Text) (p : Pattern)
    → new_pattern version ops pool verb ≡ ok p
    → (before after : List Op) → p.ops ≡ before ++ after
    → (cs : List Text) (r : Run) → run p before (start_run p cs) ≡ ok r
    → length r.stack ≤ p.stacksize
run-stack-bound version ops pool verb p h before after split cs r e =
    let (d, f) = new_pattern-IsBuilt version ops pool verb p h in
    let (m, g, le) =
      Fits-split p.pool (length p.vars) p.stacksize 0 d before after
        (subst (λ l. Fits p.pool (length p.vars) p.stacksize l 0 d) split f) (omega arith) in
    let post =
      run-Holds p (length p.vars) p.stacksize before 0 m (start_run p cs) g
        (refl, length-replicate (length p.vars) []) in
    let held : Holds (length p.vars) m r = subst (Post (Holds (length p.vars) m) NoPanic) e post in
    omega arith
