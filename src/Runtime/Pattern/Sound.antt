-- ===== src/Runtime/Pattern/Sound.antt =====
-- runtime/pattern.go on internal/httprule/compile.go: a run of the raw ops of a template reads what
-- the template means.
use grpc_gateway.Prelude.{
  ℕ, ◌≡◌, refl, sym, ◌∙◌, ap, subst, List, [], ◌∷◌, ◌++◌, Text, length, join, slash, map, ok,
  >>=-eq-ok, ok_injective, arith, append_assoc, append-nil,
}
use grpc_gateway.HttpRule.Template.{
  Segment, wildcard, deep_wildcard, literal, variable, Segments, nil, cons, count,
}
use grpc_gateway.HttpRule.Compile.{RawOp, compile_segment, compile_segments}
use grpc_gateway.Runtime.Pattern.{Run}
use grpc_gateway.Runtime.Pattern.Exec.{exec, variable_ops}
use grpc_gateway.Runtime.Pattern.Spec.{
  Reads, Matches, done, atom, bound, IsAtom, AllAtoms, IsWellFormed,
}
use grpc_gateway.Runtime.Pattern.Atoms.{exec-append, push_all, concat_top-push_all, atom_sound}

-- A successful run of two stretches of ops.
pub exec-append-ok :
    (t : ℕ) (a b : List RawOp) (r r' : Run)
    → exec t (a ++ b) r ≡ ok r'
    → (m : Run) × (exec t a r ≡ ok m) × (exec t b m ≡ ok r')
exec-append-ok t a b r r' h = >>=-eq-ok (exec t a r) (exec t b) (sym (exec-append t a b r) ∙ h)

abbrev ReadsRun : Segments → Run → Run → Type 0
ReadsRun ss r r' =
    (cs : List Text) × (vs : List Text) × Reads ss cs vs
    × (length vs ≡ count ss)
    × (r.rest ≡ cs ++ r'.rest)
    × (r'.stack ≡ push_all vs r.stack)
    × (r'.captured ≡ r.captured)

reads_sound :
    (t : ℕ) (ss : Segments) (r r' : Run)
    → AllAtoms ss
    → exec t (compile_segments ss) r ≡ ok r'
    → ReadsRun ss r r'
unfolding compile_segments exec
reads_sound t nil r r' a h =
    let e = ok_injective r r' h in
    (
      [],
      [],
      Reads.none,
      refl,
      ap (λ (x : Run). x.rest) e,
      sym (ap (λ (x : Run). x.stack) e),
      sym (ap (λ (x : Run). x.captured) e),
    )
reads_sound t (cons s ss) r r' (a, all) h =
    let (m, first, later) = exec-append-ok t (compile_segment s) (compile_segments ss) r r' h in
    let (cs, v, reads, e₁, e₂, e₃) = atom_sound t s r m a first in
    let (ds, vs, reads', n, d₁, d₂, d₃) = reads_sound t ss m r' all later in
    (
      cs ++ ds,
      v ∷ vs,
      Reads.some reads reads' refl,
      omega arith,
      e₁ ∙ (ap (λ l. cs ++ l) d₁ ∙ sym (append_assoc cs ds r'.rest)),
      d₂ ∙ ap (push_all vs) e₂,
      d₃ ∙ e₃,
    )

-- A run over a whole template, and the values that it has captured.
abbrev pub MatchRun : Segments → Run → Run → Type 0
MatchRun ss r r' =
    (cs : List Text) × (caps : List (Text × Text)) × Matches ss cs caps
    × (r.rest ≡ cs ++ r'.rest)
    × (r'.captured ≡ r.captured ++ map (λ c. c.1) caps)

abbrev pub captured_run : List Text → List Text → Run → Run
captured_run vs stack r = record r { stack = stack; captured = r.captured ++ join slash vs ∷ [] }

pub exec-variable_ops :
    (t : ℕ) (path : Text) (vs stack : List Text) (r : Run)
    → r.stack ≡ push_all vs stack
    → exec t (variable_ops path (length vs)) r ≡ ok (captured_run vs stack r)
unfolding exec
exec-variable_ops t path vs stack r e = rw (e, concat_top-push_all vs stack)

-- A variable: its segments, then `OpConcatN` and `OpCapture`.
variable_sound :
    (t : ℕ) (path : Text) (segs : Segments) (r r' : Run)
    → AllAtoms segs
    → exec t (compile_segment (variable path segs)) r ≡ ok r'
    → (cs : List Text) × (vs : List Text) × Reads segs cs vs
      × (r.rest ≡ cs ++ r'.rest)
      × (r'.captured ≡ r.captured ++ join slash vs ∷ [])
unfolding compile_segment
variable_sound t path segs r r' a h =
    let (m, first, later) =
      exec-append-ok t (compile_segments segs) (variable_ops path (count segs)) r r' h in
    let (cs, vs, reads, n, e₁, e₂, e₃) = reads_sound t segs r m a first in
    let run : exec t (variable_ops path (count segs)) m ≡ ok (captured_run vs r.stack m) =
      subst (λ k. exec t (variable_ops path k) m ≡ ok (captured_run vs r.stack m)) n
        (exec-variable_ops t path vs r.stack m e₂) in
    let e = ok_injective (captured_run vs r.stack m) r' (sym run ∙ later) in
    (
      cs,
      vs,
      reads,
      e₁ ∙ ap (λ (x : Run). cs ++ x.rest) e,
      sym (ap (λ (x : Run). x.captured) e) ∙ ap (λ l. l ++ join slash vs ∷ []) e₃,
    )

matches_atom :
    (t : ℕ) (s : Segment) (ss : Segments) (r m r' : Run)
    → IsAtom s
    → exec t (compile_segment s) r ≡ ok m
    → MatchRun ss m r'
    → MatchRun (cons s ss) r r'
matches_atom t s ss r m r' a first (ds, caps, matches, d₁, d₂) =
    let (cs, v, reads, e₁, e₂, e₃) = atom_sound t s r m a first in
    (
      cs ++ ds,
      caps,
      atom reads matches refl,
      e₁ ∙ (ap (λ l. cs ++ l) d₁ ∙ sym (append_assoc cs ds r'.rest)),
      d₂ ∙ ap (λ l. l ++ map (λ c. c.1) caps) e₃,
    )

-- What a run of the ops of a template reads, the template means.
pub exec_sound :
    (t : ℕ) (ss : Segments) (r r' : Run)
    → IsWellFormed ss
    → exec t (compile_segments ss) r ≡ ok r'
    → MatchRun ss r r'
unfolding compile_segments exec
exec_sound t nil r r' w h =
    let e = ok_injective r r' h in
    (
      [],
      [],
      done,
      ap (λ (x : Run). x.rest) e,
      sym (ap (λ (x : Run). x.captured) e) ∙ sym (append-nil r.captured),
    )
exec_sound t (cons wildcard ss) r r' w h =
    let (m, first, later) =
      exec-append-ok t (compile_segment wildcard) (compile_segments ss) r r' h in
    matches_atom t wildcard ss r m r' tt first (exec_sound t ss m r' w later)
exec_sound t (cons deep_wildcard ss) r r' w h =
    let (m, first, later) =
      exec-append-ok t (compile_segment deep_wildcard) (compile_segments ss) r r' h in
    matches_atom t deep_wildcard ss r m r' tt first (exec_sound t ss m r' w later)
exec_sound t (cons (literal l) ss) r r' w h =
    let (m, first, later) =
      exec-append-ok t (compile_segment (literal l)) (compile_segments ss) r r' h in
    matches_atom t (literal l) ss r m r' w.0 first (exec_sound t ss m r' w.1 later)
exec_sound t (cons (variable path segs) ss) r r' (_, _, atoms, w) h =
    let (m, first, later) =
      exec-append-ok t (compile_segment (variable path segs)) (compile_segments ss) r r' h in
    let (cs, vs, reads, e₁, e₂) = variable_sound t path segs r m atoms first in
    let (ds, caps, matches, d₁, d₂) = exec_sound t ss m r' w later in
    (
      cs ++ ds,
      (path, join slash vs) ∷ caps,
      bound reads matches refl,
      e₁ ∙ (ap (λ l. cs ++ l) d₁ ∙ sym (append_assoc cs ds r'.rest)),
      d₂
          ∙ (ap (λ l. l ++ map (λ c. c.1) caps) e₂
              ∙ append_assoc r.captured (join slash vs ∷ []) (map (λ c. c.1) caps)),
    )
