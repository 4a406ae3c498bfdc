-- ===== src/Runtime/Pattern/Bound.antt =====
-- runtime/pattern.go: a match binds every variable of the template.
use grpc_gateway.Prelude.{
  ◌≡◌, refl, sym, ◌∙◌, ap, subst, List, [], ◌∷◌, some, Text, map, text_eq, get, put, get-put_self,
  get-put-keeps, if◌then◌else◌, All, ok, ok_injective,
}
use grpc_gateway.HttpRule.Template.{Template}
use grpc_gateway.HttpRule.Compile.{compile}
use grpc_gateway.Runtime.Pattern.{Pattern, Bindings, lookup, bind, bind_all, match}
use grpc_gateway.Runtime.Pattern.Spec.{IsWellFormed}
use grpc_gateway.Runtime.Pattern.Refines.{compiled_pattern, match_iff, Matches-fields}
use grpc_gateway.Runtime.Pattern.Deep.{new_pattern-deeps}

abbrev pub Binds : Bindings → Text → Type 0
Binds b k = (v : Text) × (lookup k b ≡ some v)

lookup-eq-get : (k : Text) (m : Bindings) → lookup k m ≡ get k m
unfolding lookup get
lookup-eq-get k [] = refl
lookup-eq-get k ((j, v) ∷ m) = ap (λ o. if text_eq j k then some v else o) (lookup-eq-get k m)

bind-eq-put : (k v : Text) (m : Bindings) → bind k v m ≡ put k v m
unfolding bind put
bind-eq-put k v [] = refl
bind-eq-put k v ((j, w) ∷ m) =
    ap (λ l. if text_eq j k then (k, v) ∷ m else (j, w) ∷ l) (bind-eq-put k v m)

lookup-bind : (j k v : Text) (m : Bindings) → lookup j (bind k v m) ≡ get j (put k v m)
lookup-bind j k v m = lookup-eq-get j (bind k v m) ∙ ap (get j) (bind-eq-put k v m)

bind-Binds_self : (k v : Text) (m : Bindings) → Binds (bind k v m) k
bind-Binds_self k v m = (v, lookup-bind k k v m ∙ get-put_self k v m)

bind-Binds : (k v : Text) (m : Bindings) (j : Text) → Binds m j → Binds (bind k v m) j
bind-Binds k v m j (w, e) =
    let (u, f) = get-put-keeps k j v w m (sym (lookup-eq-get j m) ∙ e) in
    (u, lookup-bind j k v m ∙ f)

bind_all-Binds :
    (caps : List (Text × Text)) (m b : Bindings)
    → bind_all (map (λ c. c.0) caps) (map (λ c. c.1) caps) m ≡ ok b
    → All (Binds b) (map (λ c. c.0) caps) × ((j : Text) → Binds m j → Binds b j)
unfolding bind_all
bind_all-Binds [] m b e = (tt, λ j h. subst (λ b. Binds b j) (ok_injective m b e) h)
bind_all-Binds ((k, v) ∷ caps) m b e =
    let (all, kept) = bind_all-Binds caps (bind k v m) b e in
    ((kept k (bind-Binds_self k v m), all), λ j h. kept j (bind-Binds k v m j h))

-- When a pattern of a well-formed template matches, every variable of the template is bound.
pub match-Binds :
    (t : Template) (p : Pattern) (components : List Text) (verb : Text) (b : Bindings)
    → IsWellFormed t.segments
    → compiled_pattern t ≡ ok p
    → match p components verb ≡ ok b
    → All (Binds b) (compile t).fields
unfolding compile
match-Binds t p components verb b w made e =
    let (cs, caps, start, m, binds) =
      (match_iff t p w (new_pattern-deeps t p made) made components verb b).0 e in
    subst (All (Binds b)) (Matches-fields m w) (bind_all-Binds caps [] b binds).0
