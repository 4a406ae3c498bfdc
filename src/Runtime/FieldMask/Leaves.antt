-- ===== src/Runtime/FieldMask/Leaves.antt =====
-- runtime/fieldmask.go: what the paths of a field mask are, by recursion on the JSON value and with no
-- queue, and that the loop over the queue finds them.
use grpc_gateway.Prelude.{
  ℕ, zero, suc, ◌+◌, ◌≤◌, ◌<◌, ◌≡◌, refl, sym, ◌∙◌, ap, subst, Bool, true, false, List, [], ◌∷◌,
  ◌++◌, Option, none, some, Text, length, if◌then◌else◌, Result, ok, fail, ◌>>=◌, arith,
}
use grpc_gateway.Runtime.FieldMask.{
  Json, other, object, Members, no_members, member, size, size_members, FieldDescriptor, MaskError,
  out_of_fuel, unknown_field, Item, get_field_by_name, child_path, build_paths_blindly,
  is_dynamic_proto_message, blind_items, enqueue, visit, shown, mask_loop, value, sort_strings,
  field_mask_from_request_body,
}
use grpc_gateway.Runtime.FieldMask.Counts.{
  count, count-append, count-sort_strings, both, SameTexts, SameTexts-refl, SameTexts-trans,
  both_assoc, both-nil, both-none, both_comm, both_congr, both_congr_right,
}
use grpc_gateway.Runtime.FieldMask.Blind.{build_paths_blindly-length}

module _ {D : Type 0} (fields : D → List (FieldDescriptor D)) (dynamic : D → Bool) where
  -- The paths that are built blindly, behind a path.
  abbrev pub shown_all : Text → List Text → List Text
  shown_all path [] = []
  shown_all path (p ∷ ps) = shown (child_path path p) ++ shown_all path ps

  -- The paths for one field, if the ones below it are `below`.
  abbrev pub leaves_at :
      Text → FieldDescriptor D → Text → Json → Option (List Text) → Option (List Text)
  leaves_at path fd k v below =
      if is_dynamic_proto_message fields dynamic fd.message
      then some (shown_all path (build_paths_blindly k v))
      else if fd.many
      then some (child_path path fd.name ∷ [])
      else below

  -- The paths of a value behind `path`, whose message is `msg`; none if the value does not fit.
  unfoldable mutual
    pub leaves : Text → Option D → Json → Option (List Text)
    leaves path msg other = some (shown path)
    leaves path msg (object ms) = leaves_of path msg ms

    pub leaves_of : Text → Option D → Members → Option (List Text)
    leaves_of path msg no_members = some []
    leaves_of path none (member k v ms) = none
    leaves_of path (some d) (member k v ms) = elim (get_field_by_name (fields d) k) [
      | none ↦ none
      | some fd ↦
          both (leaves_at path fd k v (leaves (child_path path fd.name) fd.message v))
            (leaves_of path (some d) ms)
    ]

  all_leaves : List (Item D) → Option (List Text)
  all_leaves [] = some []
  all_leaves (it ∷ queue) = both (leaves it.path it.msg it.node) (all_leaves queue)

  rounds : List (Item D) → ℕ
  rounds [] = 0
  rounds (it ∷ queue) = size it.node + rounds queue

  all_leaves-append :
      (q r : List (Item D)) → all_leaves (q ++ r) ≡ both (all_leaves q) (all_leaves r)
  unfolding all_leaves
  all_leaves-append [] r = some_nil (all_leaves r)
    where
      some_nil : (o : Option (List Text)) → o ≡ both (some []) o
      some_nil none = refl
      some_nil (some a) = refl
  all_leaves-append (it ∷ q) r =
      ap (both (leaves it.path it.msg it.node)) (all_leaves-append q r)
      ∙ sym (both_assoc (leaves it.path it.msg it.node) (all_leaves q) (all_leaves r))

  rounds-append : (q r : List (Item D)) → rounds (q ++ r) ≡ rounds q + rounds r
  unfolding rounds
  rounds-append [] r = omega arith
  rounds-append (it ∷ q) r = omega (arith, rounds-append q r)

  all_leaves-blind_items :
      (path : Text) (ps : List Text)
      → all_leaves (blind_items fields dynamic path ps) ≡ some (shown_all path ps)
  unfolding all_leaves leaves
  all_leaves-blind_items path [] = refl
  all_leaves-blind_items path (p ∷ ps) = rw (all_leaves-blind_items path ps) refl

  rounds-blind_items :
      (path : Text) (ps : List Text) → rounds (blind_items fields dynamic path ps) ≡ length ps
  unfolding rounds size
  rounds-blind_items path [] = refl
  rounds-blind_items path (p ∷ ps) = omega (arith, rounds-blind_items path ps)

  -- The paths that are found and those of the queue.
  abbrev total : List Text × List (Item D) → Option (List Text)
  total (paths, queue) = both (some paths) (all_leaves queue)

  -- `enqueue`, by the kind of the field.
  abbrev entered :
      Text
      → FieldDescriptor D
      → Text
      → Json
      → List Text
      → List (Item D)
      → Bool
      → Bool
      → List Text × List (Item D)
  entered path fd k v paths queue dyn many =
      if dyn
      then (paths, queue ++ blind_items fields dynamic path (build_paths_blindly k v))
      else if many
      then (paths ++ child_path path fd.name ∷ [], queue)
      else (
        paths,
        queue ++ record { path = child_path path fd.name; node = v; msg = fd.message } ∷ [],
      )

  enqueue-total :
      (path : Text) (fd : FieldDescriptor D) (k : Text) (v : Json) (paths : List Text)
      (queue : List (Item D))
      → SameTexts (total (enqueue fields dynamic path fd k v (paths, queue))) (
          both
            (total (paths, queue))
            (leaves_at path fd k v (leaves (child_path path fd.name) fd.message v)))
        × (rounds (enqueue fields dynamic path fd k v (paths, queue)).1 ≤ rounds queue + size v)
  unfolding enqueue all_leaves rounds
  enqueue-total path fd k v paths queue =
      by_kind (is_dynamic_proto_message fields dynamic fd.message) fd.many
    where
      child : Item D
      child = record { path = child_path path fd.name; node = v; msg = fd.message }

      added :
          (items : List (Item D))
          → SameTexts
              (total (paths, queue ++ items))
              (both (total (paths, queue)) (all_leaves items))
      added items = SameTexts-refl _ _ (
          ap (both (some paths)) (all_leaves-append queue items)
          ∙ sym (both_assoc (some paths) (all_leaves queue) (all_leaves items)))

      found :
          (c : Text) (o : Option (List Text))
          → SameTexts (both (some (paths ++ c ∷ [])) o) (both (both (some paths) o) (some (c ∷ [])))
      found c none = tt
      found c (some q) = λ t. omega (
        arith,
        count-append t (paths ++ c ∷ []) q,
        count-append t paths (c ∷ []),
        count-append t (paths ++ q) (c ∷ []),
        count-append t paths q,
      )

      by_kind :
          (dyn many : Bool)
          → SameTexts (total (entered path fd k v paths queue dyn many)) (
              both (total (paths, queue)) (
                if dyn
                then some (shown_all path (build_paths_blindly k v))
                else if many
                then some (child_path path fd.name ∷ [])
                else leaves (child_path path fd.name) fd.message v))
            × (rounds (entered path fd k v paths queue dyn many).1 ≤ rounds queue + size v)
      by_kind true many = (
        rw (← all_leaves-blind_items path (build_paths_blindly k v))
            (added (blind_items fields dynamic path (build_paths_blindly k v))),
        omega (
          arith,
          rounds-append queue (blind_items fields dynamic path (build_paths_blindly k v)),
          rounds-blind_items path (build_paths_blindly k v),
          build_paths_blindly-length k v,
        ),
      )
      by_kind false true = (found (child_path path fd.name) (all_leaves queue), omega arith)
      by_kind false false = (
        SameTexts-trans _ _ _ (added (child ∷ [])) (
            SameTexts-refl _ _ (
              ap (both (total (paths, queue)))
                (both-nil (leaves (child_path path fd.name) fd.message v)))),
        omega (arith, rounds-append queue (child ∷ [])),
      )

  abbrev IsReal : MaskError → Type 0
  IsReal e = e ≡ out_of_fuel → ⊥

  -- What a visit gives: the same texts in all, or an error where there are none to give.
  abbrev Visits : Option (List Text) → ℕ → Result MaskError (List Text × List (Item D)) → Type 0
  Visits o n (ok s) = SameTexts (total s) o × (rounds s.1 ≤ n)
  Visits o n (fail e) = (o ≡ none) × IsReal e

  Visits-trans :
      (o p : Option (List Text)) (n m : ℕ) (r : Result MaskError (List Text × List (Item D)))
      → Visits o n r
      → SameTexts o p
      → n ≤ m
      → Visits p m r
  Visits-trans o p n m (ok s) (h, l) k le = (SameTexts-trans (total s) o p h k, omega arith)
  Visits-trans o p n m (fail e) (h, real) k le = (nothing p (subst (λ o. SameTexts o p) h k), real)
    where
      nothing : (p : Option (List Text)) → SameTexts none p → p ≡ none
      nothing none h = refl
      nothing (some a) h = absurd h

  visit-Visits :
      (path : Text) (msg : Option D) (ms : Members) (paths : List Text) (queue : List (Item D))
      → Visits
          (both (total (paths, queue)) (leaves_of path msg ms))
          (rounds queue + size_members ms)
          (visit fields dynamic path msg ms (paths, queue))
  unfolding visit leaves_of size_members
  visit-Visits path msg no_members paths queue =
      (SameTexts-refl _ _ (sym (both-nil (total (paths, queue)))), omega arith)
  visit-Visits path none (member k v ms) paths queue = (both-none (total (paths, queue)), λ e. cc)
  visit-Visits path (some d) (member k v ms) paths queue =
      with_field (get_field_by_name (fields d) k) (visit-Visits path (some d) ms)
    where
      with_field :
          (o : Option (FieldDescriptor D))
          → ((paths : List Text) (queue : List (Item D))
              → Visits
                  (both (total (paths, queue)) (leaves_of path (some d) ms))
                  (rounds queue + size_members ms)
                  (visit fields dynamic path (some d) ms (paths, queue)))
          → Visits
              (both (total (paths, queue)) (elim o [
                | none ↦ none
                | some fd ↦
                    both
                      (leaves_at path fd k v (leaves (child_path path fd.name) fd.message v))
                      (leaves_of path (some d) ms)
              ]))
              (rounds queue + (size v + size_members ms))
              (elim o [
                | none ↦ fail unknown_field
                | some fd ↦
                    visit fields dynamic path
                      (some d)
                      ms
                      (enqueue fields dynamic path fd k v (paths, queue))
              ])
      with_field none later = (both-none (total (paths, queue)), λ e. cc)
      with_field (some fd) later =
          let s = enqueue fields dynamic path fd k v (paths, queue) in
          let (same, le) = enqueue-total path fd k v paths queue in
          let here = leaves_at path fd k v (leaves (child_path path fd.name) fd.message v) in
          Visits-trans _ _ _ _ (visit fields dynamic path (some d) ms s) (later s.0 s.1)
            (SameTexts-trans _ _ _
              (both_congr (total s) (both (total (paths, queue)) here) (leaves_of path (some d) ms)
                same)
              (SameTexts-refl _ _
                (both_assoc (total (paths, queue)) here (leaves_of path (some d) ms))))
            (omega arith)

  -- A mask with the texts of `o`, or an error where there are none.
  abbrev pub Lists : Option (List Text) → Result MaskError (List Text) → Type 0
  Lists (some ls) (ok paths) = (t : Text) → count t paths ≡ count t ls
  Lists none (fail e) = IsReal e
  Lists (some ls) (fail e) = ⊥
  Lists none (ok paths) = ⊥

  Lists-trans :
      (o p : Option (List Text)) (r : Result MaskError (List Text))
      → Lists o r
      → SameTexts o p
      → Lists p r
  Lists-trans (some a) (some b) (ok paths) h k = λ t. h t ∙ k t
  Lists-trans none none (fail e) h k = h
  Lists-trans (some a) p (fail e) h k = absurd h
  Lists-trans none p (ok paths) h k = absurd h
  Lists-trans (some a) none (ok paths) h k = absurd k
  Lists-trans none (some b) (fail e) h k = absurd k

  -- The rest of the loop behind a visit.
  after :
      {f n : ℕ} (o p : Option (List Text)) (r : Result MaskError (List Text × List (Item D)))
      → Visits o n r
      → SameTexts o p
      → n < f
      → ((queue : List (Item D)) (paths : List Text)
          → rounds queue < f
          → Lists (total (paths, queue)) (mask_loop fields dynamic f queue paths))
      → Lists p (r >>= λ (paths', queue'). mask_loop fields dynamic f queue' paths')
  after {f} {n} o p (ok s) (same, le) k h ih =
      Lists-trans (total s) p (mask_loop fields dynamic f s.1 s.0) (ih s.1 s.0 (omega arith))
        (SameTexts-trans (total s) o p same k)
  after {f} {n} o p (fail e) (none_there, real) k h ih =
      Lists-trans none p (fail e) real (subst (λ o. SameTexts o p) none_there k)

  mask_loop-Lists :
      (f : ℕ) (queue : List (Item D)) (paths : List Text)
      → rounds queue < f
      → Lists (total (paths, queue)) (mask_loop fields dynamic f queue paths)
  unfolding mask_loop all_leaves rounds leaves size count
  mask_loop-Lists zero queue paths h = elim h [ ]
  mask_loop-Lists (suc f) [] paths h = λ t. omega (arith, count-append t paths [])
  mask_loop-Lists (suc f) (it ∷ queue) paths h = round it.node (omega arith) (mask_loop-Lists f)
    where
      visited :
          (ms : Members) (r : Result MaskError (List Text × List (Item D)))
          → Visits
              (both (total (paths, queue)) (leaves_of it.path it.msg ms))
              (rounds queue + size_members ms)
              r
          → rounds queue + size_members ms < f
          → ((queue : List (Item D)) (paths : List Text)
              → rounds queue < f
              → Lists (total (paths, queue)) (mask_loop fields dynamic f queue paths))
          → Lists
              (both (some paths) (both (leaves_of it.path it.msg ms) (all_leaves queue)))
              (r >>= λ (paths', queue'). mask_loop fields dynamic f queue' paths')
      visited ms r v le ih =
          let l = leaves_of it.path it.msg ms in
          let q = all_leaves queue in
          let turned : SameTexts (both (total (paths, queue)) l) (both (some paths) (both l q)) =
            SameTexts-trans _ _ _ (SameTexts-refl _ _ (both_assoc (some paths) q l))
              (both_congr_right paths (both q l) (both l q) (both_comm q l)) in
          after (both (total (paths, queue)) l) (both (some paths) (both l q)) r v turned le ih

      round :
          (n : Json)
          → size n + rounds queue < suc f
          → ((queue : List (Item D)) (paths : List Text)
              → rounds queue < f
              → Lists (total (paths, queue)) (mask_loop fields dynamic f queue paths))
          → Lists (both (some paths) (both (leaves it.path it.msg n) (all_leaves queue))) (elim n [
            | other ↦ mask_loop fields dynamic f queue (paths ++ shown it.path)
            | object ms ↦
                (visit fields dynamic it.path it.msg ms (paths, queue) >>= λ (paths', queue').
                mask_loop fields dynamic f queue' paths')
          ])
      round other h ih =
          Lists-trans _ _ (mask_loop fields dynamic f queue (paths ++ shown it.path))
            (ih queue (paths ++ shown it.path) (omega arith))
            (SameTexts-refl _ _ (both_assoc (some paths) (some (shown it.path)) (all_leaves queue)))
      round (object ms) h ih =
          visited ms (visit fields dynamic it.path it.msg ms (paths, queue))
            (visit-Visits it.path it.msg ms paths queue) (omega arith) ih

  -- The mask of a request body has exactly the paths of the leaves of the JSON value, each as often as
  -- it occurs; where the value does not fit the message there is an error of the program, and the fuel
  -- is always enough.
  pub field_mask_from_request_body-Lists :
      (root : Json) (d : D)
      → Lists (leaves [] (some d) root) (field_mask_from_request_body fields dynamic (value root) d)
  unfolding field_mask_from_request_body all_leaves rounds count
  field_mask_from_request_body-Lists root d =
      sorted (leaves [] (some d) root)
        (mask_loop fields dynamic (suc (size root))
          (record { path = []; node = root; msg = some d } ∷ []) [])
        (Lists-trans _ _ _
          (mask_loop-Lists (suc (size root)) (record { path = []; node = root; msg = some d } ∷ [])
            [] (omega arith))
          (whole (leaves [] (some d) root)))
    where
      whole : (o : Option (List Text)) → SameTexts (both (some []) (both o (some []))) o
      whole none = tt
      whole (some a) = λ t. omega (arith, count-append t a [])

      sorted :
          (o : Option (List Text)) (r : Result MaskError (List Text))
          → Lists o r
          → Lists o (r >>= λ paths. ok (sort_strings paths))
      sorted (some ls) (ok paths) h = λ t. count-sort_strings t paths ∙ h t
      sorted none (fail e) h = h
      sorted (some ls) (fail e) h = absurd h
      sorted none (ok paths) h = absurd h
