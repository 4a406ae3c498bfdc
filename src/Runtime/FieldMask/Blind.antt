-- ===== src/Runtime/FieldMask/Blind.antt =====
-- runtime/fieldmask.go: `buildPathsBlindly` gives the paths of the leaves of a JSON value.
use grpc_gateway.Prelude.{
  ℕ, zero, suc, ◌+◌, ◌≤◌, ◌<◌, ◌≡◌, refl, List, [], ◌∷◌, ◌++◌, Text, length, length-append, arith,
}
use grpc_gateway.Runtime.FieldMask.{
  Json, other, object, Members, no_members, member, size, size_members, blind_visit, blind_loop,
  build_paths_blindly, dotted,
}
use grpc_gateway.Runtime.FieldMask.Counts.{count, count-append}

-- The paths of the values that are no objects, behind a path.
unfoldable mutual
  pub blind_leaves : Text → Json → List Text
  blind_leaves path other = path ∷ []
  blind_leaves path (object ms) = blind_members path ms

  pub blind_members : Text → Members → List Text
  blind_members path no_members = []
  blind_members path (member k v ms) = blind_leaves (dotted path k) v ++ blind_members path ms

queue_leaves : List (Text × Members) → List Text
queue_leaves [] = []
queue_leaves ((path, ms) ∷ queue) = blind_members path ms ++ queue_leaves queue

rounds : List (Text × Members) → ℕ
rounds [] = 0
rounds ((path, ms) ∷ queue) = suc (size_members ms) + rounds queue

queue_leaves-append :
    (t : Text) (q r : List (Text × Members))
    → count t (queue_leaves (q ++ r)) ≡ count t (queue_leaves q) + count t (queue_leaves r)
unfolding queue_leaves count
queue_leaves-append t [] r = omega arith
queue_leaves-append t ((path, ms) ∷ q) r = omega (
  arith,
  queue_leaves-append t q r,
  count-append t (blind_members path ms) (queue_leaves (q ++ r)),
  count-append t (blind_members path ms) (queue_leaves q),
)

rounds-append : (q r : List (Text × Members)) → rounds (q ++ r) ≡ rounds q + rounds r
unfolding rounds
rounds-append [] r = omega arith
rounds-append ((path, ms) ∷ q) r = omega (arith, rounds-append q r)

-- What a visit adds, in texts and in rounds.
record Visited (path : Text) (ms : Members) (before after : List Text × List (Text × Members))
    : Type 0 where
  texts :
      (t : Text)
      → count t after.0 + count t (queue_leaves after.1)
        ≡ count t before.0 + count t (queue_leaves before.1) + count t (blind_members path ms)
  bounded : rounds after.1 ≤ rounds before.1 + size_members ms
  shorter : length after.0 + rounds after.1 ≤ length before.0 + rounds before.1 + size_members ms

blind_visit-Visited :
    (path : Text) (ms : Members) (paths : List Text) (queue : List (Text × Members))
    → Visited path ms (paths, queue) (blind_visit path ms (paths, queue))
unfolding blind_visit count blind_leaves size queue_leaves rounds
blind_visit-Visited path no_members paths queue = record {
  texts = λ t. omega arith;
  bounded = omega arith;
  shorter = omega arith;
}
blind_visit-Visited path (member k other ms) paths queue =
    let v = blind_visit-Visited path ms (paths ++ dotted path k ∷ []) queue in
    record {
      texts = λ t. omega (arith, v.texts t, count-append t paths (dotted path k ∷ []));
      bounded = omega (arith, v.bounded);
      shorter = omega (arith, v.shorter, length-append paths (dotted path k ∷ []));
    }
blind_visit-Visited path (member k (object inner) ms) paths queue =
    let v = blind_visit-Visited path ms paths (queue ++ (dotted path k, inner) ∷ []) in
    record {
      texts = λ t. omega (
        arith,
        v.texts t,
        queue_leaves-append t queue ((dotted path k, inner) ∷ []),
        count-append t (blind_members (dotted path k) inner) [],
        count-append t (blind_members (dotted path k) inner) (blind_members path ms),
      );
      bounded = omega (arith, v.bounded, rounds-append queue ((dotted path k, inner) ∷ []));
      shorter = omega (arith, v.shorter, rounds-append queue ((dotted path k, inner) ∷ []));
    }

blind_loop-count :
    (t : Text) (f : ℕ) (queue : List (Text × Members)) (paths : List Text)
    → rounds queue < f
    → count t (blind_loop f queue paths) ≡ count t paths + count t (queue_leaves queue)
unfolding blind_loop queue_leaves rounds count
blind_loop-count t zero queue paths h = elim h [ ]
blind_loop-count t (suc f) [] paths h = omega arith
blind_loop-count t (suc f) ((path, ms) ∷ queue) paths h =
    let v = blind_visit-Visited path ms paths queue in
    let s = blind_visit path ms (paths, queue) in
    omega (
      arith,
      blind_loop-count t f s.1 s.0 (omega (arith, v.bounded)),
      v.texts t,
      count-append t (blind_members path ms) (queue_leaves queue),
    )

blind_loop-length :
    (f : ℕ) (queue : List (Text × Members)) (paths : List Text)
    → length (blind_loop f queue paths) ≤ length paths + rounds queue
unfolding blind_loop rounds
blind_loop-length zero queue paths = omega arith
blind_loop-length (suc f) [] paths = omega arith
blind_loop-length (suc f) ((path, ms) ∷ queue) paths =
    let v = blind_visit-Visited path ms paths queue in
    let s = blind_visit path ms (paths, queue) in
    omega (arith, blind_loop-length f s.1 s.0, v.shorter)

pub build_paths_blindly-length :
    (name : Text) (v : Json) → length (build_paths_blindly name v) ≤ size v
unfolding build_paths_blindly size rounds
build_paths_blindly-length name other = omega arith
build_paths_blindly-length name (object ms) =
    omega (arith, blind_loop-length (suc (suc (size_members ms))) ((name, ms) ∷ []) [])

-- `buildPathsBlindly` gives exactly the paths of the values that are no objects, each as often as it
-- occurs, in some order.
pub build_paths_blindly-count :
    (t name : Text) (v : Json)
    → count t (build_paths_blindly name v) ≡ count t (blind_leaves name v)
unfolding build_paths_blindly size rounds blind_leaves queue_leaves count
build_paths_blindly-count t name other = refl
build_paths_blindly-count t name (object ms) = omega (
  arith,
  blind_loop-count t (suc (suc (size_members ms))) ((name, ms) ∷ []) [] (omega arith),
  count-append t (blind_members name ms) [],
)
