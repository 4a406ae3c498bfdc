-- ===== src/Runtime/FieldMask.antt =====
-- runtime/fieldmask.go: the paths of the fields that a JSON body gives. The fields of a JSON object are
-- listed in the order in which Go happens to walk the map; a value that is no object is `other`. A
-- message descriptor is a value of a type `D`.
pub mod Counts
pub mod Blind
pub mod Leaves
use grpc_gateway.Prelude.{
  ℕ, zero, suc, ◌+◌, Bool, true, false, List, [], ◌∷◌, ◌++◌, map, Option, none, some, Text, codes,
  text_eq, is_empty, if◌then◌else◌, ltb, ◌==◌, Result, ok, fail, ◌>>=◌,
}

mutual
  pub data Json : Type 0 where
    other : Json
    object : Members → Json

  pub data Members : Type 0 where
    no_members : Members
    member : Text → Json → Members → Members

-- What is used of a `protoreflect.FieldDescriptor`; `many` says that it is a list or a map.
pub record FieldDescriptor (D : Type 0) : Type 0 where
  pub name : Text
  pub json_name : Text
  pub many : Bool
  pub message : Option D

pub data MaskError : Type 0 where
  bad_json mismatch unknown_field out_of_fuel : MaskError

-- The body as the decoder reads it.
pub data Decoded : Type 0 where
  eof malformed : Decoded
  value : Json → Decoded

abbrev pub dotted : Text → Text → Text
dotted path name = path ++ (codes "." ++ name)

-- A path in front of a name, if there is one.
abbrev pub child_path : Text → Text → Text
child_path path name = if is_empty path then name else dotted path name

-- How many values there are in a value: no more rounds are needed.
unfoldable mutual
  pub size : Json → ℕ
  size other = 1
  size (object ms) = suc (size_members ms)

  pub size_members : Members → ℕ
  size_members no_members = 0
  size_members (member k v ms) = size v + size_members ms

-- The inner loop of `buildPathsBlindly`, over the members of an object.
unfoldable pub blind_visit :
    Text → Members → List Text × List (Text × Members) → List Text × List (Text × Members)
blind_visit path no_members s = s
blind_visit path (member k other ms) (paths, queue) =
    blind_visit path ms (paths ++ dotted path k ∷ [], queue)
blind_visit path (member k (object inner) ms) (paths, queue) =
    blind_visit path ms (paths, queue ++ (dotted path k, inner) ∷ [])

-- The loop of `buildPathsBlindly` over its queue.
unfoldable pub blind_loop : ℕ → List (Text × Members) → List Text → List Text
unfolding blind_visit
blind_loop zero queue paths = paths
blind_loop (suc f) [] paths = paths
blind_loop (suc f) ((path, ms) ∷ queue) paths =
    let (paths', queue') = blind_visit path ms (paths, queue) in blind_loop f queue' paths'

-- `buildPathsBlindly`
unfoldable pub build_paths_blindly : Text → Json → List Text
unfolding blind_loop size
build_paths_blindly name other = name ∷ []
build_paths_blindly name (object ms) = blind_loop (suc (size (object ms))) ((name, ms) ∷ []) []

module _ {D : Type 0} where
  unfoldable pub by_name : List (FieldDescriptor D) → Text → Option (FieldDescriptor D)
  by_name [] name = none
  by_name (fd ∷ fds) name = if text_eq fd.name name then some fd else by_name fds name

  unfoldable pub by_json_name : List (FieldDescriptor D) → Text → Option (FieldDescriptor D)
  by_json_name [] name = none
  by_json_name (fd ∷ fds) name =
      if text_eq fd.json_name name then some fd else by_json_name fds name

  -- `getFieldByName`
  unfoldable pub get_field_by_name : List (FieldDescriptor D) → Text → Option (FieldDescriptor D)
  unfolding by_name by_json_name
  get_field_by_name fds name = elim (by_name fds name) [
    | some fd ↦ some fd
    | none ↦ by_json_name fds name
  ]

-- `fieldMaskPathItem`
pub record Item (D : Type 0) : Type 0 where
  pub path : Text
  pub node : Json
  pub msg : Option D

unfoldable pub less : Text → Text → Bool
less s [] = false
less [] (y ∷ t) = true
less (x ∷ s) (y ∷ t) = if ltb x y then true else if x == y then less s t else false

unfoldable pub insert_sorted : Text → List Text → List Text
unfolding less
insert_sorted s [] = s ∷ []
insert_sorted s (t ∷ ts) = if less t s then t ∷ insert_sorted s ts else s ∷ t ∷ ts

-- `sort.Strings`
unfoldable pub sort_strings : List Text → List Text
unfolding insert_sorted
sort_strings [] = []
sort_strings (s ∷ ss) = insert_sorted s (sort_strings ss)

-- A leaf prints its path.
abbrev pub shown : Text → List Text
shown path = if is_empty path then [] else path ∷ []

-- The fields of a message, and whether it is a `Struct` or a `Value`.
module _ {D : Type 0} (fields : D → List (FieldDescriptor D)) (dynamic : D → Bool) where
  -- `isDynamicProtoMessage`
  abbrev pub is_dynamic_proto_message : Option D → Bool
  is_dynamic_proto_message none = false
  is_dynamic_proto_message (some d) = dynamic d

  -- The items for the paths that were built blindly.
  abbrev pub blind_items : Text → List Text → List (Item D)
  blind_items path [] = []
  blind_items path (p ∷ ps) =
      record { path = child_path path p; node = other; msg = none } ∷ blind_items path ps

  -- What one member of an object adds to the paths and to the queue.
  unfoldable pub enqueue :
      Text → FieldDescriptor D → Text → Json → List Text × List (Item D) → List Text × List (Item D)
  unfolding build_paths_blindly
  enqueue path fd k v (paths, queue) =
      if is_dynamic_proto_message fd.message
      then (paths, queue ++ blind_items path (build_paths_blindly k v))
      else if fd.many
      then (paths ++ child_path path fd.name ∷ [], queue)
      else (
        paths,
        queue ++ record { path = child_path path fd.name; node = v; msg = fd.message } ∷ [],
      )

  -- The loop over the members of an object.
  unfoldable pub visit :
      Text
      → Option D
      → Members
      → List Text × List (Item D)
      → Result MaskError (List Text × List (Item D))
  unfolding enqueue get_field_by_name
  visit path msg no_members s = ok s
  visit path none (member k v ms) s = fail mismatch
  visit path (some d) (member k v ms) s = elim (get_field_by_name (fields d) k) [
    | none ↦ fail unknown_field
    | some fd ↦ visit path (some d) ms (enqueue path fd k v s)
  ]

  -- The loop over the queue.
  unfoldable pub mask_loop : ℕ → List (Item D) → List Text → Result MaskError (List Text)
  unfolding visit
  mask_loop zero queue paths = fail out_of_fuel
  mask_loop (suc f) [] paths = ok paths
  mask_loop (suc f) (it ∷ queue) paths = elim it.node [
    | other ↦ mask_loop f queue (paths ++ shown it.path)
    | object ms ↦
        (visit it.path it.msg ms (paths, queue) >>= λ (paths', queue'). mask_loop f queue' paths')
  ]

  -- `FieldMaskFromRequestBody`
  unfoldable pub field_mask_from_request_body : Decoded → D → Result MaskError (List Text)
  unfolding mask_loop sort_strings size
  field_mask_from_request_body eof d = ok []
  field_mask_from_request_body malformed d = fail bad_json
  field_mask_from_request_body (value root) d = do
    paths ← mask_loop (suc (size root)) (record { path = []; node = root; msg = some d } ∷ []) []
    ok (sort_strings paths)
