-- ===== src/Tests/FieldMasks.antt =====
-- runtime/fieldmask.go on a message with a scalar, a nested message and a `Struct`.
use grpc_gateway.Prelude.{
  ℕ, zero, suc, ◌≡◌, refl, Bool, false, List, [], ◌∷◌, none, some, codes, text_eq, ok, fail, ◌==◌,
}
use grpc_gateway.Runtime.FieldMask.{
  Json, other, object, no_members, member, FieldDescriptor, value, unknown_field,
  field_mask_from_request_body, mask_loop, visit, enqueue, get_field_by_name, build_paths_blindly,
  sort_strings, insert_sorted, less,
}
use grpc_gateway.Runtime.FieldMask.Counts.{count}
use grpc_gateway.Runtime.FieldMask.Leaves.{leaves, Lists, field_mask_from_request_body-Lists}
use grpc_gateway.Runtime.FieldMask.Blind.{blind_leaves, build_paths_blindly-count}

-- Message 0 is the request, 1 is nested in it, 2 is `Struct`.
abbrev fields : ℕ → List (FieldDescriptor ℕ)
fields zero =
    record { name = codes "title"; json_name = codes "title"; many = false; message = none }
    ∷ record { name = codes "author"; json_name = codes "author"; many = false; message = some 1 }
    ∷ record {
      name = codes "extra_info";
      json_name = codes "extraInfo";
      many = false;
      message = some 2;
    }
    ∷ []
fields (suc zero) =
    record { name = codes "last_name"; json_name = codes "lastName"; many = false; message = none }
    ∷ []
fields _ = []

abbrev dynamic : ℕ → Bool
dynamic d = d == 2

abbrev book : Json
book = object (
    member (codes "title") other
      (member (codes "author") (object (member (codes "lastName") other no_members)) no_members))

mask_of_book :
    field_mask_from_request_body fields dynamic (value book) 0
    ≡ ok (codes "author.last_name" ∷ codes "title" ∷ [])
unfolding field_mask_from_request_body mask_loop visit enqueue get_field_by_name build_paths_blindly
    sort_strings insert_sorted less text_eq
mask_of_book = refl

mask_of_unknown :
    field_mask_from_request_body fields dynamic
      (value (object (member (codes "isbn") other no_members)))
      0
    ≡ fail unknown_field
unfolding field_mask_from_request_body mask_loop visit enqueue get_field_by_name text_eq
mask_of_unknown = refl

-- A `Struct` is named by the key of the JSON, not by the name of the field.
mask_of_struct :
    field_mask_from_request_body fields dynamic
      (value (
        object
          (member (codes "extraInfo") (object (member (codes "k") other no_members)) no_members)))
      0
    ≡ ok (codes "extraInfo.k" ∷ [])
unfolding field_mask_from_request_body mask_loop visit enqueue get_field_by_name build_paths_blindly
    sort_strings insert_sorted less text_eq
mask_of_struct = refl

field_mask_from_request_body-Lists_example :
    Lists fields dynamic
      (leaves fields dynamic [] (some 0) book)
      (field_mask_from_request_body fields dynamic (value book) 0)
field_mask_from_request_body-Lists_example =
    field_mask_from_request_body-Lists fields dynamic book 0

build_paths_blindly-count_example :
    count
      (codes "k.z")
      (build_paths_blindly (codes "k") (object (member (codes "z") other no_members)))
    ≡ count (codes "k.z") (blind_leaves (codes "k") (object (member (codes "z") other no_members)))
build_paths_blindly-count_example =
    build_paths_blindly-count (codes "k.z") (codes "k")
      (object (member (codes "z") other no_members))
