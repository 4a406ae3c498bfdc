-- ===== src/Descriptor/Registry/Lookup.antt =====
-- internal/descriptor/registry.go: what the loaded files declare can be looked up by its full name.
use grpc_gateway.Prelude.{
  ◌≡◌, refl, subst, true, List, [], ◌∷◌, ◌++◌, Option, none, some, Text, get, has_prefix, join, All,
  ok,
}
use grpc_gateway.Descriptor.Protos.{ProtogenFile, message_name}
use grpc_gateway.Descriptor.Types.{
  File, Message, qualified, fqmn, Enum, fqen, dot, package_components,
}
use grpc_gateway.Descriptor.Registry.{
  Registry, new_registry, load_files, lookup_name, lookup_msg, lookup_enum,
}
use grpc_gateway.Descriptor.Registry.Names.{IsNamed, load_files-Named}
use grpc_gateway.Descriptor.Registry.Contents.{All-map, AllInFile, AllInFile-map}
use grpc_gateway.Descriptor.Registry.Declared.{HasKey, Covers, load_files-Covers}

join-dot : (xs : List Text) (y : Text) → has_prefix (join dot ([] ∷ (xs ++ y ∷ []))) dot ≡ true
unfolding join has_prefix
join-dot [] y = refl
join-dot (x ∷ xs) y = refl

qualified-dot :
    (f : File) (outers : List Text) (name : Text)
    → has_prefix (join dot (qualified f outers name)) dot ≡ true
qualified-dot f outers name = with_package f.package_name
  where
    with_package :
        (p : Option Text)
        → has_prefix (join dot (([] ∷ []) ++ (package_components p ++ (outers ++ name ∷ [])))) dot
          ≡ true
    with_package none = join-dot outers name
    with_package (some p) = join-dot (p ∷ outers) name

lookup_name-HasKey :
    {V : Type 0} (name_of : V → Text) (m : List (Text × V)) (location k : Text)
    → ((v : V) → has_prefix (name_of v) dot ≡ true)
    → IsNamed name_of m
    → HasKey m k
    → (w : V) × (lookup_name location k m ≡ some w) × (name_of w ≡ k)
unfolding lookup_name
lookup_name-HasKey name_of m location k dotted named (w, e) =
    let same = named k w e in rw (subst (λ j. has_prefix j dot ≡ true) same (dotted w)) (w, e, same)

-- `LookupMsg` finds a message of this full name, from the location.
abbrev pub FindsMessage : Registry → Text → Text → Type 0
FindsMessage r location name = (w : Message) × (lookup_msg r location name ≡ ok w) × (fqmn w ≡ name)

abbrev pub FindsEnum : Registry → Text → Text → Type 0
FindsEnum r location name = (w : Enum) × (lookup_enum r location name ≡ ok w) × (fqen w ≡ name)

finds_message :
    (r : Registry) (location k : Text)
    → IsNamed fqmn r.msgs
    → HasKey r.msgs k
    → FindsMessage r location k
unfolding lookup_msg fqmn
finds_message r location k named h =
    let (w, found, same) =
      lookup_name-HasKey fqmn r.msgs location k
        (λ m. qualified-dot m.file m.outers (message_name m.proto)) named h in
    (w, rw found refl, same)

finds_enum :
    (r : Registry) (location k : Text)
    → IsNamed fqen r.enums
    → HasKey r.enums k
    → FindsEnum r location k
unfolding lookup_enum fqen
finds_enum r location k named h =
    let (w, found, same) =
      lookup_name-HasKey fqen r.enums location k (λ e. qualified-dot e.file e.outers e.proto.name)
        named h in
    (w, rw found refl, same)

-- When files are loaded into a new registry, every message and every enum that the files declare, at
-- the top of a file or at any depth in its messages, is found from every location by its full name,
-- which is made of the package, the names of the messages around it and its own: the lookup returns no
-- error, and what it returns has that full name.
pub load_files-lookup :
    (files : List (Text × ProtogenFile)) (r : Registry) (location : Text)
    → load_files files new_registry ≡ some r
    → All (λ pf. AllInFile (FindsMessage r location) (FindsEnum r location) pf.1) files
unfolding get
load_files-lookup files r location e =
    let (ms, es) = load_files-Named files new_registry r e ((λ k v h. cc), (λ k v h. cc)) in
    All-map (λ pf. Covers r pf.1)
      (λ pf. AllInFile (FindsMessage r location) (FindsEnum r location) pf.1) files
      (λ pf.
        AllInFile-map (HasKey r.msgs) (FindsMessage r location) (HasKey r.enums)
          (FindsEnum r location) pf.1 (λ k. finds_message r location k ms)
          (λ k. finds_enum r location k es))
      (load_files-Covers files new_registry r e).0
