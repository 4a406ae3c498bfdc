-- ===== src/Descriptor/Registry/Declared.antt =====
-- internal/descriptor/registry.go: what the files declare has an entry in the maps of the registry.
use grpc_gateway.Prelude.{
  ℕ, suc, ◌≡◌, refl, subst, Bool, List, [], ◌∷◌, ◌++◌, Option, none, some, Text, get, put,
  get-put_self, get-put-keeps, All,
}
use grpc_gateway.Descriptor.Protos.{
  EnumProto, MessageProto, message_proto, MessageProtos, no_messages, and_messages, ProtogenFile,
}
use grpc_gateway.Descriptor.Types.{File, Message, fqmn, Enum, fqen, GoPackage}
use grpc_gateway.Descriptor.Registry.{
  Registry, Found, add_message, add_enum, register_enums, register_messages, register_message,
  register_file, reserve_package, load_file, load_files,
}
use grpc_gateway.Descriptor.Registry.Names.{some_injective}
use grpc_gateway.Descriptor.Registry.Contents.{
  full_name, AllDeclared, AllInFile, All-map, AllDeclared-map, AllInFile-map,
}

-- The map has an entry for the key.
abbrev pub HasKey : {V : Type 0} → List (Text × V) → Text → Type 0
HasKey {V = V} m k = (v : V) × (get k m ≡ some v)

-- No key is lost.
abbrev Grows : (ms ms' : List (Text × Message)) (es es' : List (Text × Enum)) → Type 0
Grows ms ms' es es' =
    ((k : Text) → HasKey ms k → HasKey ms' k) × ((k : Text) → HasKey es k → HasKey es' k)

abbrev FoundGrows : Found → Found → Type 0
FoundGrows s s' = Grows s.msgs s'.msgs s.enums s'.enums

then_Grows : (s₁ s₂ s₃ : Found) → FoundGrows s₁ s₂ → FoundGrows s₂ s₃ → FoundGrows s₁ s₃
then_Grows s₁ s₂ s₃ (f, g) (f', g') = (λ k h. f' k (f k h), λ k h. g' k (g k h))

put-HasKey :
    {V : Type 0} (j k : Text) (v : V) (m : List (Text × V)) → HasKey m k → HasKey (put j v m) k
put-HasKey j k v m (w, e) = get-put-keeps j k v w m e

add_message-Grows : (m : Message) (s : Found) → FoundGrows s (add_message m s)
add_message-Grows m s = (λ k h. put-HasKey (fqmn m) k m s.msgs h, λ k h. h)

add_enum-Grows : (e : Enum) (s : Found) → FoundGrows s (add_enum e s)
add_enum-Grows e s = (λ k h. h, λ k h. put-HasKey (fqen e) k e s.enums h)

module _ (standalone : Bool) (f : File) where
  abbrev enum_of : List Text → ℕ → EnumProto → Enum
  enum_of outers i ed = record {
    proto = ed;
    file = f;
    outers = outers;
    index = i;
    force_prefixed_name = standalone;
  }

  abbrev message_of : List Text → ℕ → MessageProto → Message
  message_of outers i md = record {
    proto = md;
    file = f;
    outers = outers;
    index = i;
    force_prefixed_name = standalone;
  }

  register_enums-Grows :
      (outers : List Text) (i : ℕ) (eds : List EnumProto) (s : Found)
      → FoundGrows s (register_enums standalone f outers i eds s)
  unfolding register_enums
  register_enums-Grows outers i [] s = (λ k h. h, λ k h. h)
  register_enums-Grows outers i (ed ∷ eds) s =
      let s₁ = add_enum (enum_of outers i ed) s in
      then_Grows s s₁ (register_enums standalone f outers (suc i) eds s₁)
        (add_enum-Grows (enum_of outers i ed) s) (register_enums-Grows outers (suc i) eds s₁)

  mutual
    unfolding register_messages

    register_messages-Grows :
        (outers : List Text) (i : ℕ) (mds : MessageProtos) (s : Found)
        → FoundGrows s (register_messages standalone f outers i mds s)
    register_messages-Grows outers i no_messages s = (λ k h. h, λ k h. h)
    register_messages-Grows outers i (and_messages md mds) s =
        let s₁ = register_message standalone f outers i md s in
        then_Grows s s₁ (register_messages standalone f outers (suc i) mds s₁)
          (register_message-Grows outers i md s) (register_messages-Grows outers (suc i) mds s₁)

    register_message-Grows :
        (outers : List Text) (i : ℕ) (md : MessageProto) (s : Found)
        → FoundGrows s (register_message standalone f outers i md s)
    register_message-Grows outers i (message_proto name fields oneofs nested enums) s =
        let inner = outers ++ name ∷ [] in
        let m = message_of outers i (message_proto name fields oneofs nested enums) in
        let s₁ = add_message m s in
        let s₂ = register_messages standalone f inner 0 nested s₁ in
        let s₃ = register_enums standalone f inner 0 enums s₂ in
        then_Grows s s₁ s₃ (add_message-Grows m s) (
          then_Grows s₁ s₂ s₃ (register_messages-Grows inner 0 nested s₁)
            (register_enums-Grows inner 0 enums s₂))

  abbrev HasMessage : Found → List Text → Type 0
  HasMessage s p = HasKey s.msgs (full_name f.package_name p)

  abbrev HasEnum : Found → List Text → Type 0
  HasEnum s p = HasKey s.enums (full_name f.package_name p)

  register_enums-HasEnum :
      (outers : List Text) (i : ℕ) (eds : List EnumProto) (s : Found)
      → All
          (λ ed. HasEnum (register_enums standalone f outers i eds s) (outers ++ ed.name ∷ []))
          eds
  unfolding register_enums fqen
  register_enums-HasEnum outers i [] s = tt
  register_enums-HasEnum outers i (ed ∷ eds) s =
      let e = enum_of outers i ed in
      let s₁ = add_enum e s in
      (
        (register_enums-Grows outers (suc i) eds s₁).1 _ (e, get-put_self (fqen e) e s.enums),
        register_enums-HasEnum outers (suc i) eds s₁,
      )

  abbrev AllFound : Found → List Text → MessageProtos → Type 0
  AllFound s = AllDeclared (HasMessage s) (HasEnum s)

  AllFound-Grows :
      (s s' : Found) (outers : List Text) (mds : MessageProtos)
      → FoundGrows s s'
      → AllFound s outers mds
      → AllFound s' outers mds
  AllFound-Grows s s' outers mds (g, h) =
      AllDeclared-map (HasMessage s) (HasMessage s') (HasEnum s) (HasEnum s') outers mds
        (λ p. g (full_name f.package_name p)) (λ p. h (full_name f.package_name p))

  register_messages-AllFound :
      (outers : List Text) (i : ℕ) (mds : MessageProtos) (s : Found)
      → AllFound (register_messages standalone f outers i mds s) outers mds
  unfolding register_messages fqmn
  register_messages-AllFound outers i no_messages s = tt
  register_messages-AllFound outers i
        (and_messages (message_proto name fields oneofs nested enums) mds) s =
      let inner = outers ++ name ∷ [] in
      let m = message_of outers i (message_proto name fields oneofs nested enums) in
      let s₁ = add_message m s in
      let s₂ = register_messages standalone f inner 0 nested s₁ in
      let s₃ = register_enums standalone f inner 0 enums s₂ in
      let s₄ = register_messages standalone f outers (suc i) mds s₃ in
      let later = register_messages-Grows outers (suc i) mds s₃ in
      let enums_later = then_Grows s₂ s₃ s₄ (register_enums-Grows inner 0 enums s₂) later in
      let all_later = then_Grows s₁ s₂ s₄ (register_messages-Grows inner 0 nested s₁) enums_later in
      (
        all_later.0 (fqmn m) (m, get-put_self (fqmn m) m s.msgs),
        AllFound-Grows s₂ s₄ inner nested enums_later
            (register_messages-AllFound inner 0 nested s₁),
        All-map (λ ed. HasEnum s₃ (inner ++ ed.name ∷ []))
            (λ ed. HasEnum s₄ (inner ++ ed.name ∷ [])) enums (λ ed. later.1 _)
            (register_enums-HasEnum inner 0 enums s₂),
        register_messages-AllFound outers (suc i) mds s₃,
      )

-- The registry has an entry for everything that the file declares.
abbrev pub Covers : Registry → ProtogenFile → Type 0
Covers r file = AllInFile (HasKey r.msgs) (HasKey r.enums) file

-- No key of a registry is lost in the other one.
abbrev RegistryGrows : Registry → Registry → Type 0
RegistryGrows r r' = Grows r.msgs r'.msgs r.enums r'.enums

register_file-Covers :
    (path : Text) (file : ProtogenFile) (r : Registry) (found : GoPackage × List (Text × Text))
    → Covers (register_file path file r found) file
      × RegistryGrows r (register_file path file r found)
unfolding register_file
register_file-Covers path file r found =
    let f : File = record {
      package_name = file.proto.package_name;
      syntax = file.proto.syntax;
      go_pkg = found.0;
      generated_filename_prefix = file.generated_filename_prefix;
    } in
    let s₀ : Found = record { messages = []; enum_list = []; msgs = r.msgs; enums = r.enums } in
    let s₁ = register_messages r.standalone f [] 0 file.proto.messages s₀ in
    let s₂ = register_enums r.standalone f [] 0 file.proto.enums s₁ in
    let later = register_enums-Grows r.standalone f [] 0 file.proto.enums s₁ in
    (
      (
        AllFound-Grows r.standalone f s₁ s₂ [] file.proto.messages later
            (register_messages-AllFound r.standalone f [] 0 file.proto.messages s₀),
        register_enums-HasEnum r.standalone f [] 0 file.proto.enums s₁,
      ),
      then_Grows s₀ s₁ s₂ (register_messages-Grows r.standalone f [] 0 file.proto.messages s₀)
          later,
    )

load_file-Covers :
    (path : Text) (file : ProtogenFile) (r r' : Registry)
    → load_file path file r ≡ some r'
    → Covers r' file × RegistryGrows r r'
unfolding load_file
load_file-Covers path file r r' e =
    loaded (reserve_package r.standalone file.go_import_path file.go_package_name r.pkg_aliases) e
  where
    loaded :
        (o : Option (GoPackage × List (Text × Text)))
        → elim o [ none ↦ none | some found ↦ some (register_file path file r found) ] ≡ some r'
        → Covers r' file × RegistryGrows r r'
    loaded none e = cc
    loaded (some found) e =
        subst (λ q. Covers q file × RegistryGrows r q)
          (some_injective (register_file path file r found) r' e)
          (register_file-Covers path file r found)

-- Every file that has been loaded is covered, and nothing that was there before is lost.
pub load_files-Covers :
    (files : List (Text × ProtogenFile)) (r r' : Registry)
    → load_files files r ≡ some r'
    → All (λ pf. Covers r' pf.1) files × RegistryGrows r r'
unfolding load_files
load_files-Covers [] r r' e =
    (tt, subst (RegistryGrows r) (some_injective r r' e) (λ k h. h, λ k h. h))
load_files-Covers ((path, file) ∷ files) r r' e =
    loaded (load_file path file r) (load_file-Covers path file r) (load_files-Covers files) e
  where
    loaded :
        (o : Option Registry)
        → ((q : Registry) → o ≡ some q → Covers q file × RegistryGrows r q)
        → ((q q' : Registry)
            → load_files files q ≡ some q'
            → All (λ pf. Covers q' pf.1) files × RegistryGrows q q')
        → elim o [ none ↦ none | some r₁ ↦ load_files files r₁ ] ≡ some r'
        → All (λ pf. Covers r' pf.1) ((path, file) ∷ files) × RegistryGrows r r'
    loaded none first rest e = cc
    loaded (some q) first rest e =
        let (covered, (g, h)) = first q refl in
        let (others, (g', h')) = rest q r' e in
        (
          (
            AllInFile-map (HasKey q.msgs) (HasKey r'.msgs) (HasKey q.enums) (HasKey r'.enums) file
                g' h' covered,
            others,
          ),
          (λ k x. g' k (g k x), λ k x. h' k (h k x)),
        )
