-- ===== src/Descriptor/Registry/Names.antt =====
-- internal/descriptor/registry.go: the maps of messages and enums hold what is loaded under its fully
-- qualified name.
use grpc_gateway.Prelude.{
  ℕ, suc, ◌≡◌, refl, sym, ◌∙◌, ap, subst, Bool, List, [], ◌∷◌, ◌++◌, Option, none, some, Text,
  text_eq, text_eq→eq, get, put, get-put_self, get-put_other, Bool-cases, inl, inr,
}
use grpc_gateway.Descriptor.Protos.{
  EnumProto, MessageProto, message_proto, MessageProtos, no_messages, and_messages, ProtogenFile,
}
use grpc_gateway.Descriptor.Types.{File, Message, fqmn, Enum, fqen, GoPackage}
use grpc_gateway.Descriptor.Registry.{
  Registry, Found, register_enums, register_messages, register_message, register_file,
  reserve_package, load_file, load_files,
}

pub some_injective : {A : Type 0} (a b : A) → ◌≡◌ {A = Option A} (some a) (some b) → a ≡ b
some_injective a b e = cc

-- Every value stands under its name.
abbrev pub IsNamed : {V : Type 0} → (V → Text) → List (Text × V) → Type 0
IsNamed {V = V} name_of m = (k : Text) (v : V) → get k m ≡ some v → name_of v ≡ k

put-IsNamed :
    {V : Type 0} (name_of : V → Text) (v : V) (m : List (Text × V))
    → IsNamed name_of m
    → IsNamed name_of (put (name_of v) v m)
put-IsNamed name_of v m h k w e = elim (Bool-cases (text_eq (name_of v) k)) [
  | inl same ↦
      (let eq = text_eq→eq (name_of v) k same in
        ap name_of (
          some_injective w v (
            sym e
            ∙ (ap (λ k. get k (put (name_of v) v m)) (sym eq) ∙ get-put_self (name_of v) v m)))
        ∙ eq)
  | inr other ↦ h k w (sym (get-put_other (name_of v) k v m other) ∙ e)
]

-- Both maps by name.
abbrev BothNamed : List (Text × Message) → List (Text × Enum) → Type 0
BothNamed ms es = IsNamed fqmn ms × IsNamed fqen es

abbrev FoundNamed : Found → Type 0
FoundNamed s = BothNamed s.msgs s.enums

abbrev pub RegistryNamed : Registry → Type 0
RegistryNamed r = BothNamed r.msgs r.enums

module _ (standalone : Bool) (f : File) where
  register_enums-Named :
      (outers : List Text) (i : ℕ) (eds : List EnumProto) (s : Found)
      → FoundNamed s
      → FoundNamed (register_enums standalone f outers i eds s)
  unfolding register_enums
  register_enums-Named outers i [] s h = h
  register_enums-Named outers i (ed ∷ eds) s (m, e) =
      let ed : Enum = record {
        proto = ed;
        file = f;
        outers = outers;
        index = i;
        force_prefixed_name = standalone;
      } in
      register_enums-Named outers (suc i) eds _ (m, put-IsNamed fqen ed s.enums e)

  mutual
    unfolding register_messages

    register_messages-Named :
        (outers : List Text) (i : ℕ) (mds : MessageProtos) (s : Found)
        → FoundNamed s
        → FoundNamed (register_messages standalone f outers i mds s)
    register_messages-Named outers i no_messages s h = h
    register_messages-Named outers i (and_messages md mds) s h =
        register_messages-Named outers (suc i) mds (register_message standalone f outers i md s)
          (register_message-Named outers i md s h)

    register_message-Named :
        (outers : List Text) (i : ℕ) (md : MessageProto) (s : Found)
        → FoundNamed s
        → FoundNamed (register_message standalone f outers i md s)
    register_message-Named outers i (message_proto name fields oneofs nested enums) s (m, e) =
        let md : Message = record {
          proto = message_proto name fields oneofs nested enums;
          file = f;
          outers = outers;
          index = i;
          force_prefixed_name = standalone;
        } in
        register_enums-Named (outers ++ name ∷ []) 0 enums _ (
          register_messages-Named (outers ++ name ∷ []) 0 nested _
            (put-IsNamed fqmn md s.msgs m, e))

register_file-Named :
    (path : Text) (file : ProtogenFile) (r : Registry) (found : GoPackage × List (Text × Text))
    → RegistryNamed r
    → RegistryNamed (register_file path file r found)
unfolding register_file
register_file-Named path file r found h =
    let f : File = record {
      package_name = file.proto.package_name;
      syntax = file.proto.syntax;
      go_pkg = found.0;
      generated_filename_prefix = file.generated_filename_prefix;
    } in
    register_enums-Named r.standalone f [] 0 file.proto.enums _ (
      register_messages-Named r.standalone f [] 0 file.proto.messages
        (record { messages = []; enum_list = []; msgs = r.msgs; enums = r.enums }) h)

load_file-Named :
    (path : Text) (file : ProtogenFile) (r r' : Registry)
    → load_file path file r ≡ some r'
    → RegistryNamed r
    → RegistryNamed r'
unfolding load_file
load_file-Named path file r r' e h =
    loaded (reserve_package r.standalone file.go_import_path file.go_package_name r.pkg_aliases) e
  where
    loaded :
        (o : Option (GoPackage × List (Text × Text)))
        → elim o [ none ↦ none | some found ↦ some (register_file path file r found) ] ≡ some r'
        → RegistryNamed r'
    loaded none e = cc
    loaded (some found) e =
        subst RegistryNamed (some_injective (register_file path file r found) r' e)
          (register_file-Named path file r found h)

pub load_files-Named :
    (files : List (Text × ProtogenFile)) (r r' : Registry)
    → load_files files r ≡ some r'
    → RegistryNamed r
    → RegistryNamed r'
unfolding load_files
load_files-Named [] r r' e h = subst RegistryNamed (some_injective r r' e) h
load_files-Named ((path, file) ∷ files) r r' e h =
    loaded (load_file path file r) (load_file-Named path file r) (load_files-Named files) e
  where
    loaded :
        (o : Option Registry)
        → ((q : Registry) → o ≡ some q → RegistryNamed r → RegistryNamed q)
        → ((q q' : Registry) → load_files files q ≡ some q' → RegistryNamed q → RegistryNamed q')
        → elim o [ none ↦ none | some r₁ ↦ load_files files r₁ ] ≡ some r'
        → RegistryNamed r'
    loaded none first later e = cc
    loaded (some q) first later e = later q r' e (first q refl h)
