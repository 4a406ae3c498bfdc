-- ===== src/Descriptor/Registry.antt =====
-- internal/descriptor/registry.go: the maps of messages, enums, files and package aliases, how files
-- are loaded into them, and how names are looked up. `none` from a loader means that the fuel ran out.
pub mod Unique
pub mod Pigeons
pub mod Aliases
pub mod Contents
pub mod Declared
pub mod Lookup
pub mod Names
pub mod Scopes
use grpc_gateway.Prelude.{
  ℕ, zero, suc, ◌-◌, ◌||◌, Bool, true, false, not, List, [], ◌∷◌, ◌++◌, Option, none, some, Text,
  codes, length, if◌then◌else◌, text_eq, has_prefix, join, split, reverse, get, put, itoa, Result,
  ok, fail, ◌>>=◌,
}
use grpc_gateway.Casing.{is_ascii_lower}
use grpc_gateway.Descriptor.Protos.{
  EnumProto, MessageProto, message_proto, MessageProtos, no_messages, and_messages, HttpRule,
  MethodProto, ServiceProto, FileProto, ProtogenFile,
}
use grpc_gateway.Descriptor.Types.{
  GoPackage, File, Message, fqmn, dot, Enum, fqen, Service, method_fqmn, FileEntry,
}
use grpc_gateway.Descriptor.Convert.{DescriptorError, no_message, no_file, alias_taken}

pub record Registry : Type 0 where
  pub msgs : List (Text × Message)
  pub enums : List (Text × Enum)
  pub files : List (Text × FileEntry)
  pub pkg_aliases : List (Text × Text)
  pub external_http_rules : List (Text × List HttpRule)
  pub allow_delete_body : Bool
  pub allow_repeated_fields_in_body : Bool
  pub standalone : Bool
  pub generate_unbound_methods : Bool

-- `NewRegistry`
abbrev pub new_registry : Registry
new_registry = record {
  msgs = [];
  enums = [];
  files = [];
  pkg_aliases = [];
  external_http_rules = [];
  allow_delete_body = false;
  allow_repeated_fields_in_body = false;
  standalone = false;
  generate_unbound_methods = false;
}

abbrev pub reserve_where :
    Option Text → Text → Text → List (Text × Text) → Option (List (Text × Text))
reserve_where none alias path aliases = some (put alias path aliases)
reserve_where (some taken) alias path aliases = if text_eq taken path then some aliases else none

-- `ReserveGoPackageAlias`; none is its error.
unfoldable pub reserve_go_package_alias :
    Text → Text → List (Text × Text) → Option (List (Text × Text))
reserve_go_package_alias alias path aliases = reserve_where (get alias aliases) alias path aliases

-- `fmt.Sprintf("%s_%d", pkg.Name, i)`
abbrev pub numbered : Text → ℕ → Text
numbered name i = name ++ (b'_' ∷ itoa i)

-- The loop of `loadFile` over the aliases.
unfoldable pub alias_loop :
    ℕ → ℕ → Text → Text → List (Text × Text) → Option (Text × List (Text × Text))
alias_loop zero i name path aliases = none
alias_loop (suc f) i name path aliases =
    elim (reserve_go_package_alias (numbered name i) path aliases) [
      | some aliases' ↦ some (numbered name i, aliases')
      | none ↦ alias_loop f (suc i) name path aliases
    ]

-- `strings.Title` of a package name, which is one word.
abbrev pub title : Text → Text
title [] = []
title (c ∷ s) = (if is_ascii_lower c then c - 32 else c) ∷ s

abbrev pub alias_or_loop :
    Option (List (Text × Text))
    → GoPackage
    → List (Text × Text)
    → Option (GoPackage × List (Text × Text))
alias_or_loop (some aliases') p aliases = some (p, aliases')
alias_or_loop none p aliases = elim (alias_loop (suc (length aliases)) 0 p.name p.path aliases) [
  | none ↦ none
  | some (alias, aliases') ↦ some (record p { alias = alias }, aliases')
]

-- The first statements of `loadFile`: the Go package of a file, with an alias if its name is taken.
unfoldable pub reserve_package :
    Bool → Text → Text → List (Text × Text) → Option (GoPackage × List (Text × Text))
unfolding reserve_go_package_alias alias_loop
reserve_package standalone path name aliases =
    alias_or_loop (reserve_go_package_alias name path aliases)
      (record {
        path = path;
        name = name;
        alias = if standalone then codes "ext" ++ title name else [];
      })
      aliases

-- What `registerMsg` and `registerEnum` change: the lists of the file and the maps of the registry.
pub record Found : Type 0 where
  pub messages : List Message
  pub enum_list : List Enum
  pub msgs : List (Text × Message)
  pub enums : List (Text × Enum)

abbrev add_message : Message → Found → Found
add_message m s = record s { messages = s.messages ++ m ∷ []; msgs = put (fqmn m) m s.msgs }

abbrev add_enum : Enum → Found → Found
add_enum e s = record s { enum_list = s.enum_list ++ e ∷ []; enums = put (fqen e) e s.enums }

-- `registerEnum`, from index `i`.
unfoldable pub register_enums : Bool → File → List Text → ℕ → List EnumProto → Found → Found
unfolding fqen
register_enums standalone f outers i [] s = s
register_enums standalone f outers i (ed ∷ eds) s = register_enums standalone f outers (suc i) eds (
    add_enum
      (record {
        proto = ed;
        file = f;
        outers = outers;
        index = i;
        force_prefixed_name = standalone;
      })
      s)

-- `registerMsg`, from index `i`, and its body.
unfoldable mutual
  unfolding fqmn register_enums

  pub register_messages : Bool → File → List Text → ℕ → MessageProtos → Found → Found
  register_messages standalone f outers i no_messages s = s
  register_messages standalone f outers i (and_messages md mds) s =
      register_messages standalone f outers (suc i) mds
        (register_message standalone f outers i md s)

  pub register_message : Bool → File → List Text → ℕ → MessageProto → Found → Found
  register_message standalone f outers i (message_proto name fields oneofs nested enums) s =
      let m : Message = record {
        proto = message_proto name fields oneofs nested enums;
        file = f;
        outers = outers;
        index = i;
        force_prefixed_name = standalone;
      } in
      let inner = outers ++ name ∷ [] in
      register_enums standalone f inner 0 enums
        (register_messages standalone f inner 0 nested (add_message m s))

-- The rest of `loadFile`.
unfoldable pub register_file :
    Text → ProtogenFile → Registry → GoPackage × List (Text × Text) → Registry
unfolding register_messages register_enums
register_file path file r (pkg, aliases) =
    let f : File = record {
      package_name = file.proto.package_name;
      syntax = file.proto.syntax;
      go_pkg = pkg;
      generated_filename_prefix = file.generated_filename_prefix;
    } in
    let s = register_enums r.standalone f [] 0 file.proto.enums (
      register_messages r.standalone f [] 0 file.proto.messages
        (record { messages = []; enum_list = []; msgs = r.msgs; enums = r.enums })) in
    record r {
      msgs = s.msgs;
      enums = s.enums;
      pkg_aliases = aliases;
      files =
          put path
            (record {
              file = f;
              service_protos = file.proto.services;
              messages = s.messages;
              enums = s.enum_list;
              services = [];
            })
            r.files;
    }

-- `loadFile`
unfoldable pub load_file : Text → ProtogenFile → Registry → Option Registry
unfolding reserve_package register_file
load_file path file r =
    elim (reserve_package r.standalone file.go_import_path file.go_package_name r.pkg_aliases) [
      | none ↦ none
      | some found ↦ some (register_file path file r found)
    ]

-- The first loop of `load`; Go walks the map of files in some order.
unfoldable pub load_files : List (Text × ProtogenFile) → Registry → Option Registry
unfolding load_file
load_files [] r = some r
load_files ((path, file) ∷ files) r = elim (load_file path file r) [
  | none ↦ none
  | some r₁ ↦ load_files files r₁
]

-- `location` with a dot in front.
abbrev pub rooted : Text → Text
rooted location = if has_prefix location dot then location else dot ++ location

module _ {ℓ} {V : Type ℓ} where
  -- The loop of `LookupMsg` and `LookupEnum` over the scopes, the components in reverse.
  unfoldable pub lookup_scopes : List Text → Text → List (Text × V) → Option V
  lookup_scopes [] name m = none
  lookup_scopes (c ∷ outer) name m = elim (get (join dot (reverse (c ∷ outer) ++ name ∷ [])) m) [
    | some v ↦ some v
    | none ↦ lookup_scopes outer name m
  ]

  -- The two functions `LookupMsg` and `LookupEnum` on their maps.
  unfoldable pub lookup_name : Text → Text → List (Text × V) → Option V
  unfolding lookup_scopes
  lookup_name location name m =
      if has_prefix name dot
      then get name m
      else lookup_scopes (reverse (split b'.' (rooted location))) name m

abbrev found_or {ℓ} : {V : Type ℓ} → DescriptorError → Option V → Result DescriptorError V
found_or e none = fail e
found_or e (some v) = ok v

-- `LookupMsg`
unfoldable pub lookup_msg : Registry → Text → Text → Result DescriptorError Message
unfolding lookup_name
lookup_msg r location name = found_or no_message (lookup_name location name r.msgs)

-- `LookupEnum`
unfoldable pub lookup_enum : Registry → Text → Text → Result DescriptorError Enum
unfolding lookup_name
lookup_enum r location name = found_or no_message (lookup_name location name r.enums)

-- `LookupFile`
unfoldable pub lookup_file : Registry → Text → Result DescriptorError FileEntry
lookup_file r name = found_or no_file (get name r.files)

abbrev or_none {ℓ} : {A : Type ℓ} → Option (List A) → List A
or_none none = []
or_none (some l) = l

-- `LookupExternalHTTPRules`
unfoldable pub lookup_external_http_rules : Registry → Text → List HttpRule
lookup_external_http_rules r name = or_none (get name r.external_http_rules)

-- `AddExternalHTTPRule`
unfoldable pub add_external_http_rule : Text → HttpRule → Registry → Registry
add_external_http_rule name rule r = record r {
  external_http_rules =
      put name (or_none (get name r.external_http_rules) ++ rule ∷ []) r.external_http_rules;
}

abbrev method_names : Service → List MethodProto → List Text
method_names s [] = []
method_names s (m ∷ ms) = method_fqmn s m ∷ method_names s ms

abbrev names_of_services : File → List ServiceProto → List Text
names_of_services f [] = []
names_of_services f (sd ∷ sds) =
    method_names (record { proto = sd; file = f; force_prefixed_name = false }) sd.methods
    ++ names_of_services f sds

-- `allServiceMethods`
unfoldable pub all_service_methods : List (Text × FileEntry) → List Text
unfolding method_fqmn
all_service_methods [] = []
all_service_methods ((path, f) ∷ files) =
    names_of_services f.file f.service_protos ++ all_service_methods files

unfoldable pub contains_text : Text → List Text → Bool
contains_text t [] = false
contains_text t (x ∷ xs) = text_eq x t || contains_text t xs

-- The last loop of `UnboundExternalHTTPRules`.
unfoldable pub missing_methods : List Text → List (Text × List HttpRule) → List Text
unfolding contains_text
missing_methods methods [] = []
missing_methods methods ((name, rules) ∷ more) =
    let rest = missing_methods methods more in
    if contains_text name methods then rest else name ∷ rest

-- `UnboundExternalHTTPRules`
unfoldable pub unbound_external_http_rules : Registry → List Text
unfolding all_service_methods missing_methods
unbound_external_http_rules r = missing_methods (all_service_methods r.files) r.external_http_rules
