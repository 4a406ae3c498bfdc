-- ===== src/Descriptor/Types.antt =====
-- internal/descriptor/types.go: files, messages, enums, services, fields and field paths, and the names
-- that generated code uses for them. The pointers from a message to its file and from a field to its
-- message are those values; the fields of a message are computed from its descriptor, since nothing
-- changes them.
use grpc_gateway.Prelude.{
  ℕ, Bool, true, false, not, ◌&&◌, List, [], ◌∷◌, ◌++◌, Option, none, some, Text, codes,
  if◌then◌else◌, is_empty, text_eq, contains_byte, join,
}
use grpc_gateway.HttpRule.Compile.{Compiled}
use grpc_gateway.Descriptor.Protos.{
  Label, repeated, FieldProto, EnumProto, MessageProto, message_name, message_fields, MethodProto,
  ServiceProto,
}

pub record GoPackage : Type 0 where
  pub path : Text
  pub name : Text
  pub alias : Text

-- `strings.Contains(s, c)` for one byte
abbrev pub has_byte : ℕ → Text → Bool
has_byte c s = contains_byte s c

-- `GoPackage.Standard`
unfoldable pub standard : GoPackage → Bool
standard p = not (has_byte b'.' p.path)

-- What `File` has before its messages, enums and services are found.
pub record File : Type 0 where
  pub package_name : Option Text
  pub syntax : Option Text
  pub go_pkg : GoPackage
  pub generated_filename_prefix : Text

-- `File.Pkg`
unfoldable pub pkg : File → Text
pkg f = if is_empty f.go_pkg.alias then f.go_pkg.name else f.go_pkg.alias

abbrev pub is_proto2 : Option Text → Bool
is_proto2 none = true
is_proto2 (some s) = text_eq s (codes "proto2")

-- `File.proto2`
unfoldable pub proto2 : File → Bool
proto2 f = is_proto2 f.syntax

pub record Message : Type 0 where
  pub proto : MessageProto
  pub file : File
  pub outers : List Text
  pub index : ℕ
  pub force_prefixed_name : Bool

abbrev pub package_components : Option Text → List Text
package_components none = []
package_components (some p) = p ∷ []

abbrev pub dot : Text
dot = codes "."

-- The components of a fully qualified name.
abbrev pub qualified : File → List Text → Text → List Text
qualified f outers name = ([] ∷ []) ++ (package_components f.package_name ++ (outers ++ name ∷ []))

-- `Message.FQMN`
unfoldable pub fqmn : Message → Text
fqmn m = join dot (qualified m.file m.outers (message_name m.proto))

abbrev pub prefixed : File → Text → Text
prefixed f name = pkg f ++ (dot ++ name)

-- The two methods `GoType`.
unfoldable pub go_type_name : Bool → File → List Text → Text → Text → Text
unfolding pkg
go_type_name force f outers name current_package =
    let name = join (codes "_") (outers ++ name ∷ []) in
    if not force && text_eq f.go_pkg.path current_package then name else prefixed f name

unfoldable pub message_go_type : Message → Text → Text
message_go_type m current =
    go_type_name m.force_prefixed_name m.file m.outers (message_name m.proto) current

pub record Enum : Type 0 where
  pub proto : EnumProto
  pub file : File
  pub outers : List Text
  pub index : ℕ
  pub force_prefixed_name : Bool

-- `Enum.FQEN`
unfoldable pub fqen : Enum → Text
fqen e = join dot (qualified e.file e.outers e.proto.name)

unfoldable pub enum_go_type : Enum → Text → Text
enum_go_type e current = go_type_name e.force_prefixed_name e.file e.outers e.proto.name current

-- What `Service` has before its methods are found.
pub record Service : Type 0 where
  pub proto : ServiceProto
  pub file : File
  pub force_prefixed_name : Bool

-- `Service.FQSN`
unfoldable pub fqsn : Service → Text
fqsn s = join dot (qualified s.file [] s.proto.name)

-- `Service.InstanceName`
unfoldable pub instance_name : Service → Text
unfolding pkg
instance_name s = if not s.force_prefixed_name then s.proto.name else prefixed s.file s.proto.name

-- `Service.ClientConstructorName`
unfoldable pub client_constructor_name : Service → Text
unfolding pkg
client_constructor_name s =
    let constructor = codes "New" ++ (s.proto.name ++ codes "Client") in
    if not s.force_prefixed_name then constructor else prefixed s.file constructor

-- `Method.FQMN`
unfoldable pub method_fqmn : Service → MethodProto → Text
method_fqmn s m = join dot (fqsn s ∷ m.name ∷ [])

pub record Field : Type 0 where
  pub proto : FieldProto
  pub message : Message
  pub force_prefixed_name : Bool

-- `Message.Fields`, as `registerMsg` fills it.
abbrev pub fields_from : Message → List FieldProto → List Field
fields_from m [] = []
fields_from m (fd ∷ fds) =
    record { proto = fd; message = m; force_prefixed_name = m.force_prefixed_name }
    ∷ fields_from m fds

abbrev pub fields : Message → List Field
fields m = fields_from m (message_fields m.proto)

-- `Field.FQFN`
unfoldable pub fqfn : Field → Text
fqfn f = join dot (fqmn f.message ∷ f.proto.name ∷ [])

abbrev pub is_repeated_label : Label → Bool
is_repeated_label repeated = true
is_repeated_label _ = false

pub record FieldPathComponent : Type 0 where
  pub name : Text
  pub target : Field

abbrev pub FieldPath : Type 0
FieldPath = List FieldPathComponent

abbrev pub component_names : FieldPath → List Text
component_names [] = []
component_names (c ∷ p) = c.name ∷ component_names p

-- `FieldPath.String`
unfoldable pub path_string : FieldPath → Text
path_string p = join dot (component_names p)

-- `FieldPath.IsNestedProto3`
unfoldable pub is_nested_proto3 : FieldPath → Bool
unfolding proto2
is_nested_proto3 [] = false
is_nested_proto3 (c ∷ []) = false
is_nested_proto3 (c ∷ d ∷ p) = not (proto2 c.target.message.file)

-- `FieldPath.IsOptionalProto3`
unfoldable pub is_optional_proto3 : FieldPath → Bool
is_optional_proto3 [] = false
is_optional_proto3 (c ∷ p) = c.target.proto.proto3_optional

pub record Parameter : Type 0 where
  pub field_path : FieldPath
  pub target : Field

unfoldable pub is_repeated : Parameter → Bool
is_repeated p = is_repeated_label p.target.proto.label

-- `Parameter.IsProto2`
unfoldable pub is_proto2_parameter : Parameter → Bool
unfolding proto2
is_proto2_parameter p = proto2 p.target.message.file

pub record Body : Type 0 where
  pub field_path : FieldPath

pub record Binding : Type 0 where
  pub index : ℕ
  pub path_tmpl : Compiled
  pub http_method : Text
  pub path_params : List Parameter
  pub body : Option Body
  pub response_body : Option Body

abbrev pub body_paths : Option Body → List Text
body_paths none = []
body_paths (some b) = path_string b.field_path ∷ []

abbrev pub parameter_paths : List Parameter → List Text
parameter_paths [] = []
parameter_paths (p ∷ ps) = path_string p.field_path ∷ parameter_paths ps

-- `Binding.ExplicitParams`
unfoldable pub explicit_params : Binding → List Text
explicit_params b = body_paths b.body ++ parameter_paths b.path_params

-- A `Method` with its bindings; a binding may be nil.
pub record Method : Type 0 where
  pub service : Service
  pub proto : MethodProto
  pub request_type : Message
  pub response_type : Message
  pub bindings : List (Option Binding)

-- A `Service` with its methods.
pub record ServiceEntry : Type 0 where
  pub service : Service
  pub methods : List Method

-- A `File` with what is found in it.
pub record FileEntry : Type 0 where
  pub file : File
  pub service_protos : List ServiceProto
  pub messages : List Message
  pub enums : List Enum
  pub services : List ServiceEntry
