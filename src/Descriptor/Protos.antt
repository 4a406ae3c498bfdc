-- ===== src/Descriptor/Protos.antt =====
-- The descriptors that internal/descriptor reads: what it uses of descriptorpb and of the annotation
-- `google.api.http`. A Go pointer that may be nil is an option.
use grpc_gateway.Prelude.{ℕ, Bool, List, Option, Text}

-- `FieldDescriptorProto_Type`
pub data FieldType : Type 0 where
  double float int64 uint64 int32 fixed64 fixed32 bool string group message : FieldType
  bytes uint32 enum sfixed32 sfixed64 sint32 sint64 : FieldType

-- `FieldDescriptorProto_Label`
pub data Label : Type 0 where
  optional required repeated : Label

pub record FieldProto : Type 0 where
  pub name : Text
  pub label : Label
  pub type : FieldType
  pub type_name : Option Text
  pub proto3_optional : Bool
  pub oneof_index : Option ℕ

pub record EnumProto : Type 0 where
  pub name : Text

-- A message with its fields, the names of its oneofs, its nested messages and its enums.
mutual
  pub data MessageProto : Type 0 where
    message_proto :
        Text → List FieldProto → List Text → MessageProtos → List EnumProto → MessageProto

  pub data MessageProtos : Type 0 where
    no_messages : MessageProtos
    and_messages : MessageProto → MessageProtos → MessageProtos

abbrev pub message_name : MessageProto → Text
message_name (message_proto name fields oneofs nested enums) = name

abbrev pub message_fields : MessageProto → List FieldProto
message_fields (message_proto name fields oneofs nested enums) = fields

abbrev pub message_oneofs : MessageProto → List Text
message_oneofs (message_proto name fields oneofs nested enums) = oneofs

-- The oneof `pattern` of an `HttpRule`.
pub data RulePattern : Type 0 where
  get put post delete patch : Text → RulePattern
  custom : Text → Text → RulePattern
  no_pattern : RulePattern

-- An `HttpRule`: the pattern, the body, the response body and the additional bindings.
mutual
  pub data HttpRule : Type 0 where
    http_rule : RulePattern → Text → Text → HttpRules → HttpRule

  pub data HttpRules : Type 0 where
    no_rules : HttpRules
    and_rules : HttpRule → HttpRules → HttpRules

-- The extension `google.api.http` of the options of a method; `foreign` is a value of another type.
pub data HttpExtension : Type 0 where
  unset foreign : HttpExtension
  annotated : HttpRule → HttpExtension

pub record MethodProto : Type 0 where
  pub name : Text
  pub input_type : Text
  pub output_type : Text
  pub client_streaming : Bool
  pub http : HttpExtension

pub record ServiceProto : Type 0 where
  pub name : Text
  pub methods : List MethodProto

pub record FileProto : Type 0 where
  pub package_name : Option Text
  pub syntax : Option Text
  pub messages : MessageProtos
  pub enums : List EnumProto
  pub services : List ServiceProto

-- `protogen.File`
pub record ProtogenFile : Type 0 where
  pub go_import_path : Text
  pub go_package_name : Text
  pub generated_filename_prefix : Text
  pub generate : Bool
  pub proto : FileProto
