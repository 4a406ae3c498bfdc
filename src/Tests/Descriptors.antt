-- ===== src/Tests/Descriptors.antt =====
-- internal/descriptor on a file with one message and one method.
use grpc_gateway.Prelude.{
  ◌≡◌, ◌↔◌, refl, true, false, List, [], ◌∷◌, none, some, Text, codes, ok, All, get, put, text_eq,
  has_prefix, join, split,
}
use grpc_gateway.HttpRule.Compile.{
  compile, position, intern, operand, emit, fields_of, compile_segment, compile_segments,
}
use grpc_gateway.Runtime.Pattern.Bound.{Binds}
use grpc_gateway.Descriptor.Protos as Protos
use grpc_gateway.Descriptor.Protos.{
  string, optional, FieldProto, EnumProto, MessageProto, message_proto, no_messages, and_messages,
  http_rule, no_rules, HttpRule, MethodProto, ServiceProto, FileProto, ProtogenFile, message,
}
use grpc_gateway.Descriptor.Types.{
  File, Message, fqmn, Enum, fqen, Service, FieldPath, component_names, Parameter, Binding, Method,
  FileEntry, proto2, parameter_paths, is_proto2_parameter,
}
use grpc_gateway.Descriptor.Convert.{convert_func_expr, is_well_known_type}
use grpc_gateway.Descriptor.Registry.{
  Registry, new_registry, load_files, load_file, reserve_package, reserve_go_package_alias,
  register_file, register_messages, register_enums, lookup_msg, lookup_name, lookup_scopes,
}
use grpc_gateway.Descriptor.Services.{
  resolve_field_path, resolve_loop, lookup_field, new_param, new_params, new_body, new_response,
  binding_for, new_binding, apply_additional, apply_opts, apply_all, new_method,
}
use grpc_gateway.Descriptor.Registry.{rooted}
use grpc_gateway.Descriptor.Registry.Contents.{AllInFile}
use grpc_gateway.Descriptor.Registry.Lookup.{FindsMessage, FindsEnum, load_files-lookup}
use grpc_gateway.Descriptor.Registry.Aliases.{load_files-ends}
use grpc_gateway.Descriptor.Registry.Unique.{load_files-pkg}
use grpc_gateway.Descriptor.Registry.Scopes.{Innermost, lookup_name_iff}
use grpc_gateway.Descriptor.Services.Paths.{IsFieldPath, resolve_field_path_iff}
use grpc_gateway.Descriptor.Services.Bindings.{AllBound, new_method-AllBound}
use grpc_gateway.Descriptor.Services.Handlers.{new_method-Binds}
use grpc_gateway.Descriptor.Services.Converters.{new_param-convert_func_expr}
use grpc_gateway.Descriptor.Protos.{and_rules, repeated}
use grpc_gateway.Tests.Patterns.{item_compiled, item_match, item, item_pattern}
use grpc_gateway.Tests.Templates.{parse-item}

abbrev name_field : FieldProto
name_field = record {
  name = codes "n";
  label = optional;
  type = string;
  type_name = none;
  proto3_optional = false;
  oneof_index = none;
}

abbrev kind : EnumProto
kind = record { name = codes "Kind" }

abbrev request : MessageProto
request = message_proto (codes "Req") (name_field ∷ []) [] no_messages (kind ∷ [])

abbrev library : ProtogenFile
library = record {
  go_import_path = codes "ex.com/a";
  go_package_name = codes "a";
  generated_filename_prefix = codes "a";
  generate = true;
  proto = record {
    package_name = some (codes "lib");
    syntax = some (codes "proto3");
    messages = and_messages request no_messages;
    enums = [];
    services = [];
  };
}

abbrev library_file : File
library_file = record {
  package_name = some (codes "lib");
  syntax = some (codes "proto3");
  go_pkg = record { path = codes "ex.com/a"; name = codes "a"; alias = [] };
  generated_filename_prefix = codes "a";
}

abbrev request_message : Message
request_message = record {
  proto = request;
  file = library_file;
  outers = [];
  index = 0;
  force_prefixed_name = false;
}

abbrev kind_enum : Enum
kind_enum = record {
  proto = kind;
  file = library_file;
  outers = codes "Req" ∷ [];
  index = 0;
  force_prefixed_name = false;
}

abbrev library_entry : FileEntry
library_entry = record {
  file = library_file;
  service_protos = [];
  messages = request_message ∷ [];
  enums = kind_enum ∷ [];
  services = [];
}

abbrev loaded : Registry
loaded = record new_registry {
  msgs = (codes ".lib.Req", request_message) ∷ [];
  enums = (codes ".lib.Req.Kind", kind_enum) ∷ [];
  files = (codes "a.proto", library_entry) ∷ [];
  pkg_aliases = (codes "a", codes "ex.com/a") ∷ [];
}

abbrev library_files : List (Text × ProtogenFile)
library_files = (codes "a.proto", library) ∷ []

library_loaded : load_files library_files new_registry ≡ some loaded
unfolding load_files load_file reserve_package reserve_go_package_alias register_file
    register_messages register_enums get put fqmn fqen join text_eq
library_loaded = refl

lookup_relative : lookup_msg loaded (codes "lib.Other") (codes "Req") ≡ ok request_message
unfolding lookup_msg lookup_name lookup_scopes get text_eq join split has_prefix
lookup_relative = refl

abbrev name_path : FieldPath
name_path =
    record {
      name = codes "n";
      target = record {
        proto = name_field;
        message = request_message;
        force_prefixed_name = false;
      };
    }
    ∷ []

name_resolved : resolve_field_path loaded request_message (codes "n") true ≡ ok name_path
unfolding resolve_field_path resolve_loop lookup_field text_eq split
name_resolved = refl

abbrev name_parameter : Parameter
name_parameter = record {
  field_path = name_path;
  target = record { proto = name_field; message = request_message; force_prefixed_name = false };
}

name_parameter_made : new_param loaded request_message (codes "n") ≡ ok name_parameter
unfolding new_param resolve_field_path resolve_loop lookup_field text_eq split is_well_known_type
name_parameter_made = refl

abbrev library_service : Service
library_service = record {
  proto = record { name = codes "Lib"; methods = [] };
  file = library_file;
  force_prefixed_name = false;
}

abbrev get_item : MethodProto
get_item = record {
  name = codes "GetItem";
  input_type = codes ".lib.Req";
  output_type = codes ".lib.Req";
  client_streaming = false;
  http = Protos.unset;
}

abbrev item_rule : HttpRule
item_rule = http_rule (Protos.get (codes "/a/{n}:get")) [] [] no_rules

abbrev item_binding : Binding
item_binding = record {
  index = 0;
  path_tmpl = compile item;
  http_method = codes "GET";
  path_params = name_parameter ∷ [];
  body = none;
  response_body = none;
}

abbrev item_method : Method
item_method = record {
  service = library_service;
  proto = get_item;
  request_type = request_message;
  response_type = request_message;
  bindings = some item_binding ∷ [];
}

item_bound :
    binding_for loaded
      (record {
        service = library_service;
        proto = get_item;
        request_type = request_message;
        response_type = request_message;
      })
      []
      []
      0
      (codes "GET")
      (codes "/a/{n}:get")
    ≡ ok item_binding
unfolding binding_for new_params new_param new_body new_response resolve_field_path resolve_loop
    lookup_field text_eq split is_well_known_type compile fields_of compile_segments compile_segment
    emit operand intern position
item_bound = rw parse-item refl

item_method_made : new_method loaded library_service get_item (item_rule ∷ []) ≡ ok item_method
unfolding new_method apply_all apply_opts apply_additional new_binding lookup_msg lookup_name get
    text_eq has_prefix
item_method_made = rw item_bound refl

load_files-lookup_example :
    All
      (λ pf. AllInFile (FindsMessage loaded (codes "lib")) (FindsEnum loaded (codes "lib")) pf.1)
      library_files
load_files-lookup_example = load_files-lookup library_files loaded (codes "lib") library_loaded

load_files-ends_example : (r' : Registry) × (load_files library_files new_registry ≡ some r')
load_files-ends_example = load_files-ends library_files new_registry

entry_found : get (codes "a.proto") loaded.files ≡ some library_entry
unfolding get text_eq
entry_found = refl

load_files-pkg_example : library_file.go_pkg.path ≡ library_file.go_pkg.path
load_files-pkg_example =
    load_files-pkg library_files new_registry loaded refl refl library_loaded (codes "a.proto")
      (codes "a.proto") library_entry library_entry entry_found entry_found refl

name_no_dot : has_prefix (codes "Req") (codes ".") ≡ false
unfolding has_prefix
name_no_dot = refl

lookup_name_iff_example :
    (lookup_name (codes "lib.Other") (codes "Req") loaded.msgs ≡ some request_message)
    ↔ Innermost loaded.msgs (codes "Req") (split b'.' (rooted (codes "lib.Other"))) request_message
lookup_name_iff_example =
    lookup_name_iff loaded.msgs (codes "Req") (codes "lib.Other") request_message name_no_dot

resolve_field_path_iff_example :
    (resolve_field_path loaded request_message (codes "n") true ≡ ok name_path) ↔ (
      (component_names name_path ≡ split b'.' (codes "n"))
      × IsFieldPath loaded true request_message none name_path)
resolve_field_path_iff_example =
    resolve_field_path_iff loaded request_message (codes "n") true name_path refl

new_method-AllBound_example : AllBound false 0 (some item_binding ∷ [])
new_method-AllBound_example =
    new_method-AllBound loaded library_service get_item (item_rule ∷ []) item_method
      item_method_made

new_method-Binds_example :
    All (Binds ((codes "n", codes "x") ∷ [])) (parameter_paths (name_parameter ∷ []))
new_method-Binds_example =
    new_method-Binds loaded library_service get_item (item_rule ∷ []) item_method 0 item_binding
      item_pattern (codes "a" ∷ codes "x" ∷ []) (codes "get") ((codes "n", codes "x") ∷ [])
      item_method_made refl item_compiled item_match

name_is_proto3 : is_proto2_parameter name_parameter ≡ false
unfolding is_proto2_parameter proto2 text_eq
name_is_proto3 = refl

new_param-convert_func_expr_example : (conv : Text) × (convert_func_expr name_parameter ≡ ok conv)
new_param-convert_func_expr_example =
    new_param-convert_func_expr loaded request_message (codes "n") name_parameter
      name_parameter_made name_is_proto3

-- An additional binding with no pattern is appended as nil.
nil_binding :
    apply_all loaded
      (record {
        service = library_service;
        proto = get_item;
        request_type = request_message;
        response_type = request_message;
      })
      (http_rule Protos.no_pattern [] []
          (and_rules (http_rule Protos.no_pattern [] [] no_rules) no_rules)
        ∷ [])
      []
    ≡ ok (none ∷ [])
unfolding apply_all apply_opts apply_additional new_binding
nil_binding = refl

-- In a standalone registry two packages of different paths get the same alias.
standalone_aliases :
    (reserve_package true (codes "x/foo") (codes "foo") []
      ≡ some (
        record { path = codes "x/foo"; name = codes "foo"; alias = codes "extFoo" },
        (codes "foo", codes "x/foo") ∷ [],
      ))
    × (reserve_package true (codes "x/Foo") (codes "Foo") ((codes "foo", codes "x/foo") ∷ [])
        ≡ some (
          record { path = codes "x/Foo"; name = codes "Foo"; alias = codes "extFoo" },
          (codes "foo", codes "x/foo") ∷ (codes "Foo", codes "x/Foo") ∷ [],
        ))
unfolding reserve_package reserve_go_package_alias get put text_eq
standalone_aliases = (refl, refl)

-- The converter of a repeated timestamp is that of a single one.
repeated_timestamp :
    convert_func_expr (record {
      field_path = [];
      target = record {
        proto = record name_field {
          label = repeated;
          type = message;
          type_name = some (codes ".google.protobuf.Timestamp");
        };
        message = request_message;
        force_prefixed_name = false;
      };
    })
    ≡ ok (codes "runtime.Timestamp")
unfolding convert_func_expr proto2 text_eq get
repeated_timestamp = refl
