-- ===== src/Descriptor/Services.antt =====
-- internal/descriptor/services.go: methods and their HTTP bindings, and `load` of
-- internal/descriptor/registry.go.
pub mod Converters
pub mod Handlers
pub mod Bindings
pub mod Steps
pub mod Paths
use grpc_gateway.Prelude.{
  ℕ, zero, suc, Bool, true, false, not, ◌&&◌, ◌||◌, List, [], ◌∷◌, ◌++◌, Option, none, some, Text,
  codes, length, if◌then◌else◌, text_eq, has_prefix, is_empty, split, slash, drop, get, put, Result,
  ok, fail, ◌>>=◌,
}
use grpc_gateway.HttpRule.Template.{Template}
use grpc_gateway.HttpRule.Parse.{ParseError, parse}
use grpc_gateway.HttpRule.Compile.{Compiled, compile}
use grpc_gateway.Descriptor.Protos as Protos
use grpc_gateway.Descriptor.Protos.{
  FieldType, group, message, RulePattern, HttpRule, http_rule, HttpRules, no_rules, and_rules,
  HttpExtension, MethodProto, ServiceProto, ProtogenFile,
}
use grpc_gateway.Descriptor.Types.{
  File, Message, fqmn, dot, Service, fqsn, method_fqmn, Field, fields, is_repeated_label,
  FieldPathComponent, FieldPath, Parameter, Body, Binding, Method, ServiceEntry, FileEntry,
}
use grpc_gateway.Descriptor.Convert.{
  DescriptorError, no_field, not_aggregate, repeated_field, optional_field, invalid_access,
  message_parameter, get_with_body, delete_with_body, client_streaming, nested_bindings,
  bad_extension, parsing, nil_pointer, out_of_fuel, is_well_known_type, get_type_name,
}
use grpc_gateway.Descriptor.Registry.{Registry, lookup_msg, lookup_external_http_rules, load_files}

-- `lookupField`
unfoldable pub lookup_field : List Field → Text → Option Field
lookup_field [] name = none
lookup_field (f ∷ fs) name = if text_eq f.proto.name name then some f else lookup_field fs name

abbrev pub is_aggregate : FieldType → Bool
is_aggregate message = true
is_aggregate group = true
is_aggregate _ = false

-- The message that the next component is looked up in; the field before it is there if `i > 0`.
abbrev pub enter_field : Registry → Message → Option Field → Result DescriptorError Message
enter_field r msg none = ok msg
enter_field r msg (some f) =
    if is_aggregate f.proto.type
    then lookup_msg r (fqmn msg) (get_type_name f.proto.type_name)
    else fail not_aggregate

-- The checks of `resolveFieldPath` on a field.
abbrev pub check_field : Bool → Bool → Option Field → Result DescriptorError Field
check_field is_path_param allow_repeated none = fail no_field
check_field is_path_param allow_repeated (some f) =
    if not (is_path_param || allow_repeated) && is_repeated_label f.proto.label
    then fail repeated_field
    else if is_path_param && f.proto.proto3_optional
    then fail optional_field
    else ok f

-- The loop of `resolveFieldPath`.
unfoldable pub resolve_loop :
    Registry → Bool → Message → Option Field → List Text → Result DescriptorError FieldPath
unfolding lookup_field
resolve_loop r is_path_param msg before [] = ok []
resolve_loop r is_path_param msg before (c ∷ cs) = do
  inner ← enter_field r msg before
  f ← check_field is_path_param r.allow_repeated_fields_in_body (lookup_field (fields inner) c)
  rest ← resolve_loop r is_path_param inner (some f) cs
  ok (record { name = c; target = f } ∷ rest)

-- `resolveFieldPath`
unfoldable pub resolve_field_path :
    Registry → Message → Text → Bool → Result DescriptorError FieldPath
unfolding resolve_loop
resolve_field_path r msg path is_path_param =
    if is_empty path then ok [] else resolve_loop r is_path_param msg none (split b'.' path)

-- `fields[l-1]`
abbrev pub last_target : FieldPath → Option Field
last_target [] = none
last_target (c ∷ []) = some c.target
last_target (c ∷ d ∷ p) = last_target (d ∷ p)

-- The check of `newParam` on the name of a message type.
abbrev pub check_message : Option Text → Parameter → Result DescriptorError Parameter
check_message none p = fail nil_pointer
check_message (some type_name) p =
    if is_well_known_type type_name then ok p else fail message_parameter

abbrev pub parameter_of : FieldPath → Option Field → Result DescriptorError Parameter
parameter_of fields none = fail invalid_access
parameter_of fields (some target) =
    let p : Parameter = record { field_path = fields; target = target } in
    if is_aggregate target.proto.type then check_message target.proto.type_name p else ok p

-- `newParam`
unfoldable pub new_param : Registry → Message → Text → Result DescriptorError Parameter
unfolding resolve_field_path is_well_known_type
new_param r request path = do
  fields ← resolve_field_path r request path true
  parameter_of fields (last_target fields)

-- `newBody`
unfoldable pub new_body : Registry → Message → Text → Result DescriptorError (Option Body)
unfolding resolve_field_path
new_body r request path =
    if is_empty path
    then ok none
    else if text_eq path (codes "*")
    then ok (some (record { field_path = [] }))
    else do
      fields ← resolve_field_path r request path false
      ok (some (record { field_path = fields }))

-- `newResponse`
unfoldable pub new_response : Registry → Message → Text → Result DescriptorError (Option Body)
unfolding resolve_field_path
new_response r response path = if is_empty path || text_eq path (codes "*") then ok none else do
  fields ← resolve_field_path r response path false
  ok (some (record { field_path = fields }))

-- A case of the switch of `newBinding` whose path is set.
abbrev pub unless_empty :
    Text
    → Result DescriptorError (Option (Text × Text))
    → Result DescriptorError (Option (Text × Text))
unless_empty path chosen = if is_empty path then ok none else chosen

-- The switch of `newBinding`: the HTTP method and the path; none if no case fits.
abbrev pub choose_pattern :
    Registry → RulePattern → Text → Result DescriptorError (Option (Text × Text))
choose_pattern r (Protos.get path) body =
    unless_empty path (if is_empty body then ok (some (codes "GET", path)) else fail get_with_body)
choose_pattern r (Protos.put path) body = unless_empty path (ok (some (codes "PUT", path)))
choose_pattern r (Protos.post path) body = unless_empty path (ok (some (codes "POST", path)))
choose_pattern r (Protos.delete path) body = unless_empty path (
    if not (is_empty body) && not r.allow_delete_body
    then fail delete_with_body
    else ok (some (codes "DELETE", path)))
choose_pattern r (Protos.patch path) body = unless_empty path (ok (some (codes "PATCH", path)))
choose_pattern r (Protos.custom kind path) body = ok (some (kind, path))
choose_pattern r Protos.no_pattern body = ok none

abbrev pub parsed_or_error : Result ParseError Template → Result DescriptorError Template
parsed_or_error (ok t) = ok t
parsed_or_error (fail e) = fail (parsing e)

-- The loop over the fields of the template.
unfoldable pub new_params : Registry → Message → List Text → Result DescriptorError (List Parameter)
unfolding new_param
new_params r request [] = ok []
new_params r request (f ∷ fs) = do
  param ← new_param r request f
  params ← new_params r request fs
  ok (param ∷ params)

-- What a method is before its bindings are found.
pub record MethodHead : Type 0 where
  pub service : Service
  pub proto : MethodProto
  pub request_type : Message
  pub response_type : Message

-- The rest of `newBinding`, behind its switch.
unfoldable pub binding_for :
    Registry → MethodHead → Text → Text → ℕ → Text → Text → Result DescriptorError Binding
unfolding new_params new_body new_response
binding_for r meth body response_body idx http_method path_template = do
  t ← parsed_or_error (parse path_template)
  let tmpl = compile t
  _ ←
      if meth.proto.client_streaming && not (is_empty tmpl.fields)
      then fail client_streaming
      else ok tmpl
  params ← new_params r meth.request_type tmpl.fields
  b ← new_body r meth.request_type body
  resp ← new_response r meth.response_type response_body
  ok (record {
    index = idx;
    path_tmpl = tmpl;
    http_method = http_method;
    path_params = params;
    body = b;
    response_body = resp;
  })

abbrev pub or_no_binding :
    Option (Text × Text)
    → (Text → Text → Result DescriptorError Binding)
    → Result DescriptorError (Option Binding)
or_no_binding none make = ok none
or_no_binding (some (http_method, path)) make = do b ← make http_method path; ok (some b)

-- `newBinding`; none where it returns nil and no error.
unfoldable pub new_binding :
    Registry → MethodHead → RulePattern → Text → Text → ℕ → Result DescriptorError (Option Binding)
unfolding binding_for
new_binding r meth pattern_of body response_body idx = do
  chosen ← choose_pattern r pattern_of body
  or_no_binding chosen (binding_for r meth body response_body idx)

abbrev pub append_some : List (Option Binding) → Option Binding → List (Option Binding)
append_some bindings none = bindings
append_some bindings (some b) = bindings ++ some b ∷ []

abbrev pub has_rules : HttpRules → Bool
has_rules no_rules = false
has_rules (and_rules rule rules) = true

-- The loop of `applyOpts` over the additional bindings.
unfoldable pub apply_additional :
    Registry
    → MethodHead
    → HttpRules
    → List (Option Binding)
    → Result DescriptorError (List (Option Binding))
unfolding new_binding
apply_additional r meth no_rules bindings = ok bindings
apply_additional r meth (and_rules (http_rule pattern_of body response_body nested) rules)
      bindings =
    if has_rules nested then fail nested_bindings else do
      b ← new_binding r meth pattern_of body response_body (length bindings)
      apply_additional r meth rules (bindings ++ b ∷ [])

-- `applyOpts`
unfoldable pub apply_opts :
    Registry
    → MethodHead
    → HttpRule
    → List (Option Binding)
    → Result DescriptorError (List (Option Binding))
unfolding new_binding apply_additional
apply_opts r meth (http_rule pattern_of body response_body additional) bindings = do
  b ← new_binding r meth pattern_of body response_body (length bindings)
  apply_additional r meth additional (append_some bindings b)

-- The loop of `newMethod`.
unfoldable pub apply_all :
    Registry
    → MethodHead
    → List HttpRule
    → List (Option Binding)
    → Result DescriptorError (List (Option Binding))
unfolding apply_opts
apply_all r meth [] bindings = ok bindings
apply_all r meth (opts ∷ more) bindings = do
  now ← apply_opts r meth opts bindings
  apply_all r meth more now

-- `GetPackage`
abbrev pub get_package : Option Text → Text
get_package none = []
get_package (some p) = p

-- `newMethod`
unfoldable pub new_method :
    Registry → Service → MethodProto → List HttpRule → Result DescriptorError Method
unfolding apply_all
new_method r svc md opts_list = do
  request ← lookup_msg r (get_package svc.file.package_name) md.input_type
  response ← lookup_msg r (get_package svc.file.package_name) md.output_type
  bindings ←
      apply_all r
        (record { service = svc; proto = md; request_type = request; response_type = response })
        opts_list []
  ok (record {
    service = svc;
    proto = md;
    request_type = request;
    response_type = response;
    bindings = bindings;
  })

-- `extractAPIOptions`
abbrev pub extract_api_options : HttpExtension → Result DescriptorError (List HttpRule)
extract_api_options Protos.unset = ok []
extract_api_options Protos.foreign = fail bad_extension
extract_api_options (Protos.annotated rule) = ok (rule ∷ [])

-- `defaultAPIOptions`
unfoldable pub default_api_options : Service → MethodProto → HttpRule
unfolding fqsn
default_api_options svc md =
    let name = if has_prefix (fqsn svc) dot then drop 1 (fqsn svc) else fqsn svc in
    http_rule (Protos.post (slash ++ (name ++ (slash ++ md.name)))) (codes "*") [] no_rules

-- `optsList`
unfoldable pub rules_for : Registry → Service → MethodProto → Result DescriptorError (List HttpRule)
unfolding default_api_options
rules_for r svc md = do
  opts ← extract_api_options md.http
  let opts_list = lookup_external_http_rules r (method_fqmn svc md) ++ opts
  ok (
      if is_empty opts_list && r.generate_unbound_methods
      then default_api_options svc md ∷ []
      else opts_list)

-- The loop of `loadServices` over the methods of a service.
unfoldable pub load_methods :
    Registry → Service → List MethodProto → Result DescriptorError (List Method)
unfolding rules_for new_method
load_methods r svc [] = ok []
load_methods r svc (md ∷ mds) = do
  rules ← rules_for r svc md
  meth ← new_method r svc md rules
  methods ← load_methods r svc mds
  ok (meth ∷ methods)

-- The loop of `loadServices`: a service with no methods is left out.
unfoldable pub load_each :
    Registry → File → List ServiceProto → Result DescriptorError (List ServiceEntry)
unfolding load_methods
load_each r f [] = ok []
load_each r f (sd ∷ sds) = do
  let svc : Service = record { proto = sd; file = f; force_prefixed_name = r.standalone }
  methods ← load_methods r svc sd.methods
  services ← load_each r f sds
  ok (if is_empty methods then services else record { service = svc; methods = methods } ∷ services)

-- `loadServices`
unfoldable pub load_services : Registry → FileEntry → Result DescriptorError FileEntry
unfolding load_each
load_services r f = do
  services ← load_each r f.file f.service_protos
  ok (record f { services = services })

abbrev with_services : Text → Registry → Option FileEntry → Result DescriptorError Registry
with_services path r none = fail nil_pointer
with_services path r (some f) = do
  g ← load_services r f
  ok (record r { files = put path g r.files })

-- The second loop of `load`.
unfoldable pub load_all_services :
    List (Text × ProtogenFile) → Registry → Result DescriptorError Registry
unfolding load_services
load_all_services [] r = ok r
load_all_services ((path, file) ∷ files) r = do
  now ← if file.generate then with_services path r (get path r.files) else ok r
  load_all_services files now

abbrev or_out_of_fuel : Option Registry → Result DescriptorError Registry
or_out_of_fuel none = fail out_of_fuel
or_out_of_fuel (some r) = ok r

-- `load`
unfoldable pub load : List (Text × ProtogenFile) → Registry → Result DescriptorError Registry
unfolding load_files load_all_services
load files r = do now ← or_out_of_fuel (load_files files r); load_all_services files now
