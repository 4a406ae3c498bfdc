-- ===== src/Descriptor/Services/Bindings.antt =====
-- internal/descriptor/services.go: the bindings of a method and the path templates that they stand for.
use grpc_gateway.Prelude.{
  ℕ, suc, ◌+◌, ◌≡◌, refl, sym, ◌∙◌, ap, subst, Bool, true, false, not, ◌&&◌, List, [], ◌∷◌, ◌++◌,
  Option, none, some, Text, length, is_empty, if◌then◌else◌, Result, ok, fail, ◌>>=◌, >>=-eq-ok,
  ok_injective, arith,
}
use grpc_gateway.HttpRule.Template.{Template}
use grpc_gateway.HttpRule.Parse.{ParseError, parse}
use grpc_gateway.HttpRule.Compile.{Compiled, compile}
use grpc_gateway.Descriptor.Protos.{
  RulePattern, HttpRule, http_rule, HttpRules, no_rules, and_rules, MethodProto,
}
use grpc_gateway.Descriptor.Types.{
  Message, Service, FieldPath, path_string, Parameter, Binding, Method, parameter_paths,
}
use grpc_gateway.Descriptor.Convert.{
  DescriptorError, message_parameter, client_streaming, nested_bindings, is_well_known_type,
}
use grpc_gateway.Descriptor.Registry.{Registry, lookup_msg}
use grpc_gateway.Descriptor.Services.{
  resolve_field_path, last_target, check_message, parameter_of, is_aggregate, new_param, new_params,
  new_body, new_response, choose_pattern, parsed_or_error, MethodHead, binding_for, or_no_binding,
  new_binding, append_some, has_rules, apply_additional, apply_opts, apply_all, get_package,
  new_method,
}
use grpc_gateway.Descriptor.Services.Paths.{path_string-resolve_field_path}
use grpc_gateway.Descriptor.Services.{Field}

-- What `newMethod` promises of the binding at position `i`: it knows its position, its template is
-- compiled from a text that `Parse` takes, its parameters are those of the template in order, and a
-- method that streams requests has none.
pub record IsBound (streaming : Bool) (i : ℕ) (b : Binding) : Type 0 where
  pub at : b.index ≡ i
  pub path : Text
  pub t : Template
  pub parsed : parse path ≡ ok t
  pub compiled : b.path_tmpl ≡ compile t
  pub params : parameter_paths b.path_params ≡ (compile t).fields
  pub unary : streaming ≡ true → b.path_params ≡ []

abbrev pub MaybeBound : Bool → ℕ → Option Binding → Type 0
MaybeBound streaming i none = Unit
MaybeBound streaming i (some b) = IsBound streaming i b

abbrev pub AllBound : Bool → ℕ → List (Option Binding) → Type 0
AllBound streaming i [] = Unit
AllBound streaming i (o ∷ os) = MaybeBound streaming i o × AllBound streaming (suc i) os

AllBound-append :
    (streaming : Bool) (i : ℕ) (os : List (Option Binding)) (o : Option Binding)
    → AllBound streaming i os
    → MaybeBound streaming (i + length os) o
    → AllBound streaming i (os ++ o ∷ [])
AllBound-append streaming i [] o h k = (subst (λ n. MaybeBound streaming n o) (omega arith) k, tt)
AllBound-append streaming i (p ∷ os) o (h, hs) k = (
  h,
  AllBound-append streaming (suc i) os o hs (subst (λ n. MaybeBound streaming n o) (omega arith) k),
)

ok_if :
    (c : Bool) (p q : Parameter) (x : DescriptorError) → (if c then ok p else fail x) ≡ ok q → p ≡ q
ok_if true p q x e = ok_injective p q e
ok_if false p q x e = cc

check_message-path : (o : Option Text) (p q : Parameter) → check_message o p ≡ ok q → p ≡ q
check_message-path none p q e = cc
check_message-path (some n) p q e = ok_if (is_well_known_type n) p q message_parameter e

checked_if :
    (c : Bool) (o : Option Text) (p q : Parameter)
    → (if c then check_message o p else ok p) ≡ ok q
    → p ≡ q
checked_if true o p q e = check_message-path o p q e
checked_if false o p q e = ok_injective p q e

parameter_of-path :
    (fields : FieldPath) (o : Option Field) (p : Parameter)
    → parameter_of fields o ≡ ok p
    → p.field_path ≡ fields
parameter_of-path fields none p e = cc
parameter_of-path fields (some target) p e =
    ap (λ (p : Parameter). p.field_path)
      (sym (
        checked_if (is_aggregate target.proto.type) target.proto.type_name
          (record { field_path = fields; target = target }) p e))

new_params-paths :
    (r : Registry) (request : Message) (fs : List Text) (ps : List Parameter)
    → new_params r request fs ≡ ok ps
    → parameter_paths ps ≡ fs
unfolding new_params new_param
new_params-paths r request [] ps e = ap parameter_paths (sym (ok_injective [] ps e))
new_params-paths r request (f ∷ fs) ps e =
    let (p, made, e₁) = >>=-eq-ok (new_param r request f) _ e in
    let (fields, resolved, of) = >>=-eq-ok (resolve_field_path r request f true) _ made in
    let (rest, later, e₂) = >>=-eq-ok (new_params r request fs) _ e₁ in
    let first : path_string p.field_path ≡ f =
      ap path_string (parameter_of-path fields (last_target fields) p of)
      ∙ path_string-resolve_field_path r request f true fields resolved in
    ap parameter_paths (sym (ok_injective (p ∷ rest) ps e₂))
    ∙ (ap (λ l. path_string p.field_path ∷ l) (new_params-paths r request fs rest later)
        ∙ ap (λ x. x ∷ fs) first)

parsed_or_error-ok :
    (p : Result ParseError Template) (t : Template) → parsed_or_error p ≡ ok t → p ≡ ok t
parsed_or_error-ok (ok t') t e = ap ok (ok_injective t' t e)
parsed_or_error-ok (fail x) t e = cc

-- A method that streams requests passes the check only if its template has no fields.
unary_fields :
    (streaming : Bool) (c c' : Compiled) (x : DescriptorError)
    → (if streaming && not (is_empty c.fields) then fail x else ok c) ≡ ok c'
    → streaming ≡ true
    → c.fields ≡ []
unary_fields streaming c c' x e s =
    fields_empty c.fields
      (subst (λ b. (if b && not (is_empty c.fields) then fail x else ok c) ≡ ok c') s e)
  where
    fields_empty :
        (l : List Text) → (if true && not (is_empty l) then fail x else ok c) ≡ ok c' → l ≡ []
    fields_empty [] e = refl
    fields_empty (f ∷ l) e = cc

no_parameters : (ps : List Parameter) → parameter_paths ps ≡ [] → ps ≡ []
no_parameters [] e = refl
no_parameters (p ∷ ps) e = cc

binding_for-IsBound :
    (r : Registry) (meth : MethodHead) (body response_body : Text) (i : ℕ) (http_method path : Text)
    (b : Binding)
    → binding_for r meth body response_body i http_method path ≡ ok b
    → IsBound meth.proto.client_streaming i b
unfolding binding_for
binding_for-IsBound r meth body response_body i http_method path b e =
    let (t, parsed, e₁) = >>=-eq-ok (parsed_or_error (parse path)) _ e in
    let (c, unary, e₂) =
      >>=-eq-ok
        (if meth.proto.client_streaming && not (is_empty (compile t).fields)
          then fail client_streaming
          else ok (compile t))
        _ e₁ in
    let (params, found, e₃) = >>=-eq-ok (new_params r meth.request_type (compile t).fields) _ e₂ in
    let (bd, _, e₄) = >>=-eq-ok (new_body r meth.request_type body) _ e₃ in
    let (resp, _, e₅) = >>=-eq-ok (new_response r meth.response_type response_body) _ e₄ in
    let paths = new_params-paths r meth.request_type (compile t).fields params found in
    subst (IsBound meth.proto.client_streaming i)
      (ok_injective
        (record {
          index = i;
          path_tmpl = compile t;
          http_method = http_method;
          path_params = params;
          body = bd;
          response_body = resp;
        })
        b e₅)
      (record {
        at = refl;
        path = path;
        t = t;
        parsed = parsed_or_error-ok (parse path) t parsed;
        compiled = refl;
        params = paths;
        unary = λ s. no_parameters params (
            paths
            ∙ unary_fields meth.proto.client_streaming (compile t) c client_streaming unary s);
      })

new_binding-MaybeBound :
    (r : Registry) (meth : MethodHead) (p : RulePattern) (body response_body : Text) (i : ℕ)
    (o : Option Binding)
    → new_binding r meth p body response_body i ≡ ok o
    → MaybeBound meth.proto.client_streaming i o
unfolding new_binding
new_binding-MaybeBound r meth p body response_body i o e =
    let (chosen, _, e₁) = >>=-eq-ok (choose_pattern r p body) _ e in made chosen e₁
  where
    made :
        (chosen : Option (Text × Text))
        → or_no_binding chosen (binding_for r meth body response_body i) ≡ ok o
        → MaybeBound meth.proto.client_streaming i o
    made none e = subst (MaybeBound meth.proto.client_streaming i) (ok_injective none o e) tt
    made (some (http_method, path)) e =
        let (b, bound, e₁) =
          >>=-eq-ok (binding_for r meth body response_body i http_method path) _ e in
        subst (MaybeBound meth.proto.client_streaming i) (ok_injective (some b) o e₁)
          (binding_for-IsBound r meth body response_body i http_method path b bound)

append-AllBound :
    (streaming : Bool) (os : List (Option Binding)) (o : Option Binding)
    → AllBound streaming 0 os
    → MaybeBound streaming (length os) o
    → AllBound streaming 0 (os ++ o ∷ [])
append-AllBound streaming os o h k =
    AllBound-append streaming 0 os o h (subst (λ n. MaybeBound streaming n o) (omega arith) k)

append_some-AllBound :
    (streaming : Bool) (os : List (Option Binding)) (o : Option Binding)
    → AllBound streaming 0 os
    → MaybeBound streaming (length os) o
    → AllBound streaming 0 (append_some os o)
append_some-AllBound streaming os none h k = h
append_some-AllBound streaming os (some b) h k = append-AllBound streaming os (some b) h k

module _ (r : Registry) (meth : MethodHead) where
  abbrev Bound : List (Option Binding) → Type 0
  Bound = AllBound meth.proto.client_streaming 0

  apply_additional-Bound :
      (rules : HttpRules) (os os' : List (Option Binding))
      → apply_additional r meth rules os ≡ ok os'
      → Bound os
      → Bound os'
  unfolding apply_additional
  apply_additional-Bound no_rules os os' e h = subst Bound (ok_injective os os' e) h
  apply_additional-Bound (and_rules (http_rule p body response_body nested) rules) os os' e h =
      unnested (has_rules nested) (λ now. apply_additional-Bound rules now os') e
    where
      unnested :
          (b : Bool)
          → ((now : List (Option Binding))
              → apply_additional r meth rules now ≡ ok os'
              → Bound now
              → Bound os')
          → (if b
              then fail nested_bindings
              else (new_binding r meth p body response_body (length os) >>= λ o.
                  apply_additional r meth rules (os ++ o ∷ [])))
            ≡ ok os'
          → Bound os'
      unnested true more e = cc
      unnested false more e =
          let (o, made, later) =
            >>=-eq-ok (new_binding r meth p body response_body (length os)) _ e in
          more (os ++ o ∷ []) later (
            append-AllBound meth.proto.client_streaming os o h
              (new_binding-MaybeBound r meth p body response_body (length os) o made))

  apply_opts-Bound :
      (rule : HttpRule) (os os' : List (Option Binding))
      → apply_opts r meth rule os ≡ ok os'
      → Bound os
      → Bound os'
  unfolding apply_opts
  apply_opts-Bound (http_rule p body response_body additional) os os' e h =
      let (o, made, later) = >>=-eq-ok (new_binding r meth p body response_body (length os)) _ e in
      apply_additional-Bound additional (append_some os o) os' later (
        append_some-AllBound meth.proto.client_streaming os o h
          (new_binding-MaybeBound r meth p body response_body (length os) o made))

  apply_all-Bound :
      (rules : List HttpRule) (os os' : List (Option Binding))
      → apply_all r meth rules os ≡ ok os'
      → Bound os
      → Bound os'
  unfolding apply_all
  apply_all-Bound [] os os' e h = subst Bound (ok_injective os os' e) h
  apply_all-Bound (rule ∷ rules) os os' e h =
      let (now, first, later) = >>=-eq-ok (apply_opts r meth rule os) _ e in
      apply_all-Bound rules now os' later (apply_opts-Bound rule os now first h)

-- When `newMethod` returns a method, every binding of it that is not nil knows its position among them,
-- has a template that is compiled from a text that `Parse` takes, and has exactly the parameters that
-- the template names, in order; it has none if the method streams requests.
pub new_method-AllBound :
    (r : Registry) (svc : Service) (md : MethodProto) (rules : List HttpRule) (m : Method)
    → new_method r svc md rules ≡ ok m
    → AllBound md.client_streaming 0 m.bindings
unfolding new_method
new_method-AllBound r svc md rules m e =
    let (request, _, e₁) =
      >>=-eq-ok (lookup_msg r (get_package svc.file.package_name) md.input_type) _ e in
    let (response, _, e₂) =
      >>=-eq-ok (lookup_msg r (get_package svc.file.package_name) md.output_type) _ e₁ in
    let head : MethodHead = record {
      service = svc;
      proto = md;
      request_type = request;
      response_type = response;
    } in
    let (os, applied, e₃) = >>=-eq-ok (apply_all r head rules []) _ e₂ in
    subst (λ (m : Method). AllBound md.client_streaming 0 m.bindings)
      (ok_injective
        (record {
          service = svc;
          proto = md;
          request_type = request;
          response_type = response;
          bindings = os;
        })
        m e₃)
      (apply_all-Bound r head rules [] os applied tt)
