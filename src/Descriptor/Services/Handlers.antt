-- ===== src/Descriptor/Services/Handlers.antt =====
-- internal/descriptor and runtime together: the parameters that a generated handler reads from a match.
use grpc_gateway.Prelude.{
  ℕ, zero, suc, ◌+◌, ◌≡◌, sym, ◌∙◌, ap, subst, Bool, List, [], ◌∷◌, Option, none, some, Text,
  get_elem?, All, ok, arith,
}
use grpc_gateway.HttpRule.Compile.{Compiled}
use grpc_gateway.HttpRule.Parse.WellFormed.{parse-IsWellFormed}
use grpc_gateway.Runtime.Pattern.{Pattern, Bindings, new_pattern, match}
use grpc_gateway.Runtime.Pattern.Bound.{Binds, match-Binds}
use grpc_gateway.Descriptor.Protos.{HttpRule, MethodProto}
use grpc_gateway.Descriptor.Types.{Service, Binding, Method, parameter_paths}
use grpc_gateway.Descriptor.Registry.{Registry}
use grpc_gateway.Descriptor.Services.{new_method}
use grpc_gateway.Descriptor.Services.Bindings.{IsBound, AllBound, new_method-AllBound}
use grpc_gateway.Descriptor.Services.{Result}
use grpc_gateway.Runtime.Pattern.{PatternError}

AllBound-get :
    (streaming : Bool) (i j : ℕ) (os : List (Option Binding)) (b : Binding)
    → AllBound streaming i os
    → get_elem? os j ≡ some (some b)
    → IsBound streaming (i + j) b
AllBound-get streaming i j [] b h e = cc
AllBound-get streaming i zero (none ∷ os) b h e = cc
AllBound-get streaming i zero (some c ∷ os) b h e =
    let same : c ≡ b = cc in
    subst (λ n. IsBound streaming n b) (omega arith) (subst (IsBound streaming i) same h.0)
AllBound-get streaming i (suc j) (o ∷ os) b h e =
    subst (λ n. IsBound streaming n b) (omega arith) (AllBound-get streaming (suc i) j os b h.1 e)

-- The pattern that generated code makes of a binding.
abbrev pub binding_pattern : Compiled → Result PatternError Pattern
binding_pattern c = new_pattern c.version c.op_codes c.pool c.verb

-- Of a method that `newMethod` returns, take a binding that is not nil and the pattern that
-- `NewPattern` makes of its template. When the pattern matches a path, every path parameter of the
-- binding is bound by the match, under the field path that generated code looks it up by.
pub new_method-Binds :
    (r : Registry) (svc : Service) (md : MethodProto) (rules : List HttpRule) (m : Method) (i : ℕ)
    (b : Binding) (p : Pattern) (components : List Text) (verb : Text) (found : Bindings)
    → new_method r svc md rules ≡ ok m
    → get_elem? m.bindings i ≡ some (some b)
    → binding_pattern b.path_tmpl ≡ ok p
    → match p components verb ≡ ok found
    → All (Binds found) (parameter_paths b.path_params)
new_method-Binds r svc md rules m i b p components verb found e at made matched =
    let h =
      AllBound-get md.client_streaming 0 i m.bindings b (new_method-AllBound r svc md rules m e)
        at in
    let of_template = ap binding_pattern (sym h.compiled) ∙ made in
    subst (All (Binds found)) (sym h.params) (
      match-Binds h.t p components verb found (parse-IsWellFormed h.path h.t h.parsed) of_template
        matched)
