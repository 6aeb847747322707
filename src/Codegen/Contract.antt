-- ===== src/Codegen/Contract.antt =====
-- packages/plugin-codegen/src/plugin-contract.ts: a service of a descriptor becomes the metadata
-- of the contract. The message schemas of the descriptor are third-party values, of type `Schema`.
pub mod Building
use ts_plugins.Common.{
  ℕ, ◌+◌, ◌≡◌, ◌≢◌, ◌↔◌, refl, ap, sym, ◌∙◌, Option, none, some, List, [], ◌∷◌, ◌++◌, map, Bool,
  true, false, not, ◌||◌, arith, Text, text_eq, ◌==◌, ==_iff, codes, nat_eq, nat_eq_iff,
  if◌then◌else◌, length, take, any, zero, suc, take_self-append, All, Bool-cases, inl, inr, ◌⊎◌,
}
use mathlib.Core.List.{append_assoc}
use ts_plugins.Codegen.MethodIds.{canonical_method_name, stable_method_id}

pub data MethodKind : Type 0 where
  unary server_streaming client_streaming bidi_streaming : MethodKind

abbrev pub is_unary : MethodKind → Bool
is_unary unary = true
is_unary _ = false

-- The parts of a `DescMethod` and a `DescService` that are read.
pub record MethodLike {ℓ} (Schema : Type ℓ) : Type ℓ where
  pub name : Text
  pub local_name : Text
  pub method_kind : MethodKind
  pub input_type_name : Text
  pub output_type_name : Text
  pub input : Schema
  pub output : Schema

pub record ServiceLike {ℓ} (Schema : Type ℓ) : Type ℓ where
  pub type_name : Text
  pub name : Text
  pub methods : List (MethodLike Schema)

pub record PluginMethodDefinition {ℓ} (Schema : Type ℓ) : Type ℓ where
  pub name : Text
  pub local_name : Text
  pub canonical_name : Text
  pub method_id : ℕ
  pub input_type : Text
  pub output_type : Text
  pub input_schema : Option Schema
  pub output_schema : Option Schema

pub record PluginServiceDefinition {ℓ} (Schema : Type ℓ) : Type ℓ where
  pub package_name : Text
  pub service_name : Text
  pub type_name : Text
  pub methods : List (PluginMethodDefinition Schema)

pub data ContractError : Type 0 where
  not_one_service : ℕ → ContractError
  missing_init : ContractError
  not_unary : Text → ContractError

pub data Built {ℓ} (A : Type ℓ) : Type ℓ where
  built : A → Built A
  rejected : ContractError → Built A

-- `text.lastIndexOf(c)` for one code unit; `none` is -1.
unfoldable pub last_index_of : ℕ → Text → Option ℕ
last_index_of c [] = none
last_index_of c (d ∷ text) = elim (last_index_of c text) [
  | some i ↦ some (suc i)
  | none ↦ if nat_eq d c then some 0 else none
]

unfoldable pub package_of : Text → Text
unfolding last_index_of
package_of type_name = elim (last_index_of b'.' type_name) [ none ↦ [] | some i ↦ take i type_name ]

module _ {ℓ} {Schema : Type ℓ} where
  unfoldable pub define_method : Text → Text → MethodLike Schema → PluginMethodDefinition Schema
  unfolding canonical_method_name
  define_method package_name service_name method = record {
    name = method.name;
    local_name = method.local_name;
    canonical_name = canonical_method_name package_name service_name method.name;
    method_id = stable_method_id (canonical_method_name package_name service_name method.name);
    input_type = method.input_type_name;
    output_type = method.output_type_name;
    input_schema = some method.input;
    output_schema = some method.output;
  }

  abbrev pub is_init : MethodLike Schema → Bool
  is_init method = method.name == codes "Init"

  -- `methods.find((method) => method.methodKind !== "unary")`, by its name.
  unfoldable pub find_non_unary : List (MethodLike Schema) → Option Text
  find_non_unary [] = none
  find_non_unary (method ∷ methods) =
      if is_unary method.method_kind then find_non_unary methods else some method.name

  unfoldable pub define_service : ServiceLike Schema → PluginServiceDefinition Schema
  unfolding package_of define_method
  define_service service = record {
    package_name = package_of service.type_name;
    service_name = service.name;
    type_name = service.type_name;
    methods = map (define_method (package_of service.type_name) service.name) service.methods;
  }

  unfoldable pub build_plugin_service_definition :
      List (ServiceLike Schema) → Built (PluginServiceDefinition Schema)
  unfolding find_non_unary define_service
  build_plugin_service_definition (service ∷ []) =
      if not (any is_init service.methods)
      then rejected missing_init
      else elim (find_non_unary service.methods) [
        | some name ↦ rejected (not_unary name)
        | none ↦ built (define_service service)
      ]
  build_plugin_service_definition services = rejected (not_one_service (length services))
