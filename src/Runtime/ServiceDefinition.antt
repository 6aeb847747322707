-- ===== src/Runtime/ServiceDefinition.antt =====
-- packages/plugin-runtime/src/service-definition.ts: a service from its descriptor set. The registry
-- of a descriptor set is a parameter, the services by their names.
pub mod Loaded
use ts_plugins.Common.{Bool, true, false, Option, none, some, List, [], ◌∷◌, Text, codes}
use ts_plugins.Codegen.Contract.{
  ServiceLike, PluginMethodDefinition, PluginServiceDefinition, ContractError, Built, built,
  rejected, build_plugin_service_definition,
}

-- Why a runtime does not come to its service: the errors of this file and of process-main.ts.
pub data ProcessError : Type 0 where
  missing_variable : Text → ProcessError
  unreadable_json : Text → ProcessError
  no_service_metadata : ProcessError
  service_module_failed : Text → ProcessError
  no_service_export : Text → Text → ProcessError
  unreadable_descriptors : Text → ProcessError
  undefined_service : Text → Text → ProcessError
  bad_contract : ContractError → ProcessError
  method_without_schemas : Text → Text → ProcessError

pub data Resolved {ℓ} (A : Type ℓ) : Type ℓ where
  resolved : A → Resolved A
  unresolved : ProcessError → Resolved A

infixl 1 ◌>>=◌
abbrev pub ◌>>=◌ {ℓ κ} : {A : Type ℓ} {B : Type κ} → Resolved A → (A → Resolved B) → Resolved B
resolved a >>= f = f a
unresolved e >>= f = unresolved e

pub record LoadRuntimeServiceDefinitionInput : Type 0 where
  pub descriptor_path : Text
  pub service_name : Text

module _ {ℓ} {Schema : Type ℓ} where
  abbrev pub or_unreadable :
      Text
      → Option (Text → Option (ServiceLike Schema))
      → Resolved (Text → Option (ServiceLike Schema))
  or_unreadable descriptor_path none = unresolved (unreadable_descriptors descriptor_path)
  or_unreadable descriptor_path (some registry) = resolved registry

  abbrev pub or_undefined :
      Text → Text → Option (ServiceLike Schema) → Resolved (ServiceLike Schema)
  or_undefined descriptor_path service_name none =
      unresolved (undefined_service descriptor_path service_name)
  or_undefined descriptor_path service_name (some service) = resolved service

  abbrev pub or_bad_contract :
      Built (PluginServiceDefinition Schema) → Resolved (PluginServiceDefinition Schema)
  or_bad_contract (rejected e) = unresolved (bad_contract e)
  or_bad_contract (built definition) = resolved definition

  abbrev pub has_both : Option Schema → Option Schema → Bool
  has_both (some input) (some output) = true
  has_both _ _ = false

  -- The loop over the methods, which throws at the first one without its schemas.
  unfoldable pub check_schemas : Text → List (PluginMethodDefinition Schema) → Resolved (Unit {0})
  check_schemas service_name [] = resolved tt
  check_schemas service_name (method ∷ methods) =
      elim (has_both method.input_schema method.output_schema) [
        | true ↦ check_schemas service_name methods
        | false ↦ unresolved (method_without_schemas service_name method.name)
      ]

  unfoldable pub load_runtime_service_definition :
      (Text → Option (Text → Option (ServiceLike Schema)))
      → LoadRuntimeServiceDefinitionInput
      → Resolved (PluginServiceDefinition Schema)
  unfolding build_plugin_service_definition check_schemas
  load_runtime_service_definition load_descriptor_registry input = do
    registry ← or_unreadable input.descriptor_path (load_descriptor_registry input.descriptor_path)
    service ← or_undefined input.descriptor_path input.service_name (registry input.service_name)
    definition ← or_bad_contract (build_plugin_service_definition (service ∷ []))
    checked ← check_schemas input.service_name definition.methods
    resolved definition
