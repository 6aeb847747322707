-- ===== src/Runtime/ServiceDefinition/Loaded.antt =====
-- What packages/plugin-runtime/src/service-definition.ts loads.
use ts_plugins.Common.{◌≡◌, refl, ap, sym, ◌∙◌, Option, none, some, List, [], ◌∷◌, map, Text, ◌↔◌}
use mathlib.Core.Path.{subst}
use ts_plugins.Codegen.Contract.{
  ServiceLike, MethodLike, PluginServiceDefinition, Built, built, rejected, define_method,
  define_service, build_plugin_service_definition,
}
use ts_plugins.Codegen.Contract.Building.{build_plugin_service_definition_iff}
use ts_plugins.Runtime.ServiceDefinition.{
  ProcessError, Resolved, resolved, unresolved, ◌>>=◌, LoadRuntimeServiceDefinitionInput,
  or_unreadable, or_undefined, or_bad_contract, check_schemas, load_runtime_service_definition,
}
use ts_plugins.Runtime.Setup.{missing_schemas}

pub resolved_injective {ℓ} : {A : Type ℓ} {a b : A} → resolved a ≡ resolved b → a ≡ b
resolved_injective e = cc

pub unresolved_lem {κ} :
    {C : Type κ} (error : ProcessError) (c : C) → ¬ (unresolved error ≡ resolved c)
unresolved_lem error c e = cc

-- A result is that of both steps.
pub bind_iff {ℓ κ} :
    {A : Type ℓ} {B : Type κ} (m : Resolved A) (f : A → Resolved B) (b : B)
    → ((m >>= f) ≡ resolved b) ↔ ((a : A) × (m ≡ resolved a) × (f a ≡ resolved b))
bind_iff (resolved a) f b = (λ e. (a, refl, e), λ k. ap f (resolved_injective k.1) ∙ k.2)
bind_iff (unresolved error) f b =
    (λ e. absurd (unresolved_lem error b e), λ k. absurd (unresolved_lem error k.0 k.1))

module _ {ℓ} {Schema : Type ℓ} where
  -- A method of a descriptor has its schemas.
  defined_methods_lem :
      (service_name package_name name : Text) (methods : List (MethodLike Schema))
      → (check_schemas service_name (map (define_method package_name name) methods) ≡ resolved tt)
        × (missing_schemas (map (define_method package_name name) methods) ≡ none)
  unfolding check_schemas missing_schemas define_method
  defined_methods_lem service_name package_name name [] = (refl, refl)
  defined_methods_lem service_name package_name name (method ∷ methods) =
      defined_methods_lem service_name package_name name methods

  define_service_schemas :
      (service_name : Text) (service : ServiceLike Schema)
      → (check_schemas service_name (define_service service).methods ≡ resolved tt)
        × (missing_schemas (define_service service).methods ≡ none)
  unfolding define_service
  define_service_schemas service_name service =
      defined_methods_lem service_name _ service.name service.methods

  built_schemas :
      (service_name : Text) (service : ServiceLike Schema)
      (definition : PluginServiceDefinition Schema)
      → build_plugin_service_definition (service ∷ []) ≡ built definition
      → (check_schemas service_name definition.methods ≡ resolved tt)
        × (missing_schemas definition.methods ≡ none)
  built_schemas service_name service definition made =
      let (s, same, init, unary, e) =
        (build_plugin_service_definition_iff (service ∷ []) definition).0 made in
      subst
        (λ d.
          (check_schemas service_name d.methods ≡ resolved tt) × (missing_schemas d.methods ≡ none))
        (sym e) (define_service_schemas service_name s)

  or_unreadable_iff :
      (path : Text) (found : Option (Text → Option (ServiceLike Schema)))
      (registry : Text → Option (ServiceLike Schema))
      → (or_unreadable path found ≡ resolved registry) ↔ (found ≡ some registry)
  or_unreadable_iff path none registry = (λ e. absurd (cc), λ e. absurd (cc))
  or_unreadable_iff path (some r) registry = (λ e. cc, λ e. cc)

  or_undefined_iff :
      (path name : Text) (found : Option (ServiceLike Schema)) (service : ServiceLike Schema)
      → (or_undefined path name found ≡ resolved service) ↔ (found ≡ some service)
  or_undefined_iff path name none service = (λ e. absurd (cc), λ e. absurd (cc))
  or_undefined_iff path name (some s) service = (λ e. cc, λ e. cc)

  checked_iff :
      (service_name : Text) (service : ServiceLike Schema)
      (made : Built (PluginServiceDefinition Schema)) (definition : PluginServiceDefinition Schema)
      → build_plugin_service_definition (service ∷ []) ≡ made
      → ((or_bad_contract made >>= λ d. check_schemas service_name d.methods >>= λ _. resolved d)
          ≡ resolved definition)
        ↔ (made ≡ built definition)
  checked_iff service_name service (rejected error) definition e =
      (λ h. absurd (cc), λ h. absurd (cc))
  checked_iff service_name service (built d) definition e =
      rw (built_schemas service_name service d e).0 (λ h. cc, λ h. cc)

  -- A runtime comes to a definition exactly if the descriptor set can be read, has the service, and
  -- its contract is accepted, with that definition; the test for schemas refuses none of these.
  pub load_runtime_service_definition_iff :
      (load_descriptor_registry : Text → Option (Text → Option (ServiceLike Schema)))
      (input : LoadRuntimeServiceDefinitionInput) (definition : PluginServiceDefinition Schema)
      → (load_runtime_service_definition load_descriptor_registry input ≡ resolved definition) ↔ (
          (registry : Text → Option (ServiceLike Schema)) × (load_descriptor_registry
              input.descriptor_path
            ≡ some registry)
          × (service : ServiceLike Schema) × (registry input.service_name ≡ some service)
          × (build_plugin_service_definition (service ∷ []) ≡ built definition))
  unfolding load_runtime_service_definition
  load_runtime_service_definition_iff load_descriptor_registry input definition = (
    λ h.
        let (registry, e, h') = (bind_iff _ _ definition).0 h in
        let (service, e', h'') = (bind_iff _ _ definition).0 h' in
        (
          registry,
          (or_unreadable_iff _ _ registry).0 e,
          service,
          (or_undefined_iff _ _ _ service).0 e',
          (checked_iff input.service_name service _ definition refl).0 h'',
        ),
    λ k. (bind_iff _ _ definition).1 (
      k.0,
      (or_unreadable_iff _ _ k.0).1 k.1,
      (bind_iff _ _ definition).1 (
        k.2,
        (or_undefined_iff _ _ _ k.2).1 k.3,
        (checked_iff input.service_name k.2 _ definition refl).1 k.4,
      ),
    ),
  )

  -- The server's own test for schemas passes every definition that was loaded.
  pub load-missing_schemas :
      (load_descriptor_registry : Text → Option (Text → Option (ServiceLike Schema)))
      (input : LoadRuntimeServiceDefinitionInput) (definition : PluginServiceDefinition Schema)
      → load_runtime_service_definition load_descriptor_registry input ≡ resolved definition
      → missing_schemas definition.methods ≡ none
  load-missing_schemas load_descriptor_registry input definition h =
      let (registry, e, service, e', made) =
        (load_runtime_service_definition_iff load_descriptor_registry input definition).0 h in
      (built_schemas input.service_name service definition made).1
