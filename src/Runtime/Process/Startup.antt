-- ===== src/Runtime/Process/Startup.antt =====
-- The start of a process of packages/plugin-runtime/src/process-main.ts from a descriptor set.
use mathlib.Core.Path.{subst}
use ts_plugins.Common.{◌≡◌, refl, Option, none, some, Text, codes}
use ts_plugins.Codegen.Contract.{ServiceLike, PluginServiceDefinition}
use ts_plugins.Runtime.Bootstrap.{LoadedModule, bootstrap_plugin_runtime}
use ts_plugins.Runtime.ServiceDefinition.{
  Resolved, resolved, unresolved, ◌>>=◌, LoadRuntimeServiceDefinitionInput,
  load_runtime_service_definition,
}
use ts_plugins.Runtime.ServiceDefinition.Loaded.{
  load-missing_schemas, resolved_injective, unresolved_lem,
}
use ts_plugins.Runtime.Process.{
  Environment, PluginRuntimeManifest, RuntimeProcessEnvironment, require_env, parsed_json,
  parsed_if_set, read_runtime_process_environment, resolve_service_metadata, ServerParts,
  ProcessStart, not_resolved, server_parts, start_plugin_socket_runtime_server,
  start_resolved_service, start_in, start_process,
}

-- Whatever a result comes to, it has a property.
record AllGive {ℓ κ} {A : Type ℓ} (P : A → Type κ) (result : Resolved A) : Type (ℓ ⊔ κ) where
  given : (a : A) → result ≡ resolved a → P a

AllGive-resolved {ℓ κ} : {A : Type ℓ} (P : A → Type κ) (a : A) → P a → AllGive P (resolved a)
AllGive-resolved P a p = record { given = λ b e. subst P (resolved_injective e) p }

AllGive-bind {ℓ κ μ} :
    {A : Type ℓ} {B : Type κ} (P : B → Type μ) (m : Resolved A) (f : A → Resolved B)
    → ((a : A) → AllGive P (f a))
    → AllGive P (m >>= f)
AllGive-bind P (resolved a) f each = each a
AllGive-bind P (unresolved error) f each = record {
  given = λ b e. absurd (unresolved_lem error b e);
}

abbrev HasSources {ℓ} :
    {KvConfig : Type ℓ} → Environment → RuntimeProcessEnvironment KvConfig → Type 0
HasSources env environment =
    (environment.descriptor_path ≡ env (codes "BALANCE_PLUGIN_DESCRIPTOR_PATH"))
    × (environment.service_name ≡ env (codes "BALANCE_PLUGIN_SERVICE_NAME"))

module _ {ℓ} {Schema H KvConfig : Type ℓ} (import_plugin : Text → LoadedModule H)
    (parse_manifest : Text → Option PluginRuntimeManifest) (parse_kv : Text → Option KvConfig)
    (load_descriptor_registry : Text → Option (Text → Option (ServiceLike Schema)))
    (import_service : Text → Option (Text → Option (PluginServiceDefinition Schema))) where
  abbrev pub bootstrap_described :
      RuntimeProcessEnvironment KvConfig
      → Resolved (PluginServiceDefinition Schema)
      → ProcessStart (ServerParts Schema H)
  bootstrap_described environment (unresolved e) = not_resolved e
  bootstrap_described environment (resolved service) =
      server_parts import_plugin environment.manifest environment.entrypoint_path (
        bootstrap_plugin_runtime environment.manifest.id environment.manifest.version none service
          import_plugin none (some environment.entrypoint_path))

  -- A start that looks at nothing but the descriptor set.
  abbrev pub start_described :
      LoadRuntimeServiceDefinitionInput
      → Resolved (RuntimeProcessEnvironment KvConfig)
      → ProcessStart (ServerParts Schema H)
  start_described input (unresolved e) = not_resolved e
  start_described input (resolved environment) =
      bootstrap_described environment
        (load_runtime_service_definition load_descriptor_registry input)

  bootstrapped_lem :
      (environment : RuntimeProcessEnvironment KvConfig) (input : LoadRuntimeServiceDefinitionInput)
      (service : Resolved (PluginServiceDefinition Schema))
      → load_runtime_service_definition load_descriptor_registry input ≡ service
      → start_resolved_service import_plugin parse_manifest parse_kv load_descriptor_registry
          import_service environment service
        ≡ bootstrap_described environment service
  unfolding start_plugin_socket_runtime_server
  bootstrapped_lem environment input (unresolved e) loaded = refl
  bootstrapped_lem environment input (resolved service) loaded =
      rw (load-missing_schemas load_descriptor_registry input service loaded) refl

  read_environment_sources :
      (env : Environment) (environment : RuntimeProcessEnvironment KvConfig)
      → read_runtime_process_environment parse_manifest parse_kv env ≡ resolved environment
      → HasSources env environment
  unfolding read_runtime_process_environment
  read_environment_sources env environment h =
      AllGive.given
        (AllGive-bind (HasSources env) (require_env env _) _ (λ socket_path.
          AllGive-bind (HasSources env) (require_env env _) _ (λ entrypoint_path.
            AllGive-bind (HasSources env) (require_env env _) _ (λ manifest_json.
              AllGive-bind (HasSources env) (parsed_json _ (parse_manifest manifest_json)) _
                (λ manifest.
                  AllGive-bind (HasSources env) (parsed_if_set parse_kv _ (env _)) _
                    (λ kv_config. AllGive-resolved (HasSources env) _ (refl, refl)))))))
        environment h

  started_lem :
      (env : Environment) (input : LoadRuntimeServiceDefinitionInput)
      (read : Resolved (RuntimeProcessEnvironment KvConfig))
      → read_runtime_process_environment parse_manifest parse_kv env ≡ read
      → env (codes "BALANCE_PLUGIN_DESCRIPTOR_PATH") ≡ some input.descriptor_path
      → env (codes "BALANCE_PLUGIN_SERVICE_NAME") ≡ some input.service_name
      → start_in import_plugin parse_manifest parse_kv load_descriptor_registry import_service read
        ≡ start_described input read
  unfolding resolve_service_metadata
  started_lem env input (unresolved e) h described named = refl
  started_lem env input (resolved environment) h described named =
      let (path, name) = read_environment_sources env environment h in
      rw (path, described, name, named)
        (bootstrapped_lem environment input
          (load_runtime_service_definition load_descriptor_registry input) refl)

  -- With a descriptor path and a service name in its environment, a process starts, or fails, as the
  -- service of that descriptor set decides: the variables of a service module are not looked at, and
  -- the server's own test for schemas refuses nothing.
  pub start_process-descriptor :
      (env : Environment) (input : LoadRuntimeServiceDefinitionInput)
      → env (codes "BALANCE_PLUGIN_DESCRIPTOR_PATH") ≡ some input.descriptor_path
      → env (codes "BALANCE_PLUGIN_SERVICE_NAME") ≡ some input.service_name
      → start_process import_plugin parse_manifest parse_kv load_descriptor_registry import_service
          env
        ≡ start_described input (read_runtime_process_environment parse_manifest parse_kv env)
  unfolding start_process
  start_process-descriptor env input described named = started_lem env input _ refl described named
