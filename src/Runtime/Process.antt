-- ===== src/Runtime/Process.antt =====
-- packages/plugin-runtime/src/process-main.ts: a plugin's process, from its environment to its
-- server, with the start of socket-server.ts up to the point where it listens. The environment is a
-- function of names; `JSON.parse`, what a path imports and the descriptor sets are parameters, and
-- what a module exports as a service is one, which the source takes for granted.
pub mod Environment
pub mod Startup
pub mod Shutdown
use ts_plugins.Common.{ℕ, Bool, true, false, Option, none, some, [], ◌∷◌, Text, codes}
use ts_plugins.Codegen.Contract.{ServiceLike, PluginServiceDefinition}
use ts_plugins.Runtime.Metrics.{RuntimeMetrics}
use ts_plugins.Runtime.Dispatcher.{PluginDispatcher}
use ts_plugins.Runtime.Bootstrap.{
  LoadedModule, StartError, Started, ready, failed_start, bootstrap_plugin_runtime,
}
use ts_plugins.Runtime.Setup.{
  ManifestConcurrency, PoolChoice, create_worker_pool_if_needed, resolve_metrics, missing_schemas,
}
use ts_plugins.Runtime.ServiceDefinition.{
  ProcessError, missing_variable, unreadable_json, no_service_metadata, service_module_failed,
  no_service_export, Resolved, resolved, unresolved, ◌>>=◌, LoadRuntimeServiceDefinitionInput,
  load_runtime_service_definition,
}

abbrev pub Environment : Type 0
Environment = Text → Option Text

pub record PluginRuntimeManifest : Type 0 where
  pub id : Text
  pub version : Text
  pub init_timeout_ms : Option ℕ
  pub request_timeout_ms : Option ℕ
  pub idle_eviction_ms : Option ℕ
  pub concurrency : Option ManifestConcurrency
  pub emit_logs : Option Bool
  pub emit_traces : Option Bool
  pub emit_metrics : Option Bool

pub record RuntimeProcessEnvironment {ℓ} (KvConfig : Type ℓ) : Type ℓ where
  pub socket_path : Text
  pub entrypoint_path : Text
  pub manifest : PluginRuntimeManifest
  pub kv_config : Option KvConfig
  pub descriptor_path : Option Text
  pub service_name : Option Text
  pub service_module_path : Option Text
  pub service_export_name : Option Text

abbrev pub set_value : Text → Option Text → Resolved Text
set_value key none = unresolved (missing_variable key)
set_value key (some []) = unresolved (missing_variable key)
set_value key (some (c ∷ value)) = resolved (c ∷ value)

unfoldable pub require_env : Environment → Text → Resolved Text
require_env env key = set_value key (env key)

abbrev pub parsed_json {ℓ} : {A : Type ℓ} → Text → Option A → Resolved A
parsed_json key none = unresolved (unreadable_json key)
parsed_json key (some value) = resolved value

abbrev pub parsed_if_set {ℓ} :
    {A : Type ℓ} → (Text → Option A) → Text → Option Text → Resolved (Option A)
parsed_if_set parse key none = resolved none
parsed_if_set parse key (some text) =
    parsed_json key (parse text) >>= λ value. resolved (some value)

abbrev pub or_default_export : Option Text → Text
or_default_export none = codes "default"
or_default_export (some name) = name

module _ {ℓ} {KvConfig : Type ℓ} (parse_manifest : Text → Option PluginRuntimeManifest)
    (parse_kv : Text → Option KvConfig) where
  unfoldable pub read_runtime_process_environment :
      Environment → Resolved (RuntimeProcessEnvironment KvConfig)
  unfolding require_env
  read_runtime_process_environment env = do
    socket_path ← require_env env (codes "BALANCE_PLUGIN_SOCKET_PATH")
    entrypoint_path ← require_env env (codes "BALANCE_PLUGIN_ENTRYPOINT")
    manifest_json ← require_env env (codes "BALANCE_PLUGIN_MANIFEST_JSON")
    manifest ← parsed_json (codes "BALANCE_PLUGIN_MANIFEST_JSON") (parse_manifest manifest_json)
    kv_config ←
        parsed_if_set parse_kv (codes "BALANCE_PLUGIN_KV_JSON")
          (env (codes "BALANCE_PLUGIN_KV_JSON"))
    resolved (record {
      socket_path = socket_path;
      entrypoint_path = entrypoint_path;
      manifest = manifest;
      kv_config = kv_config;
      descriptor_path = env (codes "BALANCE_PLUGIN_DESCRIPTOR_PATH");
      service_name = env (codes "BALANCE_PLUGIN_SERVICE_NAME");
      service_module_path = env (codes "BALANCE_PLUGIN_SERVICE_MODULE");
      service_export_name = some (or_default_export (env (codes "BALANCE_PLUGIN_SERVICE_EXPORT")));
    })

module _ {ℓ} {Schema : Type ℓ}
    (load_descriptor_registry : Text → Option (Text → Option (ServiceLike Schema)))
    (import_service : Text → Option (Text → Option (PluginServiceDefinition Schema))) where
  abbrev pub exported_service :
      Text
      → Text
      → Option (PluginServiceDefinition Schema)
      → Resolved (PluginServiceDefinition Schema)
  exported_service module_path export_name none =
      unresolved (no_service_export module_path export_name)
  exported_service module_path export_name (some service) = resolved service

  abbrev pub imported_service :
      Text
      → Text
      → Option (Text → Option (PluginServiceDefinition Schema))
      → Resolved (PluginServiceDefinition Schema)
  imported_service module_path export_name none = unresolved (service_module_failed module_path)
  imported_service module_path export_name (some loaded_module) =
      exported_service module_path export_name (loaded_module export_name)

  abbrev pub load_service_metadata_from_module :
      Text → Text → Resolved (PluginServiceDefinition Schema)
  load_service_metadata_from_module module_path export_name =
      imported_service module_path export_name (import_service module_path)

  -- Without a descriptor path and a service name: the module's path, and the export's name.
  abbrev pub resolve_from_module :
      Option Text → Option Text → Resolved (PluginServiceDefinition Schema)
  resolve_from_module none export_name = unresolved no_service_metadata
  resolve_from_module (some []) export_name = unresolved no_service_metadata
  resolve_from_module (some (c ∷ path)) export_name =
      load_service_metadata_from_module (c ∷ path) (or_default_export export_name)

  abbrev pub resolve_service :
      Option Text
      → Option Text
      → Option Text
      → Option Text
      → Resolved (PluginServiceDefinition Schema)
  resolve_service (some descriptor_path) (some service_name) module_path export_name =
      load_runtime_service_definition load_descriptor_registry
        (record { descriptor_path = descriptor_path; service_name = service_name })
  resolve_service _ _ module_path export_name = resolve_from_module module_path export_name

  unfoldable pub resolve_service_metadata {κ} :
      {KvConfig : Type κ}
      → RuntimeProcessEnvironment KvConfig
      → Resolved (PluginServiceDefinition Schema)
  unfolding load_runtime_service_definition
  resolve_service_metadata environment =
      resolve_service environment.descriptor_path environment.service_name
        environment.service_module_path environment.service_export_name

-- What the server is made of when it listens.
pub record ServerParts {ℓ} (Schema H : Type ℓ) : Type ℓ where
  pub dispatcher : PluginDispatcher Schema H
  pub metrics : Option RuntimeMetrics
  pub worker_pool : PoolChoice

pub data ProcessStart {ℓ} (A : Type ℓ) : Type ℓ where
  listening : A → ProcessStart A
  not_resolved : ProcessError → ProcessStart A
  schemas_missing : Text → ProcessStart A
  not_bootstrapped : StartError → ProcessStart A

module _ {ℓ} {Schema H : Type ℓ} (import_plugin : Text → LoadedModule H) where
  abbrev pub server_parts :
      PluginRuntimeManifest
      → Text
      → Started (PluginDispatcher Schema H)
      → ProcessStart (ServerParts Schema H)
  server_parts manifest entrypoint_path (failed_start e) = not_bootstrapped e
  server_parts manifest entrypoint_path (ready dispatcher) = listening (record {
    dispatcher = dispatcher;
    metrics = resolve_metrics manifest.emit_metrics none;
    worker_pool =
        create_worker_pool_if_needed manifest.concurrency manifest.idle_eviction_ms false
          (some entrypoint_path);
  })

  -- What comes of `assertSchemaAwareService`, and then the start.
  abbrev pub start_server_with :
      PluginRuntimeManifest
      → Text
      → PluginServiceDefinition Schema
      → Option Text
      → ProcessStart (ServerParts Schema H)
  start_server_with manifest entrypoint_path service (some name) = schemas_missing name
  start_server_with manifest entrypoint_path service none = server_parts manifest entrypoint_path (
      bootstrap_plugin_runtime manifest.id manifest.version none service import_plugin none
        (some entrypoint_path))

  -- `startPluginSocketRuntimeServer`, with the input of a process.
  unfoldable pub start_plugin_socket_runtime_server :
      PluginRuntimeManifest
      → Text
      → PluginServiceDefinition Schema
      → ProcessStart (ServerParts Schema H)
  unfolding missing_schemas bootstrap_plugin_runtime create_worker_pool_if_needed resolve_metrics
  start_plugin_socket_runtime_server manifest entrypoint_path service =
      start_server_with manifest entrypoint_path service (missing_schemas service.methods)

  module _ {KvConfig : Type ℓ} (parse_manifest : Text → Option PluginRuntimeManifest)
      (parse_kv : Text → Option KvConfig)
      (load_descriptor_registry : Text → Option (Text → Option (ServiceLike Schema)))
      (import_service : Text → Option (Text → Option (PluginServiceDefinition Schema))) where
    abbrev pub start_resolved_service :
        RuntimeProcessEnvironment KvConfig
        → Resolved (PluginServiceDefinition Schema)
        → ProcessStart (ServerParts Schema H)
    start_resolved_service environment (unresolved e) = not_resolved e
    start_resolved_service environment (resolved service) =
        start_plugin_socket_runtime_server environment.manifest environment.entrypoint_path service

    abbrev pub start_in :
        Resolved (RuntimeProcessEnvironment KvConfig) → ProcessStart (ServerParts Schema H)
    start_in (unresolved e) = not_resolved e
    start_in (resolved environment) =
        start_resolved_service environment
          (resolve_service_metadata load_descriptor_registry import_service environment)

    unfoldable pub start_process : Environment → ProcessStart (ServerParts Schema H)
    unfolding start_plugin_socket_runtime_server resolve_service_metadata
        read_runtime_process_environment
    start_process env = start_in (read_runtime_process_environment parse_manifest parse_kv env)
