-- ===== src/Runtime/Bootstrap.antt =====
-- packages/plugin-runtime/src/bootstrap.ts: what a loaded module must be for the runtime to start.
use ts_plugins.Common.{Option, none, some, List, Text}
use ts_plugins.Codegen.Contract.{PluginServiceDefinition}
use ts_plugins.Runtime.Dispatcher.{PluginDispatcher, create_plugin_dispatcher}
use ts_plugins.Runtime.Dispatcher.Validation.{
  Handlers, Validated, accepted, missing, unexpected, validate_handlers,
}

-- A module's value and its `default`, as far as they are told apart: no object, or an object with
-- its handlers. The outer option is whether the module has the property `default`.
pub data LoadedModule {ℓ} (H : Type ℓ) : Type ℓ where
  no_object : LoadedModule H
  module_object : Handlers H → LoadedModule H
  with_default : Option (Handlers H) → LoadedModule H

pub data StartError : Type 0 where
  no_entrypoint no_handler_object bad_default no_init : StartError
  missing_handlers : List Text → StartError
  unexpected_handlers : List Text → StartError

pub data Started {ℓ} (A : Type ℓ) : Type ℓ where
  ready : A → Started A
  failed_start : StartError → Started A

module _ {ℓ} {H : Type ℓ} where
  -- `loadEntrypointModule`: the caller's loader, or the import of the entrypoint's path.
  unfoldable pub load_entrypoint_module :
      (Text → LoadedModule H) → Option (LoadedModule H) → Option Text → Started (LoadedModule H)
  load_entrypoint_module import_module (some loaded) path = ready loaded
  load_entrypoint_module import_module none none = failed_start no_entrypoint
  load_entrypoint_module import_module none (some path) = ready (import_module path)

  unfoldable pub resolve_plugin_handlers : LoadedModule H → Started (Handlers H)
  resolve_plugin_handlers no_object = failed_start no_handler_object
  resolve_plugin_handlers (module_object handlers) = ready handlers
  resolve_plugin_handlers (with_default none) = failed_start bad_default
  resolve_plugin_handlers (with_default (some handlers)) = ready handlers

module _ {ℓ} {Schema H : Type ℓ} where
  abbrev pub start_dispatcher :
      Option (PluginDispatcher Schema H) → Started (PluginDispatcher Schema H)
  start_dispatcher none = failed_start no_init
  start_dispatcher (some dispatcher) = ready dispatcher

  abbrev pub start_validated :
      Option (PluginDispatcher Schema H) → Validated → Started (PluginDispatcher Schema H)
  start_validated dispatcher (missing names) = failed_start (missing_handlers names)
  start_validated dispatcher (unexpected names) = failed_start (unexpected_handlers names)
  start_validated dispatcher accepted = start_dispatcher dispatcher

  abbrev pub start_resolved :
      Text
      → Text
      → Option Text
      → PluginServiceDefinition Schema
      → Started (Handlers H)
      → Started (PluginDispatcher Schema H)
  start_resolved plugin_id version runtime_instance_id service (failed_start e) = failed_start e
  start_resolved plugin_id version runtime_instance_id service (ready handlers) =
      start_validated
        (create_plugin_dispatcher plugin_id version runtime_instance_id service handlers)
        (validate_handlers handlers service.methods)

  abbrev pub start_loaded :
      Text
      → Text
      → Option Text
      → PluginServiceDefinition Schema
      → Started (LoadedModule H)
      → Started (PluginDispatcher Schema H)
  start_loaded plugin_id version runtime_instance_id service (failed_start e) = failed_start e
  start_loaded plugin_id version runtime_instance_id service (ready loaded) =
      start_resolved plugin_id version runtime_instance_id service (resolve_plugin_handlers loaded)

  unfoldable pub bootstrap_plugin_runtime :
      Text
      → Text
      → Option Text
      → PluginServiceDefinition Schema
      → (Text → LoadedModule H)
      → Option (LoadedModule H)
      → Option Text
      → Started (PluginDispatcher Schema H)
  unfolding resolve_plugin_handlers load_entrypoint_module
  bootstrap_plugin_runtime plugin_id version runtime_instance_id service import_module loaded path =
      start_loaded plugin_id version runtime_instance_id service
        (load_entrypoint_module import_module loaded path)
