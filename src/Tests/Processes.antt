-- ===== src/Tests/Processes.antt =====
-- Runs of packages/plugin-runtime/src/worker-entry.ts, service-definition.ts and process-main.ts.
use ts_plugins.Common.{
  ℕ, ◌+◌, ◌≡◌, refl, Option, none, some, List, [], ◌∷◌, if◌then◌else◌, Text, text_eq, ◌==◌, codes,
}
use ts_plugins.Common.Maps
use ts_plugins.Codegen.Contract.{unary, ServiceLike}
use ts_plugins.Runtime.Bootstrap.{LoadedModule, no_object}
use ts_plugins.Runtime.ServiceDefinition.{LoadRuntimeServiceDefinitionInput}
use ts_plugins.Runtime.Process.{
  Environment, PluginRuntimeManifest, read_runtime_process_environment,
}
use ts_plugins.Runtime.Process.Environment.{missing_in, read_runtime_process_environment_missing}
use ts_plugins.Runtime.Process.Shutdown.{signal, server_closed, running, on_events, on_events_once}
use ts_plugins.Runtime.WorkerEntry.{
  WorkerTask, Handler, settled, import_failed, export_missing, run_worker_tasks,
}
use ts_plugins.Runtime.WorkerEntry.Cached.{run_uncached, run_worker_tasks_uncached}

-- One module, whose default export adds its payload to a count.
abbrev import_module : Text → Option (Text → Option (Handler ℕ ℕ ℕ))
import_module path =
    if path == codes "/m.js"
    then some (λ name. if name == codes "default" then some (λ n w. (n + w, w + 1)) else none)
    else none

abbrev task : Text → Option Text → ℕ → WorkerTask ℕ
task path name payload = record { module_path = path; export_name = name; payload = payload }

abbrev tasks : List (WorkerTask ℕ)
tasks =
    task (codes "/m.js") none 7
    ∷ task (codes "/m.js") (some (codes "run")) 1
    ∷ task (codes "/m.js") (some (codes "default")) 5
    ∷ task (codes "/n.js") none 2
    ∷ []

answers_of_tasks :
    run_worker_tasks import_module [] tasks 0
    ≡ (settled 7 ∷ export_missing (codes "/m.js") (codes "run") ∷ settled 6 ∷ import_failed ∷ [], 2)
unfolding run_worker_tasks Maps.get Maps.set
answers_of_tasks = refl

run_worker_tasks_uncached_example :
    run_worker_tasks import_module [] tasks 0 ≡ run_uncached import_module tasks 0
run_worker_tasks_uncached_example =
    run_worker_tasks_uncached import_module tasks 0 (refl, (refl, (refl, (refl, tt))))

abbrev service : ServiceLike ℕ
service = record {
  type_name = codes "calc.v1.Calc";
  name = codes "Calc";
  methods =
      (record {
        name = codes "Init";
        local_name = codes "init";
        method_kind = unary;
        input_type_name = codes "In";
        output_type_name = codes "Out";
        input = 1;
        output = 2;
      })
      ∷ [];
}

-- One descriptor set with one service.
abbrev registry : Text → Option (ServiceLike ℕ)
registry name = if name == codes "calc.v1.Calc" then some service else none

abbrev load_registry : Text → Option (Text → Option (ServiceLike ℕ))
load_registry path = if path == codes "plugin.pb" then some registry else none

abbrev input : LoadRuntimeServiceDefinitionInput
input = record { descriptor_path = codes "plugin.pb"; service_name = codes "calc.v1.Calc" }

abbrev manifest : PluginRuntimeManifest
manifest = record {
  id = codes "calc";
  version = codes "1";
  init_timeout_ms = none;
  request_timeout_ms = none;
  idle_eviction_ms = none;
  concurrency = none;
  emit_logs = none;
  emit_traces = none;
  emit_metrics = none;
}

abbrev parse_manifest : Text → Option PluginRuntimeManifest
parse_manifest text = if text == codes "{}" then some manifest else none

abbrev parse_kv : Text → Option ℕ
parse_kv text = none

abbrev environment : Environment
environment key =
    if key == codes "BALANCE_PLUGIN_SOCKET_PATH"
    then some (codes "s")
    else if key == codes "BALANCE_PLUGIN_ENTRYPOINT"
    then some (codes "main.js")
    else if key == codes "BALANCE_PLUGIN_MANIFEST_JSON"
    then some (codes "{}")
    else if key == codes "BALANCE_PLUGIN_DESCRIPTOR_PATH"
    then some (codes "plugin.pb")
    else if key == codes "BALANCE_PLUGIN_SERVICE_NAME"
    then some (codes "calc.v1.Calc")
    else none

read_runtime_process_environment_missing_example :
    missing_in (read_runtime_process_environment parse_manifest parse_kv (λ key. none))
    ≡ some (codes "BALANCE_PLUGIN_SOCKET_PATH")
read_runtime_process_environment_missing_example =
    read_runtime_process_environment_missing parse_manifest parse_kv (λ key. none)

abbrev import_plugin : Text → LoadedModule ℕ
import_plugin path = no_object

on_events_once_example :
    let s = on_events running (signal ∷ signal ∷ server_closed ∷ []) in
    (s.closes ≡ 1) × (s.exits ≡ 0 ∷ [])
on_events_once_example = on_events_once (signal ∷ signal ∷ server_closed ∷ [])
