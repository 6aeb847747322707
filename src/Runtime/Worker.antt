-- ===== src/Runtime/Worker.antt =====
-- packages/plugin-runtime/src/request-worker.ts: a pooled worker serves its tasks one after the
-- other, and calls `Init` itself before the first task that needs it. The module that it loads is
-- the handler object `handlers`; the store in a handler's context is the plugin's to use.
pub mod Snapshots
use ts_plugins.Common.{
  ℕ, Bool, true, false, ◌&&◌, not, Option, none, some, List, [], ◌∷◌, ◌++◌, if◌then◌else◌, Text,
  text_eq, ◌==◌, codes, JsMap,
}
use ts_plugins.Protocol.{TraceContext}
use ts_plugins.Codegen.Contract.{PluginMethodDefinition}
use ts_plugins.Runtime.Values.{Value, derive_config_snapshot}
use ts_plugins.Runtime.Tracing.{Extracted, absent, invalid, valid, extract_trace_context}
use ts_plugins.Runtime.Dispatcher.{Settled, resolved, rejected, error, RequestContext, sent}
use ts_plugins.Runtime.Dispatcher.Validation.{Handlers, handler_of}

pub record WorkerState {ℓ} (H : Type ℓ) : Type ℓ where
  pub handlers : Handlers H
  pub initialized : Bool
  pub config_snapshot : JsMap Text Text

pub record WorkerDispatchTask {ℓ} (Schema : Type ℓ) : Type ℓ where
  pub plugin_id : Text
  pub version : Text
  pub service_type_name : Text
  pub runtime_instance_id : Text
  pub request_id : Text
  pub method : PluginMethodDefinition Schema
  pub request : Value
  pub init_request : Option Value
  pub trace_context : Option TraceContext

-- `createWorkerState`, once the module is loaded.
unfoldable pub create_worker_state {ℓ} : {H : Type ℓ} → Handlers H → WorkerState H
create_worker_state handlers = record {
  handlers = handlers;
  initialized = false;
  config_snapshot = [];
}

-- What a returned `Init` leaves.
abbrev pub after_init {ℓ} : {H : Type ℓ} → WorkerState H → Value → WorkerState H
after_init state request = record state {
  initialized = true;
  config_snapshot = derive_config_snapshot request;
}

module _ {ℓ} {Schema : Type ℓ} where
  abbrev pub is_init_task : WorkerDispatchTask Schema → Bool
  is_init_task task = task.method.name == codes "Init"

  -- The task that calls `Init` first.
  abbrev pub as_init : WorkerDispatchTask Schema → Value → WorkerDispatchTask Schema
  as_init task init_request = record task {
    method = record task.method { name = codes "Init"; local_name = codes "init" };
    request = init_request;
  }

  abbrev worker_context :
      WorkerDispatchTask Schema → JsMap Text Text → Option TraceContext → RequestContext
  worker_context task config_snapshot trace_context = record {
    plugin_id = task.plugin_id;
    version = task.version;
    service = task.service_type_name;
    method_id = task.method.method_id;
    method_name = task.method.name;
    canonical_name = task.method.canonical_name;
    request_id = task.request_id;
    runtime_instance_id = task.runtime_instance_id;
    config = if is_init_task task then [] else config_snapshot;
    trace_context = trace_context;
  }

module _ {ℓ} {Schema H : Type ℓ} (run : H → Value → RequestContext → Settled) where
  abbrev call_extracted : WorkerState H → WorkerDispatchTask Schema → H → Extracted → Settled
  call_extracted state task handler absent =
      run handler task.request (worker_context task state.config_snapshot none)
  call_extracted state task handler (valid c) =
      run handler task.request (worker_context task state.config_snapshot (some c))
  call_extracted state task handler (invalid message) = rejected (error message)

  abbrev call_found : WorkerState H → WorkerDispatchTask Schema → Text → Option H → Settled
  call_found state task name none =
      rejected (error (codes "handler " ++ (name ++ codes " is not implemented")))
  call_found state task name (some handler) =
      call_extracted state task handler (extract_trace_context (sent task.trace_context))

  unfoldable pub invoke_handler : WorkerState H → WorkerDispatchTask Schema → Settled
  invoke_handler state task =
      let name = if is_init_task task then codes "init" else task.method.local_name in
      call_found state task name (handler_of state.handlers name)

  -- The call of the task's own handler, and what comes behind it.
  abbrev pub own_settled :
      WorkerState H → WorkerDispatchTask Schema → Settled → Settled × WorkerState H
  own_settled state task (rejected thrown) = (rejected thrown, state)
  own_settled state task (resolved result) =
      (resolved result, if is_init_task task then after_init state task.request else state)

  abbrev pub run_own : WorkerState H → WorkerDispatchTask Schema → Settled × WorkerState H
  run_own state task = own_settled state task (invoke_handler state task)

  abbrev pub init_settled :
      WorkerState H → WorkerDispatchTask Schema → Value → Settled → Settled × WorkerState H
  init_settled state task request (rejected thrown) = (rejected thrown, state)
  init_settled state task request (resolved _) = run_own (after_init state request) task

  abbrev pub run_with_init :
      WorkerState H → WorkerDispatchTask Schema → Option Value → Settled × WorkerState H
  run_with_init state task none = run_own state task
  run_with_init state task (some request) =
      init_settled state task request (invoke_handler state (as_init task request))

  unfoldable pub run_worker_dispatch_task :
      WorkerState H → WorkerDispatchTask Schema → Settled × WorkerState H
  unfolding invoke_handler
  run_worker_dispatch_task state task =
      if not (is_init_task task) && not state.initialized
      then run_with_init state task task.init_request
      else run_own state task

  -- The tasks that one worker serves, in order.
  pub run_tasks : WorkerState H → List (WorkerDispatchTask Schema) → WorkerState H
  run_tasks state [] = state
  run_tasks state (task ∷ tasks) = run_tasks (run_worker_dispatch_task state task).1 tasks
