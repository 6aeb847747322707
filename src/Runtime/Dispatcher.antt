-- ===== src/Runtime/Dispatcher.antt =====
-- packages/plugin-runtime/src/dispatcher.ts, `executePluginHandler` of errors.ts and
-- `validateHandlers` of bootstrap.ts. A handler is the plugin's code: `run` says what a call of it
-- does. A call that waits is two steps, what `invoke` does up to the handler's call and what it
-- does once the handler has settled; `initialize` and `invoke` are the two in one, for a request
-- that no other one interrupts.
pub mod Execution
pub mod Validation
pub mod Calls
use ts_plugins.Common.{
  ℕ, ◌+◌, Bool, true, false, ◌||◌, ◌≡◌, Option, none, some, List, [], ◌∷◌, ◌++◌, map, if◌then◌else◌,
  any, filter, not, Text, text_eq, number_eq, ◌==◌, codes, JsMap,
}
use ts_plugins.Common.Texts.{decimal}
use ts_plugins.Common.Maps
use ts_plugins.Protocol.{TraceContext}
use ts_plugins.Codegen.Contract.{PluginMethodDefinition, PluginServiceDefinition}
use ts_plugins.Runtime.Tracing.{
  PartialTraceContext, Extracted, absent, invalid, valid, extract_trace_context,
}
use ts_plugins.Runtime.Values.{Value, derive_config_snapshot}
use ts_plugins.Runtime.Dispatcher.Validation.{Handlers, handler_of}
pub use Execution.*

pub record DispatcherState : Type 0 where
  pub initialized : Bool
  pub request_counter : ℕ
  pub config_snapshot : JsMap Text Text

abbrev pub initial_state : DispatcherState
initial_state = record { initialized = false; request_counter = 0; config_snapshot = [] }

pub record PluginDispatcher {ℓ} (Schema H : Type ℓ) : Type ℓ where
  pub plugin_id : Text
  pub version : Text
  pub service_type_name : Text
  pub runtime_instance_id : Text
  pub methods : List (PluginMethodDefinition Schema)
  pub handlers : Handlers H
  pub init_method : PluginMethodDefinition Schema

-- How a call begins: it is refused with a message, or the handler is called.
pub data Begun {ℓ} (H : Type ℓ) : Type ℓ where
  refused : Text → Begun H
  started : H → RequestContext → Begun H

-- What a call is for: `initialize` changes the state again when the handler has settled.
pub data Purpose : Type 0 where
  initializing serving : Purpose

-- `requestId` of the n-th request.
abbrev pub request_id_of : Text → ℕ → Text
request_id_of plugin_id n = plugin_id ++ (codes "-" ++ decimal n)

unfoldable pub complete_init : DispatcherState → Value → Settled → DispatcherState
complete_init state request (rejected _) = state
complete_init state request (resolved _) = record state {
  initialized = true;
  config_snapshot = derive_config_snapshot request;
}

-- What `initialize` and `invoke` do once the handler has settled.
unfoldable pub finish : Purpose → DispatcherState → Value → Settled → DispatcherState
unfolding complete_init
finish serving state request settled = state
finish initializing state request settled = complete_init state request settled

module _ {ℓ} {Schema : Type ℓ} where
  abbrev pub find_init :
      List (PluginMethodDefinition Schema) → Option (PluginMethodDefinition Schema)
  find_init [] = none
  find_init (method ∷ methods) =
      if method.name == codes "Init" then some method else find_init methods

  -- `methodsById.get(methodId)`: of two methods with one id, the later one.
  unfoldable pub method_by_id :
      List (PluginMethodDefinition Schema) → ℕ → Option (PluginMethodDefinition Schema)
  method_by_id [] id = none
  method_by_id (method ∷ methods) id = elim (method_by_id methods id) [
    | some later ↦ some later
    | none ↦ if method.method_id == id then some method else none
  ]

-- `requestCounter += 1`
abbrev pub counted : DispatcherState → DispatcherState
counted state = record state { request_counter = state.request_counter + 1 }

-- The trace context of an envelope, as `extractTraceContext` takes it.
abbrev pub sent : Option TraceContext → Option PartialTraceContext
sent none = none
sent (some c) = some (record {
  trace_id = some c.trace_id;
  span_id = some c.span_id;
  trace_flags = some c.trace_flags;
})

module _ {ℓ} {Schema H : Type ℓ} where
  -- `createPluginDispatcher`; `none` where it throws.
  unfoldable pub create_plugin_dispatcher :
      Text
      → Text
      → Option Text
      → PluginServiceDefinition Schema
      → Handlers H
      → Option (PluginDispatcher Schema H)
  create_plugin_dispatcher plugin_id version runtime_instance_id service handlers =
      elim (find_init service.methods) [
        | none ↦ none
        | some init ↦ some (record {
          plugin_id = plugin_id;
          version = version;
          service_type_name = service.type_name;
          runtime_instance_id = elim runtime_instance_id [
            | none ↦ plugin_id ++ codes "-runtime"
            | some id ↦ id
          ];
          methods = service.methods;
          handlers = handlers;
          init_method = init;
        })
      ]

  abbrev pub context_of :
      PluginDispatcher Schema H
      → DispatcherState
      → PluginMethodDefinition Schema
      → Option TraceContext
      → RequestContext
  context_of d state method trace_context = record {
    plugin_id = d.plugin_id;
    version = d.version;
    service = d.service_type_name;
    method_id = method.method_id;
    method_name = method.name;
    canonical_name = method.canonical_name;
    request_id = request_id_of d.plugin_id (state.request_counter + 1);
    runtime_instance_id = d.runtime_instance_id;
    config = state.config_snapshot;
    trace_context = trace_context;
  }

  -- The default context factory throws on a trace context that is not valid.
  abbrev pub begin_extracted :
      PluginDispatcher Schema H
      → DispatcherState
      → PluginMethodDefinition Schema
      → H
      → Extracted
      → Begun H × DispatcherState
  begin_extracted d state method handler absent =
      (started handler (context_of d state method none), counted state)
  begin_extracted d state method handler (valid trace_context) =
      (started handler (context_of d state method (some trace_context)), counted state)
  begin_extracted d state method handler (invalid message) = (refused message, counted state)

  -- `invokeMethod` for the handler that the object has under the method's name.
  abbrev pub begin_with :
      PluginDispatcher Schema H
      → DispatcherState
      → PluginMethodDefinition Schema
      → Option TraceContext
      → Option H
      → Begun H × DispatcherState
  begin_with d state method trace_context none =
      (refused (codes "Handler " ++ (method.local_name ++ codes " is not implemented")), state)
  begin_with d state method trace_context (some handler) =
      begin_extracted d state method handler (extract_trace_context (sent trace_context))

  -- `invokeMethod` up to the call of the handler.
  unfoldable pub begin_method :
      PluginDispatcher Schema H
      → DispatcherState
      → PluginMethodDefinition Schema
      → Option TraceContext
      → Begun H × DispatcherState
  begin_method d state method trace_context =
      begin_with d state method trace_context (handler_of d.handlers method.local_name)

  abbrev pub invoke_found :
      PluginDispatcher Schema H
      → DispatcherState
      → ℕ
      → Option TraceContext
      → Option (PluginMethodDefinition Schema)
      → Purpose × (Begun H × DispatcherState)
  invoke_found d state id trace_context none =
      (serving, (refused (codes "Unknown plugin method id: " ++ decimal id), state))
  invoke_found d state id trace_context (some method) =
      if method.name == codes "Init"
      then (initializing, begin_method d state d.init_method trace_context)
      else if state.initialized
      then (serving, begin_method d state method trace_context)
      else (
        serving,
        (
          refused (
              codes "Plugin "
              ++ (d.plugin_id
                  ++ (codes " cannot serve "
                      ++ (method.local_name ++ codes " before Init completes")))),
          state,
        ),
      )

  -- `invoke` up to the call of the handler.
  unfoldable pub begin_invoke :
      PluginDispatcher Schema H
      → DispatcherState
      → ℕ
      → Option TraceContext
      → Purpose × (Begun H × DispatcherState)
  unfolding method_by_id begin_method
  begin_invoke d state id trace_context =
      invoke_found d state id trace_context (method_by_id d.methods id)

module _ {ℓ} {H : Type ℓ} (run : H → Value → RequestContext → Settled × List Event) where
  abbrev run_begun : Purpose → Value → Begun H × DispatcherState → Settled × DispatcherState
  run_begun purpose request (refused message, state) = (rejected (error message), state)
  run_begun purpose request (started handler context, state) =
      let settled = (execute_plugin_handler run handler request context).0 in
      (settled, finish purpose state request settled)

module _ {ℓ} {Schema H : Type ℓ} (run : H → Value → RequestContext → Settled × List Event) where
  unfoldable pub initialize :
      PluginDispatcher Schema H
      → DispatcherState
      → Value
      → Option TraceContext
      → Settled × DispatcherState
  unfolding finish
  initialize d state request trace_context =
      run_begun run initializing request (begin_method d state d.init_method trace_context)

  unfoldable pub invoke :
      PluginDispatcher Schema H
      → DispatcherState
      → ℕ
      → Value
      → Option TraceContext
      → Settled × DispatcherState
  unfolding finish
  invoke d state id request trace_context =
      let (purpose, begun) = begin_invoke d state id trace_context in
      run_begun run purpose request begun
