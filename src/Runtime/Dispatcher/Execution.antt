-- ===== src/Runtime/Dispatcher/Execution.antt =====
-- `executePluginHandler` and `PluginExecutionError` of packages/plugin-runtime/src/errors.ts, and what
-- a handler's call and its context are.
use ts_plugins.Common.{ℕ, Option, List, [], ◌∷◌, ◌++◌, Text, text_eq, number_eq, codes, JsMap}
use ts_plugins.Protocol.{TraceContext}
use ts_plugins.Runtime.Values.{Value}

-- What a plugin's code may throw: an `Error` by its message, the runtime's own error class, or
-- another value by its `String(...)`.
pub data Thrown : Type 0 where
  error : Text → Thrown
  plugin_execution_error : Text → Text → Text → Text → Thrown
  other_value : Text → Thrown

abbrev pub message_of : Thrown → Text
message_of (error message) = message
message_of (plugin_execution_error _ _ _ message) = message
message_of (other_value text) = text

pub data Settled : Type 0 where
  resolved : Value → Settled
  rejected : Thrown → Settled

-- The data of a plugin's context, which `createPluginContext` of context.ts makes of its input; its
-- logger, tracer and store are the plugin's to use.
pub record RequestContext : Type 0 where
  pub plugin_id : Text
  pub version : Text
  pub service : Text
  pub method_id : ℕ
  pub method_name : Text
  pub canonical_name : Text
  pub request_id : Text
  pub runtime_instance_id : Text
  pub config : JsMap Text Text
  pub trace_context : Option TraceContext

-- Calls of the context's tracer and logger.
pub data Event : Type 0 where
  start_span : Text → Text → Text → Event
  set_plugin_error : Event
  log_error : Text → Text → Text → Thrown → Event
  end_span : Event
  by_handler : Text → Event

-- The constructor of `PluginExecutionError`.
unfoldable pub new_execution_error : RequestContext → Thrown → Thrown
new_execution_error context cause =
    plugin_execution_error context.plugin_id context.canonical_name context.request_id (
      codes "Plugin "
      ++ (context.plugin_id
          ++ (codes " failed while executing "
              ++ (context.canonical_name ++ (codes ": " ++ message_of cause)))))

abbrev pub caught : RequestContext → Settled → Settled
caught context (resolved value) = resolved value
caught context (rejected cause) = rejected (new_execution_error context cause)

abbrev pub reported : RequestContext → Settled → List Event
reported context (resolved value) = []
reported context (rejected cause) =
    set_plugin_error
    ∷ log_error context.plugin_id context.canonical_name context.request_id cause
    ∷ []

module _ {ℓ} {H : Type ℓ} (run : H → Value → RequestContext → Settled × List Event) where
  unfoldable pub execute_plugin_handler : H → Value → RequestContext → Settled × List Event
  unfolding new_execution_error
  execute_plugin_handler handler request context =
      let (settled, events) = run handler request context in
      (
        caught context settled,
        start_span context.plugin_id context.canonical_name context.request_id
            ∷ (events ++ (reported context settled ++ end_span ∷ [])),
      )
