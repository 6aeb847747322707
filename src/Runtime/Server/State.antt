-- ===== src/Runtime/Server/State.antt =====
-- What the server of packages/plugin-runtime/src/socket-server.ts keeps and replies, its timeouts and
-- the outcomes that it counts.
use ts_plugins.Common.{
  ℕ, Bool, false, ◌&&◌, Option, none, some, ltb, leb, if◌then◌else◌, Text, text_eq, number_eq, ◌==◌,
  codes,
}
use ts_plugins.Protocol.{
  Bytes, TraceContext, ControlMessageKind, ping, pong, shutdown, unrecognized, FrameworkErrorCode,
  unknown, decode_failed, Body, unset, rpc_request, rpc_response, control, framework_error,
  WireEnvelope,
}
use ts_plugins.Codegen.Contract.{PluginMethodDefinition}
use ts_plugins.Runtime.Values.{Value, string, object, find_field}
use ts_plugins.Runtime.Metrics.{MetricOutcome, success, typed_error, RuntimeMetrics}
use ts_plugins.Runtime.Dispatcher.{
  Thrown, error, plugin_execution_error, other_value, Settled, rejected, RequestContext,
  DispatcherState, PluginDispatcher,
}

-- `result.outcome.case === "error"`, for the value of the field `outcome`.
abbrev is_error_case : Option Value → Bool
is_error_case (some (string name)) = name == codes "error"
is_error_case _ = false

abbrev is_error_outcome : Option Value → Bool
is_error_outcome (some (object fields)) = is_error_case (find_field (codes "case") fields)
is_error_outcome _ = false

unfoldable pub determine_metric_outcome : Value → MetricOutcome
determine_metric_outcome (object fields) =
    if is_error_outcome (find_field (codes "outcome") fields) then typed_error else success
determine_metric_outcome _ = success

-- A promise: when it settles and how, or `none` for never.
abbrev pub Timed : Type 0
Timed = Option (ℕ × Settled)

-- The delay that `setTimeout` takes for a number of milliseconds: 1 where it is out of range.
abbrev pub timer_delay : ℕ → ℕ
timer_delay ms = if leb 1 ms && leb ms 2147483647 then ms else 1

-- Whether a promise settles before a timer; in the timer's own millisecond that depends on which of
-- the two events comes first, so the answer for it is an argument.
abbrev pub is_in_time : Bool → ℕ → ℕ → Bool
is_in_time first at delay = if first then leb at delay else ltb at delay

-- What the promise of `withTimeout` comes to. The promise that `promise.finally` returns, which is
-- rejected with the one it follows and which nobody handles, is no part of it.
unfoldable pub with_timeout : Bool → Timed → Option ℕ → Text → Option Settled
with_timeout first none none message = none
with_timeout first (some (at, settled)) none message = some settled
with_timeout first none (some timeout_ms) message = some (rejected (error message))
with_timeout first (some (at, settled)) (some timeout_ms) message =
    some
      (if is_in_time first at (timer_delay timeout_ms) then settled else rejected (error message))

-- What protobuf makes of a message or of bytes, or the message of the `Error` it throws.
pub data Coded {ℓ} (A : Type ℓ) : Type ℓ where
  coded : A → Coded A
  codec_error : Text → Coded A

-- What the server reads while it serves one request, and whether its handler comes before the timer
-- in the timer's own millisecond.
pub record Readings : Type 0 where
  pub queue_before : ℕ
  pub queue_after : ℕ
  pub latency_ms : ℕ
  pub settles_first : Bool

pub record ServerState : Type 0 where
  pub dispatcher : DispatcherState
  pub last_init_request : Option Value
  pub metrics : Option RuntimeMetrics

pub record WorkerPoolTask {ℓ} (Schema : Type ℓ) : Type ℓ where
  pub request_id : Text
  pub method : PluginMethodDefinition Schema
  pub request : Value
  pub init_request : Option Value
  pub trace_context : Option TraceContext

pub record Server {ℓ} (Schema H : Type ℓ) : Type ℓ where
  pub dispatcher : PluginDispatcher Schema H
  pub init_timeout_ms : Option ℕ
  pub request_timeout_ms : Option ℕ
  pub run : H → Value → RequestContext → Timed
  pub pool : Option (WorkerPoolTask Schema → Option ℕ → Timed)
  pub decode : Option Schema → Bytes → Coded Value
  pub encode : Option Schema → Value → Coded Bytes

abbrev pub update_metrics : (RuntimeMetrics → RuntimeMetrics) → ServerState → ServerState
update_metrics f state = elim state.metrics [
  | none ↦ state
  | some metrics ↦ record state { metrics = some (f metrics) }
]

-- What comes back for an envelope; `pending` is a promise that never settles.
pub data Reply : Type 0 where
  reply : WireEnvelope → Reply
  socket_ended pending : Reply

-- The number of a control message in plugin_protocol_pb.ts.
abbrev pub kind_number : ControlMessageKind → ℕ
kind_number ping = 0
kind_number pong = 1
kind_number shutdown = 2
kind_number (unrecognized n) = n

-- `envelope.body.case ?? "undefined"`
abbrev pub body_case : Body → Text
body_case unset = codes "undefined"
body_case (rpc_request _ _) = codes "rpcRequest"
body_case (rpc_response _) = codes "rpcResponse"
body_case (control _) = codes "control"
body_case (framework_error _ _) = codes "frameworkError"

abbrev pub error_code : Thrown → FrameworkErrorCode
error_code (plugin_execution_error _ _ _ _) = unknown
error_code (error _) = decode_failed
error_code (other_value _) = decode_failed

-- `stripSchemas`
abbrev pub strip_schemas {ℓ} :
    {Schema : Type ℓ} → PluginMethodDefinition Schema → PluginMethodDefinition Schema
strip_schemas method = record method { input_schema = none; output_schema = none }
