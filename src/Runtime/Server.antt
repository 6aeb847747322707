-- ===== src/Runtime/Server.antt =====
-- The requests of a connection in packages/plugin-runtime/src/socket-server.ts. `decode` and
-- `encode` stand for protobuf's `fromBinary` and `toBinary` on a message's schema, `run` for what a
-- handler's call comes to, and `pool` for the worker pool, whose interface the server takes as an
-- option. Time is counted in milliseconds from the start of an invocation.
pub mod State
pub mod Replies
pub mod Counted
pub mod Connection
pub mod Overlap
use ts_plugins.Common.{
  ℕ, ◌+◌, Bool, true, false, ◌&&◌, not, ◌≡◌, Option, none, some, List, [], ◌∷◌, ◌++◌, ltb, leb,
  nat_eq, if◌then◌else◌, Text, text_eq, number_eq, ◌==◌, codes, JsMap,
}
use ts_plugins.Common.Texts.{decimal}
use ts_plugins.Common.Maps
use ts_plugins.Protocol.{
  Bytes, TraceContext, ControlMessageKind, ping, pong, shutdown, unrecognized, FrameworkErrorCode,
  unknown, protocol_version_mismatch, decode_failed, Body, unset, rpc_request, rpc_response,
  control, framework_error, WireEnvelope, protocol_version, create_framework_error_envelope,
  create_rpc_response_envelope, create_control_envelope,
}
use ts_plugins.Codegen.Contract.{PluginMethodDefinition}
use ts_plugins.Runtime.Values.{
  Value, undefined, null, boolean, number, string, object, Fields, find_field,
}
use ts_plugins.Runtime.Metrics.{
  MetricOutcome, success, typed_error, framework_failure, RuntimeMetrics, record_request,
  set_queue_depth,
}
use ts_plugins.Runtime.Dispatcher.{
  Thrown, error, plugin_execution_error, other_value, message_of, Settled, resolved, rejected,
  RequestContext, DispatcherState, PluginDispatcher, Begun, refused, started, Purpose, initializing,
  serving, caught, begin_method, begin_invoke, finish, method_by_id,
}
unfoldable pub use State.*

module _ {ℓ} {Schema H : Type ℓ} (server : Server Schema H) where
  abbrev plugin_id : Text
  plugin_id = server.dispatcher.plugin_id

  abbrev pub is_init_method : PluginMethodDefinition Schema → Bool
  is_init_method method = method.name == codes "Init"

  abbrev pub timeout_of : PluginMethodDefinition Schema → Option ℕ
  timeout_of method =
      if is_init_method method then server.init_timeout_ms else server.request_timeout_ms

  abbrev pub timeout_message : PluginMethodDefinition Schema → Text
  timeout_message method =
      method.canonical_name
      ++ (codes " timed out after "
          ++ ((elim (timeout_of method) [ none ↦ codes "undefined" | some ms ↦ decimal ms ])
              ++ codes "ms"))

  -- The promise of `runtime.initialize` or `runtime.invoke`, and what it is for.
  abbrev timed_begun :
      Value → Purpose → Begun H × DispatcherState → Timed × (Purpose × DispatcherState)
  timed_begun request purpose (refused message, state) =
      (some (0, rejected (error message)), (serving, state))
  timed_begun request purpose (started handler context, state) = (
    elim (server.run handler request context) [
      | none ↦ none
      | some (at, settled) ↦ some (at, caught context settled)
    ],
    (purpose, state),
  )

  -- `const invocation = ...`
  unfoldable pub invocation :
      ServerState
      → ℕ
      → PluginMethodDefinition Schema
      → Value
      → Option TraceContext
      → Timed × (Purpose × DispatcherState)
  invocation state request_id method request trace_context =
      if is_init_method method
      then timed_begun request initializing (
          begin_method server.dispatcher state.dispatcher server.dispatcher.init_method
            trace_context)
      else elim server.pool [
        | some pool_run ↦ (
          pool_run
              (record {
                request_id = decimal request_id;
                method = strip_schemas method;
                request = request;
                init_request = state.last_init_request;
                trace_context = trace_context;
              })
              (timeout_of method),
          (serving, state.dispatcher),
        )
        | none ↦
            let (purpose, b) =
              begin_invoke server.dispatcher state.dispatcher method.method_id trace_context in
            timed_begun request purpose b
      ]

  -- The `catch` block.
  unfoldable pub catch_error :
      ServerState
      → ℕ
      → PluginMethodDefinition Schema
      → Option TraceContext
      → Readings
      → Thrown
      → WireEnvelope × ServerState
  catch_error state request_id method trace_context readings thrown = (
    create_framework_error_envelope request_id (error_code thrown) (message_of thrown)
        trace_context,
    update_metrics
        (λ metrics.
          set_queue_depth
            (record_request metrics plugin_id method.name framework_failure readings.latency_ms)
            plugin_id readings.queue_after)
        state,
  )

  -- The rest of the `try` block after `await withTimeout(...)`; what protobuf throws is an `Error`.
  unfoldable pub after_result :
      ServerState
      → ℕ
      → PluginMethodDefinition Schema
      → Value
      → Option TraceContext
      → Readings
      → Settled
      → WireEnvelope × ServerState
  unfolding catch_error
  after_result state request_id method request trace_context readings (rejected thrown) =
      catch_error state request_id method trace_context readings thrown
  after_result state request_id method request trace_context readings (resolved result) =
      let state' =
        if is_init_method method
        then record state { last_init_request = some request }
        else state in
      let state'' =
        update_metrics
          (λ metrics.
            set_queue_depth
              (record_request metrics plugin_id method.name (determine_metric_outcome result)
                readings.latency_ms)
              plugin_id readings.queue_after)
          state' in
      elim (server.encode method.output_schema result) [
        | codec_error message ↦
            catch_error state'' request_id method trace_context readings (error message)
        | coded payload ↦ (create_rpc_response_envelope request_id payload trace_context, state'')
      ]

  -- The dispatcher while the server waits: a handler that settles in time has `initialize` finish.
  abbrev pub dispatcher_after :
      Bool → Option ℕ → Value → Timed → Purpose → DispatcherState → DispatcherState
  dispatcher_after first timeout request none purpose state = state
  dispatcher_after first none request (some (at, settled)) purpose state =
      finish purpose state request settled
  dispatcher_after first (some timeout_ms) request (some (at, settled)) purpose state =
      if is_in_time first at (timer_delay timeout_ms)
      then finish purpose state request settled
      else state

  -- The answer for what `withTimeout` gives; `pending` when it never settles.
  abbrev pub answered :
      ServerState
      → ℕ
      → PluginMethodDefinition Schema
      → Value
      → Option TraceContext
      → Readings
      → Option Settled
      → Reply × ServerState
  answered state request_id method request trace_context readings none = (pending, state)
  answered state request_id method request trace_context readings (some settled) =
      let (envelope, state') =
        after_result state request_id method request trace_context readings settled in
      (reply envelope, state')

  abbrev pub handle_decoded :
      ServerState
      → ℕ
      → PluginMethodDefinition Schema
      → Option TraceContext
      → Readings
      → Coded Value
      → Reply × ServerState
  handle_decoded state request_id method trace_context readings (codec_error message) =
      let (envelope, state') =
        catch_error state request_id method trace_context readings (error message) in
      (reply envelope, state')
  handle_decoded state request_id method trace_context readings (coded request) =
      let state' =
        update_metrics (λ metrics. set_queue_depth metrics plugin_id readings.queue_before) state in
      let (timed, (purpose, begun)) = invocation state' request_id method request trace_context in
      answered
        (record state' {
          dispatcher =
              dispatcher_after readings.settles_first (timeout_of method) request timed purpose
                begun;
        })
        request_id method request trace_context readings
        (with_timeout readings.settles_first timed (timeout_of method) (timeout_message method))

  abbrev pub handle_method :
      ServerState
      → ℕ
      → ℕ
      → Bytes
      → Option TraceContext
      → Readings
      → Option (PluginMethodDefinition Schema)
      → Reply × ServerState
  handle_method state request_id method_id payload trace_context readings none = (
    reply (
        create_framework_error_envelope request_id unknown
          (codes "unknown plugin method id " ++ decimal method_id) trace_context),
    state,
  )
  handle_method state request_id method_id payload trace_context readings (some method) =
      handle_decoded state request_id method trace_context readings
        (server.decode method.input_schema payload)

  unfoldable pub handle_rpc_request :
      ServerState → ℕ → ℕ → Bytes → Option TraceContext → Readings → Reply × ServerState
  unfolding after_result invocation with_timeout
  handle_rpc_request state request_id method_id payload trace_context readings =
      handle_method state request_id method_id payload trace_context readings
        (method_by_id server.dispatcher.methods method_id)

  abbrev pub handle_control : WireEnvelope → ControlMessageKind → Reply
  handle_control envelope ping =
      reply (create_control_envelope envelope.request_id pong envelope.trace_context)
  handle_control envelope shutdown = socket_ended
  handle_control envelope kind = reply (
      create_framework_error_envelope envelope.request_id unknown
        (codes "unsupported control message kind " ++ decimal (kind_number kind))
        envelope.trace_context)

  abbrev pub handle_body : ServerState → WireEnvelope → Readings → Body → Reply × ServerState
  handle_body state envelope readings (rpc_request method_id payload) =
      handle_rpc_request state envelope.request_id method_id payload envelope.trace_context readings
  handle_body state envelope readings (control kind) = (handle_control envelope kind, state)
  handle_body state envelope readings body = (
    reply (
        create_framework_error_envelope envelope.request_id unknown
          (codes "unsupported envelope body " ++ body_case body) envelope.trace_context),
    state,
  )

  unfoldable pub handle_envelope : ServerState → WireEnvelope → Readings → Reply × ServerState
  unfolding handle_rpc_request
  handle_envelope state envelope readings =
      if nat_eq envelope.protocol_version protocol_version
      then handle_body state envelope readings envelope.body
      else (
        reply (
            create_framework_error_envelope envelope.request_id protocol_version_mismatch
              (codes "unsupported protocol version " ++ decimal envelope.protocol_version)
              envelope.trace_context),
        state,
      )
