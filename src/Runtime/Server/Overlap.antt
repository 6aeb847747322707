-- ===== src/Runtime/Server/Overlap.antt =====
-- Requests of packages/plugin-runtime/src/socket-server.ts that overlap: those of several
-- connections, or of several chunks of one, since a `data` event does not wait for the one before. A
-- request is served in pieces, between which anything may happen: its arrival, up to
-- `await withTimeout(...)`; the end of its invocation, or its timer; and the rest of the handler. The
-- order of the frames of one chunk is one of the orders that are allowed here.
pub mod Answered
pub mod Arrival
pub mod Pooled
pub mod Served
pub mod Steps
use ts_plugins.Common.{ℕ, ◌≡◌, Option, none, some, List, [], ◌∷◌, ◌++◌, if◌then◌else◌, Text, codes}
use ts_plugins.Common.Texts.{decimal}
use ts_plugins.Protocol.{
  Bytes, TraceContext, WireEnvelope, unknown, create_framework_error_envelope,
}
use ts_plugins.Codegen.Contract.{PluginMethodDefinition}
use ts_plugins.Runtime.Values.{Value}
use ts_plugins.Runtime.Metrics.{RuntimeMetrics, set_queue_depth}
use ts_plugins.Runtime.Dispatcher.{
  error, Settled, rejected, DispatcherState, initial_state, Begun, refused, started, Purpose,
  initializing, serving, caught, begin_method, begin_invoke, finish, method_by_id,
}
use ts_plugins.Runtime.Dispatcher.Calls.{Call, World, begun, returned_inits}
use ts_plugins.Runtime.Server.{
  Coded, coded, codec_error, Timed, Readings, ServerState, WorkerPoolTask, Server, update_metrics,
  strip_schemas, is_init_method, timeout_of, timeout_message, catch_error, after_result,
}

-- A request that the server awaits, with the dispatcher's call that serves it; none for a task of
-- the pool, or for a promise that is rejected at once.
pub record Task {ℓ} (Schema : Type ℓ) : Type ℓ where
  pub request_id : ℕ
  pub method : PluginMethodDefinition Schema
  pub request : Value
  pub trace_context : Option TraceContext
  pub call : Option Call

-- The server's state with its dispatcher's calls; the requests whose invocation is awaited, and those
-- whose invocation or timer has ended; the calls whose request has timed out; the ids of the requests
-- that have come, the tasks of the pool, and the replies. The newest are first.
pub record ServerWorld {ℓ} (Schema : Type ℓ) : Type ℓ where
  pub server : ServerState
  pub calls : World
  pub awaited : List (Task Schema)
  pub ended : List (Task Schema × Settled)
  pub abandoned : List Call
  pub received : List ℕ
  pub pooled : List (WorkerPoolTask Schema)
  pub replies : List WireEnvelope

abbrev pub add_call : Option Call → List Call → List Call
add_call none calls = calls
add_call (some call) calls = call ∷ calls

module _ {ℓ} {Schema : Type ℓ} where
  abbrev pub first_world : Option RuntimeMetrics → ServerWorld Schema
  first_world metrics = record {
    server = record { dispatcher = initial_state; last_init_request = none; metrics = metrics };
    calls = record { state = initial_state; calls = []; pending = []; inits = [] };
    awaited = [];
    ended = [];
    abandoned = [];
    received = [];
    pooled = [];
    replies = [];
  }

  -- The dispatcher's state is the server's.
  abbrev pub with_calls : ServerWorld Schema → World → ServerWorld Schema
  with_calls w calls = record w {
    calls = calls;
    server = record w.server { dispatcher = calls.state };
  }

  -- A reply is written, and the state is the one that comes with it.
  abbrev pub replied : ServerWorld Schema → WireEnvelope × ServerState → ServerWorld Schema
  replied w (envelope, state) = record w { server = state; replies = envelope ∷ w.replies }

  abbrev pub task_of :
      ℕ → PluginMethodDefinition Schema → Value → Option TraceContext → Option Call → Task Schema
  task_of request_id method request trace_context call = record {
    request_id = request_id;
    method = method;
    request = request;
    trace_context = trace_context;
    call = call;
  }

-- A call of the dispatcher ends, as one of Runtime.Dispatcher.Calls does.
unfoldable pub end_call : World → List Call → Call → Settled → World
unfolding finish
end_call calls pending call settled = record calls {
  state = finish call.purpose calls.state call.request settled;
  pending = pending;
  inits = returned_inits call.purpose call.request settled calls.inits;
}

module _ {ℓ} {Schema H : Type ℓ} (server : Server Schema H) where
  -- `runtime.initialize` or `runtime.invoke` up to its first await.
  abbrev pub enter :
      ServerWorld Schema
      → ℕ
      → PluginMethodDefinition Schema
      → Value
      → Option TraceContext
      → Purpose
      → Begun H × DispatcherState
      → ServerWorld Schema
  enter w request_id method request trace_context purpose (refused message, state) =
      let w' = with_calls w (begun {H = H} w.calls purpose request (refused message, state)) in
      record w' {
        ended =
            (task_of request_id method request trace_context none, rejected (error message))
            ∷ w'.ended;
      }
  enter w request_id method request trace_context purpose (started handler context, state) =
      let call : Call = record { purpose = purpose; request = request; context = context } in
      let w' = with_calls w (begun w.calls purpose request (started handler context, state)) in
      record w' {
        awaited = task_of request_id method request trace_context (some call) ∷ w'.awaited;
      }

  -- `workerPool.run(...)`
  abbrev pub enter_pool :
      ServerWorld Schema
      → ℕ
      → PluginMethodDefinition Schema
      → Value
      → Option TraceContext
      → ServerWorld Schema
  enter_pool w request_id method request trace_context = record w {
    awaited = task_of request_id method request trace_context none ∷ w.awaited;
    pooled =
        (record {
          request_id = decimal request_id;
          method = strip_schemas method;
          request = request;
          init_request = w.server.last_init_request;
          trace_context = trace_context;
        })
        ∷ w.pooled;
  }

  -- A method other than `Init`: to the pool, or to the dispatcher.
  abbrev pub invoke_other :
      ServerWorld Schema
      → ℕ
      → PluginMethodDefinition Schema
      → Value
      → Option TraceContext
      → Option (WorkerPoolTask Schema → Option ℕ → Timed)
      → ServerWorld Schema
  invoke_other w request_id method request trace_context (some pool_run) =
      enter_pool w request_id method request trace_context
  invoke_other w request_id method request trace_context none =
      let (purpose, b) =
        begin_invoke server.dispatcher w.calls.state method.method_id trace_context in
      enter w request_id method request trace_context purpose b

  abbrev pub invoke_in :
      ServerWorld Schema
      → ℕ
      → PluginMethodDefinition Schema
      → Value
      → Option TraceContext
      → ServerWorld Schema
  invoke_in w request_id method request trace_context =
      if is_init_method server method
      then enter w request_id method request trace_context initializing
          (begin_method server.dispatcher w.calls.state server.dispatcher.init_method trace_context)
      else invoke_other w request_id method request trace_context server.pool

  abbrev pub arrive_decoded :
      ServerWorld Schema
      → ℕ
      → PluginMethodDefinition Schema
      → Option TraceContext
      → Readings
      → Coded Value
      → ServerWorld Schema
  arrive_decoded w request_id method trace_context readings (codec_error message) =
      replied w
        (catch_error server w.server request_id method trace_context readings (error message))
  arrive_decoded w request_id method trace_context readings (coded request) =
      invoke_in
        (record w {
          server =
              update_metrics
                (λ metrics.
                  set_queue_depth metrics server.dispatcher.plugin_id readings.queue_before)
                w.server;
        })
        request_id method request trace_context

  abbrev pub arrive_found :
      ServerWorld Schema
      → ℕ
      → ℕ
      → Bytes
      → Option TraceContext
      → Readings
      → Option (PluginMethodDefinition Schema)
      → ServerWorld Schema
  arrive_found w request_id method_id payload trace_context readings none = replied w (
    create_framework_error_envelope request_id unknown
        (codes "unknown plugin method id " ++ decimal method_id) trace_context,
    w.server,
  )
  arrive_found w request_id method_id payload trace_context readings (some method) =
      arrive_decoded w request_id method trace_context readings
        (server.decode method.input_schema payload)

  -- `handleRpcRequest` up to `await withTimeout(...)`.
  unfoldable pub arrive :
      ServerWorld Schema → ℕ → ℕ → Bytes → Option TraceContext → Readings → ServerWorld Schema
  unfolding method_by_id begin_method begin_invoke catch_error
  arrive w request_id method_id payload trace_context readings =
      arrive_found (record w { received = request_id ∷ w.received }) request_id method_id payload
        trace_context readings (method_by_id server.dispatcher.methods method_id)

  -- The rest of `handleRpcRequest`.
  unfoldable pub respond :
      ServerWorld Schema → Task Schema → Settled → Readings → ServerWorld Schema
  unfolding after_result
  respond w task settled readings = replied w (
      after_result server w.server task.request_id task.method task.request task.trace_context
        readings settled)
