-- ===== src/Runtime/Server/Overlap/Arrival.antt =====
-- What the pieces of a request's handling do to the server's state: what its arrival comes to, and
-- what comes with its reply.
use ts_plugins.Common.{
  ℕ, ◌≡◌, refl, ◌∙◌, Bool, true, false, Bool-cases, Option, none, some, inl, inr, if◌then◌else◌,
}
use ts_plugins.Protocol.{
  Bytes, TraceContext, WireEnvelope, create_framework_error_envelope, create_rpc_response_envelope,
}
use ts_plugins.Codegen.Contract.{PluginMethodDefinition}
use ts_plugins.Runtime.Values.{Value}
use ts_plugins.Runtime.Metrics.{RuntimeMetrics}
use ts_plugins.Runtime.Dispatcher.{
  Thrown, error, Settled, resolved, rejected, DispatcherState, Begun, Purpose, initializing,
  begin_method, begin_invoke,
}
use ts_plugins.Runtime.Dispatcher.Calls.{begun, Step, initialize_begins, invoke_begins}
use ts_plugins.Runtime.Server.{
  Coded, coded, codec_error, Timed, WorkerPoolTask, Readings, ServerState, Server, update_metrics,
  is_init_method, catch_error, after_result,
}
use ts_plugins.Runtime.Server.Replies.{Coded-cases, catch_error-IsAnswer}
use ts_plugins.Runtime.Server.Overlap.{
  ServerWorld, replied, enter, enter_pool, invoke_other, invoke_in, arrive_decoded, arrive_found,
}

-- Only the metrics differ.
pub record KeepsState (before after : ServerState) : Type 0 where
  pub dispatcher : after.dispatcher ≡ before.dispatcher
  pub last_init : after.last_init_request ≡ before.last_init_request

-- A reply to the request, with the state that comes with it.
pub record IsReply (request_id : ℕ) (state : ServerState) (last_init : Option Value)
    (reply : WireEnvelope × ServerState) : Type 0 where
  pub keeps_id : reply.0.request_id ≡ request_id
  pub dispatcher : reply.1.dispatcher ≡ state.dispatcher
  pub last_init_request : reply.1.last_init_request ≡ last_init

update_metrics-KeepsState :
    (f : RuntimeMetrics → RuntimeMetrics) (state : ServerState)
    → KeepsState state (update_metrics f state)
update_metrics-KeepsState f state = by_metrics state.metrics refl
  where
    by_metrics :
        (metrics : Option RuntimeMetrics)
        → state.metrics ≡ metrics
        → KeepsState state (update_metrics f state)
    by_metrics none e = record { dispatcher = rw e refl; last_init = rw e refl }
    by_metrics (some metrics) e = record { dispatcher = rw e refl; last_init = rw e refl }

abbrev IsSetTo : ServerState → Option Value → ServerState → Type 0
IsSetTo state last after = (after.dispatcher ≡ state.dispatcher) × (after.last_init_request ≡ last)

set_last_init :
    (b : Bool) (state : ServerState) (request : Value)
    → IsSetTo state
        (if b then some request else state.last_init_request)
        (if b then record state { last_init_request = some request } else state)
set_last_init true state request = (refl, refl)
set_last_init false state request = (refl, refl)

module _ {ℓ} {Schema H : Type ℓ} (server : Server Schema H) where
  -- The last `Init` request after one with this result.
  abbrev pub last_after :
      PluginMethodDefinition Schema → Value → Settled → Option Value → Option Value
  last_after method request (rejected thrown) last = last
  last_after method request (resolved result) last =
      if is_init_method server method then some request else last

  catch_error-IsReply :
      (state : ServerState) (request_id : ℕ) (method : PluginMethodDefinition Schema)
      (trace_context : Option TraceContext) (readings : Readings) (thrown : Thrown)
      → IsReply request_id state state.last_init_request
          (catch_error server state request_id method trace_context readings thrown)
  unfolding catch_error
  catch_error-IsReply state request_id method trace_context readings thrown =
      let kept = update_metrics-KeepsState _ state in
      record {
        keeps_id =
            (catch_error-IsAnswer server state request_id method trace_context readings
              thrown).keeps_id;
        dispatcher = kept.dispatcher;
        last_init_request = kept.last_init;
      }

  pub after_result-IsReply :
      (state : ServerState) (request_id : ℕ) (method : PluginMethodDefinition Schema)
      (request : Value) (trace_context : Option TraceContext) (readings : Readings)
      (settled : Settled)
      → IsReply request_id state
          (last_after method request settled state.last_init_request)
          (after_result server state request_id method request trace_context readings settled)
  unfolding after_result create_rpc_response_envelope
  after_result-IsReply state request_id method request trace_context readings (rejected thrown) =
      catch_error-IsReply state request_id method trace_context readings thrown
  after_result-IsReply state request_id method request trace_context readings (resolved result) =
      elim (Coded-cases (server.encode method.output_schema result)) [
        | inl (payload, e) ↦
            rw (e, after_result)
              (let (same, last) = set_last_init (is_init_method server method) state request in
                let kept = update_metrics-KeepsState _ _ in
                record {
                  keeps_id = refl;
                  dispatcher = kept.dispatcher ∙ same;
                  last_init_request = kept.last_init ∙ last;
                })
        | inr (message, e) ↦
            rw (e, after_result)
              (let (same, last) = set_last_init (is_init_method server method) state request in
                let kept = update_metrics-KeepsState _ _ in
                let caught =
                  catch_error-IsReply _ request_id method trace_context readings (error message) in
                record {
                  keeps_id = caught.keeps_id;
                  dispatcher = caught.dispatcher ∙ kept.dispatcher ∙ same;
                  last_init_request = caught.last_init_request ∙ kept.last_init ∙ last;
                })
      ]

  -- A request that has come is answered at once, or enters the dispatcher, or the pool.
  pub data Arrived (w : ServerWorld Schema) (request_id : ℕ) : ServerWorld Schema → Type ℓ where
    answers :
        (reply : WireEnvelope × ServerState)
        → IsReply request_id w.server w.server.last_init_request reply
        → Arrived w request_id (replied w reply)
    enters :
        (state : ServerState) (method : PluginMethodDefinition Schema) (request : Value)
        (trace_context : Option TraceContext) (purpose : Purpose) (b : Begun H × DispatcherState)
        → KeepsState w.server state
        → Step server.dispatcher w.calls (begun w.calls purpose request b)
        → (is_init_method server method ≡ true → purpose ≡ initializing)
        → Arrived w request_id (
            enter server
              (record w { server = state })
              request_id
              method
              request
              trace_context
              purpose
              b)
    joins :
        (state : ServerState) (method : PluginMethodDefinition Schema) (request : Value)
        (trace_context : Option TraceContext)
        → KeepsState w.server state
        → is_init_method server method ≡ false
        → Arrived w request_id (
            enter_pool server (record w { server = state }) request_id method request trace_context)

  invoke_other-Arrived :
      (w : ServerWorld Schema) (state : ServerState) (request_id : ℕ)
      (method : PluginMethodDefinition Schema) (request : Value)
      (trace_context : Option TraceContext)
      (pool : Option (WorkerPoolTask Schema → Option ℕ → Timed))
      → KeepsState w.server state
      → is_init_method server method ≡ false
      → Arrived w request_id (
          invoke_other server
            (record w { server = state })
            request_id
            method
            request
            trace_context
            pool)
  invoke_other-Arrived w state request_id method request trace_context none kept other =
      let (purpose, b) =
        begin_invoke server.dispatcher w.calls.state method.method_id trace_context in
      enters state method request trace_context purpose b kept
        (invoke_begins w.calls method.method_id request trace_context) (λ init. cc)
  invoke_other-Arrived w state request_id method request trace_context (some run) kept other =
      joins state method request trace_context kept other

  invoke_in-Arrived :
      (w : ServerWorld Schema) (state : ServerState) (request_id : ℕ)
      (method : PluginMethodDefinition Schema) (request : Value)
      (trace_context : Option TraceContext)
      → KeepsState w.server state
      → Arrived w request_id
          (invoke_in server (record w { server = state }) request_id method request trace_context)
  invoke_in-Arrived w state request_id method request trace_context kept =
      elim (Bool-cases (is_init_method server method)) [
        | inl init ↦ rw init (
            enters state method request trace_context initializing
              (begin_method server.dispatcher w.calls.state server.dispatcher.init_method
                trace_context)
              kept (initialize_begins w.calls request trace_context) (λ e. refl))
        | inr other ↦ rw other (
            invoke_other-Arrived w state request_id method request trace_context server.pool kept
              other)
      ]

  arrive_decoded-Arrived :
      (w : ServerWorld Schema) (request_id : ℕ) (method : PluginMethodDefinition Schema)
      (trace_context : Option TraceContext) (readings : Readings) (request : Coded Value)
      → Arrived w request_id
          (arrive_decoded server w request_id method trace_context readings request)
  arrive_decoded-Arrived w request_id method trace_context readings (codec_error message) =
      answers _
        (catch_error-IsReply w.server request_id method trace_context readings (error message))
  arrive_decoded-Arrived w request_id method trace_context readings (coded request) =
      invoke_in-Arrived w _ request_id method request trace_context
        (update_metrics-KeepsState _ w.server)

  pub arrive_found-Arrived :
      (w : ServerWorld Schema) (request_id method_id : ℕ) (payload : Bytes)
      (trace_context : Option TraceContext) (readings : Readings)
      (method : Option (PluginMethodDefinition Schema))
      → Arrived w request_id
          (arrive_found server w request_id method_id payload trace_context readings method)
  unfolding create_framework_error_envelope
  arrive_found-Arrived w request_id method_id payload trace_context readings none =
      answers _ (record { keeps_id = refl; dispatcher = refl; last_init_request = refl })
  arrive_found-Arrived w request_id method_id payload trace_context readings (some method) =
      arrive_decoded-Arrived w request_id method trace_context readings _
