-- ===== src/Runtime/Server/Overlap/Steps.antt =====
-- The steps of a server whose requests overlap, and the worlds that runs of them reach.
use ts_plugins.Common.{ℕ, ◌≡◌, Option, none, some, List, ◌∷◌, ◌++◌}
use ts_plugins.Protocol.{Bytes, TraceContext}
use ts_plugins.Runtime.Metrics.{RuntimeMetrics}
use ts_plugins.Runtime.Dispatcher.{error, Settled, rejected, caught}
use ts_plugins.Runtime.Dispatcher.Calls.{Call}
use ts_plugins.Runtime.Server.{Readings, Server, timeout_of, timeout_message}
use ts_plugins.Runtime.Server.Overlap.{
  Task, ServerWorld, add_call, first_world, with_calls, end_call, arrive, respond,
}

module _ {ℓ} {Schema H : Type ℓ} (server : Server Schema H) where
  pub data ServerStep : ServerWorld Schema → ServerWorld Schema → Type ℓ where
    arrives :
        (w : ServerWorld Schema) (request_id method_id : ℕ) (payload : Bytes)
        (trace_context : Option TraceContext) (readings : Readings)
        → ServerStep w (arrive server w request_id method_id payload trace_context readings)
    call_ends :
        (w : ServerWorld Schema) (before after : List Call) (call : Call) (settled : Settled)
        (earlier later : List (Task Schema)) (task : Task Schema)
        → w.calls.pending ≡ before ++ call ∷ after
        → w.awaited ≡ earlier ++ task ∷ later
        → task.call ≡ some call
        → ServerStep w
            (record (with_calls w
              (end_call w.calls (before ++ after) call (caught call.context settled))) {
                awaited = earlier ++ later;
                ended = (task, caught call.context settled) ∷ w.ended;
              })
    pool_ends :
        (w : ServerWorld Schema) (settled : Settled) (earlier later : List (Task Schema))
        (task : Task Schema)
        → w.awaited ≡ earlier ++ task ∷ later
        → task.call ≡ none
        → ServerStep w (record w { awaited = earlier ++ later; ended = (task, settled) ∷ w.ended })
    times_out :
        (w : ServerWorld Schema) (timeout_ms : ℕ) (earlier later : List (Task Schema))
        (task : Task Schema)
        → w.awaited ≡ earlier ++ task ∷ later
        → timeout_of server task.method ≡ some timeout_ms
        → ServerStep w (record w {
          awaited = earlier ++ later;
          ended = (task, rejected (error (timeout_message server task.method))) ∷ w.ended;
          abandoned = add_call task.call w.abandoned;
        })
    -- A call whose request has timed out goes on, and ends.
    abandoned_ends :
        (w : ServerWorld Schema) (before after : List Call) (call : Call) (settled : Settled)
        (earlier later : List Call)
        → w.calls.pending ≡ before ++ call ∷ after
        → w.abandoned ≡ earlier ++ call ∷ later
        → ServerStep w
            (record (with_calls w
              (end_call w.calls (before ++ after) call (caught call.context settled))) {
                abandoned = earlier ++ later;
              })
    responds :
        (w : ServerWorld Schema) (readings : Readings)
        (earlier later : List (Task Schema × Settled)) (task : Task Schema) (settled : Settled)
        → w.ended ≡ earlier ++ (task, settled) ∷ later
        → ServerStep w
            (respond server (record w { ended = earlier ++ later }) task settled readings)

  pub data ServerReach (metrics : Option RuntimeMetrics) : ServerWorld Schema → Type ℓ where
    starts : ServerReach metrics (first_world metrics)
    goes_on :
        {v w : ServerWorld Schema} → ServerReach metrics v → ServerStep v w → ServerReach metrics w
