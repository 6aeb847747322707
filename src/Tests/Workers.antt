-- ===== src/Tests/Workers.antt =====
-- Runs of the workers, the pool and the connections of packages/plugin-runtime/src, and the theorems
-- about them at concrete inputs. A handler of the runs is the result of its call.
use ts_plugins.Common.{
  ℕ, ◌+◌, ◌<◌, ◌≡◌, ◌≢◌, refl, false, none, some, List, [], ◌∷◌, arith, text_eq, codes,
}
use ts_plugins.Common.Maps
use ts_plugins.Protocol.{Bytes, try_decode_frames}
use ts_plugins.Cache.{hard}
use ts_plugins.Runtime.Values.{Value, undefined, string, object, field, end}
use ts_plugins.Runtime.Dispatcher.{Settled, resolved, RequestContext}
use ts_plugins.Runtime.Tracing.{extract_trace_context}
use ts_plugins.Runtime.Dispatcher.Validation.{handler_of}
use ts_plugins.Runtime.Worker.{
  WorkerState, WorkerDispatchTask, create_worker_state, after_init, run_worker_dispatch_task,
  run_tasks,
}
use ts_plugins.Runtime.Worker.Snapshots.{configured, first_accepted, run_tasks-first_accepted}
use ts_plugins.Runtime.Server.{timer_delay, with_timeout}
use ts_plugins.Runtime.Server.Connection.{received, receive_all, IsReceived, receive_all-IsReceived}
use ts_plugins.Runtime.Pool.{
  max_concurrency, PluginWorkerPool, create_pool, memory_pressure_state, run_pool,
}
use ts_plugins.Runtime.Pool.Timeouts.{with_timeout-run_pool}
use ts_plugins.Runtime.Setup.{
  max_concurrency_mode, create_worker_pool_if_needed, own_pool, pool_options, IsWithin, allowed,
  create_worker_pool_if_needed-IsWithin, normalize_concurrency,
}

abbrev fresh : WorkerState Value
fresh = create_worker_state (record {
  own = (codes "init", some undefined) ∷ (codes "add", some (string (codes "sum"))) ∷ [];
  inherited = [];
})

abbrev answer : Value → Value → RequestContext → Settled
answer result request context = resolved result

abbrev config_request : Value
config_request =
    object (field (codes "config") (object (field (codes "rate") (string (codes "7")) end)) end)

abbrev add_task : WorkerDispatchTask ℕ
add_task = record {
  plugin_id = codes "calc";
  version = codes "1.0.0";
  service_type_name = codes "calc.v1.Calc";
  runtime_instance_id = codes "calc-runtime";
  request_id = codes "41";
  method = record {
    name = codes "Add";
    local_name = codes "add";
    canonical_name = codes "calc.v1.Calc/Add";
    method_id = 2;
    input_type = codes "calc.v1.In";
    output_type = codes "calc.v1.Out";
    input_schema = none;
    output_schema = none;
  };
  request = undefined;
  init_request = some config_request;
  trace_context = none;
}

initializes_first :
    run_worker_dispatch_task answer fresh add_task
    ≡ (resolved (string (codes "sum")), after_init fresh config_request)
unfolding run_worker_dispatch_task create_worker_state handler_of extract_trace_context Maps.get
initializes_first = refl

fresh_is_uninitialized : fresh.initialized ≡ false
unfolding create_worker_state
fresh_is_uninitialized = refl

-- A second `Init` request does not reach the worker.
abbrev later_task : WorkerDispatchTask ℕ
later_task = record add_task { init_request = some undefined }

run_tasks-first_accepted_example :
    run_tasks answer fresh (add_task ∷ later_task ∷ [])
    ≡ configured fresh (first_accepted answer fresh (add_task ∷ later_task ∷ []))
run_tasks-first_accepted_example =
    run_tasks-first_accepted answer fresh (add_task ∷ later_task ∷ []) fresh_is_uninitialized
      (refl, (refl, tt))

abbrev pool : PluginWorkerPool
pool = create_pool (pool_options (max_concurrency 4) none) 8

not_hard : memory_pressure_state pool.memory_pressure none ≢ hard
unfolding create_pool memory_pressure_state
not_hard e = cc

comes_behind : timer_delay 100 < timer_delay (100 + pool.task_timeout_buffer_ms)
unfolding create_pool
comes_behind = omega arith

with_timeout-run_pool_example :
    with_timeout false
      (run_pool pool none (some (120, resolved undefined)) (some 100))
      (some 100)
      (codes "late")
    ≡ with_timeout false (some (120, resolved undefined)) (some 100) (codes "late")
with_timeout-run_pool_example =
    with_timeout-run_pool false pool none (some (120, resolved undefined)) 100 (codes "late")
      not_hard comes_behind

chosen_pool :
    create_worker_pool_if_needed
      (some (record { mode = max_concurrency_mode; max_concurrency = none }))
      none
      false
      (some (codes "x"))
    ≡ own_pool (pool_options (max_concurrency 1) none)
unfolding create_worker_pool_if_needed normalize_concurrency
chosen_pool = refl

create_worker_pool_if_needed-IsWithin_example :
    IsWithin (allowed none) (create_pool (pool_options (max_concurrency 1) none) 8)
create_worker_pool_if_needed-IsWithin_example =
    create_worker_pool_if_needed-IsWithin none none (codes "x") 8
      (pool_options (max_concurrency 1) none) chosen_pool

abbrev chunks : List Bytes
chunks = (0 ∷ 0 ∷ []) ∷ (0 ∷ 1 ∷ []) ∷ (5 ∷ 0 ∷ []) ∷ []

receives_one_frame : receive_all some [] chunks ≡ received ((5 ∷ []) ∷ []) (0 ∷ [])
unfolding receive_all try_decode_frames
receives_one_frame = refl

receive_all-IsReceived_example : IsReceived some [] chunks (receive_all some [] chunks)
receive_all-IsReceived_example = receive_all-IsReceived some [] chunks refl
