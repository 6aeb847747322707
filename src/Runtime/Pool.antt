-- ===== src/Runtime/Pool.antt =====
-- packages/plugin-runtime/src/worker-pool.ts: the size of the pool, and what a run of it adds to
-- Piscina's. `execution` is what the worker comes to.
pub mod Timeouts
use ts_plugins.Common.{
  ℕ, ◌+◌, ◌-◌, Option, none, some, leb, ltb, if◌then◌else◌, Text, codes, ◌++◌, min, max, Bool, true,
  false,
}
use ts_plugins.Common.Texts.{decimal}
use ts_plugins.Cache.{MemoryPressureConfig, MemoryPressureState, normal, soft, hard}
use ts_plugins.Runtime.Dispatcher.{Settled, rejected, error}
use ts_plugins.Runtime.Server.{Timed, timer_delay}

pub data PluginConcurrencyMode : Type 0 where
  serial parallel_safe : PluginConcurrencyMode
  max_concurrency : ℕ → PluginConcurrencyMode

pub record PluginWorkerPoolOptions : Type 0 where
  pub concurrency : PluginConcurrencyMode
  pub min_threads : Option ℕ
  pub max_threads : Option ℕ
  pub idle_timeout_ms : Option ℕ
  pub task_timeout_buffer_ms : Option ℕ
  pub memory_pressure : Option MemoryPressureConfig

unfoldable pub resolve_max_threads : PluginConcurrencyMode → ℕ → ℕ
resolve_max_threads serial configured = 1
resolve_max_threads (max_concurrency n) configured = min configured n
resolve_max_threads parallel_safe configured = configured

-- `value ?? other`
abbrev pub or_else : Option ℕ → ℕ → ℕ
or_else none other = other
or_else (some value) other = value

pub record PluginWorkerPool : Type 0 where
  pub min_threads : ℕ
  pub max_threads : ℕ
  pub idle_timeout : ℕ
  pub concurrent_tasks_per_worker : ℕ
  pub task_timeout_buffer_ms : ℕ
  pub memory_pressure : Option MemoryPressureConfig

-- The constructor; `parallelism` is what `availableParallelism()` returns, 1 at least.
unfoldable pub create_pool : PluginWorkerPoolOptions → ℕ → PluginWorkerPool
unfolding resolve_max_threads
create_pool options parallelism =
    let max_threads =
      resolve_max_threads options.concurrency
        (or_else options.max_threads (max (parallelism - 1) 1)) in
    record {
      min_threads = min (or_else options.min_threads 1) max_threads;
      max_threads = max_threads;
      idle_timeout = or_else options.idle_timeout_ms 30000;
      concurrent_tasks_per_worker = 1;
      task_timeout_buffer_ms = or_else options.task_timeout_buffer_ms 250;
      memory_pressure = options.memory_pressure;
    }

-- `memoryPressureState`, for the usage that `currentHeapUsageBytes` returns, if it is given.
unfoldable pub memory_pressure_state : Option MemoryPressureConfig → Option ℕ → MemoryPressureState
memory_pressure_state none usage = normal
memory_pressure_state (some limits) none = normal
memory_pressure_state (some limits) (some usage) =
    if leb limits.hard_limit_bytes usage
    then hard
    else if leb limits.soft_limit_bytes usage
    then soft
    else normal

-- The race of `run` with its timer.
abbrev pub race_timer : Timed → ℕ → Text → Timed
race_timer none delay message = some (delay, rejected (error message))
race_timer (some (at, settled)) delay message =
    if ltb at delay then some (at, settled) else some (delay, rejected (error message))

abbrev pub run_execution : PluginWorkerPool → Timed → Option ℕ → Timed
run_execution pool execution none = execution
run_execution pool execution (some timeout_ms) =
    let total = timeout_ms + pool.task_timeout_buffer_ms in
    race_timer execution (timer_delay total)
      (codes "Worker task timed out after " ++ (decimal total ++ codes "ms"))

abbrev pub run_under : PluginWorkerPool → MemoryPressureState → Timed → Option ℕ → Timed
run_under pool hard execution timeout_ms =
    some (0, rejected (error (codes "Worker pool is under emergency memory pressure")))
run_under pool _ execution timeout_ms = run_execution pool execution timeout_ms

unfoldable pub run_pool : PluginWorkerPool → Option ℕ → Timed → Option ℕ → Timed
unfolding memory_pressure_state
run_pool pool usage execution timeout_ms =
    run_under pool (memory_pressure_state pool.memory_pressure usage) execution timeout_ms
