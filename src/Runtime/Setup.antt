-- ===== src/Runtime/Setup.antt =====
-- The start of packages/plugin-runtime/src/socket-server.ts: the checks and choices that it makes
-- before it listens.
use ts_plugins.Common.{
  ℕ, ◌≤◌, ◌≡◌, Bool, true, false, Option, none, some, List, [], ◌∷◌, Text, arith,
}
use mathlib.Core.Path.{subst}
use ts_plugins.Codegen.Contract.{PluginMethodDefinition}
use ts_plugins.Runtime.Metrics.{RuntimeMetrics, empty_metrics}
use ts_plugins.Runtime.Pool.{
  PluginConcurrencyMode, serial, parallel_safe, max_concurrency, PluginWorkerPoolOptions,
  PluginWorkerPool, create_pool,
}

-- `manifest.runtime.concurrency`: the mode and the number that may come with it.
pub data ModeName : Type 0 where
  serial_mode parallel_safe_mode max_concurrency_mode : ModeName

pub record ManifestConcurrency : Type 0 where
  pub mode : ModeName
  pub max_concurrency : Option ℕ

unfoldable pub normalize_concurrency : ModeName → Option ℕ → PluginConcurrencyMode
normalize_concurrency serial_mode number = serial
normalize_concurrency parallel_safe_mode number = parallel_safe
normalize_concurrency max_concurrency_mode none = max_concurrency 1
normalize_concurrency max_concurrency_mode (some n) = max_concurrency n

-- The pool that serves requests: none, one of the caller's factory, or the runtime's own.
pub data PoolChoice : Type 0 where
  no_pool : PoolChoice
  made_by_factory : PluginConcurrencyMode → Option ℕ → PoolChoice
  own_pool : PluginWorkerPoolOptions → PoolChoice

abbrev pub pool_options : PluginConcurrencyMode → Option ℕ → PluginWorkerPoolOptions
pool_options concurrency idle_eviction_ms = record {
  concurrency = concurrency;
  min_threads = none;
  max_threads = none;
  idle_timeout_ms = idle_eviction_ms;
  task_timeout_buffer_ms = none;
  memory_pressure = none;
}

-- Whether there is a factory, and the path of the entrypoint.
abbrev pub choose_pool : PluginConcurrencyMode → Option ℕ → Bool → Option Text → PoolChoice
choose_pool concurrency idle_eviction_ms true entrypoint_path =
    made_by_factory concurrency idle_eviction_ms
choose_pool concurrency idle_eviction_ms false none = no_pool
choose_pool concurrency idle_eviction_ms false (some path) =
    own_pool (pool_options concurrency idle_eviction_ms)

unfoldable pub choose_for_mode : ModeName → Option ℕ → Option ℕ → Bool → Option Text → PoolChoice
unfolding normalize_concurrency
choose_for_mode serial_mode number idle_eviction_ms has_factory entrypoint_path = no_pool
choose_for_mode mode number idle_eviction_ms has_factory entrypoint_path =
    choose_pool (normalize_concurrency mode number) idle_eviction_ms has_factory entrypoint_path

unfoldable pub create_worker_pool_if_needed :
    Option ManifestConcurrency → Option ℕ → Bool → Option Text → PoolChoice
unfolding choose_for_mode
create_worker_pool_if_needed none idle_eviction_ms has_factory entrypoint_path = no_pool
create_worker_pool_if_needed (some c) idle_eviction_ms has_factory entrypoint_path =
    choose_for_mode c.mode c.max_concurrency idle_eviction_ms has_factory entrypoint_path

-- `manifest.observability.emitMetrics`, and the metrics of the caller.
unfoldable pub resolve_metrics : Option Bool → Option RuntimeMetrics → Option RuntimeMetrics
resolve_metrics (some false) metrics = none
resolve_metrics _ none = some empty_metrics
resolve_metrics _ (some metrics) = some metrics

module _ {ℓ} {Schema : Type ℓ} where
  abbrev has_schemas : Option Schema → Option Schema → Bool
  has_schemas (some _) (some _) = true
  has_schemas _ _ = false

  -- `assertSchemaAwareService`: the canonical name of the first method without its schemas.
  unfoldable pub missing_schemas : List (PluginMethodDefinition Schema) → Option Text
  missing_schemas [] = none
  missing_schemas (method ∷ methods) = elim (has_schemas method.input_schema method.output_schema) [
    | true ↦ missing_schemas methods
    | false ↦ some method.canonical_name
  ]

-- How many workers a manifest in the mode `max_concurrency` allows.
abbrev pub allowed : Option ℕ → ℕ
allowed none = 1
allowed (some n) = n

pub record IsWithin (bound : ℕ) (pool : PluginWorkerPool) : Type 0 where
  pub at_most : pool.max_threads ≤ bound
  pub ordered : pool.min_threads ≤ pool.max_threads

create_pool-IsWithin :
    (n : ℕ) (idle_eviction_ms : Option ℕ) (parallelism : ℕ)
    → IsWithin n (create_pool (pool_options (max_concurrency n) idle_eviction_ms) parallelism)
unfolding create_pool
create_pool-IsWithin n idle_eviction_ms parallelism = record {
  at_most = omega arith;
  ordered = omega arith;
}

normalized-IsWithin :
    (number idle_eviction_ms : Option ℕ) (parallelism : ℕ)
    → IsWithin (allowed number) (
        create_pool
          (pool_options (normalize_concurrency max_concurrency_mode number) idle_eviction_ms)
          parallelism)
unfolding normalize_concurrency
normalized-IsWithin none idle_eviction_ms parallelism =
    create_pool-IsWithin 1 idle_eviction_ms parallelism
normalized-IsWithin (some n) idle_eviction_ms parallelism =
    create_pool-IsWithin n idle_eviction_ms parallelism

-- The runtime's own pool of a plugin in the mode `max_concurrency` has at most as many workers as
-- the manifest allows, which is one where it gives no number, and never more to start with.
pub create_worker_pool_if_needed-IsWithin :
    (number idle_eviction_ms : Option ℕ) (path : Text) (parallelism : ℕ)
    (options : PluginWorkerPoolOptions)
    → create_worker_pool_if_needed
        (some (record { mode = max_concurrency_mode; max_concurrency = number }))
        idle_eviction_ms
        false
        (some path)
      ≡ own_pool options
    → IsWithin (allowed number) (create_pool options parallelism)
unfolding create_worker_pool_if_needed
create_worker_pool_if_needed-IsWithin number idle_eviction_ms path parallelism options h =
    subst (λ o. IsWithin (allowed number) (create_pool o parallelism)) (own_pool_injective h)
      (normalized-IsWithin number idle_eviction_ms parallelism)
  where
    own_pool_injective : {a b : PluginWorkerPoolOptions} → own_pool a ≡ own_pool b → a ≡ b
    own_pool_injective e = cc
