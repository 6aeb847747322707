-- ===== src/Runtime/Pool/Timeouts.antt =====
-- The bounds of a pool of worker-pool.ts, and how its timeout and the server's go together.
use ts_plugins.Common.{
  ℕ, ◌+◌, ◌<◌, Bool, ◌≡◌, ◌≢◌, refl, Option, none, some, ltb, Text, arith, inl, inr, Bool-cases,
}
use ts_plugins.Cache.{MemoryPressureState, normal, soft, hard}
use ts_plugins.Runtime.Server.{Timed, timer_delay, with_timeout}
use ts_plugins.Runtime.Pool.{
  PluginWorkerPool, memory_pressure_state, run_pool, run_under, race_timer,
}

race_hidden :
    (first : Bool) (execution : Timed) (timeout_ms delay : ℕ) (late message : Text)
    → timer_delay timeout_ms < delay
    → with_timeout first (race_timer execution delay late) (some timeout_ms) message
      ≡ with_timeout first execution (some timeout_ms) message
unfolding with_timeout
race_hidden first none timeout_ms delay late message h = ground arith
race_hidden first (some (at, settled)) timeout_ms delay late message h =
    elim (Bool-cases (ltb at delay)) [
      | inl early ↦ rw early refl
      | inr late_on ↦ rw late_on (ground arith)
    ]

under_hidden :
    (first : Bool) (pool : PluginWorkerPool) (state : MemoryPressureState) (execution : Timed)
    (timeout_ms : ℕ) (message : Text)
    → state ≢ hard
    → timer_delay timeout_ms < timer_delay (timeout_ms + pool.task_timeout_buffer_ms)
    → with_timeout first
        (run_under pool state execution (some timeout_ms))
        (some timeout_ms)
        message
      ≡ with_timeout first execution (some timeout_ms) message
under_hidden first pool hard execution timeout_ms message calm behind = absurd (calm refl)
under_hidden first pool soft execution timeout_ms message calm behind =
    race_hidden first execution timeout_ms _ _ message behind
under_hidden first pool normal execution timeout_ms message calm behind =
    race_hidden first execution timeout_ms _ _ message behind

-- The pool's own timeout never shows under the server's, provided that the pool's timer has the
-- longer delay: unless the pool refuses the task, a request has the outcome that it would have if
-- the worker's execution were raced with the server's timeout alone, whichever of the two wins a tie.
pub with_timeout-run_pool :
    (first : Bool) (pool : PluginWorkerPool) (usage : Option ℕ) (execution : Timed) (timeout_ms : ℕ)
    (message : Text)
    → memory_pressure_state pool.memory_pressure usage ≢ hard
    → timer_delay timeout_ms < timer_delay (timeout_ms + pool.task_timeout_buffer_ms)
    → with_timeout first (run_pool pool usage execution (some timeout_ms)) (some timeout_ms) message
      ≡ with_timeout first execution (some timeout_ms) message
unfolding run_pool
with_timeout-run_pool first pool usage execution timeout_ms message =
    under_hidden first pool (memory_pressure_state pool.memory_pressure usage) execution timeout_ms
      message
