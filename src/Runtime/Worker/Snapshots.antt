-- ===== src/Runtime/Worker/Snapshots.antt =====
-- Which configuration the handlers of a worker of request-worker.ts see.
use ts_plugins.Common.{
  Bool, true, false, ◌&&◌, not, ◌≡◌, refl, ◌∙◌, Option, none, some, List, [], ◌∷◌, if◌then◌else◌,
  All,
}
use ts_plugins.Runtime.Values.{Value}
use ts_plugins.Runtime.Dispatcher.{Settled, resolved, rejected, RequestContext}
use ts_plugins.Runtime.Worker.{
  WorkerState, WorkerDispatchTask, is_init_task, as_init, invoke_handler, after_init, own_settled,
  run_own, init_settled, run_with_init, run_worker_dispatch_task, run_tasks,
}

if_false {ℓ} : {A : Type ℓ} (b : Bool) (x y : A) → b ≡ false → (if b then x else y) ≡ y
if_false true x y h = cc
if_false false x y h = refl

if_true {ℓ} : {A : Type ℓ} (b : Bool) (x y : A) → b ≡ true → (if b then x else y) ≡ x
if_true true x y h = refl
if_true false x y h = cc

abbrev is_resolved : Settled → Bool
is_resolved (resolved _) = true
is_resolved (rejected _) = false

abbrev pub configured {ℓ} : {H : Type ℓ} → WorkerState H → Option Value → WorkerState H
configured state none = state
configured state (some request) = after_init state request

module _ {ℓ} {Schema H : Type ℓ} (run : H → Value → RequestContext → Settled) where
  own_settled_keeps :
      (state : WorkerState H) (task : WorkerDispatchTask Schema) (settled : Settled)
      → is_init_task task ≡ false
      → own_settled run state task settled ≡ (settled, state)
  own_settled_keeps state task (rejected thrown) h = refl
  own_settled_keeps state task (resolved result) h = rw h refl

  -- A worker that has been initialised serves a task other than `Init` with the configuration it
  -- has, whatever `Init` request comes with the task, and stays as it is.
  pub run_worker_dispatch_task_initialized :
      (state : WorkerState H) (task : WorkerDispatchTask Schema)
      → state.initialized ≡ true
      → is_init_task task ≡ false
      → run_worker_dispatch_task run state task ≡ (invoke_handler run state task, state)
  unfolding run_worker_dispatch_task
  run_worker_dispatch_task_initialized state task ready other =
      if_false (not (is_init_task task) && not state.initialized)
        (run_with_init run state task task.init_request) (run_own run state task)
        (rw (other, ready) refl)
      ∙ own_settled_keeps state task (invoke_handler run state task) other

  run_tasks_initialized :
      (state : WorkerState H) (tasks : List (WorkerDispatchTask Schema))
      → state.initialized ≡ true
      → All (λ task. is_init_task task ≡ false) tasks
      → run_tasks run state tasks ≡ state
  unfolding run_tasks
  run_tasks_initialized state [] ready others = refl
  run_tasks_initialized state (task ∷ tasks) ready others =
      rw (run_worker_dispatch_task_initialized state task ready others.0)
        (run_tasks_initialized state tasks ready others.1)

  -- Whether the worker's `Init` returns for a request that comes with a task.
  abbrev pub accepts : WorkerState H → WorkerDispatchTask Schema → Value → Bool
  accepts state task request = is_resolved (invoke_handler run state (as_init task request))

  abbrev pub accepted_or :
      WorkerState H → WorkerDispatchTask Schema → Option Value → Option Value → Option Value
  accepted_or state task none rest = rest
  accepted_or state task (some request) rest =
      if accepts state task request then some request else rest

  -- The first `Init` request that comes with a task and for which the worker's `Init` returns.
  pub first_accepted : WorkerState H → List (WorkerDispatchTask Schema) → Option Value
  first_accepted state [] = none
  first_accepted state (task ∷ tasks) =
      accepted_or state task task.init_request (first_accepted state tasks)

  to_init :
      (state : WorkerState H) (task : WorkerDispatchTask Schema)
      → state.initialized ≡ false
      → is_init_task task ≡ false
      → run_worker_dispatch_task run state task ≡ run_with_init run state task task.init_request
  unfolding run_worker_dispatch_task
  to_init state task fresh other =
      if_true (not (is_init_task task) && not state.initialized)
        (run_with_init run state task task.init_request) (run_own run state task)
        (rw (other, fresh) refl)

  -- One task, and then others.
  tasks_after :
      (state : WorkerState H) (task : WorkerDispatchTask Schema)
      (tasks : List (WorkerDispatchTask Schema)) (brought : Option Value)
      → is_init_task task ≡ false
      → All (λ t. is_init_task t ≡ false) tasks
      → run_tasks run state tasks ≡ configured state (first_accepted state tasks)
      → run_tasks run (run_with_init run state task brought).1 tasks
        ≡ configured state (accepted_or state task brought (first_accepted state tasks))
  tasks_after state task tasks none other others ih =
      rw (own_settled_keeps state task (invoke_handler run state task) other) ih
  tasks_after state task tasks (some request) other others ih =
      by_settled (invoke_handler run state (as_init task request))
    where
      by_settled :
          (settled : Settled)
          → run_tasks run (init_settled run state task request settled).1 tasks
            ≡ configured state
                (if is_resolved settled then some request else first_accepted state tasks)
      by_settled (rejected thrown) = ih
      by_settled (resolved result) =
          rw
            (own_settled_keeps (after_init state request) task
              (invoke_handler run (after_init state request) task) other)
            (run_tasks_initialized (after_init state request) tasks refl others)

  -- A worker that serves tasks other than `Init`, from its start, ends with the configuration of the
  -- first `Init` request that came with a task and for which its `Init` returned; without one it is
  -- still not initialised. The requests that come later change nothing.
  pub run_tasks-first_accepted :
      (state : WorkerState H) (tasks : List (WorkerDispatchTask Schema))
      → state.initialized ≡ false
      → All (λ task. is_init_task task ≡ false) tasks
      → run_tasks run state tasks ≡ configured state (first_accepted state tasks)
  unfolding run_tasks first_accepted
  run_tasks-first_accepted state [] fresh others = refl
  run_tasks-first_accepted state (task ∷ tasks) fresh others =
      rw (to_init state task fresh others.0) (
        tasks_after state task tasks task.init_request others.0 others.1
          (run_tasks-first_accepted state tasks fresh others.1))
