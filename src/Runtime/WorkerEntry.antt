-- ===== src/Runtime/WorkerEntry.antt =====
-- packages/plugin-runtime/src/worker-entry.ts: the entry of a worker thread, with its cache of
-- handlers. What a path imports is a parameter: a module is evaluated once, and its exports stay. A
-- worker runs its tasks one after the other.
pub mod Cached
use ts_plugins.Common.{◌≡◌, refl, Option, none, some, List, [], ◌∷◌, ◌++◌, Text, text_eq, codes}
use ts_plugins.Common.Maps
use ts_plugins.Common.Maps.{JsMap}

pub record WorkerTask {ℓ} (P : Type ℓ) : Type ℓ where
  pub module_path : Text
  pub export_name : Option Text
  pub payload : P

-- `task.exportName ?? "default"`
abbrev pub export_name_of : Option Text → Text
export_name_of none = codes "default"
export_name_of (some name) = name

abbrev pub cache_key : Text → Text → Text
cache_key module_path export_name = module_path ++ (codes "#" ++ export_name)

-- A function of a payload, on a state of the world.
abbrev pub Handler {ℓ} : Type ℓ → Type ℓ → Type ℓ → Type ℓ
Handler P R W = P → W → R × W

pub data LoadedHandler {ℓ} (H : Type ℓ) : Type ℓ where
  handler_loaded : H → LoadedHandler H
  not_imported : LoadedHandler H
  no_function : Text → Text → LoadedHandler H

pub data WorkerAnswer {ℓ} (R : Type ℓ) : Type ℓ where
  -- What the handler returns, or the rejection of its promise.
  settled : R → WorkerAnswer R
  import_failed : WorkerAnswer R
  export_missing : Text → Text → WorkerAnswer R

module _ {ℓ} {P R W : Type ℓ} (import_module : Text → Option (Text → Option (Handler P R W))) where
  abbrev pub exported :
      Text → Text → Option (Text → Option (Handler P R W)) → LoadedHandler (Handler P R W)
  exported module_path export_name none = not_imported
  exported module_path export_name (some exports) = elim (exports export_name) [
    | none ↦ no_function module_path export_name
    | some handler ↦ handler_loaded handler
  ]

  -- The function that a module exports under a name.
  abbrev pub load_handler : Text → Text → LoadedHandler (Handler P R W)
  load_handler module_path export_name =
      exported module_path export_name (import_module module_path)

  abbrev pub settle :
      JsMap Text (Handler P R W) → R × W → WorkerAnswer R × JsMap Text (Handler P R W) × W
  settle cache (result, w) = (settled result, cache, w)

  abbrev pub run_loaded :
      JsMap Text (Handler P R W)
      → Text
      → P
      → W
      → LoadedHandler (Handler P R W)
      → WorkerAnswer R × JsMap Text (Handler P R W) × W
  run_loaded cache key payload w not_imported = (import_failed, cache, w)
  run_loaded cache key payload w (no_function module_path export_name) =
      (export_missing module_path export_name, cache, w)
  run_loaded cache key payload w (handler_loaded handler) =
      settle (Maps.set cache key handler) (handler payload w)

  abbrev pub run_cached :
      JsMap Text (Handler P R W)
      → Text
      → Text
      → P
      → W
      → Option (Handler P R W)
      → WorkerAnswer R × JsMap Text (Handler P R W) × W
  run_cached cache module_path export_name payload w (some handler) =
      settle cache (handler payload w)
  run_cached cache module_path export_name payload w none =
      run_loaded cache (cache_key module_path export_name) payload w
        (load_handler module_path export_name)

  unfoldable pub run_worker_task :
      JsMap Text (Handler P R W)
      → WorkerTask P
      → W
      → WorkerAnswer R × JsMap Text (Handler P R W) × W
  run_worker_task cache task w =
      let export_name = export_name_of task.export_name in
      run_cached cache task.module_path export_name task.payload w
        (Maps.get cache (cache_key task.module_path export_name))

  -- A worker's tasks, one after the other, from a cache.
  unfoldable pub run_worker_tasks :
      JsMap Text (Handler P R W) → List (WorkerTask P) → W → List (WorkerAnswer R) × W
  unfolding run_worker_task
  run_worker_tasks cache [] w = ([], w)
  run_worker_tasks cache (task ∷ tasks) w =
      let (answer, cache', w') = run_worker_task cache task w in
      let (answers, last) = run_worker_tasks cache' tasks w' in (answer ∷ answers, last)
