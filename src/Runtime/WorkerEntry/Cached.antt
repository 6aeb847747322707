-- ===== src/Runtime/WorkerEntry/Cached.antt =====
-- The cache of packages/plugin-runtime/src/worker-entry.ts does not show.
use ts_plugins.Common.{
  ◌≡◌, refl, ap, sym, ◌∙◌, Bool, true, false, Bool-cases, inl, inr, Option, none, some, List, [],
  ◌∷◌, ◌++◌, any, All, arith, nat_eq, Text, text_eq, ◌==◌, ==_iff, codes,
}
use ts_plugins.Common.Maps
use ts_plugins.Common.Maps.{JsMap}
use ts_plugins.Runtime.WorkerEntry.{
  WorkerTask, export_name_of, cache_key, Handler, LoadedHandler, handler_loaded, not_imported,
  no_function, WorkerAnswer, settled, import_failed, export_missing, load_handler, run_loaded,
  run_cached, run_worker_task, run_worker_tasks,
}

-- A name without the mark that parts a key.
abbrev pub has_mark : Text → Bool
has_mark name = any (λ c. nat_eq c b'#') name

has_mark-append : (s t : Text) → has_mark (s ++ (codes "#" ++ t)) ≡ true
has_mark-append [] t = refl
has_mark-append (c ∷ s) t = ground (arith, has_mark-append s t)

cache_key_injective :
    (s t e f : Text)
    → has_mark e ≡ false
    → has_mark f ≡ false
    → cache_key s e ≡ cache_key t f
    → (s ≡ t) × (e ≡ f)
cache_key_injective [] [] e f clean clean' same = (refl, cc)
cache_key_injective [] (d ∷ t) e f clean clean' same = ground (arith, has_mark-append t f)
cache_key_injective (c ∷ s) [] e f clean clean' same = ground (arith, has_mark-append s e)
cache_key_injective (c ∷ s) (d ∷ t) e f clean clean' same =
    ground (arith, cache_key_injective s t e f)

module _ {ℓ} {P R W : Type ℓ} (import_module : Text → Option (Text → Option (Handler P R W))) where
  -- A task by itself: its module is imported, and the function called.
  abbrev pub call_loaded : P → W → LoadedHandler (Handler P R W) → WorkerAnswer R × W
  call_loaded payload w not_imported = (import_failed, w)
  call_loaded payload w (no_function module_path export_name) =
      (export_missing module_path export_name, w)
  call_loaded payload w (handler_loaded handler) =
      let (result, w') = handler payload w in (settled result, w')

  abbrev pub run_uncached : List (WorkerTask P) → W → List (WorkerAnswer R) × W
  run_uncached [] w = ([], w)
  run_uncached (task ∷ tasks) w =
      let (answer, w') =
        call_loaded task.payload w
          (load_handler import_module task.module_path (export_name_of task.export_name)) in
      let (answers, last) = run_uncached tasks w' in (answer ∷ answers, last)

  abbrev pub HasPlainExport : WorkerTask P → Type 0
  HasPlainExport task = has_mark (export_name_of task.export_name) ≡ false

  -- A cache has under each key what its module exports.
  abbrev IsSound : JsMap Text (Handler P R W) → Type ℓ
  IsSound cache =
      (path name : Text) (handler : Handler P R W)
      → has_mark name ≡ false
      → Maps.get cache (cache_key path name) ≡ some handler
      → load_handler import_module path name ≡ handler_loaded handler

  the_same :
      (handler h : Handler P R W)
      → some handler ≡ some h
      → LoadedHandler.handler_loaded handler ≡ handler_loaded h
  the_same handler h e = cc

  set-IsSound :
      (cache : JsMap Text (Handler P R W)) (path name : Text) (handler : Handler P R W)
      → IsSound cache
      → has_mark name ≡ false
      → load_handler import_module path name ≡ handler_loaded handler
      → IsSound (Maps.set cache (cache_key path name) handler)
  set-IsSound cache path name handler sound plain loaded p n h plain' found =
      elim (Bool-cases (cache_key path name == cache_key p n)) [
        | inl same ↦
            let kept =
              sym (Maps.get-set cache (cache_key path name) (cache_key p n) handler ∙ rw same refl)
              ∙ found in
            let (paths, names) =
              cache_key_injective path p name n plain plain'
                ((==_iff (cache_key path name) (cache_key p n)).0 same) in
            ap (load_handler import_module p) (sym names)
            ∙ ap (λ t. load_handler import_module t name) (sym paths)
            ∙ loaded
            ∙ the_same handler h kept
        | inr other ↦ sound p n h plain' (
            sym (Maps.get-set cache (cache_key path name) (cache_key p n) handler ∙ rw other refl)
            ∙ found)
      ]

  empty_IsSound : IsSound []
  unfolding Maps.get
  empty_IsSound path name handler plain found = absurd (ground (arith, found))

  -- A task's answer and its state, without the cache.
  abbrev seen : WorkerAnswer R × JsMap Text (Handler P R W) × W → WorkerAnswer R × W
  seen (answer, cache, w) = (answer, w)

  abbrev cache_of : WorkerAnswer R × JsMap Text (Handler P R W) × W → JsMap Text (Handler P R W)
  cache_of (answer, cache, w) = cache

  run_loaded_lem :
      (cache : JsMap Text (Handler P R W)) (path name : Text) (payload : P) (w : W)
      (loaded : LoadedHandler (Handler P R W))
      → load_handler import_module path name ≡ loaded
      → IsSound cache
      → has_mark name ≡ false
      → let outcome = run_loaded import_module cache (cache_key path name) payload w loaded in
        (seen outcome ≡ call_loaded payload w loaded) × IsSound (cache_of outcome)
  run_loaded_lem cache path name payload w not_imported e sound plain = (refl, sound)
  run_loaded_lem cache path name payload w (no_function p n) e sound plain = (refl, sound)
  run_loaded_lem cache path name payload w (handler_loaded handler) e sound plain =
      (refl, set-IsSound cache path name handler sound plain e)

  run_cached_lem :
      (cache : JsMap Text (Handler P R W)) (path name : Text) (payload : P) (w : W)
      (found : Option (Handler P R W))
      → Maps.get cache (cache_key path name) ≡ found
      → IsSound cache
      → has_mark name ≡ false
      → let outcome = run_cached import_module cache path name payload w found in
        (seen outcome ≡ call_loaded payload w (load_handler import_module path name))
        × IsSound (cache_of outcome)
  run_cached_lem cache path name payload w none e sound plain =
      run_loaded_lem cache path name payload w (load_handler import_module path name) refl sound
        plain
  run_cached_lem cache path name payload w (some handler) e sound plain =
      (ap (call_loaded payload w) (sym (sound path name handler plain e)), sound)

  run_from_sound :
      (cache : JsMap Text (Handler P R W)) (tasks : List (WorkerTask P)) (w : W)
      → IsSound cache
      → All HasPlainExport tasks
      → run_worker_tasks import_module cache tasks w ≡ run_uncached tasks w
  unfolding run_worker_tasks run_worker_task
  run_from_sound cache [] w sound plain = refl
  run_from_sound cache (task ∷ tasks) w sound (plain, rest) =
      let name = export_name_of task.export_name in
      let outcome = run_worker_task import_module cache task w in
      let (answers, sound') =
        run_cached_lem cache task.module_path name task.payload w
          (Maps.get cache (cache_key task.module_path name)) refl sound plain in
      ap (λ t. ((seen outcome).0 ∷ t.0, t.1))
        (run_from_sound (cache_of outcome) tasks (seen outcome).1 sound' rest)
      ∙ ap (λ t. (t.0 ∷ (run_uncached tasks t.1).0, (run_uncached tasks t.1).1)) answers

  -- The cache of handlers does not show: a worker answers any tasks, one after the other, as one
  -- that imports the module of each task anew, and its handlers leave the same state; if no name of
  -- an export has the mark `#`, which parts the path and the name in a key.
  pub run_worker_tasks_uncached :
      (tasks : List (WorkerTask P)) (w : W)
      → All HasPlainExport tasks
      → run_worker_tasks import_module [] tasks w ≡ run_uncached tasks w
  run_worker_tasks_uncached tasks w plain = run_from_sound [] tasks w empty_IsSound plain
