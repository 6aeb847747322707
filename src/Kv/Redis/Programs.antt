-- ===== src/Kv/Redis/Programs.antt =====
-- A program of commands on the store on Redis of packages/plugin-runtime/src/kv.ts and on the memory
-- store.
use ts_plugins.Common.{
  ℕ, ◌≤◌, ◌≡◌, refl, ap, sym, ◌∙◌, Option, none, some, List, [], ◌∷◌, All, Text, text_eq, ℤ, pos,
  negsuc,
}
use ts_plugins.Common.Maps
use ts_plugins.Kv.{
  Json, MemoryKvBackend, create_memory_kv_backend, data_segment, full_key, set, del, exists,
}
use ts_plugins.Kv.Reads.{view_of_none}
use ts_plugins.Kv.Redis.{RedisCommands, redis_set, redis_del, redis_exists}
use ts_plugins.Kv.Redis.Laws.{
  IsRedis, Command, get_of, set_of, exists_of, del_of, got, was_set, found, was_deleted, Timed,
  memory_step, run_memory, redis_step, run_redis, IsOff, IsTimed,
}
use ts_plugins.Kv.Redis.Same.{
  payload_of, Shows, get_same, get-Shows, set_at-Shows, exists_same, exists_Shows, del_same,
  del-Shows, set_at_same,
}

module _ {ℓ κ} {S : Type ℓ} {V : Type κ} (client : RedisCommands S) (laws : IsRedis client)
    (json : Json V) where
  step_same :
      (namespace : Text) (command : Command V) (now : ℕ) (backend : MemoryKvBackend) (s : S)
      → Shows client laws json backend s now
      → (memory_step json namespace command now backend).0
        ≡ (redis_step client json namespace command now s).0
  unfolding set redis_set exists redis_exists del redis_del
  step_same namespace (get_of key) now backend s h =
      ap got (get_same client laws json namespace key now backend s h)
  step_same namespace (set_of key none ttl) now backend s h = refl
  step_same namespace (set_of key (some v) ttl) now backend s h = ap was_set (
      set_at_same client laws json namespace v ttl now (full_key namespace data_segment key) backend
        s)
  step_same namespace (exists_of key) now backend s h =
      ap found (
        exists_same client laws json namespace now (full_key namespace data_segment key) backend s
          h)
  step_same namespace (del_of key) now backend s h =
      ap was_deleted
        (del_same client laws json namespace now (full_key namespace data_segment key) backend s)

  set_IsOff :
      (key : Text) (v : V) (ttl : Option ℤ) (now later : ℕ) (k : Text)
      → IsOff (set_of key (some v) ttl) now later
      → IsOff (set_of k (some v) ttl) now later
  set_IsOff key v none now later k off = off
  set_IsOff key v (some (pos n)) now later k off = off
  set_IsOff key v (some (negsuc n)) now later k off = off

  step-Shows :
      (namespace : Text) (command : Command V) (now later : ℕ) (backend : MemoryKvBackend) (s : S)
      → now ≤ later
      → IsOff command now later
      → Shows client laws json backend s later
      → Shows client laws json
          (memory_step json namespace command now backend).1
          (redis_step client json namespace command now s).1
          later
  unfolding set redis_set exists redis_exists del redis_del
  step-Shows namespace (get_of key) now later backend s order off h =
      get-Shows client laws json namespace key now later backend s order h
  step-Shows namespace (set_of key none ttl) now later backend s order off h = h
  step-Shows namespace (set_of key (some v) ttl) now later backend s order off h =
      set_at-Shows client laws json namespace v ttl now later (full_key namespace data_segment key)
        backend s order (λ k. set_IsOff key v ttl now later k off) h
  step-Shows namespace (exists_of key) now later backend s order off h =
      exists_Shows client laws json now later (full_key namespace data_segment key) backend s order
        h
  step-Shows namespace (del_of key) now later backend s order off h =
      del-Shows client laws json namespace now later (full_key namespace data_segment key) backend s
        order h

  abbrev ShowsAt : MemoryKvBackend → S → List (Timed V) → Type 0
  ShowsAt backend s = All (λ d. Shows client laws json backend s d.time)

  shows_after :
      (namespace : Text) (command : Command V) (now : ℕ) (program : List (Timed V))
      (backend : MemoryKvBackend) (s : S)
      → All (λ d. (now ≤ d.time) × IsOff command now d.time) program
      → ShowsAt backend s program
      → ShowsAt
          (memory_step json namespace command now backend).1
          (redis_step client json namespace command now s).1
          program
  shows_after namespace command now [] backend s timed h = tt
  shows_after namespace command now (d ∷ program) backend s timed h = (
    step-Shows namespace command now d.time backend s timed.0.0 timed.0.1 h.0,
    shows_after namespace command now program backend s timed.1 h.1,
  )

  run_same :
      (program : List (Timed V)) (backend : MemoryKvBackend) (s : S)
      → IsTimed program
      → ShowsAt backend s program
      → run_memory json program backend ≡ run_redis client json program s
  run_same [] backend s timed h = refl
  run_same (c ∷ program) backend s timed h =
      ap
        (λ r. r ∷ run_memory json program (memory_step json c.namespace c.command c.time backend).1)
        (step_same c.namespace c.command c.time backend s h.0)
      ∙ ap (λ rs. (redis_step client json c.namespace c.command c.time s).0 ∷ rs)
          (run_same program _ _ timed.1
            (shows_after c.namespace c.command c.time program backend s timed.0 h.1))

  shows_empty :
      (program : List (Timed V)) (s : S)
      → ((k : Text) (now : ℕ) → client.get_command s k now ≡ none)
      → ShowsAt create_memory_kv_backend s program
  unfolding Maps.get
  shows_empty [] s h = tt
  shows_empty (c ∷ program) s h = (
    λ k. h k c.time ∙ ap payload_of (sym (view_of_none create_memory_kv_backend k c.time refl)),
    shows_empty program s h,
  )

  -- The stores of any namespaces, on a memory backend and on a Redis that both start empty, give the
  -- same replies to the same gets, sets, existence tests and deletions in the same order, with the
  -- same values, errors and lifetimes; of a deletion only whether it throws is compared. Time does
  -- not go back, and no command comes at the very millisecond at which a lifetime ends.
  pub run_memory-run_redis :
      (program : List (Timed V)) (s : S)
      → ((k : Text) (now : ℕ) → client.get_command s k now ≡ none)
      → IsTimed program
      → run_memory json program create_memory_kv_backend ≡ run_redis client json program s
  run_memory-run_redis program s empty timed =
      run_same program create_memory_kv_backend s timed (shows_empty program s empty)
