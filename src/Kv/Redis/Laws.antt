-- ===== src/Kv/Redis/Laws.antt =====
-- What the store on Redis of packages/plugin-runtime/src/kv.ts relies on, and programs of commands
-- that run on either store.
use ts_plugins.Common.{
  ℕ, ◌+◌, ◌*◌, ◌≤◌, ◌<◌, ◌≡◌, ◌≢◌, Bool, true, false, Option, none, some, List, [], ◌∷◌, All,
  if◌then◌else◌, Text, text_eq, ◌==◌, ℤ, pos,
}
use ts_plugins.Kv.{Json, Result, ok, throw, MemoryKvBackend, get, set, del, exists}
use ts_plugins.Kv.Redis.{RedisCommands, redis_get, redis_set, redis_del, redis_exists}

abbrev pub count_of : Option Text → ℕ
count_of none = 0
count_of (some v) = 1

-- What Redis documents of its commands. A lifetime ends after its seconds, to within a millisecond:
-- nothing is said of the instant itself.
pub record IsRedis {ℓ} {S : Type ℓ} (client : RedisCommands S) : Type ℓ where
  pub set_ok :
      (s : S) (k v : Text) (lifetime : Option ℕ) (now : ℕ)
      → (client.set_command s k v lifetime now).0 ≡ true
  pub get-set_lasting :
      (s : S) (k v : Text) (now later : ℕ)
      → now ≤ later
      → client.get_command (client.set_command s k v none now).1 k later ≡ some v
  pub get-set_early :
      (s : S) (k v : Text) (seconds now later : ℕ)
      → now ≤ later
      → later < now + seconds * 1000
      → client.get_command (client.set_command s k v (some seconds) now).1 k later ≡ some v
  pub get-set_late :
      (s : S) (k v : Text) (seconds now later : ℕ)
      → now + seconds * 1000 < later
      → client.get_command (client.set_command s k v (some seconds) now).1 k later ≡ none
  pub get-set_other :
      (s : S) (k j v : Text) (lifetime : Option ℕ) (now later : ℕ)
      → (k == j) ≡ false
      → now ≤ later
      → client.get_command (client.set_command s k v lifetime now).1 j later
        ≡ client.get_command s j later
  pub get-unlink :
      (s : S) (k j : Text) (now later : ℕ)
      → now ≤ later
      → client.get_command (client.unlink s k now).1 j later
        ≡ (if k == j then none else client.get_command s j later)
  pub exists-get :
      (s : S) (k : Text) (now : ℕ)
      → client.exists_command s k now ≡ count_of (client.get_command s k now)

pub data Command {ℓ} (V : Type ℓ) : Type ℓ where
  get_of : Text → Command V
  set_of : Text → Option V → Option ℤ → Command V
  exists_of : Text → Command V
  del_of : Text → Command V

-- A reply, where that of a deletion tells only whether it threw.
pub data Reply {ℓ} (V : Type ℓ) : Type ℓ where
  got : Result (Option V) → Reply V
  was_set : Result Bool → Reply V
  found : Result Bool → Reply V
  was_deleted : Result (Unit {0}) → Reply V

abbrev pub forgotten : Result Bool → Result (Unit {0})
forgotten (ok _) = ok tt
forgotten (throw e) = throw e

-- A command of the store of a namespace, at a time.
pub record Timed {ℓ} (V : Type ℓ) : Type ℓ where
  pub time : ℕ
  pub namespace : Text
  pub command : Command V

module _ {ℓ} {V : Type ℓ} (json : Json V) where
  abbrev pub memory_step : Text → Command V → ℕ → MemoryKvBackend → Reply V × MemoryKvBackend
  memory_step namespace (get_of key) now backend =
      let (r, b) = get json namespace backend key now in (got r, b)
  memory_step namespace (set_of key v ttl) now backend =
      let (r, b) = set json namespace backend key v ttl now in (was_set r, b)
  memory_step namespace (exists_of key) now backend =
      let (r, b) = exists namespace backend key now in (found r, b)
  memory_step namespace (del_of key) now backend =
      let (r, b) = del namespace backend key in (was_deleted (forgotten r), b)

  abbrev pub run_memory : List (Timed V) → MemoryKvBackend → List (Reply V)
  run_memory [] backend = []
  run_memory (c ∷ program) backend =
      let (r, b) = memory_step c.namespace c.command c.time backend in r ∷ run_memory program b

module _ {ℓ κ} {S : Type ℓ} {V : Type κ} (client : RedisCommands S) (json : Json V) where
  abbrev pub redis_step : Text → Command V → ℕ → S → Reply V × S
  redis_step namespace (get_of key) now s = (got (redis_get client json namespace s key now), s)
  redis_step namespace (set_of key v ttl) now s =
      let (r, s') = redis_set client json namespace s key v ttl now in (was_set r, s')
  redis_step namespace (exists_of key) now s = (found (redis_exists client namespace s key now), s)
  redis_step namespace (del_of key) now s =
      let (r, s') = redis_del client namespace s key now in (was_deleted (forgotten r), s')

  abbrev pub run_redis : List (Timed V) → S → List (Reply V)
  run_redis [] s = []
  run_redis (c ∷ program) s =
      let (r, s') = redis_step c.namespace c.command c.time s in r ∷ run_redis program s'

-- The time is not that at which the lifetime of the command ends.
abbrev pub IsOff {ℓ} : {V : Type ℓ} → Command V → ℕ → ℕ → Type 0
IsOff (set_of key v (some (pos seconds))) now later = later ≢ now + seconds * 1000
IsOff command now later = Unit

-- Time does not go back, and no command comes at the very instant at which a lifetime ends.
abbrev pub IsTimed {ℓ} : {V : Type ℓ} → List (Timed V) → Type 0
IsTimed [] = Unit
IsTimed (c ∷ program) =
    All (λ d. (c.time ≤ d.time) × IsOff c.command c.time d.time) program × IsTimed program
