-- ===== src/Kv/Redis.antt =====
-- The single-key operations and the lock of `RedisPluginKvStore` in packages/plugin-runtime/src/kv.ts.
-- The commands of Redis are an interface, on a state of Redis's own; each takes the time.
pub mod Laws
pub mod Scans
mod Same
pub mod Programs
use ts_plugins.Common.{
  ℕ, ◌*◌, Bool, true, false, Option, none, some, Text, text_eq, ◌==◌, nat_eq, ltb, if◌then◌else◌, ℤ,
  max_zero,
}
use ts_plugins.Kv.{
  Json, Result, ok, throw, invalid_key, undefined_value, syntax_error, lock_busy, data_segment,
  lock_segment, full_key,
}
use ts_plugins.Kv.Lock.{OnBusy, throw_busy, skip, Locked, returned, busy_null, failed}

-- `GET`; `SET` with `EX` seconds, and with `PX` milliseconds and `NX`, each with whether the reply is
-- "OK"; `UNLINK` and `EXISTS` of one key, with their counts.
pub record RedisCommands {ℓ} (S : Type ℓ) : Type ℓ where
  pub get_command : S → Text → ℕ → Option Text
  pub set_command : S → Text → Text → Option ℕ → ℕ → Bool × S
  pub set_px_nx : S → Text → Text → ℕ → ℕ → Bool × S
  pub unlink : S → Text → ℕ → ℕ × S
  pub exists_command : S → Text → ℕ → ℕ

module _ {ℓ} {S : Type ℓ} (client : RedisCommands S) where
  -- `UNLOCK_SCRIPT`
  unfoldable pub unlock_script : S → Text → Text → ℕ → S
  unlock_script s key token now = elim (client.get_command s key now) [
    | none ↦ s
    | some holder ↦ if holder == token then (client.unlink s key now).1 else s
  ]

module _ {ℓ κ} {S : Type ℓ} {V : Type κ} (client : RedisCommands S) (json : Json V)
    (namespace : Text) where
  abbrev pub parsed_reply : Option Text → Result (Option V)
  parsed_reply none = ok none
  parsed_reply (some payload) = elim (json.parse payload) [
    | none ↦ throw syntax_error
    | some v ↦ ok (some v)
  ]

  unfoldable pub redis_get : S → Text → ℕ → Result (Option V)
  redis_get s key now = elim (full_key namespace data_segment key) [
    | none ↦ throw invalid_key
    | some k ↦ parsed_reply (client.get_command s k now)
  ]

  abbrev pub seconds_of : Option ℤ → ℕ
  seconds_of none = 0
  seconds_of (some t) = max_zero t

  abbrev pub redis_set_at : S → V → Option ℤ → ℕ → Option Text → Result Bool × S
  redis_set_at s v ttl now none = (throw invalid_key, s)
  redis_set_at s v ttl now (some k) =
      let lifetime = if ltb 0 (seconds_of ttl) then some (seconds_of ttl) else none in
      let (is_ok, s') = client.set_command s k (json.stringify v) lifetime now in (ok is_ok, s')

  -- `none` is the value `undefined`.
  unfoldable pub redis_set : S → Text → Option V → Option ℤ → ℕ → Result Bool × S
  redis_set s key none ttl now = (throw undefined_value, s)
  redis_set s key (some v) ttl now = redis_set_at s v ttl now (full_key namespace data_segment key)

module _ {ℓ} {S : Type ℓ} (client : RedisCommands S) (namespace : Text) where
  abbrev pub redis_del_at : S → ℕ → Option Text → Result Bool × S
  redis_del_at s now none = (throw invalid_key, s)
  redis_del_at s now (some k) = let (count, s') = client.unlink s k now in (ok (nat_eq count 1), s')

  unfoldable pub redis_del : S → Text → ℕ → Result Bool × S
  redis_del s key now = redis_del_at s now (full_key namespace data_segment key)

  abbrev pub redis_exists_at : S → ℕ → Option Text → Result Bool
  redis_exists_at s now none = throw invalid_key
  redis_exists_at s now (some k) = ok (nat_eq (client.exists_command s k now) 1)

  unfoldable pub redis_exists : S → Text → ℕ → Result Bool
  redis_exists s key now = redis_exists_at s now (full_key namespace data_segment key)

module _ {ℓ κ} {S : Type ℓ} {A : Type κ} (client : RedisCommands S) (namespace : Text) where
  abbrev pub busy_reply : OnBusy → Locked A
  busy_reply skip = busy_null
  busy_reply throw_busy = failed lock_busy

  abbrev pub redis_entered : Text → Text → (S → A × S) → OnBusy → ℕ → Bool × S → Locked A × S
  redis_entered k token fn on_busy later (true, s) =
      let (result, s') = fn s in (returned result, unlock_script client s' k token later)
  redis_entered k token fn on_busy later (false, s) = (busy_reply on_busy, s)

  -- `fn` is what happens until its promise settles, its result or error the `A`; `later` is the time
  -- of the release.
  unfoldable pub redis_with_lock :
      S → Text → Text → (S → A × S) → Option ℕ → Option OnBusy → ℕ → ℕ → Locked A × S
  unfolding unlock_script
  redis_with_lock s key token fn ttl on_busy now later =
      elim (full_key namespace lock_segment key) [
        | none ↦ (failed invalid_key, s)
        | some k ↦
            redis_entered k token fn (elim on_busy [ none ↦ throw_busy | some b ↦ b ]) later
              (client.set_px_nx s k token ((elim ttl [ none ↦ 30 | some t ↦ t ]) * 1000) now)
      ]
