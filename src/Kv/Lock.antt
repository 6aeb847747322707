-- ===== src/Kv/Lock.antt =====
-- `withLock` of packages/plugin-runtime/src/kv.ts, in memory.
pub mod Ownership
pub mod Exclusion
use ts_plugins.Common.{ℕ, ◌+◌, ◌*◌, Option, none, some, leb, if◌then◌else◌, Text, text_eq, ◌==◌}
use ts_plugins.Common.Maps
use ts_plugins.Kv.{
  MemoryLock, MemoryKvBackend, KvError, lock_busy, invalid_key, lock_segment, full_key,
}

pub data OnBusy : Type 0 where
  throw_busy skip : OnBusy

-- `readLock` for the lock that is stored under the key.
unfoldable pub read_lock_found :
    MemoryKvBackend → Text → ℕ → Option MemoryLock → Option MemoryLock × MemoryKvBackend
read_lock_found backend key now none = (none, backend)
read_lock_found backend key now (some lock) =
    if leb lock.expires_at now
    then (none, record backend { locks = Maps.delete backend.locks key })
    else (some lock, backend)

unfoldable pub read_lock : MemoryKvBackend → Text → ℕ → Option MemoryLock × MemoryKvBackend
unfolding read_lock_found
read_lock backend key now = read_lock_found backend key now (Maps.get backend.locks key)

-- How `withLock` gets past its busy test.
pub data Entry : Type 0 where
  entered skipped refused : Entry

abbrev enter_at :
    MemoryKvBackend → Text → Text → ℕ → ℕ → OnBusy → Option MemoryLock → Entry × MemoryKvBackend
enter_at backend key token ttl now on_busy none = (
  entered,
  record backend {
    locks = Maps.set backend.locks key (record { token = token; expires_at = now + ttl * 1000 });
  },
)
enter_at backend key token ttl now skip (some lock) = (skipped, backend)
enter_at backend key token ttl now throw_busy (some lock) = (refused, backend)

-- `withLock` up to the call of `fn`, under the full key and with the fresh token.
unfoldable pub enter :
    MemoryKvBackend → Text → Text → Option ℕ → Option OnBusy → ℕ → Entry × MemoryKvBackend
unfolding read_lock
enter backend key token ttl on_busy now =
    let (existing, backend') = read_lock backend key now in
    enter_at backend' key token (elim ttl [ none ↦ 30 | some t ↦ t ]) now
      (elim on_busy [ none ↦ throw_busy | some b ↦ b ]) existing

-- The `finally` block: only the lock with the own token is deleted.
unfoldable pub release : MemoryKvBackend → Text → Text → MemoryKvBackend
release backend key token = elim (Maps.get backend.locks key) [
  | none ↦ backend
  | some active ↦
      if active.token == token
      then record backend { locks = Maps.delete backend.locks key }
      else backend
]

-- The result of `withLock`: what `fn` returned or threw, `null`, or an error of its own.
pub data Locked {ℓ} (A : Type ℓ) : Type ℓ where
  returned : A → Locked A
  busy_null : Locked A
  failed : KvError → Locked A

module _ {ℓ} {A : Type ℓ} where
  abbrev run_entered :
      Text
      → Text
      → (MemoryKvBackend → A × MemoryKvBackend)
      → Entry × MemoryKvBackend
      → Locked A × MemoryKvBackend
  run_entered key token fn (entered, backend) =
      let (result, backend') = fn backend in (returned result, release backend' key token)
  run_entered key token fn (skipped, backend) = (busy_null, backend)
  run_entered key token fn (refused, backend) = (failed lock_busy, backend)

  abbrev lock_at :
      MemoryKvBackend
      → Text
      → (MemoryKvBackend → A × MemoryKvBackend)
      → Option ℕ
      → Option OnBusy
      → ℕ
      → Option Text
      → Locked A × MemoryKvBackend
  lock_at backend token fn ttl on_busy now none = (failed invalid_key, backend)
  lock_at backend token fn ttl on_busy now (some key) =
      run_entered key token fn (enter backend key token ttl on_busy now)

  -- `fn` is whatever happens to the backend until its promise settles, its result or error the `A`.
  unfoldable pub with_lock :
      Text
      → MemoryKvBackend
      → Text
      → Text
      → (MemoryKvBackend → A × MemoryKvBackend)
      → Option ℕ
      → Option OnBusy
      → ℕ
      → Locked A × MemoryKvBackend
  unfolding enter release
  with_lock namespace backend key token fn ttl on_busy now =
      lock_at backend token fn ttl on_busy now (full_key namespace lock_segment key)
