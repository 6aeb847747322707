-- ===== src/Cache.antt =====
-- packages/plugin-runtime/src/cache.ts: the bounded, ageing, recency-ordered `WarmCache`.
-- Times and weights are natural numbers; `Date.now()` is the argument `now` of each call. The
-- entries of the `Map` stand oldest use first. The soft target `softLimitBytes / 2` is rounded
-- down, which changes no comparison with a whole weight.
pub mod Eviction
pub mod Reads
pub mod Validity
use ts_plugins.Common.{
  ℕ, ◌+◌, ◌/◌, Bool, true, false, ◌&&◌, not, Option, none, some, List, [], ◌∷◌, ltb, leb,
  if◌then◌else◌, length, filter, Eq, JsMap, max,
}
use ts_plugins.Common.Maps

pub record MemoryPressureConfig : Type 0 where
  pub soft_limit_bytes : ℕ
  pub hard_limit_bytes : ℕ

pub data MemoryPressureState : Type 0 where
  normal soft hard : MemoryPressureState

pub record CacheEntry {ℓ} (V : Type ℓ) : Type ℓ where
  pub value : V
  pub inserted_at : ℕ
  pub weight_bytes : ℕ

pub record WarmCache {ℓ κ} (K : Type ℓ) (V : Type κ) : Type (ℓ ⊔ κ) where
  pub entries : JsMap K (CacheEntry V)
  pub max_entries : ℕ
  pub max_age_ms : ℕ
  pub memory_pressure : Option MemoryPressureConfig

unfoldable pub pressure_state : Option MemoryPressureConfig → ℕ → MemoryPressureState
pressure_state none usage = normal
pressure_state (some limits) usage =
    if leb limits.hard_limit_bytes usage
    then hard
    else if leb limits.soft_limit_bytes usage
    then soft
    else normal

-- `targetWeight` of `handleMemoryPressure`, once the state is not normal.
unfoldable pub target_weight : Option MemoryPressureConfig → MemoryPressureState → ℕ
target_weight (some limits) soft = max (limits.soft_limit_bytes / 2) 0
target_weight _ _ = 0

module _ {ℓ κ} {K : Type ℓ} {V : Type κ} where
  -- The constructor.
  unfoldable pub create : ℕ → ℕ → Option MemoryPressureConfig → WarmCache K V
  create max_entries max_age_ms memory_pressure = record {
    entries = [];
    max_entries = max_entries;
    max_age_ms = max_age_ms;
    memory_pressure = memory_pressure;
  }

  -- `now - entry.insertedAt > this.maxAgeMs`, negated; the difference may be negative there.
  abbrev pub is_live : WarmCache K V → ℕ → K × CacheEntry V → Bool
  is_live c now e = not (ltb (e.1.inserted_at + c.max_age_ms) now)

  unfoldable pub prune_expired : WarmCache K V → ℕ → JsMap K (CacheEntry V)
  prune_expired c now = filter (is_live c now) c.entries

  unfoldable pub total_weight : JsMap K (CacheEntry V) → ℕ
  total_weight [] = 0
  total_weight ((k, e) ∷ m) = e.weight_bytes + total_weight m

  -- `while (this.entries.size > this.maxEntries) this.evictOldest();`
  unfoldable pub evict_to_size : ℕ → JsMap K (CacheEntry V) → JsMap K (CacheEntry V)
  evict_to_size bound [] = []
  evict_to_size bound (e ∷ m) = if ltb bound (length (e ∷ m)) then evict_to_size bound m else e ∷ m

  -- `while (this.totalWeight() > targetWeight && this.entries.size > 0)`: the entries left, and
  -- how many were evicted.
  unfoldable pub evict_to_weight : ℕ → JsMap K (CacheEntry V) → JsMap K (CacheEntry V) × ℕ
  unfolding total_weight
  evict_to_weight target [] = ([], 0)
  evict_to_weight target (e ∷ m) =
      let (rest, evicted) = evict_to_weight target m in
      if ltb target (total_weight (e ∷ m)) then (rest, evicted + 1) else (e ∷ m, 0)

  -- `handleMemoryPressure` once `memoryPressureState` is known.
  unfoldable pub relieve :
      WarmCache K V → MemoryPressureState → WarmCache K V × ℕ × MemoryPressureState
  unfolding target_weight evict_to_weight
  relieve c normal = (c, 0, normal)
  relieve c state =
      let (rest, evicted) = evict_to_weight (target_weight c.memory_pressure state) c.entries in
      (record c { entries = rest }, evicted, state)

  unfoldable pub handle_memory_pressure :
      WarmCache K V → ℕ → WarmCache K V × ℕ × MemoryPressureState
  unfolding relieve
  handle_memory_pressure c usage = relieve c (pressure_state c.memory_pressure usage)

  unfoldable pub size : WarmCache K V → ℕ
  size c = length c.entries

-- The entry that `set` writes; `weightBytes` is 1 where the options leave it out.
abbrev pub new_entry {κ} : {V : Type κ} → V → Option ℕ → ℕ → CacheEntry V
new_entry value weight_bytes now = record {
  value = value;
  inserted_at = now;
  weight_bytes = elim weight_bytes [ none ↦ 1 | some w ↦ w ];
}

module _ {ℓ κ} {K : Type ℓ} {V : Type κ} ⦃eq : Eq K⦄ where
  -- `get` after its look into the pruned entries: a hit is deleted and set again, which moves it
  -- to the end of the `Map`.
  unfoldable pub touch_found :
      WarmCache K V → JsMap K (CacheEntry V) → K → Option (CacheEntry V) → WarmCache K V × Option V
  touch_found c pruned key none = (record c { entries = pruned }, none)
  touch_found c pruned key (some entry) =
      (record c { entries = Maps.set (Maps.delete pruned key) key entry }, some entry.value)

  unfoldable pub get : WarmCache K V → K → ℕ → WarmCache K V × Option V
  unfolding prune_expired touch_found
  get c key now = let pruned = prune_expired c now in touch_found c pruned key (Maps.get pruned key)

  unfoldable pub has : WarmCache K V → K → ℕ → WarmCache K V × Bool
  unfolding get
  has c key now =
      let (c', found) = get c key now in (c', elim found [ none ↦ false | some _ ↦ true ])

  unfoldable pub set : WarmCache K V → K → V → Option ℕ → ℕ → WarmCache K V
  unfolding prune_expired evict_to_size
  set c key value weight_bytes now =
      let pruned = prune_expired c now in
      let removed = if Maps.has pruned key then Maps.delete pruned key else pruned in
      let written = Maps.set removed key (new_entry value weight_bytes now) in
      record c { entries = evict_to_size c.max_entries written }
