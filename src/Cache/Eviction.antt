-- ===== src/Cache/Eviction.antt =====
-- What the two eviction loops of cache.ts leave: how many entries, which ones, and no more than
-- needed.
use ts_plugins.Common.{
  ℕ, zero, suc, ◌+◌, ◌-◌, ◌≤◌, ◌<◌, ◌≡◌, ◌≢◌, refl, false, Option, [], ◌∷◌, ◌++◌, arith, ltb,
  if◌then◌else◌, length, drop, drop-add_one, drop_of_zero, ltb→lt, Eq, JsMap, inl, inr, Bool-cases,
  ==_refl,
}
use ts_plugins.Common.Maps
use ts_plugins.Cache.{
  CacheEntry, WarmCache, MemoryPressureState, normal, pressure_state, target_weight, total_weight,
  evict_to_size, evict_to_weight, relieve, handle_memory_pressure, new_entry, prune_expired, set,
}

zero_sub : (n : ℕ) → 0 - n ≡ 0
zero_sub n = omega arith

suc_sub : (n k : ℕ) → n < suc k → suc k - n ≡ (k - n) + 1
suc_sub n k h = omega arith

module _ {ℓ κ} {K : Type ℓ} {V : Type κ} where
  pub length-evict_to_size :
      (bound : ℕ) (m : JsMap K (CacheEntry V)) → length (evict_to_size bound m) ≤ bound
  unfolding evict_to_size
  length-evict_to_size bound [] = omega arith
  length-evict_to_size bound (e ∷ m) = ground (arith, length-evict_to_size bound m)

  -- The loop drops from the front, and stops as soon as the size fits.
  pub evict_to_size-drop :
      (bound : ℕ) (m : JsMap K (CacheEntry V)) → evict_to_size bound m ≡ drop (length m - bound) m
  unfolding evict_to_size
  evict_to_size-drop bound [] = rw (zero_sub bound)
  evict_to_size-drop bound (e ∷ m) = elim (Bool-cases (ltb bound (length (e ∷ m)))) [
    | inl over ↦
        rw (over, suc_sub bound (length m) (ltb→lt _ _ over), drop-add_one)
          (evict_to_size-drop bound m)
    | inr fits ↦ rw (fits, drop_of_zero (suc (length m) - bound) (e ∷ m) (ground arith))
  ]

  -- What `evict_to_weight` returns: the oldest `evicted` entries are gone, the rest fits or is
  -- empty, and after any fewer evictions it would not have fitted.
  pub record IsEvicted (target : ℕ) (m rest : JsMap K (CacheEntry V)) (evicted : ℕ)
      : Type (ℓ ⊔ κ) where
    pub dropped : rest ≡ drop evicted m
    pub fits : total_weight rest ≤ target
    pub needed : (n : ℕ) → n < evicted → target < total_weight (drop n m)

  needed_cons :
      (target : ℕ) (e : K × CacheEntry V) (m : JsMap K (CacheEntry V)) (evicted : ℕ)
      → target < total_weight (e ∷ m)
      → ((n : ℕ) → n < evicted → target < total_weight (drop n m))
      → (n : ℕ) → n < evicted + 1
      → target < total_weight (drop n (e ∷ m))
  needed_cons target e m evicted heavy needed zero h = heavy
  needed_cons target e m evicted heavy needed (suc n) h = needed n (omega arith)

  pub evict_to_weight-IsEvicted :
      (target : ℕ) (m : JsMap K (CacheEntry V))
      → IsEvicted target m (evict_to_weight target m).0 (evict_to_weight target m).1
  unfolding evict_to_weight
  evict_to_weight-IsEvicted target [] = record {
    dropped = refl;
    fits = omega arith;
    needed = λ n h. absurd (omega arith);
  }
  evict_to_weight-IsEvicted target (e ∷ m) =
      let ih = evict_to_weight-IsEvicted target m in
      elim (Bool-cases (ltb target (total_weight (e ∷ m)))) [
        | inl heavy ↦ rw heavy (record {
          dropped = rw drop-add_one ih.dropped;
          fits = ih.fits;
          needed = needed_cons target e m _ (ltb→lt _ _ heavy) ih.needed;
        })
        | inr light ↦
            rw light
              (record { dropped = refl; fits = ground arith; needed = λ n h. absurd (omega arith) })
      ]

  -- What one call of `handleMemoryPressure` does: nothing in the normal state; else the oldest
  -- entries go, exactly as many as needed, and the count and the state are reported.
  pub data PressureOutcome (c : WarmCache K V) (state : MemoryPressureState)
      (r : WarmCache K V × ℕ × MemoryPressureState) : Type (ℓ ⊔ κ) where
    calm : state ≡ normal → r ≡ (c, 0, normal) → PressureOutcome c state r
    relieved :
        state ≢ normal
        → IsEvicted (target_weight c.memory_pressure state) c.entries r.0.entries r.1
        → r.0 ≡ record c { entries = r.0.entries }
        → r.2 ≡ state
        → PressureOutcome c state r

  relieve-PressureOutcome :
      (c : WarmCache K V) (state : MemoryPressureState) → PressureOutcome c state (relieve c state)
  unfolding relieve
  relieve-PressureOutcome c normal = calm refl refl
  relieve-PressureOutcome c _ = relieved (λ h. cc) (evict_to_weight-IsEvicted _ c.entries) refl refl

  -- Under pressure the oldest entries go, exactly as many as the weight target needs, and the
  -- count and the state are reported; in the normal state nothing changes.
  pub handle_memory_pressure-PressureOutcome :
      (c : WarmCache K V) (usage : ℕ)
      → PressureOutcome c (pressure_state c.memory_pressure usage) (handle_memory_pressure c usage)
  unfolding handle_memory_pressure
  handle_memory_pressure-PressureOutcome c usage =
      relieve-PressureOutcome c (pressure_state c.memory_pressure usage)

module _ {ℓ κ} {K : Type ℓ} {V : Type κ} ⦃eq : Eq K⦄ where
  delete_if_there :
      (m : JsMap K (CacheEntry V)) (k : K)
      → (if Maps.has m k then Maps.delete m k else m) ≡ Maps.delete m k
  delete_if_there m k = elim (Bool-cases (Maps.has m k)) [
    | inl there ↦ rw there
    | inr absent ↦ rw (absent, Maps.delete_fresh m k absent)
  ]

  pub delete-IsFresh : (m : JsMap K (CacheEntry V)) (k : K) → Maps.has (Maps.delete m k) k ≡ false
  delete-IsFresh m k = rw (Maps.has-delete, ==_refl)

  -- The entries that `set` has before it evicts: the live ones less the key, then the new one.
  abbrev pub before_eviction : WarmCache K V → K → V → Option ℕ → ℕ → JsMap K (CacheEntry V)
  before_eviction c key value weight now =
      Maps.delete (prune_expired c now) key ++ (key, new_entry value weight now) ∷ []

  -- `set` drops the expired entries and the key's old one, appends the new one, and then drops
  -- exactly as many of the oldest entries as exceed the bound.
  pub entries-set :
      (c : WarmCache K V) (key : K) (value : V) (weight : Option ℕ) (now : ℕ)
      → (set c key value weight now).entries
        ≡ drop
            (length (before_eviction c key value weight now) - c.max_entries)
            (before_eviction c key value weight now)
  unfolding set
  entries-set c key value weight now =
      let pruned = prune_expired c now in
      rw
        (
          delete_if_there pruned key,
          Maps.set_fresh (Maps.delete pruned key) key (new_entry value weight now)
              (delete-IsFresh pruned key),
        )
        (evict_to_size-drop c.max_entries (before_eviction c key value weight now))
