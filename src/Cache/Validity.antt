-- ===== src/Cache/Validity.antt =====
-- The invariant of `WarmCache` of cache.ts: no key twice, never more entries than `maxEntries`.
use ts_plugins.Common.{
  ℕ, ◌+◌, ◌≤◌, ◌≡◌, refl, sym, false, Option, none, some, [], ◌∷◌, arith, length, drop, filter, Eq,
  JsMap, length-drop,
}
use ts_plugins.Common.Maps
use ts_plugins.Cache.{
  CacheEntry, WarmCache, new_entry, MemoryPressureConfig, MemoryPressureState, create,
  prune_expired, is_live, touch_found, get, has, set, handle_memory_pressure,
}
use ts_plugins.Cache.Eviction.{
  before_eviction, entries-set, delete-IsFresh, length-evict_to_size, PressureOutcome, calm,
  relieved, handle_memory_pressure-PressureOutcome,
}

module _ {ℓ κ} {K : Type ℓ} {V : Type κ} ⦃eq : Eq K⦄ where
  pub record IsValid (c : WarmCache K V) : Type 0 where
    pub distinct : Maps.IsDistinct c.entries
    pub bounded : length c.entries ≤ c.max_entries

  pub create-IsValid :
      (max_entries max_age_ms : ℕ) (limits : Option MemoryPressureConfig)
      → IsValid (create max_entries max_age_ms limits)
  unfolding create
  create-IsValid max_entries max_age_ms limits = record { distinct = tt; bounded = omega arith }

  pub has-filter :
      (c : WarmCache K V) (now : ℕ) (m : JsMap K (CacheEntry V)) (k : K)
      → Maps.has m k ≡ false
      → Maps.has (filter (is_live c now) m) k ≡ false
  unfolding Maps.has
  has-filter c now [] k h = refl
  has-filter c now (e ∷ m) k h = ground (arith, has-filter c now m k)

  filter-IsDistinct :
      (c : WarmCache K V) (now : ℕ) (m : JsMap K (CacheEntry V))
      → Maps.IsDistinct m
      → Maps.IsDistinct (filter (is_live c now) m)
  filter-IsDistinct c now [] h = h
  filter-IsDistinct c now ((k, e) ∷ m) h =
      ground (arith, filter-IsDistinct c now m h.1, has-filter c now m k h.0)

  length-filter :
      (c : WarmCache K V) (now : ℕ) (m : JsMap K (CacheEntry V))
      → length (filter (is_live c now) m) ≤ length m
  length-filter c now [] = omega arith
  length-filter c now (e ∷ m) = ground (arith, length-filter c now m)

  pub prune_expired-IsDistinct :
      (c : WarmCache K V) (now : ℕ)
      → Maps.IsDistinct c.entries
      → Maps.IsDistinct (prune_expired c now)
  unfolding prune_expired
  prune_expired-IsDistinct c now h = filter-IsDistinct c now c.entries h

  length-prune_expired :
      (c : WarmCache K V) (now : ℕ)
      → length c.entries ≤ c.max_entries
      → length (prune_expired c now) ≤ c.max_entries
  unfolding prune_expired
  length-prune_expired c now h = omega (arith, length-filter c now c.entries)

  drop-IsDistinct :
      (m : JsMap K (CacheEntry V)) (n : ℕ) → Maps.IsDistinct m → Maps.IsDistinct (drop n m)
  drop-IsDistinct m ℕ.zero h = h
  drop-IsDistinct [] (ℕ.suc n) h = h
  drop-IsDistinct (e ∷ m) (ℕ.suc n) h = drop-IsDistinct m n h.1

  length-delete : (m : JsMap K (CacheEntry V)) (k : K) → length (Maps.delete m k) ≤ length m
  unfolding Maps.delete
  length-delete [] k = omega arith
  length-delete ((j, e) ∷ m) k = ground (arith, length-delete m k)

  length-set :
      (m : JsMap K (CacheEntry V)) (k : K) (e : CacheEntry V)
      → length (Maps.set m k e) ≤ length m + 1
  unfolding Maps.set
  length-set [] k e = omega arith
  length-set ((j, w) ∷ m) k e = ground (arith, length-set m k e)

  -- Deleting a key that is there makes room for writing it again.
  length-delete_there :
      (m : JsMap K (CacheEntry V)) (k : K) (e : CacheEntry V)
      → Maps.get m k ≡ some e
      → length (Maps.delete m k) + 1 ≤ length m
  unfolding Maps.delete Maps.get
  length-delete_there [] k e h = cc
  length-delete_there ((j, w) ∷ m) k e h =
      ground (arith, length-delete_there m k e, length-delete m k)

  touch_found-IsValid :
      (c : WarmCache K V) (m : JsMap K (CacheEntry V)) (k : K) (found : Option (CacheEntry V))
      → Maps.IsDistinct m
      → length m ≤ c.max_entries
      → Maps.get m k ≡ found
      → IsValid (touch_found c m k found).0
  unfolding touch_found
  touch_found-IsValid c m k none h b e = record { distinct = h; bounded = b }
  touch_found-IsValid c m k (some entry) h b e = record {
    distinct = Maps.set-IsDistinct _ k entry (Maps.delete-IsDistinct m k h);
    bounded = omega (arith, length-delete_there m k entry e, length-set (Maps.delete m k) k entry);
  }

  -- `get` keeps the invariant that no key is there twice and the bound is kept.
  pub get-IsValid : (c : WarmCache K V) (key : K) (now : ℕ) → IsValid c → IsValid (get c key now).0
  get-IsValid c key now v =
      unfold get in
      touch_found-IsValid c (prune_expired c now) key _ (prune_expired-IsDistinct c now v.distinct)
        (length-prune_expired c now v.bounded) refl

  pub has-IsValid : (c : WarmCache K V) (key : K) (now : ℕ) → IsValid c → IsValid (has c key now).0
  has-IsValid c key now v = unfold has in get-IsValid c key now v

  pub before_eviction-set :
      (c : WarmCache K V) (key : K) (value : V) (weight : Option ℕ) (now : ℕ)
      → before_eviction c key value weight now
        ≡ Maps.set (Maps.delete (prune_expired c now) key) key (new_entry value weight now)
  before_eviction-set c key value weight now =
      sym (Maps.set_fresh _ key _ (delete-IsFresh (prune_expired c now) key))

  pub before_eviction-IsDistinct :
      (c : WarmCache K V) (key : K) (value : V) (weight : Option ℕ) (now : ℕ)
      → Maps.IsDistinct c.entries
      → Maps.IsDistinct (before_eviction c key value weight now)
  before_eviction-IsDistinct c key value weight now h = rw before_eviction-set (
      Maps.set-IsDistinct _ key _ (Maps.delete-IsDistinct _ key (prune_expired-IsDistinct c now h)))

  -- `set` keeps no key twice, and comes back within the bound even from a cache beyond it.
  pub set-IsValid :
      (c : WarmCache K V) (key : K) (value : V) (weight : Option ℕ) (now : ℕ)
      → Maps.IsDistinct c.entries
      → IsValid (set c key value weight now)
  set-IsValid c key value weight now h = record {
    distinct =
        rw entries-set (drop-IsDistinct _ _ (before_eviction-IsDistinct c key value weight now h));
    bounded = unfold set in length-evict_to_size c.max_entries _;
  }

  -- `handleMemoryPressure` keeps the invariant that no key is there twice and the bound is kept.
  pub handle_memory_pressure-IsValid :
      (c : WarmCache K V) (usage : ℕ) → IsValid c → IsValid (handle_memory_pressure c usage).0
  handle_memory_pressure-IsValid c usage v = go _ (handle_memory_pressure-PressureOutcome c usage)
    where
      go :
          {state : MemoryPressureState} (r : WarmCache K V × ℕ × MemoryPressureState)
          → PressureOutcome c state r
          → IsValid r.0
      go r (calm _ e) = rw e v
      go r (relieved _ h kept _) = rw kept (record {
        distinct = rw h.dropped (drop-IsDistinct c.entries r.1 v.distinct);
        bounded = rw (h.dropped, length-drop) (omega arith);
      })
