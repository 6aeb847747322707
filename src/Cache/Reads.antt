-- ===== src/Cache/Reads.antt =====
-- What can be read from the cache of cache.ts, before and after each call.
use ts_plugins.Common.{
  ℕ, zero, suc, ◌+◌, ◌≤◌, ◌<◌, ◌≡◌, ◌≢◌, refl, false, Option, none, some, [], ◌∷◌, ◌++◌, arith,
  if◌then◌else◌, length, drop, filter, Eq, JsMap, ◌⊎◌, inl, inr, Bool-cases, ==_refl, ◌==◌, ==_iff,
  ◌∙◌, ap, length-append,
}
use ts_plugins.Common.Maps
use ts_plugins.Cache.{
  CacheEntry, WarmCache, new_entry, prune_expired, is_live, touch_found, get, set,
}
use ts_plugins.Cache.Validity.{
  IsValid, before_eviction-set, before_eviction-IsDistinct, has-filter, set-IsValid,
}
use ts_plugins.Cache.Eviction.{before_eviction, entries-set, delete-IsFresh}

abbrev pub value_of {κ} : {V : Type κ} → Option (CacheEntry V) → Option V
value_of none = none
value_of (some e) = some e.value

module _ {ℓ κ} {K : Type ℓ} {V : Type κ} ⦃eq : Eq K⦄ where
  -- The live entry of a key: the abstract view of a cache at a time.
  abbrev pub keep_live : WarmCache K V → ℕ → K → Option (CacheEntry V) → Option (CacheEntry V)
  keep_live c now k none = none
  keep_live c now k (some e) = if is_live c now (k, e) then some e else none

  abbrev pub live_entry : WarmCache K V → ℕ → K → Option (CacheEntry V)
  live_entry c now k = keep_live c now k (Maps.get c.entries k)

  get_of_fresh : (m : JsMap K (CacheEntry V)) (k : K) → Maps.has m k ≡ false → Maps.get m k ≡ none
  unfolding Maps.has Maps.get
  get_of_fresh [] k h = refl
  get_of_fresh (e ∷ m) k h = ground (arith, get_of_fresh m k)

  get-filter :
      (c : WarmCache K V) (now : ℕ) (m : JsMap K (CacheEntry V)) (k : K)
      → Maps.IsDistinct m
      → Maps.get (filter (is_live c now) m) k ≡ keep_live c now k (Maps.get m k)
  unfolding Maps.get
  get-filter c now [] k h = refl
  get-filter c now ((j, e) ∷ m) k h = ground (
    arith,
    ==_iff j k,
    get-filter c now m k,
    has-filter c now m j,
    get_of_fresh (filter (is_live c now) m) j,
  )

  pub get-prune_expired :
      (c : WarmCache K V) (now : ℕ) (k : K)
      → Maps.IsDistinct c.entries
      → Maps.get (prune_expired c now) k ≡ live_entry c now k
  unfolding prune_expired
  get-prune_expired c now k h = get-filter c now c.entries k h

  keep_live_idem :
      (c : WarmCache K V) (now : ℕ) (k : K) (o : Option (CacheEntry V))
      → keep_live c now k (keep_live c now k o) ≡ keep_live c now k o
  keep_live_idem c now k o = ground arith

  get-set-delete :
      (m : JsMap K (CacheEntry V)) (k j : K) (e : CacheEntry V)
      → Maps.get m k ≡ some e
      → Maps.get (Maps.set (Maps.delete m k) k e) j ≡ Maps.get m j
  get-set-delete m k j e hit = elim (Bool-cases (k == j)) [
    | inl same ↦ rw (Maps.get-set, same, ← (==_iff k j).0 same, hit)
    | inr other ↦ rw (Maps.get-set, other, Maps.get-delete, other)
  ]

  live_entry-pruned :
      (c : WarmCache K V) (now : ℕ) (m : JsMap K (CacheEntry V)) (j : K)
      → Maps.IsDistinct c.entries
      → Maps.get m j ≡ Maps.get (prune_expired c now) j
      → live_entry (record c { entries = m }) now j ≡ live_entry c now j
  live_entry-pruned c now m j h e =
      rw (e, get-prune_expired c now j h) (keep_live_idem c now j (Maps.get c.entries j))

  touch_found-live_entry :
      (c : WarmCache K V) (key : K) (now : ℕ) (found : Option (CacheEntry V))
      → Maps.IsDistinct c.entries
      → Maps.get (prune_expired c now) key ≡ found
      → (j : K)
      → live_entry (touch_found c (prune_expired c now) key found).0 now j ≡ live_entry c now j
  unfolding touch_found
  touch_found-live_entry c key now none h e j =
      live_entry-pruned c now (prune_expired c now) j h refl
  touch_found-live_entry c key now (some entry) h e j =
      live_entry-pruned c now _ j h (get-set-delete (prune_expired c now) key j entry e)

  value-touch_found :
      (c : WarmCache K V) (m : JsMap K (CacheEntry V)) (key : K) (found : Option (CacheEntry V))
      → (touch_found c m key found).1 ≡ value_of found
  unfolding touch_found
  value-touch_found c m key none = refl
  value-touch_found c m key (some entry) = refl

  -- `get` returns the live value, and no live entry of any key is lost or changed by it.
  pub get-live_entry :
      (c : WarmCache K V) (key : K) (now : ℕ)
      → Maps.IsDistinct c.entries
      → ((get c key now).1 ≡ value_of (live_entry c now key))
        × ((j : K) → live_entry (get c key now).0 now j ≡ live_entry c now j)
  get-live_entry c key now h = (
    unfold get in
        value-touch_found c (prune_expired c now) key _
        ∙ ap value_of (get-prune_expired c now key h),
    unfold get in touch_found-live_entry c key now _ h refl,
  )

  -- The last entry is found after any eviction that leaves it.
  get_of_last :
      (m : JsMap K (CacheEntry V)) (k : K) (e : CacheEntry V) (n : ℕ)
      → Maps.has m k ≡ false
      → n ≤ length m
      → Maps.get (drop n (m ++ (k, e) ∷ [])) k ≡ some e
  unfolding Maps.get Maps.has
  get_of_last [] k e zero h p = rw ==_refl
  get_of_last [] k e (suc n) h p = absurd (omega arith)
  get_of_last ((j, w) ∷ m) k e zero h p = ground (arith, get_of_last m k e zero)
  get_of_last ((j, w) ∷ m) k e (suc n) h p = ground (arith, get_of_last m k e n)

  get-drop_cases :
      (m : JsMap K (CacheEntry V)) (k : K) (n : ℕ)
      → Maps.IsDistinct m
      → (Maps.get (drop n m) k ≡ Maps.get m k) ⊎ (Maps.get (drop n m) k ≡ none)
  unfolding Maps.get Maps.has
  get-drop_cases m k zero h = inl refl
  get-drop_cases [] k (suc n) h = inl refl
  get-drop_cases ((j, w) ∷ m) k (suc n) h =
      ground (arith, get-drop_cases m k n, get_of_fresh m k, ==_iff j k, get_of_fresh m j)

  max_age-set :
      (c : WarmCache K V) (key : K) (value : V) (weight : Option ℕ) (now : ℕ)
      → (set c key value weight now).max_age_ms ≡ c.max_age_ms
  unfolding set
  max_age-set c key value weight now = refl

  get-entries_set :
      (c : WarmCache K V) (key : K) (value : V) (weight : Option ℕ) (now : ℕ)
      → 0 < c.max_entries
      → Maps.get (set c key value weight now).entries key ≡ some (new_entry value weight now)
  get-entries_set c key value weight now room =
      let m = Maps.delete (prune_expired c now) key in
      rw entries-set (
        get_of_last m key (new_entry value weight now) _ (delete-IsFresh (prune_expired c now) key)
          (omega (arith, length-append m ((key, new_entry value weight now) ∷ []))))

  -- What `set` wrote is read back by `get` as long as it is not too old, if the bound is not 0.
  pub get-set_self :
      (c : WarmCache K V) (key : K) (value : V) (weight : Option ℕ) (now later : ℕ)
      → IsValid c
      → 0 < c.max_entries
      → later ≤ now + c.max_age_ms
      → (get (set c key value weight now) key later).1 ≡ some value
  get-set_self c key value weight now later v room young =
      (get-live_entry (set c key value weight now) key later written.distinct).0
      ∙ ap value_of (found ∙ kept)
    where
      written : IsValid (set c key value weight now)
      written = set-IsValid c key value weight now v.distinct

      found :
          live_entry (set c key value weight now) later key
          ≡ keep_live (set c key value weight now) later key (some (new_entry value weight now))
      found =
          ap (keep_live (set c key value weight now) later key)
            (get-entries_set c key value weight now room)

      kept :
          keep_live (set c key value weight now) later key (some (new_entry value weight now))
          ≡ some (new_entry value weight now)
      kept = ground (arith, max_age-set c key value weight now)

  get-before_eviction_ne :
      (c : WarmCache K V) (key j : K) (value : V) (weight : Option ℕ) (now : ℕ)
      → Maps.IsDistinct c.entries
      → (key == j) ≡ false
      → Maps.get (before_eviction c key value weight now) j ≡ live_entry c now j
  get-before_eviction_ne c key j value weight now h other =
      rw (before_eviction-set, Maps.get-set, other, Maps.get-delete, other)
        (get-prune_expired c now j h)

  set_cases :
      (c : WarmCache K V) (key j : K) (value : V) (weight : Option ℕ) (now : ℕ)
      → IsValid c
      → (key == j) ≡ false
      → (Maps.get (set c key value weight now).entries j ≡ live_entry c now j)
        ⊎ (Maps.get (set c key value weight now).entries j ≡ none)
  set_cases c key j value weight now v other =
      rw (entries-set, ← get-before_eviction_ne c key j value weight now v.distinct other)
        (get-drop_cases (before_eviction c key value weight now) j _
          (before_eviction-IsDistinct c key value weight now v.distinct))

  -- `set` of one key leaves each other key's live value as it was, or evicts it; it never changes it.
  pub set-live_entry_ne :
      (c : WarmCache K V) (key j : K) (value : V) (weight : Option ℕ) (now : ℕ)
      → IsValid c
      → key ≢ j
      → (live_entry (set c key value weight now) now j ≡ live_entry c now j)
        ⊎ (live_entry (set c key value weight now) now j ≡ none)
  set-live_entry_ne c key j value weight now v other = ground (
    arith,
    ==_iff key j,
    max_age-set c key value weight now,
    set_cases c key j value weight now v,
  )
