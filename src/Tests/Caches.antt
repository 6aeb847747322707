-- ===== src/Tests/Caches.antt =====
-- Runs of packages/plugin-runtime/src/cache.ts, and the theorems about it at concrete inputs.
use ts_plugins.Common.{ℕ, ◌+◌, ◌≤◌, ◌<◌, ◌≡◌, ◌≢◌, refl, none, some, arith, number_eq}
use ts_plugins.Common.Maps
use ts_plugins.Cache.{
  WarmCache, create, get, set, handle_memory_pressure, evict_to_weight, pressure_state,
}
use ts_plugins.Cache.Eviction.{
  IsEvicted, evict_to_weight-IsEvicted, PressureOutcome, handle_memory_pressure-PressureOutcome,
}
use ts_plugins.Cache.Validity.{IsValid, create-IsValid, set-IsValid}
use ts_plugins.Cache.Reads.{live_entry, value_of, get-live_entry, get-set_self}

abbrev empty : WarmCache ℕ ℕ
empty = create 2 100 (some (record { soft_limit_bytes = 10; hard_limit_bytes = 20 }))

-- Two entries that weigh 3 and 4.
abbrev full : WarmCache ℕ ℕ
full = set (set empty 1 11 (some 3) 0) 2 22 (some 4) 5

full-IsValid : IsValid full
full-IsValid =
    set-IsValid (set empty 1 11 (some 3) 0) 2 22 (some 4) 5
      (set-IsValid empty 1 11 (some 3) 0 (create-IsValid 2 100 _).distinct).distinct

soft_pressure_evicts : (handle_memory_pressure full 12).1 ≡ 1
unfolding handle_memory_pressure set create pressure_state Maps.get Maps.set Maps.has
soft_pressure_evicts = refl

old_entries_expire : (get full 1 101).1 ≡ none
unfolding get set create Maps.get Maps.set Maps.has
old_entries_expire = refl

set-IsValid_example : IsValid (set full 3 33 none 6)
set-IsValid_example = set-IsValid full 3 33 none 6 full-IsValid.distinct

handle_memory_pressure-PressureOutcome_example :
    PressureOutcome full (pressure_state full.memory_pressure 12) (handle_memory_pressure full 12)
handle_memory_pressure-PressureOutcome_example = handle_memory_pressure-PressureOutcome full 12

evict_to_weight-IsEvicted_example :
    IsEvicted 5 full.entries (evict_to_weight 5 full.entries).0 (evict_to_weight 5 full.entries).1
evict_to_weight-IsEvicted_example = evict_to_weight-IsEvicted 5 full.entries

get-live_entry_example :
    ((get full 1 50).1 ≡ value_of (live_entry full 50 1))
    × ((j : ℕ) → live_entry (get full 1 50).0 50 j ≡ live_entry full 50 j)
get-live_entry_example = get-live_entry full 1 50 full-IsValid.distinct

room : 0 < full.max_entries
unfolding set create
room = omega arith

young : 106 ≤ 6 + full.max_age_ms
unfolding set create
young = omega arith

get-set_self_example : (get (set full 3 33 none 6) 3 106).1 ≡ some 33
get-set_self_example = get-set_self full 3 33 none 6 106 full-IsValid room young

abbrev three : ℕ
three = 3

three_ne_one : three ≢ 1
three_ne_one = omega arith
