-- ===== src/Kv/Listing.antt =====
-- `listKeys` and `clear` of packages/plugin-runtime/src/kv.ts, in memory.
pub mod Glob
pub mod Listed
pub mod Clearing
use ts_plugins.Common.{
  ℕ, Bool, true, false, not, ◌||◌, Option, none, some, List, [], ◌∷◌, map, nat_eq, length, filter,
  Text, codes,
}
use ts_plugins.Common.Texts.{starts_with}
use ts_plugins.Common.Sorting.{sort}
use ts_plugins.Kv.Patterns.{glob_match}
use ts_plugins.Kv.{
  MemoryValue, MemoryKvBackend, Segment, data_segment, lock_segment, prefix_of, bare_key, is_live,
}

abbrev pub live_entry : ℕ → Text × MemoryValue → Bool
live_entry now e = is_live now e.1

-- The loop of `listKeys`: every entry is read, so every expired one is deleted.
unfoldable pub list_keys : Text → MemoryKvBackend → Option Text → ℕ → List Text × MemoryKvBackend
unfolding glob_match bare_key is_live
list_keys namespace backend pattern now =
    let live = filter (live_entry now) backend.values in
    let matcher = glob_match (elim pattern [ none ↦ codes "*" | some p ↦ p ]) in
    (
      sort (filter matcher (map (λ e. bare_key namespace e.0 data_segment) live)),
      record backend { values = live },
    )

abbrev pub in_segment {ℓ} : {W : Type ℓ} → Text → Segment → Text × W → Bool
in_segment namespace segment e = starts_with e.0 (prefix_of namespace segment)

unfoldable pub clear : Text → MemoryKvBackend → ℕ × MemoryKvBackend
unfolding starts_with
clear namespace backend = (
  length (filter (in_segment namespace data_segment) backend.values),
  record {
    values = filter (λ e. not (in_segment namespace data_segment e)) backend.values;
    locks = filter (λ e. not (in_segment namespace lock_segment e)) backend.locks;
  },
)
