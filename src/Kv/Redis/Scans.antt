-- ===== src/Kv/Redis/Scans.antt =====
-- `listKeys` and `clear` of `RedisPluginKvStore` in packages/plugin-runtime/src/kv.ts. `SCAN` is a
-- parameter: of a state, a cursor, a pattern, a count and a time, the next cursor and some keys. The
-- rounds of one call are taken at one time, and nobody else writes meanwhile. A loop runs on fuel,
-- one unit for a round; `none` is that it ends first.
pub mod Laws
pub mod Listed
pub mod Cleared
use ts_plugins.Common.{
  ℕ, zero, suc, ◌+◌, Bool, Option, none, some, List, [], ◌∷◌, ◌++◌, map, if◌then◌else◌, Text,
  text_eq, ◌==◌, codes,
}
use ts_plugins.Kv.{data_segment, prefix_of, bare_key}
use ts_plugins.Kv.Redis.{RedisCommands}

abbrev pub Scan {ℓ} : Type ℓ → Type ℓ
Scan S = S → Text → Text → ℕ → ℕ → Text × List Text

abbrev pub or_star : Option Text → Text
or_star none = codes "*"
or_star (some pattern) = pattern

abbrev pub or_batch : Option ℕ → ℕ
or_batch none = 500
or_batch (some batch) = batch

module _ {ℓ} {S : Type ℓ} (scan : Scan S) (namespace : Text) where
  -- The loop of `listKeys`: the state, the pattern, the count, the time, the cursor and the results.
  unfoldable pub list_rounds : ℕ → S → Text → ℕ → ℕ → Text → List Text → Option (List Text)
  unfolding bare_key
  list_rounds zero s pattern batch now cursor results = none
  list_rounds (suc fuel) s pattern batch now cursor results =
      let (next, keys) = scan s cursor pattern batch now in
      let listed = results ++ map (λ key. bare_key namespace key data_segment) keys in
      let rest = list_rounds fuel s pattern batch now next listed in
      if next == codes "0" then some listed else rest

  unfoldable pub redis_list_keys : ℕ → S → Option Text → Option ℕ → ℕ → Option (List Text)
  unfolding list_rounds
  redis_list_keys fuel s pattern batch now =
      list_rounds fuel s (prefix_of namespace data_segment ++ or_star pattern) (or_batch batch) now
        (codes "0") []

module _ {ℓ} {S : Type ℓ} (client : RedisCommands S) where
  -- The pipeline of a round, with the keys deleted so far; that of no keys does nothing.
  unfoldable pub unlink_each : S → List Text → ℕ → ℕ → ℕ × S
  unlink_each s [] now deleted = (deleted, s)
  unlink_each s (key ∷ keys) now deleted =
      let (count, s') = client.unlink s key now in unlink_each s' keys now (deleted + count)

module _ {ℓ} {S : Type ℓ} (client : RedisCommands S) (scan : Scan S) (namespace : Text) where
  -- The loop of `clear`: the state, the time, the cursor and the count.
  unfoldable pub clear_rounds : ℕ → S → ℕ → Text → ℕ → Option (ℕ × S)
  unfolding unlink_each
  clear_rounds zero s now cursor deleted = none
  clear_rounds (suc fuel) s now cursor deleted =
      let (next, keys) = scan s cursor (namespace ++ codes ":*") 1_000 now in
      let (count, s') = unlink_each client s keys now deleted in
      let rest = clear_rounds fuel s' now next count in
      if next == codes "0" then some (count, s') else rest

  unfoldable pub redis_clear : ℕ → S → ℕ → Option (ℕ × S)
  unfolding clear_rounds
  redis_clear fuel s now = clear_rounds fuel s now (codes "0") 0
