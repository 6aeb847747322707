-- ===== src/Plugins/Crud/Counter.antt =====
-- The count of changes that examples/crud-plugin/src/index.ts keeps in its store.
use native.Mathlib.Numerals.{add-one}
use ts_plugins.Common.{
  ℕ, zero, suc, ◌+◌, ◌≡◌, refl, ◌∙◌, true, false, Option, none, some, ◌++◌, Text, text_eq, ◌==◌,
  ==_refl, codes,
}
use ts_plugins.Common.Texts.{append-==}
use ts_plugins.Common.Maps
use ts_plugins.Kv.{
  Json, ok, MemoryKvBackend, MemoryValue, data_segment, prefix_of, key_regex, full_key, read_value,
  get, set,
}
use ts_plugins.Plugins.Crud.{KvValue, text_value, count_value, bump_mutation_count, note_change}

module _ (json : Json KvValue) (namespace : Text) where
  abbrev pub data_key : Text → Text
  data_key key = prefix_of namespace data_segment ++ key

  -- A value without an end of its life.
  abbrev pub lasting : KvValue → MemoryValue
  lasting v = record { payload = json.stringify v; expires_at = none }

  -- What stands under the counter's key after so many changes.
  abbrev pub counted : ℕ → Option MemoryValue
  counted zero = none
  counted (suc n) = some (lasting (count_value (suc n)))

  abbrev pub Counts : MemoryKvBackend → ℕ → Type 0
  Counts kv n = Maps.get kv.values (data_key (codes "mutation_count")) ≡ counted n

  set-lasting :
      (kv : MemoryKvBackend) (key : Text) (v : KvValue) (now : ℕ)
      → key_regex key ≡ true
      → set json namespace kv key (some v) none now
        ≡ (ok true, record kv { values = Maps.set kv.values (data_key key) (lasting v) })
  unfolding set full_key
  set-lasting kv key v now valid = rw valid refl

  get_absent :
      (kv : MemoryKvBackend) (key : Text) (now : ℕ)
      → key_regex key ≡ true
      → Maps.get kv.values (data_key key) ≡ none
      → get json namespace kv key now ≡ (ok none, kv)
  unfolding get read_value full_key
  get_absent kv key now valid h = rw (valid, h) refl

  get-lasting :
      (kv : MemoryKvBackend) (key : Text) (v : KvValue) (now : ℕ)
      → key_regex key ≡ true
      → Maps.get kv.values (data_key key) ≡ some (lasting v)
      → get json namespace kv key now ≡ (ok (some v), kv)
  unfolding get read_value full_key
  get-lasting kv key v now valid h = rw (valid, h, json.parse-stringify) refl

  counter_IsKey : key_regex (codes "mutation_count") ≡ true
  unfolding key_regex
  counter_IsKey = refl

  Counts-set_self :
      (kv : MemoryKvBackend) (n : ℕ)
      → Counts
          (record kv {
            values =
                Maps.set kv.values
                  (data_key (codes "mutation_count"))
                  (lasting (count_value (suc n)));
          })
          (suc n)
  Counts-set_self kv n =
      Maps.get-set kv.values (data_key (codes "mutation_count")) (data_key (codes "mutation_count"))
        _
      ∙ rw ==_refl refl

  Counts-set_ne :
      (kv : MemoryKvBackend) (key : Text) (v : MemoryValue) (n : ℕ)
      → (key == codes "mutation_count") ≡ false
      → Counts kv n
      → Counts (record kv { values = Maps.set kv.values (data_key key) v }) n
  Counts-set_ne kv key v n other h =
      Maps.get-set kv.values (data_key key) (data_key (codes "mutation_count")) v
      ∙ rw (append-== (prefix_of namespace data_segment) key (codes "mutation_count"), other) h

  -- To bump the counter counts one.
  bump-Counts :
      (kv : MemoryKvBackend) (n now : ℕ)
      → Counts kv n
      → ((bump_mutation_count json namespace kv now).0 ≡ ok true)
        × Counts (bump_mutation_count json namespace kv now).1 (suc n)
  unfolding bump_mutation_count
  bump-Counts kv zero now h =
      rw
        (
          get_absent kv (codes "mutation_count") now counter_IsKey h,
          set-lasting kv (codes "mutation_count") (count_value 1) now counter_IsKey,
        )
        (refl, Counts-set_self kv zero)
  bump-Counts kv (suc n) now h =
      rw
        (
          get-lasting kv (codes "mutation_count") (count_value (suc n)) now counter_IsKey h,
          set-lasting kv (codes "mutation_count") (count_value (suc n + 1)) now counter_IsKey,
          add-one,
        )
        (refl, Counts-set_self kv (suc n))

  -- The calls of the store that end a change never throw, and count it.
  pub note_change-Counts :
      (kv : MemoryKvBackend) (key id : Text) (n now : ℕ)
      → key_regex key ≡ true
      → (key == codes "mutation_count") ≡ false
      → Counts kv n
      → ((note_change json namespace kv key id now).0 ≡ ok true)
        × Counts (note_change json namespace kv key id now).1 (suc n)
  unfolding note_change
  note_change-Counts kv key id n now valid other h =
      rw (set-lasting kv key (text_value id) now valid)
        (bump-Counts _ n now (Counts-set_ne kv key (lasting (text_value id)) n other h))
