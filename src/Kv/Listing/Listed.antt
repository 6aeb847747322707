-- ===== src/Kv/Listing/Listed.antt =====
-- What `listKeys` of kv.ts returns.
use ts_plugins.Common.{
  ℕ, ◌≡◌, refl, ◌∙◌, Bool, true, false, ◌&&◌, Option, none, some, [], ◌∷◌, map, arith, Text,
  text_eq, filter, any, ◌==◌, ==_iff, ==_refl, JsMap, codes,
}
use ts_plugins.Common.Maps
use ts_plugins.Common.Texts.{starts_with}
use ts_plugins.Common.Sorting.{IsSorted, sort-IsSorted, any-sort}
use ts_plugins.Kv.{MemoryValue, MemoryKvBackend, data_segment, prefix_of, bare_key, is_live}
use ts_plugins.Kv.Listing.{list_keys, live_entry}
use ts_plugins.Kv.Patterns.{glob_match}

bare_key_foreign :
    (namespace k : Text)
    → starts_with k (prefix_of namespace data_segment) ≡ false
    → bare_key namespace k data_segment ≡ k
unfolding bare_key
bare_key_foreign namespace k h = rw h

abbrev pub pattern_of : Option Text → Text
pattern_of none = codes "*"
pattern_of (some p) = p

-- Whether an entry makes `listKeys` return a text.
abbrev pub is_listed : Text → Option Text → ℕ → Text → Text × MemoryValue → Bool
is_listed namespace pattern now t e =
    is_live now e.1
    && (glob_match (pattern_of pattern) (bare_key namespace e.0 data_segment)
        && bare_key namespace e.0 data_segment == t)

any-live :
    (namespace : Text) (matcher : Text → Bool) (now : ℕ) (t : Text) (m : JsMap Text MemoryValue)
    → any
        (λ u. u == t)
        (filter matcher
          (map (λ e. bare_key namespace e.0 data_segment) (filter (live_entry now) m)))
      ≡ any
          (λ e.
            is_live now e.1
            && (matcher (bare_key namespace e.0 data_segment)
                && bare_key namespace e.0 data_segment == t))
          m
any-live namespace matcher now t [] = refl
any-live namespace matcher now t (e ∷ m) = ground (arith, any-live namespace matcher now t m)

-- `listKeys` returns, in ascending order, exactly the bare keys of the live entries of the backend
-- that the pattern matches.
pub list_keys_exact :
    (namespace : Text) (backend : MemoryKvBackend) (pattern : Option Text) (now : ℕ)
    → IsSorted (list_keys namespace backend pattern now).0
      × ((t : Text)
          → any (λ u. u == t) (list_keys namespace backend pattern now).0
            ≡ any (is_listed namespace pattern now t) backend.values)
unfolding list_keys
list_keys_exact namespace backend none now = (
  sort-IsSorted _,
  λ t. any-sort _ _ ∙ any-live namespace (glob_match (codes "*")) now t backend.values,
)
list_keys_exact namespace backend (some p) now =
    (sort-IsSorted _, λ t. any-sort _ _ ∙ any-live namespace (glob_match p) now t backend.values)

any_of_get :
    (p : Text × MemoryValue → Bool) (m : JsMap Text MemoryValue) (k : Text) (value : MemoryValue)
    → Maps.get m k ≡ some value
    → p (k, value) ≡ true
    → any p m ≡ true
unfolding Maps.get
any_of_get p [] k value h e = cc
any_of_get p ((j, w) ∷ m) k value h e = ground (arith, ==_iff j k, any_of_get p m k value)

-- A store lists the keys of other namespaces too: a live entry of the shared backend whose full
-- key does not begin with the store's data prefix is listed under its full key, if the pattern
-- matches that.
pub list_keys_foreign :
    (namespace : Text) (backend : MemoryKvBackend) (pattern : Option Text) (now : ℕ) (k : Text)
    (value : MemoryValue)
    → Maps.get backend.values k ≡ some value
    → is_live now value ≡ true
    → starts_with k (prefix_of namespace data_segment) ≡ false
    → glob_match (pattern_of pattern) k ≡ true
    → any (λ u. u == k) (list_keys namespace backend pattern now).0 ≡ true
list_keys_foreign namespace backend pattern now k value stored live foreign matched =
    (list_keys_exact namespace backend pattern now).1 k
    ∙ any_of_get (is_listed namespace pattern now k) backend.values k value stored
        (rw (live, bare_key_foreign namespace k foreign, matched) (==_refl k))
