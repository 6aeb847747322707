-- ===== src/Kv/Listing/Clearing.antt =====
-- What `clear` of kv.ts removes, and what it leaves.
use ts_plugins.Common.{
  ℕ, ◌+◌, ◌≡◌, refl, ap, sym, ◌∙◌, true, not, Option, none, some, Text, text_eq, length,
  length-filter-not, if◌then◌else◌, ◌++◌,
}
use ts_plugins.Common.Maps
use ts_plugins.Common.Texts.{starts_with, starts_with-append}
use ts_plugins.Kv.{
  Json, ok, MemoryKvBackend, data_segment, prefix_of, key_regex, full_key, get, parsed,
}
use ts_plugins.Kv.Keys.{AreApart, starts_with_apart, full_key-some}
use ts_plugins.Kv.Reads.{view_of_get, view_of_none, get_view, get-get_view, full_key-accepted}
use ts_plugins.Kv.Listing.{clear, in_segment}

get_cleared :
    (namespace : Text) (backend : MemoryKvBackend) (k : Text)
    → Maps.get (clear namespace backend).1.values k ≡ (
        if not (starts_with k (prefix_of namespace data_segment))
        then Maps.get backend.values k
        else none)
unfolding clear
get_cleared namespace backend k =
    Maps.get-filter_keys (λ j. not (starts_with j (prefix_of namespace data_segment)))
      backend.values k

-- `clear` counts every entry that it removes, the expired ones too.
pub clear-length :
    (namespace : Text) (backend : MemoryKvBackend)
    → (clear namespace backend).0 + length (clear namespace backend).1.values
      ≡ length backend.values
unfolding clear
clear-length namespace backend =
    length-filter-not (in_segment namespace data_segment) backend.values

module _ {ℓ} {V : Type ℓ} (json : Json V) (namespace : Text) where
  -- After `clear` every key of the namespace reads as absent.
  pub get-clear_self :
      (backend : MemoryKvBackend) (key : Text) (later : ℕ)
      → key_regex key ≡ true
      → (get json namespace (clear namespace backend).1 key later).0 ≡ ok none
  get-clear_self backend key later h =
      get-get_view json namespace _ key later
      ∙ rw (
        full_key-accepted json namespace key h,
        view_of_none (clear namespace backend).1 (prefix_of namespace data_segment ++ key) later (
            get_cleared namespace backend (prefix_of namespace data_segment ++ key)
            ∙ rw (starts_with-append (prefix_of namespace data_segment) key)),
      )

  -- `clear` of one namespace changes no read of a namespace whose data prefix is apart.
  pub get-clear_other :
      (other : Text) (backend : MemoryKvBackend) (key : Text) (later : ℕ)
      → AreApart (prefix_of other data_segment) (prefix_of namespace data_segment)
      → (get json other (clear namespace backend).1 key later).0
        ≡ (get json other backend key later).0
  get-clear_other other backend key later apart =
      get-get_view json other _ key later
      ∙ at (full_key other data_segment key) refl
      ∙ sym (get-get_view json other backend key later)
    where
      at :
          (o : Option Text)
          → full_key other data_segment key ≡ o
          → get_view json other (clear namespace backend).1 later o
            ≡ get_view json other backend later o
      at none e = refl
      at (some k) e = ap (parsed json other) (
          view_of_get (clear namespace backend).1 backend k later (
            get_cleared namespace backend k
            ∙ rw (
              full_key-some other data_segment key k e,
              starts_with_apart (prefix_of other data_segment) (prefix_of namespace data_segment)
                  key apart,
            )))
