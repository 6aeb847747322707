-- ===== src/Kv/Reads.antt =====
-- What a client of the memory store of kv.ts reads after it has written, and what other clients
-- of the same backend read.
use ts_plugins.Common.{
  ℕ, ◌+◌, ◌*◌, ◌≤◌, ◌≡◌, refl, ap, sym, ◌∙◌, Bool, true, false, ◌&&◌, Option, none, some, ◌++◌,
  arith, leb, ltb, Text, text_eq, ==_iff, ==_refl, ◌==◌, Bool-cases, inl, inr, if◌then◌else◌, ℤ,
  pos, negsuc,
}
use ts_plugins.Common.Maps
use ts_plugins.Kv.{
  Json, Result, ok, throw, invalid_key, MemoryValue, MemoryKvBackend, data_segment, prefix_of,
  key_regex, full_key, is_live, read_value, ttl_ms, parsed, stored, get_at, set_at, del_at, get,
  set, del, is_there, exists_at, exists,
}
use ts_plugins.Kv.Keys.{full_key-some, AreApart, AreApart-ne}

-- What can be read under a full key at a time.
abbrev pub live_value : ℕ → Option MemoryValue → Option MemoryValue
live_value now none = none
live_value now (some value) = if is_live now value then some value else none

pub view : MemoryKvBackend → Text → ℕ → Option MemoryValue
view backend key now = live_value now (Maps.get backend.values key)

-- What is read depends on what is stored under the key alone.
pub view_of_get :
    (backend other : MemoryKvBackend) (key : Text) (now : ℕ)
    → Maps.get backend.values key ≡ Maps.get other.values key
    → view backend key now ≡ view other key now
unfolding view
view_of_get backend other key now h = ap (live_value now) h

pub view_of_none :
    (backend : MemoryKvBackend) (key : Text) (now : ℕ)
    → Maps.get backend.values key ≡ none
    → view backend key now ≡ none
unfolding view
view_of_none backend key now h = ap (live_value now) h

pub read_value-view :
    (backend : MemoryKvBackend) (key : Text) (now : ℕ)
    → (read_value backend key now).0 ≡ view backend key now
unfolding read_value view
read_value-view backend key now = ground arith

-- To read deletes only what has expired.
pub view-read_value :
    (backend : MemoryKvBackend) (key j : Text) (now later : ℕ)
    → now ≤ later
    → view (read_value backend key now).1 j later ≡ view backend j later
unfolding read_value view
view-read_value backend key j now later h =
    ground (arith, Maps.get-delete backend.values key j, ==_iff key j)

pub view-set :
    (backend : MemoryKvBackend) (k j : Text) (w : MemoryValue) (now : ℕ)
    → view (record backend { values = Maps.set backend.values k w }) j now
      ≡ (if k == j then live_value now (some w) else view backend j now)
unfolding view
view-set backend k j w now = ground (arith, Maps.get-set backend.values k j w)

pub view-delete :
    (backend : MemoryKvBackend) (k j : Text) (now : ℕ)
    → view (record backend { values = Maps.delete backend.values k }) j now
      ≡ (if k == j then none else view backend j now)
unfolding view
view-delete backend k j now = ground (arith, Maps.get-delete backend.values k j)

-- Whether what was written at the first time with this lifetime has ended at the second one.
abbrev pub has_ended : Option ℤ → ℕ → ℕ → Bool
has_ended none now later = false
has_ended (some (negsuc _)) now later = false
has_ended (some (pos seconds)) now later = ltb 0 seconds && leb (now + seconds * 1000) later

module _ {ℓ} {V : Type ℓ} (json : Json V) (namespace : Text) where
  abbrev pub get_view : MemoryKvBackend → ℕ → Option Text → Result (Option V)
  get_view backend now none = throw invalid_key
  get_view backend now (some k) = parsed json namespace (view backend k now)

  get_at-get_view :
      (backend : MemoryKvBackend) (now : ℕ) (o : Option Text)
      → (get_at json namespace backend now o).0 ≡ get_view backend now o
  get_at-get_view backend now none = refl
  get_at-get_view backend now (some k) = ap (parsed json namespace) (read_value-view backend k now)

  pub get-get_view :
      (backend : MemoryKvBackend) (key : Text) (now : ℕ)
      → (get json namespace backend key now).0
        ≡ get_view backend now (full_key namespace data_segment key)
  get-get_view backend key now =
      unfold get in get_at-get_view backend now (full_key namespace data_segment key)

  pub full_key-accepted :
      (key : Text)
      → key_regex key ≡ true
      → full_key namespace data_segment key ≡ some (prefix_of namespace data_segment ++ key)
  unfolding full_key
  full_key-accepted key h = rw h

  -- The clock that ends the life of a value that `set` wrote at `now`.
  pub live-stored :
      (v : V) (ttl : Option ℤ) (now later : ℕ)
      → live_value later (some (stored json namespace v ttl now))
        ≡ (if has_ended ttl now later then none else some (stored json namespace v ttl now))
  unfolding is_live ttl_ms
  live-stored v none now later = ground arith
  live-stored v (some (pos seconds)) now later = ground arith
  live-stored v (some (negsuc n)) now later = ground arith

  parsed-stored :
      (b : Bool) (v : V) (ttl : Option ℤ) (now : ℕ)
      → parsed json namespace (if b then none else some (stored json namespace v ttl now))
        ≡ ok (if b then none else some v)
  parsed-stored true v ttl now = refl
  parsed-stored false v ttl now = rw (json.parse-stringify v)

  -- A value that was set is read back unchanged until exactly `ttlSec` seconds later, and never
  -- again from then on; with no lifetime, or one that is not positive, it does not end.
  pub get-set_expiring :
      (backend : MemoryKvBackend) (key : Text) (v : V) (ttl : Option ℤ) (now later : ℕ)
      → key_regex key ≡ true
      → (get json namespace (set json namespace backend key (some v) ttl now).1 key later).0
        ≡ ok (if has_ended ttl now later then none else some v)
  unfolding set
  get-set_expiring backend key v ttl now later h =
      get-get_view _ key later
      ∙ rw (full_key-accepted key h, view-set, ==_refl, live-stored)
          (parsed-stored (has_ended ttl now later) v ttl now)

  -- After `del` the key reads as absent, and the answer says whether an entry stood there, expired
  -- or not.
  pub get-del_self :
      (backend : MemoryKvBackend) (key : Text) (later : ℕ)
      → key_regex key ≡ true
      → ((del namespace backend key).0
          ≡ ok (Maps.has backend.values (prefix_of namespace data_segment ++ key)))
        × ((get json namespace (del namespace backend key).1 key later).0 ≡ ok none)
  unfolding del
  get-del_self backend key later h =
      rw (full_key-accepted key h)
        (refl, get-get_view _ key later ∙ rw (full_key-accepted key h, view-delete, ==_refl))

  -- A read changes nothing that a later read of any key can show.
  pub get-get :
      (backend : MemoryKvBackend) (key key' : Text) (now later : ℕ)
      → now ≤ later
      → (get json namespace (get json namespace backend key now).1 key' later).0
        ≡ (get json namespace backend key' later).0
  unfolding get
  get-get backend key key' now later h =
      get-get_view _ key' later
      ∙ get_view-get_at (full_key namespace data_segment key) (full_key namespace data_segment key')
      ∙ sym (get-get_view backend key' later)
    where
      get_view-get_at :
          (o o' : Option Text)
          → get_view (get_at json namespace backend now o).1 later o' ≡ get_view backend later o'
      get_view-get_at o none = refl
      get_view-get_at none (some j) = refl
      get_view-get_at (some k) (some j) =
          ap (parsed json namespace) (view-read_value backend k j now later h)

module _ {ℓ} {V : Type ℓ} (json : Json V) (namespace other : Text) where
  -- Two optional keys that are not the same key.
  abbrev Differ : Option Text → Option Text → Type 0
  Differ o o' = (k j : Text) → o ≡ some k → o' ≡ some j → (k == j) ≡ false

  -- What can be seen under a full key that may be invalid.
  abbrev seen : MemoryKvBackend → ℕ → Option Text → Option (Option MemoryValue)
  seen backend later none = none
  seen backend later (some k) = some (view backend k later)

  abbrev get_seen : Option (Option MemoryValue) → Result (Option V)
  get_seen none = throw invalid_key
  get_seen (some value) = parsed json other value

  abbrev exists_seen : Option (Option MemoryValue) → Result Bool
  exists_seen none = throw invalid_key
  exists_seen (some value) = ok (is_there value)

  seen_after_set :
      (backend : MemoryKvBackend) (v : V) (ttl : Option ℤ) (now later : ℕ) (o o' : Option Text)
      → Differ o o'
      → seen (set_at json namespace backend v ttl now o).1 later o' ≡ seen backend later o'
  seen_after_set backend v ttl now later o none d = refl
  seen_after_set backend v ttl now later none (some j) d = refl
  seen_after_set backend v ttl now later (some k) (some j) d = rw (view-set, d k j refl refl)

  seen_after_del :
      (backend : MemoryKvBackend) (later : ℕ) (o o' : Option Text)
      → Differ o o'
      → seen (del_at backend o).1 later o' ≡ seen backend later o'
  seen_after_del backend later o none d = refl
  seen_after_del backend later none (some j) d = refl
  seen_after_del backend later (some k) (some j) d = rw (view-delete, d k j refl refl)

  get-get_seen :
      (backend : MemoryKvBackend) (key : Text) (later : ℕ)
      → (get json other backend key later).0
        ≡ get_seen (seen backend later (full_key other data_segment key))
  get-get_seen backend key later =
      get-get_view json other backend key later ∙ by_key (full_key other data_segment key)
    where
      by_key :
          (o : Option Text) → get_view json other backend later o ≡ get_seen (seen backend later o)
      by_key none = refl
      by_key (some k) = refl

  exists-exists_seen :
      (backend : MemoryKvBackend) (key : Text) (later : ℕ)
      → (exists other backend key later).0
        ≡ exists_seen (seen backend later (full_key other data_segment key))
  exists-exists_seen backend key later = unfold exists in by_key (full_key other data_segment key)
    where
      by_key :
          (o : Option Text) → (exists_at backend later o).0 ≡ exists_seen (seen backend later o)
      by_key none = refl
      by_key (some k) = ap (λ value. ok (is_there value)) (read_value-view backend k later)

  -- `get` and `exists` of the other store answer the same on two backends.
  abbrev pub AnswersSame : MemoryKvBackend → MemoryKvBackend → Text → ℕ → Type ℓ
  AnswersSame backend before key later =
      ((get json other backend key later).0 ≡ (get json other before key later).0)
      × ((exists other backend key later).0 ≡ (exists other before key later).0)

  seen-AnswersSame :
      (backend before : MemoryKvBackend) (key : Text) (later : ℕ)
      → seen backend later (full_key other data_segment key)
        ≡ seen before later (full_key other data_segment key)
      → AnswersSame backend before key later
  seen-AnswersSame backend before key later e = (
    get-get_seen backend key later ∙ ap get_seen e ∙ sym (get-get_seen before key later),
    exists-exists_seen backend key later
        ∙ ap exists_seen e
        ∙ sym (exists-exists_seen before key later),
  )

  full_key-Differ :
      (key key' : Text)
      → AreApart (prefix_of namespace data_segment) (prefix_of other data_segment)
      → Differ (full_key namespace data_segment key) (full_key other data_segment key')
  full_key-Differ key key' apart k j e e' = elim (Bool-cases (k == j)) [
    | inl same ↦ absurd (
        AreApart-ne _ _ key key' apart (
          sym (full_key-some namespace data_segment key k e)
          ∙ (==_iff k j).0 same
          ∙ full_key-some other data_segment key' j e'))
    | inr differ ↦ differ
  ]

  -- Two stores on one backend whose data prefixes are apart: whatever one sets or deletes, `get` and
  -- `exists` of the other, for any key, answer as before. (`listKeys` is not in this.)
  pub isolation :
      (backend : MemoryKvBackend) (key key' : Text) (v : Option V) (ttl : Option ℤ) (now later : ℕ)
      → AreApart (prefix_of namespace data_segment) (prefix_of other data_segment)
      → AnswersSame (set json namespace backend key v ttl now).1 backend key' later
        × AnswersSame (del namespace backend key).1 backend key' later
  unfolding set del
  isolation backend key key' none ttl now later apart = (
    (refl, refl),
    seen-AnswersSame _ backend key' later
        (seen_after_del backend later _ _ (full_key-Differ key key' apart)),
  )
  isolation backend key key' (some v) ttl now later apart = (
    seen-AnswersSame _ backend key' later
        (seen_after_set backend v ttl now later _ _ (full_key-Differ key key' apart)),
    seen-AnswersSame _ backend key' later
        (seen_after_del backend later _ _ (full_key-Differ key key' apart)),
  )
