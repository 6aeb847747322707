-- ===== src/Kv/Redis/Same.antt =====
-- The store on Redis of packages/plugin-runtime/src/kv.ts beside the memory store.
use mathlib.Core.Path.{subst}
use ts_plugins.Common.{
  ℕ, ◌+◌, ◌*◌, ◌≤◌, ◌≡◌, refl, ap, sym, ◌∙◌, Option, none, some, arith, ltb, leb, nat_eq, Text,
  text_eq, ◌==◌, ==_iff, ℤ, pos, negsuc, Bool-cases, Option-cases, inl, inr,
}
use ts_plugins.Common.Maps
use ts_plugins.Kv.{
  Json, ok, MemoryValue, MemoryKvBackend, data_segment, full_key, parsed, stored, set_at, is_there,
  get, read_value, exists_at, del_at,
}
use ts_plugins.Kv.Reads.{
  live_value, view, view-set, view-delete, view-read_value, read_value-view, live-stored, get_view,
  get-get_view,
}
use ts_plugins.Kv.Redis.{
  redis_del_at, redis_exists_at, RedisCommands, parsed_reply, redis_set_at, redis_get,
}
use ts_plugins.Kv.Redis.Laws.{count_of, IsRedis, set_of, forgotten, IsOff}

abbrev pub payload_of : Option MemoryValue → Option Text
payload_of none = none
payload_of (some value) = some value.payload

module _ {ℓ κ} {S : Type ℓ} {V : Type κ} (client : RedisCommands S) (laws : IsRedis client)
    (json : Json V) where
  -- At a time, the two stores have the same under every full key.
  abbrev pub Shows : MemoryKvBackend → S → ℕ → Type 0
  Shows backend s now = (k : Text) → client.get_command s k now ≡ payload_of (view backend k now)

  parsed_reply-payload :
      (namespace : Text) (o : Option MemoryValue)
      → parsed_reply client json namespace (payload_of o) ≡ parsed json namespace o
  parsed_reply-payload namespace none = refl
  parsed_reply-payload namespace (some value) = refl

  get_view_same :
      (namespace key : Text) (now : ℕ) (backend : MemoryKvBackend) (s : S)
      → Shows backend s now
      → redis_get client json namespace s key now
        ≡ get_view json namespace backend now (full_key namespace data_segment key)
  unfolding redis_get
  get_view_same namespace key now backend s h =
      elim (Option-cases (full_key namespace data_segment key)) [
        | inl absent ↦ rw (redis_get, absent) refl
        | inr (k, e) ↦
            rw (redis_get, e)
              (ap (parsed_reply client json namespace) (h k)
                ∙ parsed_reply-payload namespace (view backend k now))
      ]

  pub get_same :
      (namespace key : Text) (now : ℕ) (backend : MemoryKvBackend) (s : S)
      → Shows backend s now
      → (get json namespace backend key now).0 ≡ redis_get client json namespace s key now
  get_same namespace key now backend s h =
      get-get_view json namespace backend key now
      ∙ sym (get_view_same namespace key now backend s h)

  pub get-Shows :
      (namespace key : Text) (now later : ℕ) (backend : MemoryKvBackend) (s : S)
      → now ≤ later
      → Shows backend s later
      → Shows (get json namespace backend key now).1 s later
  unfolding get
  get-Shows namespace key now later backend s order h j =
      elim (Option-cases (full_key namespace data_segment key)) [
        | inl absent ↦ rw absent (h j)
        | inr (k, e) ↦
            rw e (h j ∙ ap payload_of (sym (view-read_value backend k j now later order)))
      ]

  set_self :
      (s : S) (k namespace : Text) (v : V) (ttl : Option ℤ) (now later : ℕ)
      → now ≤ later
      → IsOff (set_of k (some v) ttl) now later
      → client.get_command (redis_set_at client json namespace s v ttl now (some k)).1 k later
        ≡ payload_of (live_value later (some (stored json namespace v ttl now)))
  set_self s k namespace v none now later order off =
      rw (live-stored) (laws.get-set_lasting s k (json.stringify v) now later order)
  set_self s k namespace v (some (negsuc n)) now later order off =
      rw (live-stored) (laws.get-set_lasting s k (json.stringify v) now later order)
  set_self s k namespace v (some (pos seconds)) now later order off =
      rw (live-stored) (elim (Bool-cases (ltb 0 seconds)) [
        | inr never ↦ rw never (laws.get-set_lasting s k (json.stringify v) now later order)
        | inl positive ↦ elim (Bool-cases (leb (now + seconds * 1000) later)) [
          | inl ended ↦
              rw (positive, ended)
                (laws.get-set_late s k (json.stringify v) seconds now later (ground arith))
          | inr alive ↦
              rw (positive, alive)
                (laws.get-set_early s k (json.stringify v) seconds now later order (ground arith))
        ]
      ])

  pub set_at-Shows :
      (namespace : Text) (v : V) (ttl : Option ℤ) (now later : ℕ) (o : Option Text)
      (backend : MemoryKvBackend) (s : S)
      → now ≤ later
      → ((k : Text) → IsOff (set_of k (some v) ttl) now later)
      → Shows backend s later
      → Shows
          (set_at json namespace backend v ttl now o).1
          (redis_set_at client json namespace s v ttl now o).1
          later
  set_at-Shows namespace v ttl now later none backend s order off h j = h j
  set_at-Shows namespace v ttl now later (some k) backend s order off h j =
      elim (Bool-cases (k == j)) [
        | inl same ↦
            subst
              (λ j'.
                client.get_command (redis_set_at client json namespace s v ttl now (some k)).1 j'
                  later
                ≡ payload_of (live_value later (some (stored json namespace v ttl now))))
              ((==_iff k j).0 same) (set_self s k namespace v ttl now later order (off k))
            ∙ ap payload_of
                (sym (view-set backend k j (stored json namespace v ttl now) later ∙ rw same refl))
        | inr other ↦
            laws.get-set_other s k j (json.stringify v) _ now later other order
            ∙ h j
            ∙ ap payload_of
                (sym (view-set backend k j (stored json namespace v ttl now) later ∙ rw other refl))
      ]

  delete-Shows :
      (now later : ℕ) (k : Text) (backend : MemoryKvBackend) (s : S)
      → now ≤ later
      → Shows backend s later
      → Shows
          (record backend { values = Maps.delete backend.values k })
          (client.unlink s k now).1
          later
  delete-Shows now later k backend s order h j = elim (Bool-cases (k == j)) [
    | inl same ↦ rw (laws.get-unlink s k j now later order, view-delete, same) refl
    | inr other ↦ rw (laws.get-unlink s k j now later order, view-delete, other) (h j)
  ]

  counted : (o : Option MemoryValue) → is_there o ≡ nat_eq (count_of (payload_of o)) 1
  counted none = refl
  counted (some value) = refl

  exists_at_same :
      (now : ℕ) (k : Text) (backend : MemoryKvBackend) (s : S)
      → Shows backend s now
      → is_there (read_value backend k now).0 ≡ nat_eq (client.exists_command s k now) 1
  exists_at_same now k backend s h =
      ap is_there (read_value-view backend k now)
      ∙ counted (view backend k now)
      ∙ ap (λ o. nat_eq (count_of o) 1) (sym (h k))
      ∙ ap (λ n. nat_eq n 1) (sym (laws.exists-get s k now))

  pub exists_same :
      (namespace : Text) (now : ℕ) (o : Option Text) (backend : MemoryKvBackend) (s : S)
      → Shows backend s now
      → (exists_at backend now o).0 ≡ redis_exists_at client namespace s now o
  exists_same namespace now none backend s h = refl
  exists_same namespace now (some k) backend s h = ap ok (exists_at_same now k backend s h)

  pub exists_Shows :
      (now later : ℕ) (o : Option Text) (backend : MemoryKvBackend) (s : S)
      → now ≤ later
      → Shows backend s later
      → Shows (exists_at backend now o).1 s later
  exists_Shows now later none backend s order h j = h j
  exists_Shows now later (some k) backend s order h j =
      h j ∙ ap payload_of (sym (view-read_value backend k j now later order))

  pub del_same :
      (namespace : Text) (now : ℕ) (o : Option Text) (backend : MemoryKvBackend) (s : S)
      → forgotten (del_at backend o).0 ≡ forgotten (redis_del_at client namespace s now o).0
  del_same namespace now none backend s = refl
  del_same namespace now (some k) backend s = refl

  pub del-Shows :
      (namespace : Text) (now later : ℕ) (o : Option Text) (backend : MemoryKvBackend) (s : S)
      → now ≤ later
      → Shows backend s later
      → Shows (del_at backend o).1 (redis_del_at client namespace s now o).1 later
  del-Shows namespace now later none backend s order h = h
  del-Shows namespace now later (some k) backend s order h =
      delete-Shows now later k backend s order h

  pub set_at_same :
      (namespace : Text) (v : V) (ttl : Option ℤ) (now : ℕ) (o : Option Text)
      (backend : MemoryKvBackend) (s : S)
      → (set_at json namespace backend v ttl now o).0
        ≡ (redis_set_at client json namespace s v ttl now o).0
  set_at_same namespace v ttl now none backend s = refl
  set_at_same namespace v ttl now (some k) backend s =
      ap ok (sym (laws.set_ok s k (json.stringify v) _ now))
