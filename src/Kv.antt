-- ===== src/Kv.antt =====
-- packages/plugin-runtime/src/kv.ts: the memory-backed store that plugins see as `ctx.kv`.
-- Several stores may share one backend. `Date.now()` is the argument `now`, read once in a call.
-- `JSON.stringify` and `JSON.parse` are the parameter `Json`. A lifetime is a whole number of seconds.
pub mod Keys
pub mod Reads
pub mod Patterns
pub mod Listing
pub mod Lock
pub mod Redis
use ts_plugins.Common.{
  ℕ, ◌+◌, ◌*◌, ◌≡◌, Bool, true, false, not, ◌&&◌, ◌||◌, Option, none, some, List, [], ◌∷◌, ◌++◌,
  map, ltb, leb, nat_eq, if◌then◌else◌, length, drop, filter, all, Text, codes, JsMap, ℤ, max_zero,
  text_eq, ◌==◌,
}
use ts_plugins.Common.Maps
use ts_plugins.Common.Texts.{starts_with}

-- The serializer, and what the store relies on.
pub record Json {ℓ} (V : Type ℓ) : Type ℓ where
  pub stringify : V → Text
  pub parse : Text → Option V
  pub parse-stringify : (v : V) → parse (stringify v) ≡ some v

pub data KvError : Type 0 where
  invalid_key undefined_value lock_busy syntax_error : KvError

pub data Result {ℓ} (A : Type ℓ) : Type ℓ where
  ok : A → Result A
  throw : KvError → Result A

pub record MemoryValue : Type 0 where
  pub payload : Text
  pub expires_at : Option ℕ

pub record MemoryLock : Type 0 where
  pub token : Text
  pub expires_at : ℕ

pub record MemoryKvBackend : Type 0 where
  pub values : JsMap Text MemoryValue
  pub locks : JsMap Text MemoryLock

abbrev pub create_memory_kv_backend : MemoryKvBackend
create_memory_kv_backend = record { values = []; locks = [] }

-- One code unit of the class `[A-Za-z0-9:_-]`.
unfoldable pub is_key_char : ℕ → Bool
is_key_char c =
    leb b'A' c && leb c b'Z'
    || leb b'a' c && leb c b'z'
    || leb b'0' c && leb c b'9'
    || nat_eq c b':'
    || nat_eq c b'_'
    || nat_eq c b'-'

-- `KEY_REGEX.test(key)`
unfoldable pub key_regex : Text → Bool
unfolding is_key_char
key_regex key = leb 1 (length key) && leb (length key) 512 && all is_key_char key

pub data Segment : Type 0 where
  data_segment lock_segment : Segment

abbrev pub segment_name : Segment → Text
segment_name data_segment = codes ":data:"
segment_name lock_segment = codes ":lock:"

abbrev pub prefix_of : Text → Segment → Text
prefix_of namespace segment = namespace ++ segment_name segment

-- `dataKey` and `lockKey`, for a key that `validateKey` accepts; `none` is its throw.
unfoldable pub full_key : Text → Segment → Text → Option Text
unfolding key_regex
full_key namespace segment key =
    if key_regex key then some (prefix_of namespace segment ++ key) else none

unfoldable pub bare_key : Text → Text → Segment → Text
unfolding starts_with
bare_key namespace key segment =
    let prefix = prefix_of namespace segment in
    if starts_with key prefix then drop (length prefix) key else key

-- Whether a value is there at `now`: `expiresAt <= now` is gone.
unfoldable pub is_live : ℕ → MemoryValue → Bool
is_live now value = elim value.expires_at [ none ↦ true | some t ↦ not (leb t now) ]

-- `readValue` for the value that is stored under the key: an expired one is deleted.
unfoldable pub read_found :
    MemoryKvBackend → Text → ℕ → Option MemoryValue → Option MemoryValue × MemoryKvBackend
unfolding is_live
read_found backend key now none = (none, backend)
read_found backend key now (some value) =
    if is_live now value
    then (some value, backend)
    else (none, record backend { values = Maps.delete backend.values key })

unfoldable pub read_value : MemoryKvBackend → Text → ℕ → Option MemoryValue × MemoryKvBackend
unfolding read_found
read_value backend key now = read_found backend key now (Maps.get backend.values key)

unfoldable pub ttl_ms : Option ℤ → ℕ
ttl_ms none = 0
ttl_ms (some t) = max_zero t * 1000

module _ {ℓ} {V : Type ℓ} (json : Json V) (namespace : Text) where
  open json use {stringify, parse}

  abbrev pub parsed : Option MemoryValue → Result (Option V)
  parsed none = ok none
  parsed (some value) = elim (parse value.payload) [
    | none ↦ throw syntax_error
    | some v ↦ ok (some v)
  ]

  abbrev pub get_at : MemoryKvBackend → ℕ → Option Text → Result (Option V) × MemoryKvBackend
  get_at backend now none = (throw invalid_key, backend)
  get_at backend now (some key) =
      let (value, backend') = read_value backend key now in (parsed value, backend')

  -- `none` is `null`.
  unfoldable pub get : MemoryKvBackend → Text → ℕ → Result (Option V) × MemoryKvBackend
  unfolding read_value
  get backend key now = get_at backend now (full_key namespace data_segment key)

  -- What `set` stores.
  abbrev pub stored : V → Option ℤ → ℕ → MemoryValue
  stored v ttl now = record {
    payload = stringify v;
    expires_at = if ltb 0 (ttl_ms ttl) then some (now + ttl_ms ttl) else none;
  }

  abbrev pub set_at :
      MemoryKvBackend → V → Option ℤ → ℕ → Option Text → Result Bool × MemoryKvBackend
  set_at backend v ttl now none = (throw invalid_key, backend)
  set_at backend v ttl now (some key) =
      (ok true, record backend { values = Maps.set backend.values key (stored v ttl now) })

  -- The value `none` is `undefined`.
  unfoldable pub set :
      MemoryKvBackend → Text → Option V → Option ℤ → ℕ → Result Bool × MemoryKvBackend
  unfolding ttl_ms
  set backend key none ttl now = (throw undefined_value, backend)
  set backend key (some v) ttl now = set_at backend v ttl now (full_key namespace data_segment key)

abbrev pub del_at : MemoryKvBackend → Option Text → Result Bool × MemoryKvBackend
del_at backend none = (throw invalid_key, backend)
del_at backend (some key) =
    (ok (Maps.has backend.values key), record backend { values = Maps.delete backend.values key })

unfoldable pub del : Text → MemoryKvBackend → Text → Result Bool × MemoryKvBackend
del namespace backend key = del_at backend (full_key namespace data_segment key)

abbrev pub is_there : Option MemoryValue → Bool
is_there none = false
is_there (some value) = true

abbrev pub exists_at : MemoryKvBackend → ℕ → Option Text → Result Bool × MemoryKvBackend
exists_at backend now none = (throw invalid_key, backend)
exists_at backend now (some key) =
    let (value, backend') = read_value backend key now in (ok (is_there value), backend')

unfoldable pub exists : Text → MemoryKvBackend → Text → ℕ → Result Bool × MemoryKvBackend
unfolding read_value
exists namespace backend key now = exists_at backend now (full_key namespace data_segment key)
