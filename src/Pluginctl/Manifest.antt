-- ===== src/Pluginctl/Manifest.antt =====
-- packages/pluginctl/src/manifest-schema.ts: the manifest `plugin.json`, and its schema as a
-- decoder. An object schema drops the keys that it does not name, and its result has the keys of the
-- schema, in the schema's order.
pub mod Written
pub mod Schema
use ts_plugins.Common.{
  ℕ, zero, suc, ◌≡◌, refl, Bool, true, false, Option, none, some, List, [], ◌∷◌, map, if◌then◌else◌,
  Text, text_eq, ◌==◌, codes,
}
use ts_plugins.Pluginctl.Values.{
  JsonValue, whole, boolean, string, array, object, JsonValues, no_values, value, JsonFields,
  member, Literal, defined, ◌>>=◌,
}

-- `z.string().min(1)`: the first code unit and the others.
pub record FilledText : Type 0 where
  pub first : ℕ
  pub others : Text

abbrev pub text_of : FilledText → Text
text_of t = t.first ∷ t.others

-- `z.number().int().positive()`, whose numbers are safe integers as those of `whole` are.
pub record Positive : Type 0 where
  pub predecessor : ℕ

abbrev pub number_of : Positive → ℕ
number_of n = suc n.predecessor

pub data Activation : Type 0 where
  lazy startup : Activation

pub data Concurrency : Type 0 where
  serial parallel_safe : Concurrency
  max_concurrency : Positive → Concurrency

pub record Contract : Type 0 where
  pub descriptor_set : FilledText
  pub service : FilledText
  pub proto_sources : Option (List FilledText)

pub record RuntimeSection : Type 0 where
  pub activation : Activation
  pub concurrency : Concurrency
  pub init_timeout_ms : Positive
  pub request_timeout_ms : Positive
  pub idle_eviction_ms : Option Positive

pub record Observability : Type 0 where
  pub emit_logs : Option Bool
  pub emit_traces : Option Bool
  pub emit_metrics : Option Bool

pub record Integrity : Type 0 where
  pub package_sha256 : Option FilledText

pub record PluginManifest : Type 0 where
  pub id : FilledText
  pub version : FilledText
  pub display_name : Option FilledText
  pub description : Option FilledText
  pub main : FilledText
  pub source_map : Option FilledText
  pub contract : Contract
  pub runtime : RuntimeSection
  pub observability : Option Observability
  pub integrity : Option Integrity

-- A schema, on a value that may be `undefined`; `none` is its error.
abbrev pub Schema {ℓ} : Type ℓ → Type ℓ
Schema A = Option JsonValue → Option A

abbrev pub optional {ℓ} : {A : Type ℓ} → Schema A → Schema (Option A)
optional schema none = some none
optional schema (some v) = elim (schema (some v)) [ none ↦ none | some a ↦ some (some a) ]

abbrev pub filled : Schema FilledText
filled (some (string (c ∷ t))) = some (record { first = c; others = t })
filled v = none

abbrev pub positive : Schema Positive
positive (some (whole (suc n))) = some (record { predecessor = n })
positive v = none

abbrev pub flag : Schema Bool
flag (some (boolean b)) = some b
flag v = none

abbrev pub filled_texts : JsonValues → Option (List FilledText)
filled_texts no_values = some []
filled_texts (value v values) = do t ← filled (some v); ts ← filled_texts values; some (t ∷ ts)

abbrev pub texts : Schema (List FilledText)
texts (some (array values)) = filled_texts values
texts v = none

-- `z.literal`, and one literal of `z.enum`
abbrev pub is_literal : Text → Option JsonValue → Bool
is_literal t (some (string s)) = s == t
is_literal t v = false

abbrev pub is_one : Option JsonValue → Bool
is_one (some (whole (suc zero))) = true
is_one v = false

abbrev pub required : Bool → Option (Unit {0})
required true = some tt
required false = none

abbrev pub in_object {ℓ} : {A : Type ℓ} → (JsonFields → Option A) → Schema A
in_object read (some (object fields)) = read fields
in_object read v = none

abbrev pub read_activation : JsonFields → Option Activation
read_activation fields =
    if is_literal (codes "lazy") (member fields (codes "mode"))
    then some lazy
    else if is_literal (codes "startup") (member fields (codes "mode"))
    then some startup
    else none

abbrev pub limited : Option Positive → Option Concurrency
limited none = none
limited (some n) = some (max_concurrency n)

abbrev pub read_concurrency : JsonFields → Option Concurrency
read_concurrency fields =
    if is_literal (codes "serial") (member fields (codes "mode"))
    then some serial
    else if is_literal (codes "parallel-safe") (member fields (codes "mode"))
    then some parallel_safe
    else if is_literal (codes "max_concurrency") (member fields (codes "mode"))
    then limited (positive (member fields (codes "maxConcurrency")))
    else none

abbrev pub read_contract : JsonFields → Option Contract
read_contract fields = do
  descriptor_set ← filled (member fields (codes "descriptorSet"))
  service ← filled (member fields (codes "service"))
  sources ← optional texts (member fields (codes "protoSources"))
  some (record { descriptor_set = descriptor_set; service = service; proto_sources = sources })

abbrev pub read_runtime : JsonFields → Option RuntimeSection
read_runtime fields = do
  language ← required (is_literal (codes "node") (member fields (codes "language")))
  activation ← in_object read_activation (member fields (codes "activation"))
  concurrency ← in_object read_concurrency (member fields (codes "concurrency"))
  init_timeout ← positive (member fields (codes "initTimeoutMs"))
  request_timeout ← positive (member fields (codes "requestTimeoutMs"))
  idle_eviction ← optional positive (member fields (codes "idleEvictionMs"))
  some (record {
    activation = activation;
    concurrency = concurrency;
    init_timeout_ms = init_timeout;
    request_timeout_ms = request_timeout;
    idle_eviction_ms = idle_eviction;
  })

abbrev pub read_observability : JsonFields → Option Observability
read_observability fields = do
  logs ← optional flag (member fields (codes "emitLogs"))
  traces ← optional flag (member fields (codes "emitTraces"))
  metrics ← optional flag (member fields (codes "emitMetrics"))
  some (record { emit_logs = logs; emit_traces = traces; emit_metrics = metrics })

abbrev pub read_integrity : JsonFields → Option Integrity
read_integrity fields = do
  sha ← optional filled (member fields (codes "packageSha256"))
  some (record { package_sha256 = sha })

abbrev pub read_manifest : JsonFields → Option PluginManifest
read_manifest fields = do
  schema_version ← required (is_one (member fields (codes "schemaVersion")))
  id ← filled (member fields (codes "id"))
  version ← filled (member fields (codes "version"))
  display_name ← optional filled (member fields (codes "displayName"))
  description ← optional filled (member fields (codes "description"))
  main ← filled (member fields (codes "main"))
  source_map ← optional filled (member fields (codes "sourceMap"))
  contract ← in_object read_contract (member fields (codes "contract"))
  runtime ← in_object read_runtime (member fields (codes "runtime"))
  observability ← optional (in_object read_observability) (member fields (codes "observability"))
  integrity ← optional (in_object read_integrity) (member fields (codes "integrity"))
  some (record {
    id = id;
    version = version;
    display_name = display_name;
    description = description;
    main = main;
    source_map = source_map;
    contract = contract;
    runtime = runtime;
    observability = observability;
    integrity = integrity;
  })

-- `pluginManifestSchema.parse`
unfoldable pub parse_manifest : JsonValue → Option PluginManifest
unfolding member
parse_manifest v = in_object read_manifest (some v)
