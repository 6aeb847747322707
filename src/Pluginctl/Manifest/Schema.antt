-- ===== src/Pluginctl/Manifest/Schema.antt =====
-- The schema of packages/pluginctl/src/manifest-schema.ts on its own results.
use ts_plugins.Common.{◌≡◌, refl, Bool, Option, none, some, List, [], ◌∷◌, text_eq, codes}
use ts_plugins.Pluginctl.Values.{object, JsonFields, member, Literal, defined, member-defined}
use ts_plugins.Pluginctl.Manifest.{
  FilledText, Positive, Activation, Concurrency, Contract, RuntimeSection, Observability, Integrity,
  PluginManifest, optional, filled, positive, flag, filled_texts, texts, in_object, read_activation,
  read_concurrency, read_contract, read_runtime, read_observability, read_integrity, parse_manifest,
  lazy, startup, serial, parallel_safe, max_concurrency,
}
use ts_plugins.Pluginctl.Manifest.Written.{
  optional_text, text_values, optional_texts, optional_number, optional_flag, activation_literal,
  concurrency_literal, contract_literal, runtime_literal, observability_literal, integrity_literal,
  optional_object, manifest_literal, manifest_fields,
}

optional-text : (o : Option FilledText) → optional filled (optional_text o) ≡ some o
optional-text none = refl
optional-text (some t) = refl

optional-number : (o : Option Positive) → optional positive (optional_number o) ≡ some o
optional-number none = refl
optional-number (some n) = refl

optional-flag : (o : Option Bool) → optional flag (optional_flag o) ≡ some o
optional-flag none = refl
optional-flag (some b) = refl

filled_texts-values : (ts : List FilledText) → filled_texts (text_values ts) ≡ some ts
filled_texts-values [] = refl
filled_texts-values (t ∷ ts) = rw (filled_texts-values ts) refl

optional-texts : (o : Option (List FilledText)) → optional texts (optional_texts o) ≡ some o
optional-texts none = refl
optional-texts (some ts) = rw (optional, filled_texts-values ts) refl

read_activation-literal :
    (a : Activation) → read_activation (defined (activation_literal a)) ≡ some a
unfolding member
read_activation-literal lazy = refl
read_activation-literal startup = refl

read_concurrency-literal :
    (c : Concurrency) → read_concurrency (defined (concurrency_literal c)) ≡ some c
unfolding member
read_concurrency-literal serial = refl
read_concurrency-literal parallel_safe = refl
read_concurrency-literal (max_concurrency n) = refl

read_contract-literal : (c : Contract) → read_contract (defined (contract_literal c)) ≡ some c
unfolding member
read_contract-literal c =
    rw
      (
        member-defined (contract_literal c) (codes "protoSources") refl,
        optional-texts c.proto_sources,
      )
      refl

read_integrity-literal : (i : Integrity) → read_integrity (defined (integrity_literal i)) ≡ some i
read_integrity-literal i =
    rw
      (
        member-defined (integrity_literal i) (codes "packageSha256") refl,
        optional-text i.package_sha256,
      )
      refl

read_observability-literal :
    (o : Observability) → read_observability (defined (observability_literal o)) ≡ some o
read_observability-literal o =
    rw
      (
        member-defined (observability_literal o) (codes "emitLogs") refl,
        member-defined (observability_literal o) (codes "emitTraces") refl,
        member-defined (observability_literal o) (codes "emitMetrics") refl,
        optional-flag o.emit_logs,
        optional-flag o.emit_traces,
        optional-flag o.emit_metrics,
      )
      refl

read_runtime-literal : (r : RuntimeSection) → read_runtime (defined (runtime_literal r)) ≡ some r
read_runtime-literal r =
    rw
      (
        member-defined (runtime_literal r) (codes "idleEvictionMs") refl,
        member-defined (runtime_literal r) (codes "language") refl,
        member-defined (runtime_literal r) (codes "activation") refl,
        member-defined (runtime_literal r) (codes "concurrency") refl,
        member-defined (runtime_literal r) (codes "initTimeoutMs") refl,
        member-defined (runtime_literal r) (codes "requestTimeoutMs") refl,
        read_activation-literal r.activation,
        read_concurrency-literal r.concurrency,
        optional-number r.idle_eviction_ms,
      )
      refl

optional-object {ℓ} :
    {A : Type ℓ} (literal : A → Literal) (read : JsonFields → Option A)
    → ((a : A) → read (defined (literal a)) ≡ some a)
    → (o : Option A) → optional (in_object read) (optional_object literal o) ≡ some o
optional-object literal read h none = refl
optional-object literal read h (some a) = rw (optional, h a) refl

-- The schema accepts what `JSON.stringify` prints of any manifest, and returns that manifest.
pub parse_manifest-fields :
    (m : PluginManifest) → parse_manifest (object (manifest_fields m)) ≡ some m
unfolding parse_manifest manifest_fields
parse_manifest-fields m =
    rw
      (
        member-defined (manifest_literal m) (codes "displayName") refl,
        member-defined (manifest_literal m) (codes "description") refl,
        member-defined (manifest_literal m) (codes "main") refl,
        member-defined (manifest_literal m) (codes "sourceMap") refl,
        member-defined (manifest_literal m) (codes "contract") refl,
        member-defined (manifest_literal m) (codes "runtime") refl,
        member-defined (manifest_literal m) (codes "observability") refl,
        member-defined (manifest_literal m) (codes "integrity") refl,
        optional-text m.display_name,
        optional-text m.description,
        optional-text m.source_map,
        read_contract-literal m.contract,
        read_runtime-literal m.runtime,
        optional-object observability_literal read_observability read_observability-literal
            m.observability,
        optional-object integrity_literal read_integrity read_integrity-literal m.integrity,
      )
      refl
