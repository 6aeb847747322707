-- ===== src/Pluginctl/Manifest/Written.antt =====
-- The objects that the schema of packages/pluginctl/src/manifest-schema.ts returns.
use ts_plugins.Common.{Bool, Option, none, some, List, [], ◌∷◌, text_eq, codes}
use ts_plugins.Pluginctl.Values.{
  JsonValue, whole, boolean, string, array, object, JsonValues, no_values, value, JsonFields,
  Literal, defined,
}
use ts_plugins.Pluginctl.Manifest.{
  FilledText, text_of, Positive, number_of, Activation, Concurrency, Contract, RuntimeSection,
  Observability, Integrity, PluginManifest, lazy, startup, serial, parallel_safe, max_concurrency,
}

abbrev pub optional_text : Option FilledText → Option JsonValue
optional_text none = none
optional_text (some t) = some (string (text_of t))

abbrev pub text_values : List FilledText → JsonValues
text_values [] = no_values
text_values (t ∷ ts) = value (string (text_of t)) (text_values ts)

abbrev pub optional_texts : Option (List FilledText) → Option JsonValue
optional_texts none = none
optional_texts (some ts) = some (array (text_values ts))

abbrev pub optional_number : Option Positive → Option JsonValue
optional_number none = none
optional_number (some n) = some (whole (number_of n))

abbrev pub optional_flag : Option Bool → Option JsonValue
optional_flag none = none
optional_flag (some b) = some (boolean b)

-- The objects that the schemas return.
abbrev pub activation_literal : Activation → Literal
activation_literal lazy = (codes "mode", some (string (codes "lazy"))) ∷ []
activation_literal startup = (codes "mode", some (string (codes "startup"))) ∷ []

abbrev pub concurrency_literal : Concurrency → Literal
concurrency_literal serial = (codes "mode", some (string (codes "serial"))) ∷ []
concurrency_literal parallel_safe = (codes "mode", some (string (codes "parallel-safe"))) ∷ []
concurrency_literal (max_concurrency n) =
    (codes "mode", some (string (codes "max_concurrency")))
    ∷ (codes "maxConcurrency", some (whole (number_of n)))
    ∷ []

abbrev pub contract_literal : Contract → Literal
contract_literal c =
    (codes "descriptorSet", some (string (text_of c.descriptor_set)))
    ∷ (codes "service", some (string (text_of c.service)))
    ∷ (codes "protoSources", optional_texts c.proto_sources)
    ∷ []

abbrev pub runtime_literal : RuntimeSection → Literal
runtime_literal r =
    (codes "language", some (string (codes "node")))
    ∷ (codes "activation", some (object (defined (activation_literal r.activation))))
    ∷ (codes "concurrency", some (object (defined (concurrency_literal r.concurrency))))
    ∷ (codes "initTimeoutMs", some (whole (number_of r.init_timeout_ms)))
    ∷ (codes "requestTimeoutMs", some (whole (number_of r.request_timeout_ms)))
    ∷ (codes "idleEvictionMs", optional_number r.idle_eviction_ms)
    ∷ []

abbrev pub observability_literal : Observability → Literal
observability_literal o =
    (codes "emitLogs", optional_flag o.emit_logs)
    ∷ (codes "emitTraces", optional_flag o.emit_traces)
    ∷ (codes "emitMetrics", optional_flag o.emit_metrics)
    ∷ []

abbrev pub integrity_literal : Integrity → Literal
integrity_literal i = (codes "packageSha256", optional_text i.package_sha256) ∷ []

abbrev pub optional_object {ℓ} : {A : Type ℓ} → (A → Literal) → Option A → Option JsonValue
optional_object literal none = none
optional_object literal (some a) = some (object (defined (literal a)))

abbrev pub manifest_literal : PluginManifest → Literal
manifest_literal m =
    (codes "schemaVersion", some (whole 1))
    ∷ (codes "id", some (string (text_of m.id)))
    ∷ (codes "version", some (string (text_of m.version)))
    ∷ (codes "displayName", optional_text m.display_name)
    ∷ (codes "description", optional_text m.description)
    ∷ (codes "main", some (string (text_of m.main)))
    ∷ (codes "sourceMap", optional_text m.source_map)
    ∷ (codes "contract", some (object (defined (contract_literal m.contract))))
    ∷ (codes "runtime", some (object (defined (runtime_literal m.runtime))))
    ∷ (codes "observability", optional_object observability_literal m.observability)
    ∷ (codes "integrity", optional_object integrity_literal m.integrity)
    ∷ []

-- A manifest as `JSON.stringify` prints it.
unfoldable pub manifest_fields : PluginManifest → JsonFields
manifest_fields m = defined (manifest_literal m)
