-- ===== src/Runtime/Context.antt =====
-- Where log records and trace events go in packages/plugin-runtime/src/context.ts, the records of
-- logger.ts and the attributes of tracing.ts.
use ts_plugins.Common.{Option, none, some, Bool, true, false, ◌&&◌, Text}
use ts_plugins.Runtime.Values.{boolean, number, string, Fields, end, field}
use ts_plugins.Runtime.Tracing.{is_hex_of}

pub data Sink {ℓ} (F : Type ℓ) : Type ℓ where
  no_sink default_sink : Sink F
  given : F → Sink F

module _ {ℓ} {F : Type ℓ} where
  abbrev pub resolve_emitted : Option F → Bool → Sink F
  resolve_emitted none true = no_sink
  resolve_emitted none false = default_sink
  resolve_emitted (some sink) in_test = given sink

  -- `resolveLogSink`: `emitLogs`, the caller's sink, and whether this is a test environment.
  unfoldable pub resolve_log_sink : Option Bool → Option F → Bool → Sink F
  resolve_log_sink (some false) sink in_test = no_sink
  resolve_log_sink (some true) sink in_test = resolve_emitted sink in_test
  resolve_log_sink none sink in_test = resolve_emitted sink in_test

  -- `resolveTraceSink`: the same for `emitTraces`.
  unfoldable pub resolve_trace_sink : Option Bool → Option F → Bool → Sink F
  resolve_trace_sink (some false) sink in_test = no_sink
  resolve_trace_sink (some true) sink in_test = resolve_emitted sink in_test
  resolve_trace_sink none sink in_test = resolve_emitted sink in_test

-- `isTestEnvironment`: the variables `VITEST` and `NODE_ENV`, the latter as whether it is "test".
unfoldable pub is_test_environment : Option Text → Bool → Bool
is_test_environment (some value) node_env_is_test = true
is_test_environment none node_env_is_test = node_env_is_test

pub data LogLevel : Type 0 where
  info warn error_level : LogLevel

pub record LogEvent : Type 0 where
  pub level : LogLevel
  pub message : Text
  pub plugin_id : Text
  pub runtime_instance_id : Text
  pub request_id : Text
  pub trace_id : Option Text
  pub attributes : Fields

pub record StructuredLoggerOptions : Type 0 where
  pub plugin_id : Text
  pub runtime_instance_id : Text
  pub request_id : Text
  pub trace_id : Option Text

abbrev pub or_empty : Option Fields → Fields
or_empty none = end
or_empty (some attributes) = attributes

-- `emit`: the record that the sink is given.
unfoldable pub emit : StructuredLoggerOptions → LogLevel → Text → Option Fields → LogEvent
emit options level message attributes = record {
  level = level;
  message = message;
  plugin_id = options.plugin_id;
  runtime_instance_id = options.runtime_instance_id;
  request_id = options.request_id;
  trace_id = options.trace_id;
  attributes = or_empty attributes;
}

-- The loop of `normalizeAttributes`: texts, numbers and truth values stay.
unfoldable pub normalize_fields : Fields → Fields
normalize_fields end = end
normalize_fields (field key (string text) rest) = field key (string text) (normalize_fields rest)
normalize_fields (field key (number n) rest) = field key (number n) (normalize_fields rest)
normalize_fields (field key (boolean b) rest) = field key (boolean b) (normalize_fields rest)
normalize_fields (field key _ rest) = normalize_fields rest

unfoldable pub normalize_attributes : Option Fields → Option Fields
unfolding normalize_fields
normalize_attributes none = none
normalize_attributes (some attributes) = some (normalize_fields attributes)

unfoldable pub is_valid_span_context : Text → Text → Bool
is_valid_span_context trace_id span_id = is_hex_of 32 trace_id && is_hex_of 16 span_id
