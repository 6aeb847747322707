-- ===== src/Runtime/Tracing.antt =====
-- packages/plugin-runtime/src/tracing.ts: the trace context that a request brings along, and the
-- one of a child span that the tracing library did not name.
pub mod Extraction
use ts_plugins.Common.{
  ℕ, ◌+◌, Bool, true, false, ◌&&◌, ◌||◌, Option, none, some, List, [], ◌∷◌, map, leb, nat_eq,
  if◌then◌else◌, length, all, Text, codes,
}
use ts_plugins.Protocol.{TraceContext}

-- `Partial<RuntimeTraceContext>`: a field may be undefined.
pub record PartialTraceContext : Type 0 where
  pub trace_id : Option Text
  pub span_id : Option Text
  pub trace_flags : Option ℕ

abbrev pub is_upper_hex : ℕ → Bool
is_upper_hex c = leb b'A' c && leb c b'F'

-- `[0-9a-f]` under the flag `i`.
abbrev pub is_hex : ℕ → Bool
is_hex c = leb b'0' c && leb c b'9' || leb b'a' c && leb c b'f' || is_upper_hex c

-- `/^[0-9a-f]{n}$/i`
unfoldable pub is_hex_of : ℕ → Text → Bool
is_hex_of n text = nat_eq (length text) n && all is_hex text

-- `toLowerCase` on hexadecimal digits.
abbrev pub lower : ℕ → ℕ
lower c = if is_upper_hex c then c + 32 else c

pub data Extracted : Type 0 where
  absent : Extracted
  invalid : Text → Extracted
  valid : TraceContext → Extracted

unfoldable pub extract_found : Text → Text → ℕ → Extracted
unfolding is_hex_of
extract_found trace_id span_id trace_flags =
    if is_hex_of 32 trace_id
    then if is_hex_of 16 span_id
      then valid (record {
        trace_id = map lower trace_id;
        span_id = map lower span_id;
        trace_flags = trace_flags;
      })
      else invalid (codes "invalid span id")
    else invalid (codes "invalid trace id")

abbrev extract_fields : Option Text → Option Text → Option ℕ → Extracted
extract_fields (some t) (some s) (some f) = extract_found t s f
extract_fields _ _ _ = absent

-- `none` is null or undefined.
unfoldable pub extract_trace_context : Option PartialTraceContext → Extracted
unfolding extract_found
extract_trace_context none = absent
extract_trace_context (some value) = extract_fields value.trace_id value.span_id value.trace_flags

-- `createSyntheticChildTraceContext`, with the outcomes of its calls of `randomHex`.
unfoldable pub create_synthetic_child : Option TraceContext → Text → Text → TraceContext
create_synthetic_child none hex32 hex16 = record {
  trace_id = hex32;
  span_id = hex16;
  trace_flags = 1;
}
create_synthetic_child (some parent) hex32 hex16 = record {
  trace_id = parent.trace_id;
  span_id = hex16;
  trace_flags = parent.trace_flags;
}
