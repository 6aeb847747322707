-- ===== src/Runtime/Tracing/Extraction.antt =====
-- What `extractTraceContext` of tracing.ts lets through.
use ts_plugins.Common.{
  ℕ, ◌≡◌, refl, true, not, Option, none, some, [], ◌∷◌, map, arith, length, all, Text,
}
use ts_plugins.Protocol.{TraceContext}
use ts_plugins.Runtime.Tracing.{
  PartialTraceContext, valid, is_hex, is_upper_hex, is_hex_of, lower, extract_found, extract_fields,
  extract_trace_context,
}

-- Lower-case hexadecimal text of a length.
abbrev pub IsLowerHex : ℕ → Text → Type 0
IsLowerHex n text =
    (length text ≡ n) × (all is_hex text ≡ true) × (all (λ c. not (is_upper_hex c)) text ≡ true)

abbrev pub IsNormal : TraceContext → Type 0
IsNormal c = IsLowerHex 32 c.trace_id × IsLowerHex 16 c.span_id

abbrev pub whole : TraceContext → PartialTraceContext
whole c = record {
  trace_id = some c.trace_id;
  span_id = some c.span_id;
  trace_flags = some c.trace_flags;
}

lower_hex :
    (text : Text)
    → all is_hex text ≡ true
    → (length (map lower text) ≡ length text)
      × (all is_hex (map lower text) ≡ true)
      × (all (λ c. not (is_upper_hex c)) (map lower text) ≡ true)
lower_hex [] h = (refl, refl, refl)
lower_hex (c ∷ text) h = ground (arith, lower_hex text)

map-lower-IsLowerHex :
    (n : ℕ) (text : Text) → is_hex_of n text ≡ true → IsLowerHex n (map lower text)
unfolding is_hex_of
map-lower-IsLowerHex n text h = ground (arith, lower_hex text)

is_hex_of_normal : (n : ℕ) (text : Text) → IsLowerHex n text → is_hex_of n text ≡ true
unfolding is_hex_of
is_hex_of_normal n text h = ground arith

extract_found_valid :
    (t s : Text) (f : ℕ) (c : TraceContext)
    → extract_found t s f ≡ valid c
    → (is_hex_of 32 t ≡ true)
      × (is_hex_of 16 s ≡ true)
      × (c ≡ record { trace_id = map lower t; span_id = map lower s; trace_flags = f })
unfolding extract_found
extract_found_valid t s f c h = ground arith

map-lower_id : (text : Text) → all (λ c. not (is_upper_hex c)) text ≡ true → map lower text ≡ text
map-lower_id [] h = refl
map-lower_id (c ∷ text) h = ground (arith, map-lower_id text)

extract_normal : (c : TraceContext) → IsNormal c → extract_trace_context (some (whole c)) ≡ valid c
unfolding extract_trace_context
extract_normal c h = rw (
  is_hex_of_normal 32 c.trace_id h.0,
  is_hex_of_normal 16 c.span_id h.1,
  map-lower_id c.trace_id h.0.2,
  map-lower_id c.span_id h.1.2,
  extract_found,
)

from_found :
    (t s : Text) (f : ℕ) (c : TraceContext)
    → extract_found t s f ≡ valid c
    → IsNormal c × (extract_trace_context (some (whole c)) ≡ valid c)
from_found t s f c h =
    let (trace, span, same) = extract_found_valid t s f c h in
    let normal : IsNormal c =
      rw same (map-lower-IsLowerHex 32 t trace, map-lower-IsLowerHex 16 s span) in
    (normal, extract_normal c normal)

from_fields :
    (t s : Option Text) (f : Option ℕ) (c : TraceContext)
    → extract_fields t s f ≡ valid c
    → IsNormal c × (extract_trace_context (some (whole c)) ≡ valid c)
from_fields (some t) (some s) (some f) c h = from_found t s f c h
from_fields none s f c h = cc
from_fields (some t) none f c h = cc
from_fields (some t) (some s) none c h = cc

-- A context that is let through is normal: 32 and 16 lower-case hexadecimal digits; and to extract
-- it again gives it back.
pub extract_trace_context-IsNormal :
    (p : PartialTraceContext) (c : TraceContext)
    → extract_trace_context (some p) ≡ valid c
    → IsNormal c × (extract_trace_context (some (whole c)) ≡ valid c)
extract_trace_context-IsNormal p c h =
    from_fields p.trace_id p.span_id p.trace_flags c (unfold extract_trace_context in h)
