-- ===== src/Runtime/Metrics/Counting.antt =====
-- The request counters of metrics.ts count.
use ts_plugins.Common.{
  ℕ, ◌+◌, ◌≡◌, refl, ◌∙◌, Bool, true, false, [], ◌∷◌, ◌++◌, arith, Text, text_eq, ◌==◌, ==_iff,
  ==_refl, if◌then◌else◌, JsMap, codes,
}
use ts_plugins.Common.Texts.{append-==}
use ts_plugins.Common.Maps
use ts_plugins.Runtime.Metrics.{
  MetricOutcome, success, typed_error, framework_failure, RuntimeMetrics, count_at, increment,
  request_key, record_request, request_count, outcome_name, joined, latencies,
}

count_at-increment :
    (m : JsMap Text ℕ) (k j : Text)
    → count_at (increment m k) j ≡ (if k == j then count_at m j + 1 else count_at m j)
unfolding increment count_at
count_at-increment m k j = ground (arith, Maps.get-set m k j (count_at m k + 1), ==_iff k j)

pub same_outcome : MetricOutcome → MetricOutcome → Bool
same_outcome success success = true
same_outcome typed_error typed_error = true
same_outcome framework_failure framework_failure = true
same_outcome _ _ = false

outcome_name-== : (a b : MetricOutcome) → (outcome_name a == outcome_name b) ≡ same_outcome a b
unfolding same_outcome
outcome_name-== success success = refl
outcome_name-== success typed_error = refl
outcome_name-== success framework_failure = refl
outcome_name-== typed_error success = refl
outcome_name-== typed_error typed_error = refl
outcome_name-== typed_error framework_failure = refl
outcome_name-== framework_failure success = refl
outcome_name-== framework_failure typed_error = refl
outcome_name-== framework_failure framework_failure = refl

request_key-== :
    (plugin_id method_name : Text) (a b : MetricOutcome)
    → (request_key plugin_id method_name a == request_key plugin_id method_name b)
      ≡ same_outcome a b
unfolding request_key
request_key-== plugin_id method_name a b =
    append-== plugin_id _ _
    ∙ append-== (codes ":") (method_name ++ (codes ":" ++ outcome_name a)) _
    ∙ append-== method_name _ _
    ∙ append-== (codes ":") (outcome_name a) _
    ∙ outcome_name-== a b

-- A request that is recorded is counted once, under its own outcome and no other of its method,
-- and its latency comes behind those recorded before.
pub record_request-counts :
    (metrics : RuntimeMetrics) (plugin_id method_name : Text) (outcome other : MetricOutcome)
    (latency_ms : ℕ)
    → let after = record_request metrics plugin_id method_name outcome latency_ms in
      (request_count after plugin_id method_name other ≡ (
        if same_outcome outcome other
        then request_count metrics plugin_id method_name other + 1
        else request_count metrics plugin_id method_name other))
      × (latencies after plugin_id method_name
          ≡ latencies metrics plugin_id method_name ++ latency_ms ∷ [])
unfolding record_request request_count
record_request-counts metrics plugin_id method_name outcome other latency_ms = (
  count_at-increment metrics.requests _ _ ∙ rw (request_key-== plugin_id method_name outcome other),
  rw (latencies, Maps.get-set, ==_refl (joined plugin_id method_name)),
)
