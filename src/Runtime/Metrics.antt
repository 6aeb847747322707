-- ===== src/Runtime/Metrics.antt =====
-- packages/plugin-runtime/src/metrics.ts: the counters that tests and instrumentation read.
pub mod Counting
use ts_plugins.Common.{
  ℕ, ◌+◌, Option, none, some, List, [], ◌∷◌, ◌++◌, Text, text_eq, codes, JsMap, Bool,
}
use ts_plugins.Common.Maps

pub data MetricOutcome : Type 0 where
  success typed_error framework_failure : MetricOutcome

abbrev pub outcome_name : MetricOutcome → Text
outcome_name success = codes "success"
outcome_name typed_error = codes "typed_error"
outcome_name framework_failure = codes "framework_failure"

pub record RuntimeMetrics : Type 0 where
  pub requests : JsMap Text ℕ
  pub queue_depth : JsMap Text ℕ
  pub restarts : JsMap Text ℕ
  pub breaker_transitions : JsMap Text ℕ
  pub latency : JsMap Text (List ℕ)

abbrev pub empty_metrics : RuntimeMetrics
empty_metrics = record {
  requests = [];
  queue_depth = [];
  restarts = [];
  breaker_transitions = [];
  latency = [];
}

-- `map.get(key) ?? 0`
unfoldable pub count_at : JsMap Text ℕ → Text → ℕ
count_at m key = elim (Maps.get m key) [ none ↦ 0 | some n ↦ n ]

unfoldable pub increment : JsMap Text ℕ → Text → JsMap Text ℕ
unfolding count_at
increment m key = Maps.set m key (count_at m key + 1)

abbrev pub joined : Text → Text → Text
joined a b = a ++ (codes ":" ++ b)

unfoldable pub request_key : Text → Text → MetricOutcome → Text
request_key plugin_id method_name outcome =
    joined plugin_id (joined method_name (outcome_name outcome))

unfoldable pub latencies : RuntimeMetrics → Text → Text → List ℕ
latencies metrics plugin_id method_name =
    elim (Maps.get metrics.latency (joined plugin_id method_name)) [
      | none ↦ []
      | some values ↦ values
    ]

unfoldable pub record_request : RuntimeMetrics → Text → Text → MetricOutcome → ℕ → RuntimeMetrics
unfolding increment request_key latencies
record_request metrics plugin_id method_name outcome latency_ms = record metrics {
  requests = increment metrics.requests (request_key plugin_id method_name outcome);
  latency =
      Maps.set metrics.latency (joined plugin_id method_name)
        (latencies metrics plugin_id method_name ++ latency_ms ∷ []);
}

unfoldable pub set_queue_depth : RuntimeMetrics → Text → ℕ → RuntimeMetrics
set_queue_depth metrics plugin_id depth = record metrics {
  queue_depth = Maps.set metrics.queue_depth plugin_id depth;
}

unfoldable pub record_restart : RuntimeMetrics → Text → RuntimeMetrics
unfolding increment
record_restart metrics plugin_id = record metrics {
  restarts = increment metrics.restarts plugin_id;
}

unfoldable pub record_breaker_transition : RuntimeMetrics → Text → Text → RuntimeMetrics
unfolding increment
record_breaker_transition metrics plugin_id transition = record metrics {
  breaker_transitions = increment metrics.breaker_transitions (joined plugin_id transition);
}

unfoldable pub request_count : RuntimeMetrics → Text → Text → MetricOutcome → ℕ
unfolding count_at request_key
request_count metrics plugin_id method_name outcome =
    count_at metrics.requests (request_key plugin_id method_name outcome)

unfoldable pub current_queue_depth : RuntimeMetrics → Text → ℕ
unfolding count_at
current_queue_depth metrics plugin_id = count_at metrics.queue_depth plugin_id

unfoldable pub restart_count : RuntimeMetrics → Text → ℕ
unfolding count_at
restart_count metrics plugin_id = count_at metrics.restarts plugin_id

unfoldable pub breaker_transition_count : RuntimeMetrics → Text → Text → ℕ
unfolding count_at
breaker_transition_count metrics plugin_id transition =
    count_at metrics.breaker_transitions (joined plugin_id transition)
