-- ===== src/TestKit.antt =====
-- packages/plugin-testkit/src: the test contexts of create-test-context.ts, and in-process-harness.ts.
-- A codec is a parameter, and its decoder may throw.
pub mod Isolated
use ts_plugins.Common.{ℕ, [], ◌∷◌, Option, none, some, List, ◌++◌, Text, codes}
use ts_plugins.Protocol.{TraceContext}
use ts_plugins.Codegen.Contract.{PluginServiceDefinition}
use ts_plugins.Runtime.Values.{Value}
use ts_plugins.Runtime.Bootstrap.{
  LoadedModule, no_object, with_default, Started, bootstrap_plugin_runtime,
}
use ts_plugins.Runtime.Dispatcher.Validation.{Handlers}
use ts_plugins.Runtime.Dispatcher.{
  PluginDispatcher, DispatcherState, Settled, resolved, rejected, Thrown, Event, RequestContext,
  initialize, invoke,
}

-- The namespace of a plugin's store in a test.
abbrev pub test_namespace : Text → Text → Text
test_namespace id runtime_instance_id = codes "test:" ++ (id ++ (codes ":" ++ runtime_instance_id))

-- What the sinks of a factory's contexts have kept.
pub record TestContextState {ℓ} (Log Trace : Type ℓ) : Type ℓ where
  pub logs : List Log
  pub traces : List Trace

module _ {ℓ} {Log Trace : Type ℓ} where
  abbrev pub push_log : TestContextState Log Trace → Log → TestContextState Log Trace
  push_log state event = record state { logs = state.logs ++ event ∷ [] }

  abbrev pub push_trace : TestContextState Log Trace → Trace → TestContextState Log Trace
  push_trace state event = record state { traces = state.traces ++ event ∷ [] }

-- `decode` of the request's codec, where `none` is its throw, and `encode` of the response's.
pub record MessageCodec {ℓ} (Bytes : Type ℓ) : Type ℓ where
  pub decode : Bytes → Option Value
  pub encode : Value → Bytes

pub data EncodedAnswer {ℓ} (Bytes : Type ℓ) : Type ℓ where
  encoded : Bytes → EncodedAnswer Bytes
  thrown : Thrown → EncodedAnswer Bytes
  not_decoded : EncodedAnswer Bytes

module _ {ℓ} {Schema H : Type ℓ} where
  -- The runtime of `createInProcessHarness`, of the plugin's id and version, the service, the
  -- handlers and the instance.
  unfoldable pub create_in_process_harness :
      Text
      → Text
      → PluginServiceDefinition Schema
      → Handlers H
      → Option Text
      → Started (PluginDispatcher Schema H)
  unfolding bootstrap_plugin_runtime
  create_in_process_harness id version service plugin runtime_instance_id =
      bootstrap_plugin_runtime id version runtime_instance_id service (λ path. no_object)
        (some (with_default (some plugin))) none

module _ {ℓ} {Bytes : Type ℓ} (codec : MessageCodec Bytes) where
  abbrev pub encode_answer : Settled × DispatcherState → EncodedAnswer Bytes × DispatcherState
  encode_answer (resolved response, state) = (encoded (codec.encode response), state)
  encode_answer (rejected cause, state) = (thrown cause, state)

  abbrev pub answer_decoded :
      (Value → Settled × DispatcherState)
      → DispatcherState
      → Option Value
      → EncodedAnswer Bytes × DispatcherState
  answer_decoded call state none = (not_decoded, state)
  answer_decoded call state (some request) = encode_answer (call request)

module _ {ℓ κ} {Schema H : Type ℓ} {Bytes : Type κ}
    (run : H → Value → RequestContext → Settled × List Event) (codec : MessageCodec Bytes) where
  unfoldable pub init_encoded :
      PluginDispatcher Schema H
      → DispatcherState
      → Bytes
      → Option TraceContext
      → EncodedAnswer Bytes × DispatcherState
  unfolding initialize
  init_encoded d state bytes trace_context =
      answer_decoded codec (λ request. initialize run d state request trace_context) state
        (codec.decode bytes)

  unfoldable pub invoke_encoded :
      PluginDispatcher Schema H
      → DispatcherState
      → ℕ
      → Bytes
      → Option TraceContext
      → EncodedAnswer Bytes × DispatcherState
  unfolding invoke
  invoke_encoded d state id bytes trace_context =
      answer_decoded codec (λ request. invoke run d state id request trace_context) state
        (codec.decode bytes)
