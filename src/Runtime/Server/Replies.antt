-- ===== src/Runtime/Server/Replies.antt =====
-- The replies of socket-server.ts.
use ts_plugins.Common.{
  ℕ, ◌≡◌, ◌≢◌, refl, Option, none, some, nat_eq, Text, text_eq, ◌⊎◌, inl, inr, Bool-cases,
}
use ts_plugins.Protocol.{
  Bytes, TraceContext, ping, pong, shutdown, unrecognized, FrameworkErrorCode, unknown, timeout,
  protocol_version_mismatch, decode_failed, Body, unset, rpc_request, rpc_response, control,
  framework_error, WireEnvelope, protocol_version, create_framework_error_envelope,
  create_rpc_response_envelope, create_control_envelope,
}
use ts_plugins.Codegen.Contract.{PluginMethodDefinition}
use ts_plugins.Runtime.Values.{Value}
use ts_plugins.Runtime.Dispatcher.{
  Thrown, error, plugin_execution_error, other_value, Settled, resolved, rejected,
}
use ts_plugins.Runtime.Server.{
  Coded, coded, codec_error, Readings, ServerState, Server, Reply, reply, socket_ended, pending,
  catch_error, after_result, answered, handle_decoded, handle_method, handle_rpc_request,
  handle_body, handle_envelope, error_code,
}

-- The envelope answers a request with this id and trace context. It is no error with the code
-- for timeouts.
pub record IsAnswer (request_id : ℕ) (trace_context : Option TraceContext) (envelope : WireEnvelope)
    : Type 0 where
  pub keeps_version : envelope.protocol_version ≡ protocol_version
  pub keeps_id : envelope.request_id ≡ request_id
  pub keeps_trace : envelope.trace_context ≡ trace_context
  pub no_timeout : (message : Text) → envelope.body ≢ framework_error timeout message

abbrev pub IsReplyTo : ℕ → Option TraceContext → Reply → Type 0
IsReplyTo request_id trace_context (reply envelope) = IsAnswer request_id trace_context envelope
IsReplyTo _ _ socket_ended = Unit
IsReplyTo _ _ pending = Unit

error_envelope :
    (request_id : ℕ) (code : FrameworkErrorCode) (message : Text)
    (trace_context : Option TraceContext)
    → code ≢ timeout
    → IsAnswer request_id trace_context
        (create_framework_error_envelope request_id code message trace_context)
unfolding create_framework_error_envelope
error_envelope request_id code message trace_context h = record {
  keeps_version = refl;
  keeps_id = refl;
  keeps_trace = refl;
  no_timeout = λ text e. h cc;
}

response_envelope :
    (request_id : ℕ) (payload : Bytes) (trace_context : Option TraceContext)
    → IsAnswer request_id trace_context
        (create_rpc_response_envelope request_id payload trace_context)
unfolding create_rpc_response_envelope
response_envelope request_id payload trace_context = record {
  keeps_version = refl;
  keeps_id = refl;
  keeps_trace = refl;
  no_timeout = λ text e. cc;
}

pub Coded-cases {ℓ} :
    {A : Type ℓ} (c : Coded A) → ((a : A) × (c ≡ coded a)) ⊎ ((m : Text) × (c ≡ codec_error m))
Coded-cases (coded a) = inl (a, refl)
Coded-cases (codec_error m) = inr (m, refl)

error_code_ne : (thrown : Thrown) → error_code thrown ≢ timeout
error_code_ne (error _) e = cc
error_code_ne (plugin_execution_error _ _ _ _) e = cc
error_code_ne (other_value _) e = cc

module _ {ℓ} {Schema H : Type ℓ} (server : Server Schema H) where
  pub catch_error-IsAnswer :
      (state : ServerState) (request_id : ℕ) (method : PluginMethodDefinition Schema)
      (trace_context : Option TraceContext) (readings : Readings) (thrown : Thrown)
      → IsAnswer request_id trace_context
          (catch_error server state request_id method trace_context readings thrown).0
  unfolding catch_error
  catch_error-IsAnswer state request_id method trace_context readings thrown =
      error_envelope request_id (error_code thrown) _ trace_context (error_code_ne thrown)

  pub after_result-IsAnswer :
      (state : ServerState) (request_id : ℕ) (method : PluginMethodDefinition Schema)
      (request : Value) (trace_context : Option TraceContext) (readings : Readings)
      (settled : Settled)
      → IsAnswer request_id trace_context
          (after_result server state request_id method request trace_context readings settled).0
  unfolding after_result catch_error
  after_result-IsAnswer state request_id method request trace_context readings (rejected thrown) =
      catch_error-IsAnswer state request_id method trace_context readings thrown
  after_result-IsAnswer state request_id method request trace_context readings (resolved result) =
      elim (Coded-cases (server.encode method.output_schema result)) [
        | inl (payload, e) ↦
            rw (e, after_result) (response_envelope request_id payload trace_context)
        | inr (message, e) ↦
            rw (e, after_result)
              (error_envelope request_id decode_failed message trace_context (λ d. cc))
      ]

  answered-IsReplyTo :
      (state : ServerState) (request_id : ℕ) (method : PluginMethodDefinition Schema)
      (request : Value) (trace_context : Option TraceContext) (readings : Readings)
      (settled : Option Settled)
      → IsReplyTo request_id trace_context
          (answered server state request_id method request trace_context readings settled).0
  answered-IsReplyTo state request_id method request trace_context readings none = tt
  answered-IsReplyTo state request_id method request trace_context readings (some settled) =
      after_result-IsAnswer state request_id method request trace_context readings settled

  handle_decoded-IsReplyTo :
      (state : ServerState) (request_id : ℕ) (method : PluginMethodDefinition Schema)
      (trace_context : Option TraceContext) (readings : Readings) (c : Coded Value)
      → IsReplyTo request_id trace_context
          (handle_decoded server state request_id method trace_context readings c).0
  handle_decoded-IsReplyTo state request_id method trace_context readings (codec_error message) =
      catch_error-IsAnswer state request_id method trace_context readings (error message)
  handle_decoded-IsReplyTo state request_id method trace_context readings (coded request) =
      answered-IsReplyTo _ request_id method request trace_context readings _

  handle_method-IsReplyTo :
      (state : ServerState) (request_id method_id : ℕ) (payload : Bytes)
      (trace_context : Option TraceContext) (readings : Readings)
      (found : Option (PluginMethodDefinition Schema))
      → IsReplyTo request_id trace_context
          (handle_method server state request_id method_id payload trace_context readings found).0
  handle_method-IsReplyTo state request_id method_id payload trace_context readings none =
      error_envelope request_id unknown _ trace_context (λ e. cc)
  handle_method-IsReplyTo state request_id method_id payload trace_context readings (some method) =
      handle_decoded-IsReplyTo state request_id method trace_context readings _

  handle_body-IsReplyTo :
      (state : ServerState) (envelope : WireEnvelope) (readings : Readings) (body : Body)
      → IsReplyTo envelope.request_id envelope.trace_context
          (handle_body server state envelope readings body).0
  unfolding create_control_envelope handle_rpc_request
  handle_body-IsReplyTo state envelope readings (rpc_request method_id payload) =
      handle_method-IsReplyTo state envelope.request_id method_id payload envelope.trace_context
        readings _
  handle_body-IsReplyTo state envelope readings (control ping) = record {
    keeps_version = refl;
    keeps_id = refl;
    keeps_trace = refl;
    no_timeout = λ text e. cc;
  }
  handle_body-IsReplyTo state envelope readings (control shutdown) = tt
  handle_body-IsReplyTo state envelope readings (control pong) =
      error_envelope envelope.request_id unknown _ envelope.trace_context (λ e. cc)
  handle_body-IsReplyTo state envelope readings (control (unrecognized _)) =
      error_envelope envelope.request_id unknown _ envelope.trace_context (λ e. cc)
  handle_body-IsReplyTo state envelope readings unset =
      error_envelope envelope.request_id unknown _ envelope.trace_context (λ e. cc)
  handle_body-IsReplyTo state envelope readings (rpc_response _) =
      error_envelope envelope.request_id unknown _ envelope.trace_context (λ e. cc)
  handle_body-IsReplyTo state envelope readings (framework_error _ _) =
      error_envelope envelope.request_id unknown _ envelope.trace_context (λ e. cc)

  -- Every reply to an envelope has the protocol's version and the envelope's request id and trace
  -- context, and none is a framework error with the code `TIMEOUT`.
  pub handle_envelope-IsReplyTo :
      (state : ServerState) (envelope : WireEnvelope) (readings : Readings)
      → IsReplyTo envelope.request_id envelope.trace_context
          (handle_envelope server state envelope readings).0
  unfolding handle_envelope
  handle_envelope-IsReplyTo state envelope readings =
      elim (Bool-cases (nat_eq envelope.protocol_version protocol_version)) [
        | inl same ↦ rw same (handle_body-IsReplyTo state envelope readings envelope.body)
        | inr other ↦ rw other (
            error_envelope envelope.request_id protocol_version_mismatch _ envelope.trace_context
              (λ e. cc))
      ]
