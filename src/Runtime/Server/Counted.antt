-- ===== src/Runtime/Server/Counted.antt =====
-- Which envelopes change the state of socket-server.ts.
use ts_plugins.Common.{
  ℕ, Bool, true, false, ◌&&◌, ◌≡◌, refl, ap, sym, ◌∙◌, Option, none, some, nat_eq, text_eq, inl,
  inr, Bool-cases,
}
use ts_plugins.Protocol.{
  Bytes, TraceContext, Body, unset, rpc_request, rpc_response, control, framework_error,
  WireEnvelope, protocol_version,
}
use ts_plugins.Codegen.Contract.{PluginMethodDefinition}
use ts_plugins.Runtime.Dispatcher.{method_by_id}
use ts_plugins.Runtime.Server.{
  Readings, ServerState, Server, handle_method, handle_rpc_request, handle_body, handle_envelope,
}

module _ {ℓ} {Schema H : Type ℓ} (server : Server Schema H) where
  abbrev pub is_found : Option (PluginMethodDefinition Schema) → Bool
  is_found none = false
  is_found (some _) = true

  abbrev pub is_request_body : Body → Bool
  is_request_body (rpc_request method_id _) =
      is_found (method_by_id server.dispatcher.methods method_id)
  is_request_body _ = false

  -- Whether the envelope is a request of a known method, in the protocol's version.
  abbrev pub is_request : WireEnvelope → Bool
  is_request envelope =
      nat_eq envelope.protocol_version protocol_version && is_request_body envelope.body

  handle_method_unchanged :
      (state : ServerState) (request_id method_id : ℕ) (payload : Bytes)
      (trace_context : Option TraceContext) (readings : Readings)
      (found : Option (PluginMethodDefinition Schema))
      → is_found found ≡ false
      → (handle_method server state request_id method_id payload trace_context readings found).1
        ≡ state
  handle_method_unchanged state request_id method_id payload trace_context readings none h = refl
  handle_method_unchanged state request_id method_id payload trace_context readings (some method)
        h =
      cc

  handle_body_unchanged :
      (state : ServerState) (envelope : WireEnvelope) (readings : Readings) (body : Body)
      → is_request_body body ≡ false
      → (handle_body server state envelope readings body).1 ≡ state
  unfolding handle_rpc_request
  handle_body_unchanged state envelope readings (rpc_request method_id payload) h =
      handle_method_unchanged state envelope.request_id method_id payload envelope.trace_context
        readings (method_by_id server.dispatcher.methods method_id) h
  handle_body_unchanged state envelope readings (control kind) h = refl
  handle_body_unchanged state envelope readings unset h = refl
  handle_body_unchanged state envelope readings (rpc_response _) h = refl
  handle_body_unchanged state envelope readings (framework_error _ _) h = refl

  -- An envelope of another version, a control message, any other body and a request of an unknown
  -- method leave the server's state as it is.
  pub handle_envelope_unchanged :
      (state : ServerState) (envelope : WireEnvelope) (readings : Readings)
      → is_request envelope ≡ false
      → (handle_envelope server state envelope readings).1 ≡ state
  unfolding handle_envelope
  handle_envelope_unchanged state envelope readings h =
      elim (Bool-cases (nat_eq envelope.protocol_version protocol_version)) [
        | inl same ↦ rw same (
            handle_body_unchanged state envelope readings envelope.body
              (ap (λ b. b && is_request_body envelope.body) (sym same) ∙ h))
        | inr other ↦ rw other refl
      ]
