-- ===== src/Protocol.antt =====
-- packages/plugin-runtime/src/protocol.ts, with the message types of
-- packages/plugin-generated/src/generated/balance/runtime/v1/plugin_protocol_pb.ts. A byte is a
-- number below 256. Protobuf's `toBinary` and `fromBinary` are third-party code, and parameters:
-- `from_binary` returns `none` where the source throws.
pub mod Stream
pub mod Chunks
pub mod RoundTrip
use ts_plugins.Common.{
  ℕ, zero, suc, ◌+◌, ◌-◌, ◌*◌, ◌/◌, ◌%◌, ◌^◌, Bool, true, false, Option, none, some, List, [], ◌∷◌,
  ◌++◌, ltb, leb, length, take, drop, Text,
}

abbrev pub Bytes : Type 0
Bytes = List ℕ

pub record TraceContext : Type 0 where
  pub trace_id : Text
  pub span_id : Text
  pub trace_flags : ℕ

-- A protobuf enumeration is open: `unrecognized` is a number without a name.
pub data ControlMessageKind : Type 0 where
  ping pong shutdown : ControlMessageKind
  unrecognized : ℕ → ControlMessageKind

pub data FrameworkErrorCode : Type 0 where
  unknown timeout protocol_version_mismatch decode_failed : FrameworkErrorCode

-- The `oneof` of an envelope; `unset` is the case `undefined`.
pub data Body : Type 0 where
  unset : Body
  rpc_request : ℕ → Bytes → Body
  rpc_response : Bytes → Body
  control : ControlMessageKind → Body
  framework_error : FrameworkErrorCode → Text → Body

pub record WireEnvelope : Type 0 where
  pub protocol_version : ℕ
  pub request_id : ℕ
  pub trace_context : Option TraceContext
  pub body : Body

abbrev pub protocol_version : ℕ
protocol_version = 1

unfoldable pub create_framework_error_envelope :
    ℕ → FrameworkErrorCode → Text → Option TraceContext → WireEnvelope
create_framework_error_envelope request_id code message trace_context = record {
  protocol_version = protocol_version;
  request_id = request_id;
  trace_context = trace_context;
  body = framework_error code message;
}

unfoldable pub create_rpc_response_envelope : ℕ → Bytes → Option TraceContext → WireEnvelope
create_rpc_response_envelope request_id payload trace_context = record {
  protocol_version = protocol_version;
  request_id = request_id;
  trace_context = trace_context;
  body = rpc_response payload;
}

unfoldable pub create_control_envelope : ℕ → ControlMessageKind → Option TraceContext → WireEnvelope
create_control_envelope request_id kind trace_context = record {
  protocol_version = protocol_version;
  request_id = request_id;
  trace_context = trace_context;
  body = control kind;
}

-- `view.setUint32(0, n, false)`: the low 32 bits, big-endian.
unfoldable pub uint32_bytes : ℕ → Bytes
uint32_bytes n = (n / 2 ^ 24) % 256 ∷ (n / 2 ^ 16) % 256 ∷ (n / 2 ^ 8) % 256 ∷ n % 256 ∷ []

-- The first four bytes as a number. The loop reads them only where four bytes are left.
unfoldable pub uint32 : Bytes → ℕ
uint32 (a ∷ b ∷ c ∷ d ∷ _) = ((a * 256 + b) * 256 + c) * 256 + d
uint32 _ = 0

-- `view.getUint32(offset, false)`
unfoldable pub uint32_at : Bytes → ℕ → ℕ
unfolding uint32
uint32_at buffer offset = uint32 (drop offset buffer)

unfoldable pub subarray : Bytes → ℕ → ℕ → Bytes
subarray buffer from to = take (to - from) (drop from buffer)

pub data Decoded {ℓ} (E : Type ℓ) : Type ℓ where
  done : List E → Bytes → Decoded E
  threw : Decoded E
  out_of_fuel : Decoded E

module _ {ℓ} {E : Type ℓ} where
  unfoldable pub encode_frame : (E → Bytes) → E → Bytes
  unfolding uint32_bytes
  encode_frame to_binary envelope =
      let payload = to_binary envelope in uint32_bytes (length payload) ++ payload

  -- The `while` loop of `tryDecodeFrames`: one unit of fuel for each test of its condition.
  unfoldable pub decode_loop : (Bytes → Option E) → ℕ → Bytes → ℕ → List E → Decoded E
  unfolding uint32_at subarray
  decode_loop from_binary zero buffer offset frames = out_of_fuel
  decode_loop from_binary (suc fuel) buffer offset frames =
      elim (leb (offset + 4) (length buffer)) [
        | false ↦ done frames (drop offset buffer)
        | true ↦
            let frame_length = uint32_at buffer offset in
            elim (ltb (length buffer) (offset + 4 + frame_length)) [
              | true ↦ done frames (drop offset buffer)
              | false ↦
                  elim (from_binary (subarray buffer (offset + 4) (offset + 4 + frame_length))) [
                    | none ↦ threw
                    | some envelope ↦
                        decode_loop from_binary fuel buffer (offset + 4 + frame_length)
                          (frames ++ envelope ∷ [])
                  ]
            ]
      ]

  -- Each round moves the offset on by four at least, so this fuel is enough.
  unfoldable pub try_decode_frames : (Bytes → Option E) → Bytes → Decoded E
  unfolding decode_loop
  try_decode_frames from_binary buffer = decode_loop from_binary (suc (length buffer)) buffer 0 []
