-- ===== src/Protocol/RoundTrip.antt =====
-- `encodeFrame` and `tryDecodeFrames` of protocol.ts: what is encoded is decoded.
use ts_plugins.Common.{
  ◌+◌, ◌<◌, ◌^◌, ◌≡◌, refl, ap, sym, ◌∙◌, Option, some, List, [], ◌∷◌, ◌++◌, arith, length, drop,
  All, inl, inr, length-append, take_self-append, drop_self-append,
}
use mathlib.Core.List.{append_assoc}
use ts_plugins.Protocol.{Bytes, uint32_bytes, uint32, encode_frame, try_decode_frames}
use ts_plugins.Protocol.Stream.{
  front, frame, front_cases, prepend, prepend-nil, prepend-prepend, drop-drop,
}
use ts_plugins.Protocol.Chunks.{try_decode_frames-front}

abbrev framed : Bytes → Bytes → Bytes
framed payload rest = uint32_bytes (length payload) ++ payload ++ rest

uint32-framed :
    (payload rest : Bytes) → length payload < 2 ^ 32 → uint32 (framed payload rest) ≡ length payload
unfolding uint32 uint32_bytes
uint32-framed payload rest h = omega arith

drop-framed : (payload rest : Bytes) → drop 4 (framed payload rest) ≡ payload ++ rest
unfolding uint32_bytes
drop-framed payload rest = refl

length-framed :
    (payload rest : Bytes) → length (framed payload rest) ≡ 4 + length payload + length rest
unfolding uint32_bytes
length-framed payload rest = omega (arith, length-append payload rest)

drop_frame : (payload rest : Bytes) → drop (4 + length payload) (framed payload rest) ≡ rest
drop_frame payload rest =
    sym (drop-drop 4 (length payload) (framed payload rest))
    ∙ ap (drop (length payload)) (drop-framed payload rest)
    ∙ drop_self-append payload rest

front-framed :
    (payload rest : Bytes)
    → length payload < 2 ^ 32
    → front (framed payload rest) ≡ frame payload rest
front-framed payload rest h = elim (front_cases (framed payload rest)) [
  | inl (_, short) ↦ absurd (ground (arith, length-framed payload rest, uint32-framed payload rest))
  | inr (go, _) ↦
      go ∙ rw (uint32-framed payload rest h, drop-framed, take_self-append, drop_frame payload rest)
]

module _ {ℓ} {E : Type ℓ} (to_binary : E → Bytes) (from_binary : Bytes → Option E) where
  -- The frames that a peer sends, one after the other.
  abbrev pub encode_frames : List E → Bytes
  encode_frames [] = []
  encode_frames (e ∷ es) = encode_frame to_binary e ++ encode_frames es

  encode_frame-framed :
      (e : E) (xs rest : Bytes)
      → (encode_frame to_binary e ++ xs) ++ rest ≡ framed (to_binary e) (xs ++ rest)
  unfolding encode_frame
  encode_frame-framed e xs rest = append_assoc (encode_frame to_binary e) xs rest

  abbrev pub Fits : E → Type 0
  Fits e = length (to_binary e) < 2 ^ 32

  -- What is sent as frames is received as the same envelopes in the same order, followed by what
  -- comes behind them, if each payload decodes to what was encoded and its length fits 32 bits.
  pub try_decode_frames-encode_frames :
      ((e : E) → from_binary (to_binary e) ≡ some e)
      → (es : List E) (rest : Bytes) → All Fits es
      → try_decode_frames from_binary (encode_frames es ++ rest)
        ≡ prepend es (try_decode_frames from_binary rest)
  try_decode_frames-encode_frames codec [] rest h = sym (prepend-nil _)
  try_decode_frames-encode_frames codec (e ∷ es) rest h =
      ap (try_decode_frames from_binary) (encode_frame-framed e (encode_frames es) rest)
      ∙ try_decode_frames-front from_binary _ _ _ e
          (front-framed (to_binary e) (encode_frames es ++ rest) h.0)
          (omega (arith, length-framed (to_binary e) (encode_frames es ++ rest))) (codec e)
      ∙ ap (prepend (e ∷ [])) (try_decode_frames-encode_frames codec es rest h.1)
      ∙ prepend-prepend (e ∷ []) es (try_decode_frames from_binary rest)
