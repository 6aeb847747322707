-- ===== src/Protocol/Chunks.antt =====
-- `tryDecodeFrames` of protocol.ts never runs out of fuel, and cutting the bytes of a stream into
-- pieces changes nothing.
use ts_plugins.Common.{
  ℕ, zero, suc, ◌+◌, ◌≤◌, ◌<◌, ◌≡◌, ◌≢◌, refl, ap, ◌∙◌, sym, true, Option, none, some, [], ◌∷◌,
  ◌++◌, arith, length, drop, inl, inr, Option-cases, length-drop, length-append,
}
use ts_plugins.Protocol.{Bytes, Decoded, done, threw, out_of_fuel, uint32, try_decode_frames}
use ts_plugins.Protocol.Stream.{
  frame, is_partial, front, front_cases, front-append, front_of_partial, prepend, prepend-prepend,
  parse, parse_partial, parse_bad, parse_good, decode_loop-parse, prepend-nil,
}

rest_shorter :
    (bytes : Bytes)
    → 4 + uint32 bytes ≤ length bytes
    → length (drop (4 + uint32 bytes) bytes) < length bytes
rest_shorter bytes fits = omega (arith, length-drop (4 + uint32 bytes) bytes)

-- The rest of a decoding is less than a frame.
abbrev pub EndsPartial {ℓ} : {E : Type ℓ} → Decoded E → Type 0
EndsPartial (done fs rest) = is_partial rest ≡ true
EndsPartial _ = Unit

-- What the next bytes make of a decoding.
abbrev pub then_decode {ℓ} : {E : Type ℓ} → (Bytes → Option E) → Decoded E → Bytes → Decoded E
then_decode from_binary (done fs rest) b = prepend fs (try_decode_frames from_binary (rest ++ b))
then_decode from_binary threw b = threw
then_decode from_binary out_of_fuel b = out_of_fuel

module _ {ℓ} {E : Type ℓ} (from_binary : Bytes → Option E) where
  -- The decoding of a frame, seen by its payload.
  abbrev good_or_bad : Option E → Decoded E → Decoded E
  good_or_bad none d = threw
  good_or_bad (some e) d = prepend (e ∷ []) d

  good_or_bad_total :
      (o : Option E) (d : Decoded E) → d ≢ out_of_fuel → good_or_bad o d ≢ out_of_fuel
  good_or_bad_total none d h e = cc
  good_or_bad_total (some x) (done fs rest) h e = cc
  good_or_bad_total (some x) threw h e = cc
  good_or_bad_total (some x) out_of_fuel h e = h refl

  parse_frame :
      (fuel : ℕ) (bytes p r : Bytes)
      → front bytes ≡ frame p r
      → parse from_binary (suc fuel) bytes ≡ good_or_bad (from_binary p) (parse from_binary fuel r)
  parse_frame fuel bytes p r h = elim (Option-cases (from_binary p)) [
    | inl bad ↦ parse_bad from_binary fuel bytes p r h bad ∙ rw bad
    | inr (e, good) ↦ parse_good from_binary fuel bytes p r e h good ∙ rw good
  ]

  parse_fuel :
      (f g : ℕ) (bytes : Bytes)
      → length bytes < f
      → length bytes < g
      → parse from_binary f bytes ≡ parse from_binary g bytes
  parse_fuel zero g bytes p q = absurd (omega arith)
  parse_fuel (suc f) zero bytes p q = absurd (omega arith)
  parse_fuel (suc f) (suc g) bytes p q = elim (front_cases bytes) [
    | inl (stop, _) ↦
        parse_partial from_binary f bytes stop ∙ sym (parse_partial from_binary g bytes stop)
    | inr (go, fits) ↦
        parse_frame f bytes _ _ go
        ∙ ap (good_or_bad (from_binary _)) (
            parse_fuel f g _ (omega (arith, rest_shorter bytes fits))
              (omega (arith, rest_shorter bytes fits)))
        ∙ sym (parse_frame g bytes _ _ go)
  ]

  -- All the frames, and the rest.
  abbrev decode : Bytes → Decoded E
  decode bytes = parse from_binary (suc (length bytes)) bytes

  try_decode_frames-decode : (bytes : Bytes) → try_decode_frames from_binary bytes ≡ decode bytes
  unfolding try_decode_frames
  try_decode_frames-decode bytes =
      decode_loop-parse from_binary (suc (length bytes)) bytes 0 [] (omega arith) ∙ prepend-nil _

  decode_frame :
      (bytes p r : Bytes)
      → front bytes ≡ frame p r
      → length r < length bytes
      → decode bytes ≡ good_or_bad (from_binary p) (decode r)
  decode_frame bytes p r h short =
      parse_frame (length bytes) bytes p r h
      ∙ ap (good_or_bad (from_binary p))
          (parse_fuel (length bytes) (suc (length r)) r short (omega arith))

  -- What the next bytes make of a decoding.
  abbrev resume : Decoded E → Bytes → Decoded E
  resume (done fs rest) b = prepend fs (decode (rest ++ b))
  resume threw b = threw
  resume out_of_fuel b = out_of_fuel

  resume-good_or_bad :
      (o : Option E) (d : Decoded E) (b : Bytes)
      → good_or_bad o (resume d b) ≡ resume (good_or_bad o d) b
  resume-good_or_bad none d b = refl
  resume-good_or_bad (some e) (done fs rest) b = prepend-prepend (e ∷ []) fs (decode (rest ++ b))
  resume-good_or_bad (some e) threw b = refl
  resume-good_or_bad (some e) out_of_fuel b = refl

  decode-append_fuel : (n : ℕ) (a b : Bytes) → length a < n → decode (a ++ b) ≡ resume (decode a) b
  decode-append_fuel zero a b h = absurd (omega arith)
  decode-append_fuel (suc n) a b h = elim (front_cases a) [
    | inl (stop, _) ↦ rw (parse_partial from_binary (length a) a stop) (sym (prepend-nil _))
    | inr (go, fits) ↦
        decode_frame (a ++ b) _ _ (front-append a b fits) (
          omega (
            arith,
            rest_shorter a fits,
            length-append a b,
            length-append (drop (4 + uint32 a) a) b,
          ))
        ∙ ap (good_or_bad (from_binary _))
            (decode-append_fuel n (drop (4 + uint32 a) a) b (omega (arith, rest_shorter a fits)))
        ∙ resume-good_or_bad (from_binary _) (decode (drop (4 + uint32 a) a)) b
        ∙ ap (λ d. resume d b) (sym (decode_frame a _ _ go (rest_shorter a fits)))
  ]

  -- The result of a decoding is never the lack of fuel.
  parse_total : (f : ℕ) (bytes : Bytes) → length bytes < f → parse from_binary f bytes ≢ out_of_fuel
  parse_total zero bytes h = absurd (omega arith)
  parse_total (suc f) bytes h = elim (front_cases bytes) [
    | inl (stop, _) ↦ rw (parse_partial from_binary f bytes stop) (λ e. cc)
    | inr (go, fits) ↦ rw (parse_frame f bytes _ _ go) (
        good_or_bad_total (from_binary _) _
          (parse_total f _ (omega (arith, rest_shorter bytes fits))))
  ]

  then_decode-resume : (d : Decoded E) (b : Bytes) → then_decode from_binary d b ≡ resume d b
  then_decode-resume (done fs rest) b = rw (try_decode_frames-decode (rest ++ b))
  then_decode-resume threw b = refl
  then_decode-resume out_of_fuel b = refl

  good_or_bad-EndsPartial :
      (o : Option E) (d : Decoded E) → EndsPartial d → EndsPartial (good_or_bad o d)
  good_or_bad-EndsPartial none d h = tt
  good_or_bad-EndsPartial (some e) (done fs rest) h = h
  good_or_bad-EndsPartial (some e) threw h = tt
  good_or_bad-EndsPartial (some e) out_of_fuel h = tt

  -- The decoder always ends: with frames and a rest, or because a payload does not decode.
  pub try_decode_frames_total : (bytes : Bytes) → try_decode_frames from_binary bytes ≢ out_of_fuel
  try_decode_frames_total bytes =
      rw try_decode_frames-decode (parse_total (suc (length bytes)) bytes (omega arith))

  -- Decoding a stream in two pieces is decoding it in one: what the first call leaves over is put
  -- before the second piece, and an error of the first piece is an error of the whole.
  pub try_decode_frames-append :
      (a b : Bytes)
      → try_decode_frames from_binary (a ++ b)
        ≡ then_decode from_binary (try_decode_frames from_binary a) b
  try_decode_frames-append a b =
      try_decode_frames-decode (a ++ b)
      ∙ decode-append_fuel (suc (length a)) a b (omega arith)
      ∙ sym (then_decode-resume (decode a) b)
      ∙ ap (λ d. then_decode from_binary d b) (sym (try_decode_frames-decode a))

  parse-EndsPartial :
      (f : ℕ) (bytes : Bytes) → length bytes < f → EndsPartial (parse from_binary f bytes)
  parse-EndsPartial zero bytes h = absurd (omega arith)
  parse-EndsPartial (suc f) bytes h = elim (front_cases bytes) [
    | inl (stop, short) ↦ rw (parse_partial from_binary f bytes stop) short
    | inr (go, fits) ↦ rw (parse_frame f bytes _ _ go) (
        good_or_bad-EndsPartial (from_binary _) _
          (parse-EndsPartial f _ (omega (arith, rest_shorter bytes fits))))
  ]

  -- What a decoding leaves over is less than a frame.
  pub try_decode_frames-EndsPartial :
      (bytes : Bytes) → EndsPartial (try_decode_frames from_binary bytes)
  try_decode_frames-EndsPartial bytes =
      rw try_decode_frames-decode (parse-EndsPartial (suc (length bytes)) bytes (omega arith))

  -- A buffer that holds less than a frame decodes to itself.
  pub try_decode_frames_partial :
      (bytes : Bytes)
      → is_partial bytes ≡ true
      → try_decode_frames from_binary bytes ≡ done [] bytes
  try_decode_frames_partial bytes h =
      try_decode_frames-decode bytes
      ∙ parse_partial from_binary (length bytes) bytes (front_of_partial bytes h)

  -- A frame at the front is decoded first.
  pub try_decode_frames-front :
      (bytes p r : Bytes) (e : E)
      → front bytes ≡ frame p r
      → length r < length bytes
      → from_binary p ≡ some e
      → try_decode_frames from_binary bytes ≡ prepend (e ∷ []) (try_decode_frames from_binary r)
  try_decode_frames-front bytes p r e go short good =
      try_decode_frames-decode bytes
      ∙ decode_frame bytes p r go short
      ∙ rw (good, try_decode_frames-decode r)
