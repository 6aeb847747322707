-- ===== src/Tests/Streams.antt =====
-- Runs of packages/plugin-runtime/src/protocol.ts, and the theorems about it at concrete inputs. The
-- message format of the runs is the list of bytes itself.
use ts_plugins.Common.{◌≡◌, ◌≢◌, refl, Option, none, some, List, [], ◌∷◌, ◌++◌, arith, All}
use ts_plugins.Protocol.{Bytes, done, threw, out_of_fuel, try_decode_frames}
use ts_plugins.Protocol.Stream.{prepend}
use ts_plugins.Protocol.Chunks.{then_decode, try_decode_frames_total, try_decode_frames-append}
use ts_plugins.Protocol.RoundTrip.{encode_frames, Fits, try_decode_frames-encode_frames}

abbrev same : Bytes → Bytes
same bytes = bytes

-- A message of one byte does not decode.
abbrev read : Bytes → Option Bytes
read (_ ∷ []) = none
read bytes = some bytes

abbrev stream : Bytes
stream = 0 ∷ 0 ∷ 0 ∷ 2 ∷ 7 ∷ 8 ∷ 0 ∷ 0 ∷ []

reads_one_frame : try_decode_frames read stream ≡ done ((7 ∷ 8 ∷ []) ∷ []) (0 ∷ 0 ∷ [])
unfolding try_decode_frames
reads_one_frame = refl

bad_payload_throws : try_decode_frames read (0 ∷ 0 ∷ 0 ∷ 1 ∷ 9 ∷ []) ≡ threw
unfolding try_decode_frames
bad_payload_throws = refl

try_decode_frames_total_example : try_decode_frames read stream ≢ out_of_fuel
try_decode_frames_total_example = try_decode_frames_total read stream

try_decode_frames-append_example :
    try_decode_frames read (stream ++ (0 ∷ 1 ∷ 5 ∷ []))
    ≡ then_decode read (try_decode_frames read stream) (0 ∷ 1 ∷ 5 ∷ [])
try_decode_frames-append_example = try_decode_frames-append read stream (0 ∷ 1 ∷ 5 ∷ [])

abbrev messages : List Bytes
messages = (9 ∷ 1 ∷ []) ∷ [] ∷ []

messages_fit : All (Fits same some) messages
messages_fit = (omega arith, (omega arith, tt))

text_round_trip : (e : Bytes) → some (same e) ≡ some e
text_round_trip e = refl

try_decode_frames-encode_frames_example :
    try_decode_frames some (encode_frames same some messages ++ stream)
    ≡ prepend messages (try_decode_frames some stream)
try_decode_frames-encode_frames_example =
    try_decode_frames-encode_frames same some text_round_trip messages stream messages_fit
