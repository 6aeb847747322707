-- ===== src/Runtime/Server/Connection.antt =====
-- The handler of `data` events of packages/plugin-runtime/src/socket-server.ts: chunks of a stream,
-- cut anywhere, become envelopes, which are served in order.
use ts_plugins.Common.{◌≡◌, refl, ap, sym, ◌∙◌, true, Option, List, [], ◌∷◌, ◌++◌}
use mathlib.Core.List.{append_assoc, append-nil}
use ts_plugins.Protocol.{Bytes, WireEnvelope, Decoded, done, threw, out_of_fuel, try_decode_frames}
use ts_plugins.Protocol.Stream.{is_partial, prepend}
use ts_plugins.Protocol.Chunks.{
  EndsPartial, then_decode, try_decode_frames-append, try_decode_frames-EndsPartial,
  try_decode_frames_partial, try_decode_frames_total,
}
use ts_plugins.Runtime.Server.{
  Server, ServerState, Readings, Reply, reply, socket_ended, pending, handle_envelope,
}

-- What a connection has received: the frames, and the buffer it keeps, if no chunk has thrown.
pub data Received {ℓ} (E : Type ℓ) : Type ℓ where
  received : List E → Bytes → Received E
  broken : List E → Received E
  no_fuel : Received E

module _ {ℓ} {E : Type ℓ} (from_binary : Bytes → Option E) where
  -- One event: the frames that are complete now, and the buffer that is kept.
  unfoldable pub receive : Bytes → Bytes → Decoded E
  receive buffer chunk = try_decode_frames from_binary (buffer ++ chunk)

  abbrev also_received : List E → Received E → Received E
  also_received fs (received gs buffer) = received (fs ++ gs) buffer
  also_received fs (broken gs) = broken (fs ++ gs)
  also_received fs no_fuel = no_fuel

  -- One event after the other, up to a payload that does not decode. The frames of the events before
  -- it are served; those of its own event are not.
  unfoldable pub receive_all : Bytes → List Bytes → Received E
  unfolding receive
  receive_all buffer [] = received [] buffer
  receive_all buffer (chunk ∷ chunks) = elim (receive buffer chunk) [
    | done frames remainder ↦ also_received frames (receive_all remainder chunks)
    | threw ↦ broken []
    | out_of_fuel ↦ no_fuel
  ]

  abbrev pub joined_chunks : List Bytes → Bytes
  joined_chunks [] = []
  joined_chunks (chunk ∷ chunks) = chunk ++ joined_chunks chunks

  abbrev nothing_received : Received E
  nothing_received = received [] []

  -- A run breaks at a chunk: what came before it decodes to the frames, and with it decodes no more.
  pub record BreaksAt (buffer : Bytes) (chunks : List Bytes) (frames : List E) : Type ℓ where
    pub before : List Bytes
    pub chunk : Bytes
    pub after : List Bytes
    pub rest : Bytes
    pub cut : chunks ≡ before ++ chunk ∷ after
    pub decodes : try_decode_frames from_binary (buffer ++ joined_chunks before) ≡ done frames rest
    pub fails :
        try_decode_frames from_binary (buffer ++ joined_chunks (before ++ chunk ∷ [])) ≡ threw

  abbrev pub IsReceived : Bytes → List Bytes → Received E → Type ℓ
  IsReceived buffer chunks (received frames rest) =
      try_decode_frames from_binary (buffer ++ joined_chunks chunks) ≡ done frames rest
  IsReceived buffer chunks (broken frames) = BreaksAt buffer chunks frames
  IsReceived buffer chunks no_fuel = nothing_received ≡ no_fuel

  -- What a chunk that decodes puts in front.
  decodes-first :
      (buffer chunk bytes remainder rest : Bytes) (frames others : List E)
      → receive buffer chunk ≡ done frames remainder
      → try_decode_frames from_binary (remainder ++ bytes) ≡ done others rest
      → try_decode_frames from_binary (buffer ++ (chunk ++ bytes)) ≡ done (frames ++ others) rest
  unfolding receive
  decodes-first buffer chunk bytes remainder rest frames others e e' =
      ap (try_decode_frames from_binary) (sym (append_assoc buffer chunk bytes))
      ∙ try_decode_frames-append from_binary (buffer ++ chunk) bytes
      ∙ ap (λ first. then_decode from_binary first bytes) e
      ∙ ap (prepend frames) e'

  fails-first :
      (buffer chunk bytes remainder : Bytes) (frames : List E)
      → receive buffer chunk ≡ done frames remainder
      → try_decode_frames from_binary (remainder ++ bytes) ≡ threw
      → try_decode_frames from_binary (buffer ++ (chunk ++ bytes)) ≡ threw
  unfolding receive
  fails-first buffer chunk bytes remainder frames e e' =
      ap (try_decode_frames from_binary) (sym (append_assoc buffer chunk bytes))
      ∙ try_decode_frames-append from_binary (buffer ++ chunk) bytes
      ∙ ap (λ first. then_decode from_binary first bytes) e
      ∙ ap (prepend frames) e'

  also-IsReceived :
      (buffer chunk remainder : Bytes) (chunks : List Bytes) (frames : List E) (r : Received E)
      → receive buffer chunk ≡ done frames remainder
      → IsReceived remainder chunks r
      → IsReceived buffer (chunk ∷ chunks) (also_received frames r)
  also-IsReceived buffer chunk remainder chunks frames (received others rest) e h =
      decodes-first buffer chunk (joined_chunks chunks) remainder rest frames others e h
  also-IsReceived buffer chunk remainder chunks frames (broken others) e h = record {
    before = chunk ∷ h.before;
    chunk = h.chunk;
    after = h.after;
    rest = h.rest;
    cut = ap (λ c. chunk ∷ c) h.cut;
    decodes =
        decodes-first buffer chunk (joined_chunks h.before) remainder h.rest frames others e
          h.decodes;
    fails =
        fails-first buffer chunk (joined_chunks (h.before ++ h.chunk ∷ [])) remainder frames e
          h.fails;
  }
  also-IsReceived buffer chunk remainder chunks frames no_fuel e h = absurd cc

  first-IsReceived :
      (buffer chunk : Bytes) (chunks : List Bytes) (first : Decoded E)
      → is_partial buffer ≡ true
      → receive buffer chunk ≡ first
      → EndsPartial first
      → ((remainder : Bytes)
          → is_partial remainder ≡ true
          → IsReceived remainder chunks (receive_all remainder chunks))
      → IsReceived buffer (chunk ∷ chunks) (receive_all buffer (chunk ∷ chunks))
  unfolding receive_all receive
  first-IsReceived buffer chunk chunks (done frames remainder) whole e partial ih =
      rw (e, receive_all)
        (also-IsReceived buffer chunk remainder chunks frames (receive_all remainder chunks) e
          (ih remainder partial))
  first-IsReceived buffer chunk chunks threw whole e partial ih =
      rw (e, receive_all)
        (record {
          before = [];
          chunk = chunk;
          after = chunks;
          rest = buffer;
          cut = refl;
          decodes =
              ap (try_decode_frames from_binary) (append-nil buffer)
              ∙ try_decode_frames_partial from_binary buffer whole;
          fails = ap (λ b. try_decode_frames from_binary (buffer ++ b)) (append-nil chunk) ∙ e;
        })
  first-IsReceived buffer chunk chunks out_of_fuel whole e partial ih =
      absurd (try_decode_frames_total from_binary (buffer ++ chunk) e)

  -- However a stream is cut into chunks, behind a buffer that holds less than a frame: if all chunks
  -- decode, the frames that are received, in order, and what is kept at the end are those of decoding
  -- the whole stream at once. Otherwise there is a chunk up to which the stream decodes, with which it
  -- does not, and the frames that are received are those of the stream up to there.
  pub receive_all-IsReceived :
      (buffer : Bytes) (chunks : List Bytes)
      → is_partial buffer ≡ true
      → IsReceived buffer chunks (receive_all buffer chunks)
  unfolding receive_all
  receive_all-IsReceived buffer [] partial =
      ap (try_decode_frames from_binary) (append-nil buffer)
      ∙ try_decode_frames_partial from_binary buffer partial
  receive_all-IsReceived buffer (chunk ∷ chunks) partial =
      first-IsReceived buffer chunk chunks (receive buffer chunk) partial refl
        (try_decode_frames-EndsPartial from_binary (buffer ++ chunk))
        (λ remainder p. receive_all-IsReceived remainder chunks p)

module _ {ℓ} {Schema H : Type ℓ} (server : Server Schema H) where
  abbrev written : Reply → List WireEnvelope → List WireEnvelope
  written (reply envelope) others = envelope ∷ others
  written socket_ended others = others
  written pending others = []

  -- The loop over the frames of one event, with the readings of each, when nothing else comes in
  -- between: the envelopes that are written. A promise that never settles ends the writing.
  unfoldable pub serve_frames : ServerState → List (WireEnvelope × Readings) → List WireEnvelope
  unfolding handle_envelope
  serve_frames state [] = []
  serve_frames state ((envelope, readings) ∷ frames) =
      let (answer, state') = handle_envelope server state envelope readings in
      written answer (serve_frames state' frames)
