-- ===== src/Protocol/Frame/Bounds.antt =====
-- What a decoded frame takes from the buffer, and that decoding ends.
use publish.Prelude.{
  ℕ, zero, suc, ◌+◌, ◌<◌, ◌≤◌, String, Option, none, some, List, [], ◌∷◌, ◌≡◌, refl, ap, sym, ◌∙◌,
  length, drop, arith, Result, ok, err,
}
use publish.Json.{Value}
use publish.Protocol.Errors.{AdapterProtocolError}
use publish.Protocol.Frame.{
  Bytes, DecodedFrame, Messages, prepend, decode_rest, frame_ceiling_bytes, read_uint32,
  decode_declared, decode_frame, decode_rounds, decode_frames,
}
use publish.Protocol.Frame.Prefix.{length-drop, drop-drop}

prepend-some :
    (m : Value) (o : Messages) (r : Result AdapterProtocolError (List Value))
    → o ≡ some r
    → (r' : Result AdapterProtocolError (List Value)) × (prepend m o ≡ some r')
unfolding prepend
prepend-some m none r h = ground arith
prepend-some m (some (ok ms)) r h = (ok (m ∷ ms), refl)
prepend-some m (some (err e)) r h = (err e, refl)

rest-enough :
    (r : Result AdapterProtocolError DecodedFrame) (go : Bytes → Messages)
    → ((d : DecodedFrame)
        → r ≡ ok d
        → (s : Result AdapterProtocolError (List Value)) × (go d.remainder ≡ some s))
    → (s : Result AdapterProtocolError (List Value)) × (decode_rest go r ≡ some s)
unfolding decode_rest
rest-enough (err e) go h = (err e, refl)
rest-enough (ok d) go h = let (s, e) = h d refl in prepend-some d.message (go d.remainder) s e

-- What a decoded frame takes from the buffer.
module _ (decode_utf8 : Bytes → Option String) (parse_json : String → Option Value) where
  decode_declared-ok :
      (declared : ℕ) (after_prefix : Bytes) (d : DecodedFrame)
      → decode_declared decode_utf8 parse_json declared after_prefix ≡ ok d
      → (d.byte_length ≡ declared)
        × ((declared ≤ length after_prefix) × (d.remainder ≡ drop declared after_prefix))
  unfolding decode_declared
  decode_declared-ok declared after_prefix d h = ground arith

  admitted-frame :
      (buffer : Bytes) (d : DecodedFrame)
      → decode_frame decode_utf8 parse_json buffer ≡ ok d
      → (4 ≤ length buffer)
        × ((0 < read_uint32 buffer)
            × ((read_uint32 buffer ≤ frame_ceiling_bytes)
                × (decode_declared decode_utf8 parse_json (read_uint32 buffer) (drop 4 buffer)
                    ≡ ok d)))
  unfolding decode_frame
  admitted-frame buffer d h = ground arith

  -- A frame is accepted only with a body of 1 byte to 1,048,576 bytes, of the length that its
  -- prefix declares; it takes its prefix and its body from the buffer and leaves what follows.
  pub decode-bounds :
      (buffer : Bytes) (d : DecodedFrame)
      → decode_frame decode_utf8 parse_json buffer ≡ ok d
      → (d.byte_length ≡ read_uint32 buffer)
        × ((0 < d.byte_length)
            × ((d.byte_length ≤ frame_ceiling_bytes)
                × ((d.remainder ≡ drop (4 + d.byte_length) buffer)
                    × (length buffer ≡ 4 + d.byte_length + length d.remainder))))
  unfolding decode_frame
  decode-bounds buffer d h =
      let declared = read_uint32 buffer in
      let (long, (positive, (bounded, body))) = admitted-frame buffer d h in
      let (size, (whole, left)) = decode_declared-ok declared (drop 4 buffer) d body in
      let prefix = length-drop 4 buffer long in
      let after = length-drop declared (drop 4 buffer) whole in
      (
        size,
        (
          omega (arith, size, positive),
          (
            omega (arith, size, bounded),
            (
              left ∙ drop-drop 4 declared buffer ∙ ap (λ k. drop (4 + k) buffer) (sym size),
              omega (arith, size, prefix, after, ap length left),
            ),
          ),
        ),
      )

  shrinks :
      (buffer : Bytes) (d : DecodedFrame) (n : ℕ)
      → decode_frame decode_utf8 parse_json buffer ≡ ok d
      → length buffer ≤ suc n
      → length d.remainder ≤ n
  shrinks buffer d n h k =
      let (_, (_, (_, (_, size)))) = decode-bounds buffer d h in omega (arith, size, k)

  rounds-enough :
      (fuel : ℕ) (buffer : Bytes)
      → length buffer ≤ fuel
      → (r : Result AdapterProtocolError (List Value)) × (decode_rounds decode_utf8 parse_json fuel
            buffer
          ≡ some r)
  unfolding decode_rounds decode_rest prepend
  rounds-enough fuel [] h = (ok [], refl)
  rounds-enough zero (b ∷ bs) h = absurd (omega arith)
  rounds-enough (suc fuel) (b ∷ bs) h =
      rest-enough (decode_frame decode_utf8 parse_json (b ∷ bs))
        (λ remaining. decode_rounds decode_utf8 parse_json fuel remaining)
        (λ d e. rounds-enough fuel d.remainder (shrinks (b ∷ bs) d fuel e h))

  -- `decodeFrames` returns or throws on every buffer: it never goes round forever.
  pub decode_frames-total :
      (buffer : Bytes)
      → (r : Result AdapterProtocolError (List Value)) × (decode_frames decode_utf8 parse_json
            buffer
          ≡ some r)
  unfolding decode_frames
  decode_frames-total buffer = rounds-enough (length buffer) buffer (omega arith)
