-- ===== src/Protocol/Frame/Decoding.antt =====
-- Frames that were encoded are decoded.
use publish.Prelude.{
  ℕ, zero, suc, ◌+◌, ◌<◌, ◌≤◌, String, false, Option, none, some, List, [], ◌∷◌, ◌++◌, ◌≡◌, refl,
  ap, ◌∙◌, length, length-append, arith, ok, ltb, eqb,
}
use publish.Json.{Value}
use publish.Json.Print.{stringify}
use publish.Protocol.Frame.{
  Bytes, DecodedFrame, prepend, decode_rest, or_throw, frame_ceiling_bytes, frame_of, encode_text,
  encode_frame, write_uint32, decode_body, decode_declared, decode_frame, decode_rounds,
  decode_frames,
}
use publish.Protocol.Frame.Prefix.{
  read-write_uint32, length-write_uint32, drop-write_uint32, take-length_append, drop-length_append,
}

-- The body that an encoded frame carries.
frame_of-ok :
    (body frame : Bytes)
    → frame_of body ≡ ok frame
    → (frame ≡ write_uint32 (length body) ++ body)
      × ((0 < length body) × (length body ≤ frame_ceiling_bytes))
unfolding frame_of
frame_of-ok body frame h = ground arith

encode-ok :
    (encode_utf8 : String → Bytes) (o : Option String) (frame : Bytes)
    → encode_text encode_utf8 o ≡ ok frame
    → (text : String) × (o ≡ some text) × (frame_of (encode_utf8 text) ≡ ok frame)
unfolding encode_text
encode-ok encode_utf8 none frame h = ground arith
encode-ok encode_utf8 (some text) frame h = (text, refl, h)

module _ (decode_utf8 : Bytes → Option String) (parse_json : String → Option Value) where
  decode-frame_of :
      (body rest : Bytes) (text : String) (message : Value)
      → 0 < length body
      → length body ≤ frame_ceiling_bytes
      → decode_utf8 body ≡ some text
      → parse_json text ≡ some message
      → decode_frame decode_utf8 parse_json (write_uint32 (length body) ++ (body ++ rest))
        ≡ ok (record { message = message; byte_length = length body; remainder = rest })
  unfolding decode_frame decode_declared decode_body or_throw
  decode-frame_of body rest text message positive bounded decoded parsed =
      let n = length body in
      let long : ltb (4 + length (body ++ rest)) 4 ≡ false = ground arith in
      let nonzero : eqb n 0 ≡ false = ground arith in
      let admitted : ltb frame_ceiling_bytes n ≡ false = ground arith in
      let whole : ltb (length (body ++ rest)) n ≡ false = ground (arith, length-append body rest) in
      rw (
        length-write_uint32 n (body ++ rest),
        read-write_uint32 n (body ++ rest) (omega arith),
        drop-write_uint32 n (body ++ rest),
        long,
        nonzero,
        admitted,
        whole,
        take-length_append body rest,
        drop-length_append body rest,
        decoded,
        parsed,
      )

  decode_rounds-step :
      (fuel : ℕ) (buffer : Bytes) (d : DecodedFrame)
      → 0 < length buffer
      → decode_frame decode_utf8 parse_json buffer ≡ ok d
      → decode_rounds decode_utf8 parse_json (suc fuel) buffer
        ≡ prepend d.message (decode_rounds decode_utf8 parse_json fuel d.remainder)
  unfolding decode_rounds decode_rest
  decode_rounds-step fuel [] d h e = absurd (omega arith)
  decode_rounds-step fuel (b ∷ bs) d h e = rw e

append_assoc : (xs ys zs : Bytes) → (xs ++ ys) ++ zs ≡ xs ++ (ys ++ zs)
append_assoc [] ys zs = refl
append_assoc (x ∷ xs) ys zs = ap (λ t. x ∷ t) (append_assoc xs ys zs)

-- What the parameters do with the text of a message: `decode_utf8` reads what `encode_utf8`
-- writes, and `parse_json` reads what `JSON.stringify` prints.
abbrev pub Readable :
    (String → Bytes) → (Bytes → Option String) → (String → Option Value) → Value → Type 0
Readable encode_utf8 decode_utf8 parse_json message =
    (text : String)
    → stringify message ≡ some text
    → (decode_utf8 (encode_utf8 text) ≡ some text) × (parse_json text ≡ some message)

module _ (encode_utf8 : String → Bytes) (decode_utf8 : Bytes → Option String)
    (parse_json : String → Option Value) where
  -- A frame that `encodeFrame` returns is decoded to its message by `decodeFrame`, whatever bytes
  -- follow it, and what is left is those bytes, if the parameters read the message's text back.
  pub decode-encode :
      (message : Value) (frame rest : Bytes)
      → Readable encode_utf8 decode_utf8 parse_json message
      → encode_frame encode_utf8 message ≡ ok frame
      → (body : Bytes) × (frame ≡ write_uint32 (length body) ++ body)
        × (decode_frame decode_utf8 parse_json (frame ++ rest)
            ≡ ok (record { message = message; byte_length = length body; remainder = rest }))
  unfolding encode_frame
  decode-encode message frame rest readable h =
      let (text, printed, framed) = encode-ok encode_utf8 (stringify message) frame h in
      let (shape, (positive, bounded)) = frame_of-ok (encode_utf8 text) frame framed in
      let (decoded, parsed) = readable text printed in
      (
        encode_utf8 text,
        shape,
        ap (λ f. decode_frame decode_utf8 parse_json (f ++ rest)) shape
            ∙ ap (decode_frame decode_utf8 parse_json)
                (append_assoc (write_uint32 (length (encode_utf8 text))) (encode_utf8 text) rest)
            ∙ decode-frame_of decode_utf8 parse_json (encode_utf8 text) rest text message positive
                bounded decoded parsed,
      )

  encode-positive :
      (message : Value) (frame : Bytes)
      → encode_frame encode_utf8 message ≡ ok frame
      → 0 < length frame
  unfolding encode_frame
  encode-positive message frame h =
      let (text, printed, framed) = encode-ok encode_utf8 (stringify message) frame h in
      let (shape, (positive, bounded)) = frame_of-ok (encode_utf8 text) frame framed in
      omega
        (arith, ap length shape, length-write_uint32 (length (encode_utf8 text)) (encode_utf8 text))

  -- The frames of a list of messages.
  abbrev pub Encoded : List Value → List Bytes → Type 0
  Encoded [] [] = Unit
  Encoded (m ∷ ms) (f ∷ fs) =
      Readable encode_utf8 decode_utf8 parse_json m
      × ((encode_frame encode_utf8 m ≡ ok f) × Encoded ms fs)
  Encoded [] (f ∷ fs) = ⊥
  Encoded (m ∷ ms) [] = ⊥

  abbrev pub concat : List Bytes → Bytes
  concat [] = []
  concat (f ∷ fs) = f ++ concat fs

  decode_rounds-Encoded :
      (fuel : ℕ) (messages : List Value) (frames : List Bytes)
      → Encoded messages frames
      → length (concat frames) ≤ fuel
      → decode_rounds decode_utf8 parse_json fuel (concat frames) ≡ some (ok messages)
  unfolding decode_rounds prepend
  decode_rounds-Encoded fuel [] [] h e = refl
  decode_rounds-Encoded fuel [] (f ∷ fs) h e = absurd h
  decode_rounds-Encoded fuel (m ∷ ms) [] h e = absurd h
  decode_rounds-Encoded zero (m ∷ ms) (f ∷ fs) (r, (h, hs)) e =
      absurd (omega (arith, encode-positive m f h, length-append f (concat fs)))
  decode_rounds-Encoded (suc fuel) (m ∷ ms) (f ∷ fs) (r, (h, hs)) e =
      let (body, shape, decoded) = decode-encode m f (concat fs) r h in
      let longer = length-append f (concat fs) in
      let positive = encode-positive m f h in
      let rest = decode_rounds-Encoded fuel ms fs hs (omega (arith, longer, positive)) in
      decode_rounds-step decode_utf8 parse_json fuel (f ++ concat fs) _
        (omega (arith, longer, positive)) decoded
      ∙ ap (prepend m) rest
      ∙ refl

  -- The messages whose frames a buffer holds one after the other, and nothing else, are what
  -- `decodeFrames` returns, in their order, if the parameters read each message's text back.
  pub decode_frames-Encoded :
      (messages : List Value) (frames : List Bytes)
      → Encoded messages frames
      → decode_frames decode_utf8 parse_json (concat frames) ≡ some (ok messages)
  unfolding decode_frames
  decode_frames-Encoded messages frames h =
      decode_rounds-Encoded (length (concat frames)) messages frames h (omega arith)
