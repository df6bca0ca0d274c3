-- ===== src/Protocol/Frame.antt =====
-- packages/adapter-protocol/src/frame.js: length-prefixed frames. A buffer is the list of its
-- bytes. `encode_utf8` is the UTF-8 encoding of a text, `decode_utf8` the strict decoder
-- (`TextDecoder` with `fatal`) and `parse_json` is `JSON.parse`, all three parameters; the last
-- two give `none` where the call throws.
pub mod Prefix
pub mod Decoding
pub mod Bounds
use publish.Prelude.{
  ℕ, zero, suc, ◌+◌, ◌-◌, ◌*◌, ◌/◌, ◌%◌, String, Option, none, some, List, [], ◌∷◌, ◌++◌, length,
  take, drop, Result, ok, err, ◌>>=◌, ltb, eqb, if◌then◌else◌,
}
use publish.Json.{Value}
use publish.Json.Print.{stringify}
use publish.Protocol.Errors.{AdapterProtocolError}
use publish.Protocol.FrameErrors.{
  empty_body, body_too_large, truncated_prefix, empty_frame, declared_too_large, truncated_body,
  invalid_utf8, invalid_json,
}

abbrev pub Bytes : Type 0
Bytes = List ℕ

abbrev pub frame_ceiling_bytes : ℕ
frame_ceiling_bytes = 1048576

abbrev pub frame_length_prefix_bytes : ℕ
frame_length_prefix_bytes = 4

-- `type_error` is the error that `Buffer.from(undefined)` throws.
pub data FrameError : Type 0 where
  protocol_error : AdapterProtocolError → FrameError
  type_error : FrameError

-- `prefix.writeUInt32BE(n, 0)`
unfoldable pub write_uint32 : ℕ → Bytes
write_uint32 n = (n / 16777216) % 256 ∷ (n / 65536) % 256 ∷ (n / 256) % 256 ∷ n % 256 ∷ []

-- `buffer.readUInt32BE(0)` of a buffer that holds four bytes.
unfoldable pub read_uint32 : Bytes → ℕ
read_uint32 (a ∷ b ∷ c ∷ d ∷ rest) = a * 16777216 + b * 65536 + c * 256 + d
read_uint32 _ = 0

unfoldable pub frame_of : Bytes → Result FrameError Bytes
frame_of body =
    if eqb (length body) 0
    then err (protocol_error empty_body)
    else if ltb frame_ceiling_bytes (length body)
    then err (protocol_error (body_too_large (length body)))
    else ok (write_uint32 (length body) ++ body)

unfoldable pub encode_text : (String → Bytes) → Option String → Result FrameError Bytes
encode_text encode_utf8 none = err type_error
encode_text encode_utf8 (some text) = frame_of (encode_utf8 text)

unfoldable pub encode_frame : (String → Bytes) → Value → Result FrameError Bytes
encode_frame encode_utf8 message = encode_text encode_utf8 (stringify message)

pub record DecodedFrame : Type 0 where
  pub message : Value
  pub byte_length : ℕ
  pub remainder : Bytes

-- A caught exception is thrown again as the error given.
unfoldable pub or_throw {ℓ} :
    {A : Type ℓ} → Option A → AdapterProtocolError → Result AdapterProtocolError A
or_throw none e = err e
or_throw (some a) e = ok a

-- What `decodeFrames` goes on with: `none` where the rounds are used up.
abbrev pub Messages : Type 0
Messages = Option (Result AdapterProtocolError (List Value))

unfoldable pub prepend : Value → Messages → Messages
prepend message none = none
prepend message (some (err e)) = some (err e)
prepend message (some (ok messages)) = some (ok (message ∷ messages))

unfoldable pub decode_rest :
    (Bytes → Messages) → Result AdapterProtocolError DecodedFrame → Messages
decode_rest go (err e) = some (err e)
decode_rest go (ok decoded) = prepend decoded.message (go decoded.remainder)

module _ (decode_utf8 : Bytes → Option String) (parse_json : String → Option Value) where
  unfoldable pub decode_body : Bytes → Result AdapterProtocolError Value
  unfolding or_throw
  decode_body body =
      or_throw (decode_utf8 body) invalid_utf8 >>= λ text. or_throw (parse_json text) invalid_json

  -- A frame whose declared length was admitted.
  unfoldable pub decode_declared : ℕ → Bytes → Result AdapterProtocolError DecodedFrame
  decode_declared declared after_prefix =
      if ltb (length after_prefix) declared
      then err (truncated_body declared (length after_prefix))
      else (decode_body (take declared after_prefix) >>= λ message. ok (record {
        message = message;
        byte_length = declared;
        remainder = drop declared after_prefix;
      }))

  unfoldable pub decode_frame : Bytes → Result AdapterProtocolError DecodedFrame
  decode_frame buffer =
      let declared = read_uint32 buffer in
      if ltb (length buffer) frame_length_prefix_bytes
      then err (truncated_prefix (length buffer))
      else if eqb declared 0
      then err empty_frame
      else if ltb frame_ceiling_bytes declared
      then err (declared_too_large declared)
      else decode_declared declared (drop frame_length_prefix_bytes buffer)

  unfoldable pub decode_rounds : ℕ → Bytes → Messages
  decode_rounds fuel [] = some (ok [])
  decode_rounds zero (b ∷ bs) = none
  decode_rounds (suc fuel) (b ∷ bs) =
      decode_rest (λ remaining. decode_rounds fuel remaining) (decode_frame (b ∷ bs))

  -- Every frame takes a byte, so as many rounds as there are bytes are enough.
  unfoldable pub decode_frames : Bytes → Messages
  decode_frames buffer = decode_rounds (length buffer) buffer
