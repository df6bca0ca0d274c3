-- ===== src/Protocol/FrameErrors.antt =====
-- packages/adapter-protocol/src/frame.js: the errors of the length-prefixed frames.
use Prim.Native.String.{◌++◌}
use publish.Prelude.{ℕ, [], ◌∷◌}
use publish.Json.{Value, num, finite, singleton, field}
use publish.Json.Print.{decimal}
use publish.Finding.{artifact_safety_error}
use publish.Protocol.Errors.{AdapterProtocolError, finding, no_extra, with_evidence}

abbrev pub count : ℕ → Value
count n = num (finite (decimal n))

unfoldable pub empty_body : AdapterProtocolError
empty_body = record {
  message = "Adapter protocol frame body is empty";
  findings =
      finding "ADAPTER_FRAME_EMPTY" artifact_safety_error
        "A protocol frame must carry at least one byte of UTF-8 JSON." no_extra
      ∷ [];
}

unfoldable pub body_too_large : ℕ → AdapterProtocolError
body_too_large n = record {
  message = "Adapter protocol frame body exceeds the 1048576-byte DEC-086 ceiling";
  findings =
      finding "ADAPTER_FRAME_TOO_LARGE" artifact_safety_error
        ("Frame body is " ++ (decimal n ++ " bytes; the DEC-086 ceiling is 1048576 bytes."))
        (with_evidence (singleton "byteLength" (count n)))
      ∷ [];
}

unfoldable pub truncated_prefix : ℕ → AdapterProtocolError
truncated_prefix n = record {
  message = "Adapter protocol frame is truncated before its length prefix";
  findings =
      finding "ADAPTER_FRAME_TRUNCATED" artifact_safety_error
        ("Buffer has " ++ (decimal n ++ " byte(s); a frame needs at least 4.")) no_extra
      ∷ [];
}

unfoldable pub empty_frame : AdapterProtocolError
empty_frame = record {
  message = "Adapter protocol frame is empty";
  findings =
      finding "ADAPTER_FRAME_EMPTY" artifact_safety_error
        "A protocol frame must declare a positive body length." no_extra
      ∷ [];
}

unfoldable pub declared_too_large : ℕ → AdapterProtocolError
declared_too_large n = record {
  message = "Adapter protocol frame declares a length above the 1048576-byte DEC-086 ceiling";
  findings =
      finding "ADAPTER_FRAME_TOO_LARGE" artifact_safety_error
        ("Declared length " ++ (decimal n ++ " exceeds the DEC-086 ceiling of 1048576 bytes."))
        (with_evidence (singleton "declaredLength" (count n)))
      ∷ [];
}

unfoldable pub truncated_body : ℕ → ℕ → AdapterProtocolError
truncated_body declared available = record {
  message = "Adapter protocol frame is truncated before its declared length";
  findings =
      finding "ADAPTER_FRAME_TRUNCATED" artifact_safety_error
        ("Declared length "
          ++ (decimal declared
              ++ (" but only " ++ (decimal available ++ " byte(s) are available."))))
        (with_evidence
          (field "declaredLength" (count declared) (singleton "available" (count available))))
      ∷ [];
}

unfoldable pub invalid_utf8 : AdapterProtocolError
invalid_utf8 = record {
  message = "Adapter protocol frame body is not valid UTF-8";
  findings =
      finding "ADAPTER_FRAME_INVALID_UTF8" artifact_safety_error
        "Frame body bytes did not decode as strict UTF-8." no_extra
      ∷ [];
}

unfoldable pub invalid_json : AdapterProtocolError
invalid_json = record {
  message = "Adapter protocol frame body is not valid JSON";
  findings =
      finding "ADAPTER_FRAME_INVALID_JSON" artifact_safety_error
        "Frame body decoded as UTF-8 but did not parse as JSON." no_extra
      ∷ [];
}
