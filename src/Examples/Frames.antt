-- ===== src/Examples/Frames.antt =====
-- Frames, digests and capability decisions at concrete inputs.
use publish.Prelude.{
  ◌+◌, ◌<◌, ◌≤◌, String, Option, none, some, List, [], ◌∷◌, ◌++◌, true, false, eqb, if◌then◌else◌,
  ◌==◌, eq_iff, ◌≡◌, ◌↔◌, refl, take, drop, length, Result, ok, All, arith,
}
use publish.Json.{Value, Fields, null, bool, str, obj, field, end, has_own, get}
use publish.Json.Print.{stringify}
use publish.Protocol.Errors.{AdapterProtocolError}
use publish.Protocol.Frame.{
  Bytes, DecodedFrame, frame_ceiling_bytes, encode_frame, decode_frame, decode_frames, read_uint32,
  write_uint32, encode_text, frame_of, decode_declared, decode_body, or_throw,
}
use publish.Protocol.Frame.Decoding.{
  Readable, Encoded, concat, decode-encode, decode_frames-Encoded,
}
use publish.Protocol.Frame.Bounds.{decode-bounds, decode_frames-total}
use publish.Protocol.Digest.{
  domain_digest, is_undefined, digest_of_text, canonicalize_json, braces, put_member, with_member,
  text_units, prepend_units,
}
use publish.Protocol.Digest.KeyOrder.{Reordered, swap, digest-Reordered}
use publish.Kernel.DecisionFields.{
  required_fields, conditional_fields, all_conditional_field_names, adapter_id_of, property,
  includes, required_findings, present, conditional_findings,
}
use publish.Kernel.CapabilityDecision.{
  build_capability_decision, verify_capability_decision_digest, field_findings, set,
  record_without_digest, build_for, digested, completed,
}
use publish.Kernel.CapabilityDecision.Presence.{Supplied, Exact, fields_iff}
use publish.Kernel.CapabilityDecision.Verified.{verify-build}
use publish.Examples.Data.{short_digest}

-- Functions that write and read one text, the JSON text of `null`.
abbrev encode_utf8 : String → Bytes
encode_utf8 s = 110 ∷ 117 ∷ 108 ∷ 108 ∷ []

abbrev decode_utf8 : Bytes → Option String
decode_utf8 bytes = if eqb (length bytes) 4 then some "null" else none

abbrev parse_json : String → Option Value
parse_json s = if s == "null" then some null else none

abbrev frame : Bytes
frame = 0 ∷ 0 ∷ 0 ∷ 4 ∷ 110 ∷ 117 ∷ 108 ∷ 108 ∷ []

null-Readable : Readable encode_utf8 decode_utf8 parse_json null
unfolding stringify
null-Readable text h = ground (arith, eq_iff text "null")

framed : encode_frame encode_utf8 null ≡ ok frame
unfolding encode_frame encode_text stringify frame_of write_uint32
framed = refl

decoded :
    decode_frame decode_utf8 parse_json (frame ++ 0 ∷ [])
    ≡ ok (record { message = null; byte_length = 4; remainder = 0 ∷ [] })
unfolding decode_frame decode_declared decode_body or_throw read_uint32
decoded = refl

decode-encode_example :
    (body : Bytes) × (frame ≡ write_uint32 (length body) ++ body)
    × (decode_frame decode_utf8 parse_json (frame ++ 0 ∷ [])
        ≡ ok (record { message = null; byte_length = length body; remainder = 0 ∷ [] }))
decode-encode_example =
    decode-encode encode_utf8 decode_utf8 parse_json null frame (0 ∷ []) null-Readable framed

two-Encoded : Encoded encode_utf8 decode_utf8 parse_json (null ∷ null ∷ []) (frame ∷ frame ∷ [])
two-Encoded = (null-Readable, (framed, (null-Readable, (framed, tt))))

decode_frames-Encoded_example :
    decode_frames decode_utf8 parse_json
      (concat encode_utf8 decode_utf8 parse_json (frame ∷ frame ∷ []))
    ≡ some (ok (null ∷ null ∷ []))
decode_frames-Encoded_example =
    decode_frames-Encoded encode_utf8 decode_utf8 parse_json (null ∷ null ∷ []) (frame ∷ frame ∷ [])
      two-Encoded

abbrev one_frame : DecodedFrame
one_frame = record { message = null; byte_length = 4; remainder = 0 ∷ [] }

decode-bounds_example :
    (4 ≡ read_uint32 (frame ++ 0 ∷ []))
    × ((0 < 4)
        × ((4 ≤ frame_ceiling_bytes)
            × ((one_frame.remainder ≡ drop (4 + 4) (frame ++ 0 ∷ []))
                × (length (frame ++ 0 ∷ []) ≡ 4 + 4 + length one_frame.remainder))))
decode-bounds_example = decode-bounds decode_utf8 parse_json (frame ++ 0 ∷ []) one_frame decoded

decode_frames-total_example :
    (r : Result AdapterProtocolError (List Value)) × (decode_frames decode_utf8 parse_json
        (frame ++ 0 ∷ [])
      ≡ some r)
decode_frames-total_example = decode_frames-total decode_utf8 parse_json (frame ++ 0 ∷ [])

abbrev two_fields : Fields
two_fields = field "b" (bool true) (field "a" null end)

abbrev other_order : Fields
other_order = field "a" null (field "b" (bool true) end)

exchanged : Reordered two_fields other_order
unfolding text_units prepend_units
exchanged = swap "b" "a" (bool true) null end (λ h. ground arith)

digest-Reordered_example :
    domain_digest short_digest "GALA" (obj two_fields)
    ≡ domain_digest short_digest "GALA" (obj other_order)
digest-Reordered_example = digest-Reordered short_digest "GALA" two_fields other_order exchanged

-- Every required field, for an adapter without fields of its own.
abbrev supplied : List String → Fields
supplied [] = end
supplied (n ∷ ns) = field n null (supplied ns)

abbrev decision_fields : Fields
decision_fields =
    field "adapter" (obj (field "adapterId" (str "local-directory") end))
      (supplied (take 4 required_fields ++ drop 5 required_fields))

fields_iff_example : (field_findings "local-directory" decision_fields ≡ []) ↔ (
    All (Supplied decision_fields) required_fields
    × All
        (Exact (conditional_fields "local-directory") decision_fields)
        all_conditional_field_names)
fields_iff_example = fields_iff "local-directory" decision_fields

abbrev decision : Fields
decision = set (record_without_digest decision_fields) "decisionDigest" (str "sha256:00")

no_digest : has_own decision_fields "decisionDigest" ≡ false
unfolding has_own
no_digest = refl

built :
    build_capability_decision short_digest decision_fields
    ≡ ok (record { decision = some decision; findings = [] })
unfolding build_capability_decision build_for adapter_id_of property get includes digested
    field_findings required_findings present is_undefined conditional_findings conditional_fields
    domain_digest digest_of_text canonicalize_json braces record_without_digest has_own completed
    set put_member with_member
built = refl

verify-build_example : verify_capability_decision_digest short_digest decision ≡ ok []
verify-build_example = verify-build short_digest decision_fields decision no_digest built
