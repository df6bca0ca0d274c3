-- ===== src/Protocol/Fence.antt =====
-- packages/adapter-protocol/src/generation-fence.js: the activation fence.
pub mod Laws
use Prim.Native.String.{◌++◌}
use publish.Prelude.{
  String, Bool, true, false, not, Option, none, some, List, [], ◌∷◌, ◌||◌, Result, ok, err, ◌==◌,
  if◌then◌else◌,
}
use publish.Json.{Value, undefined, null, str}
use publish.Json.Print.{quoted, shown}
use publish.Finding.{target_constraint_error}
use publish.Protocol.Errors.{AdapterProtocolError, finding, at_location}
use publish.Protocol.StableId.{is_stable_id}

abbrev pub adapter_protocol_version : String
adapter_protocol_version = "2.1.0"

abbrev pub expect_nothing_served : String
expect_nothing_served = "gala:expect-nothing-served"

pub record GenerationFence : Type 0 where
  pub expects_nothing_served : Bool
  pub generation_id : Option String

unfoldable pub missing_detail : String → String
missing_detail name =
    "expectedCurrentGenerationId is "
    ++ (name
        ++ (". Adapter protocol "
            ++ (adapter_protocol_version
                ++ (" refuses it: \"nothing is served\" is now the explicit "
                    ++ (quoted expect_nothing_served
                        ++ " sentinel, so a missing expectation can never silently disable the activation fence (LOCAL-47).")))))

unfoldable pub malformed_detail : Value → String
malformed_detail value =
    "expectedCurrentGenerationId must be a lowercase UUIDv7 generation identity or "
    ++ (quoted expect_nothing_served
        ++ (", exactly as the schema's activation fence admits; received " ++ (shown value ++ ".")))

unfoldable pub invalid_detail : Value → String
invalid_detail null = missing_detail "null"
invalid_detail undefined = missing_detail "undefined"
invalid_detail value = malformed_detail value

unfoldable pub fence_invalid : Value → String → AdapterProtocolError
fence_invalid value adapter_id = record {
  message =
      adapter_id
      ++ ": expectedCurrentGenerationId must be a generation identity or the EXPECT_NOTHING_SERVED sentinel";
  findings =
      finding "EXPECTED_GENERATION_FENCE_INVALID" target_constraint_error (invalid_detail value)
        (at_location "/expectedCurrentGenerationId")
      ∷ [];
}

unfoldable pub require_generation_fence :
    Value → String → Result AdapterProtocolError GenerationFence
require_generation_fence (str s) adapter_id =
    if s == expect_nothing_served
    then ok (record { expects_nothing_served = true; generation_id = none })
    else if is_stable_id s
    then ok (record { expects_nothing_served = false; generation_id = some s })
    else err (fence_invalid (str s) adapter_id)
require_generation_fence value adapter_id = err (fence_invalid value adapter_id)

-- `a !== b` of two values that are a text or `null`.
unfoldable pub texts_differ : Option String → Option String → Bool
texts_differ none none = false
texts_differ none (some b) = true
texts_differ (some a) none = true
texts_differ (some a) (some b) = not (a == b)

-- `observedGenerationId !== null`
unfoldable pub is_served : Option String → Bool
is_served none = false
is_served (some g) = true

unfoldable pub fence_disagrees : GenerationFence → Option String → Bool
unfolding texts_differ is_served
fence_disagrees fence observed =
    if fence.expects_nothing_served
    then is_served observed
    else texts_differ observed fence.generation_id

-- `null` and `undefined` are both `none`.
unfoldable pub fence_for : Option String → String
fence_for none = expect_nothing_served
fence_for (some g) = g
