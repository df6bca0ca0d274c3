-- ===== src/Kernel/Fencing.antt =====
-- packages/publish-kernel/src/operation-fencing.js: duty 6, operation identity, idempotency and
-- the concurrency fence.
pub mod Idempotency
pub mod Journal
pub mod Fenced
use Prim.Native.String.{◌++◌}
use publish.Prelude.{
  String, Bool, true, false, not, ◌&&◌, Option, none, some, List, [], ◌∷◌, ◌++◌ as append, Result,
  ok, err, ◌==◌, if◌then◌else◌, filter, find,
}
use publish.Json.{Value, str, null}
use publish.Json.Print.{quoted, shown}
use publish.Finding.{
  Finding, Extra, no_extra, kernel_finding, source_error, artifact_safety_error,
  target_constraint_error, at_location,
}
use publish.Protocol.Errors.{AdapterProtocolError}
use publish.Protocol.StableId.{is_stable_id}
use publish.Protocol.Fence.{
  adapter_protocol_version, expect_nothing_served, GenerationFence, require_generation_fence,
  fence_disagrees,
}

pub record JournaledOperation : Type 0 where
  pub operation_id : String
  pub attempt_id : String
  pub idempotency_key : String
  pub artifact_digest : String

pub data Status : Type 0 where
  fresh idempotent_replay conflict : Status

pub record IdempotencyDecision : Type 0 where
  pub status : Status
  pub findings : List Finding
  pub matched : Option JournaledOperation

unfoldable pub identity_invalid : String → Value → Finding
unfolding kernel_finding
identity_invalid name value =
    kernel_finding "OPERATION_IDENTITY_INVALID" source_error
      ("Field \"" ++ (name ++ ("\" is not a well-formed identity: " ++ (shown value ++ "."))))
      "Supply a lowercase canonical UUIDv7 for this field." (at_location ("/" ++ name))

unfoldable pub check_identity_syntax : String → Value → List Finding
check_identity_syntax name (str s) =
    if is_stable_id s then [] else identity_invalid name (str s) ∷ []
check_identity_syntax name value = identity_invalid name value ∷ []

-- `identityFindings`
unfoldable pub identity_findings : JournaledOperation → List Finding
identity_findings c = append (check_identity_syntax "operationId" (str c.operation_id)) (
    append (check_identity_syntax "attemptId" (str c.attempt_id))
      (check_identity_syntax "idempotencyKey" (str c.idempotency_key)))

unfoldable pub reuse_conflict : JournaledOperation → JournaledOperation → Finding
unfolding kernel_finding
reuse_conflict candidate conflicting =
    kernel_finding "IDEMPOTENCY_KEY_REUSE_CONFLICT" artifact_safety_error
      ("Idempotency key \""
        ++ (candidate.idempotency_key
            ++ ("\" was already used for artifact digest "
                ++ (quoted conflicting.artifact_digest
                    ++ ("; a candidate with digest "
                        ++ (quoted candidate.artifact_digest ++ " cannot reuse it."))))))
      "Issue a fresh idempotency key for the new artifact bytes; an idempotency key names exactly one artifact identity for its lifetime."
      (at_location "/idempotencyKey")

abbrev pub same_key : JournaledOperation → JournaledOperation → Bool
same_key candidate entry = entry.idempotency_key == candidate.idempotency_key

abbrev pub same_digest : JournaledOperation → JournaledOperation → Bool
same_digest candidate entry = entry.artifact_digest == candidate.artifact_digest

abbrev pub exact_replay : JournaledOperation → JournaledOperation → Bool
exact_replay candidate entry =
    same_digest candidate entry && entry.operation_id == candidate.operation_id

-- The decision over the journal's entries with the candidate's key, the first of them apart.
unfoldable pub decide_reuse :
    JournaledOperation → List JournaledOperation → JournaledOperation → IdempotencyDecision
decide_reuse first same candidate = elim (find (exact_replay candidate) (first ∷ same)) [
  | some entry ↦ record { status = idempotent_replay; findings = []; matched = some entry }
  | none ↦ elim (find (λ e. not (same_digest candidate e)) (first ∷ same)) [
    | some conflicting ↦ record {
      status = conflict;
      findings = reuse_conflict candidate conflicting ∷ [];
      matched = some conflicting;
    }
    | none ↦ record { status = idempotent_replay; findings = []; matched = some first }
  ]
]

-- What is decided once the identities are well formed.
unfoldable pub decide_same_key : List JournaledOperation → JournaledOperation → IdempotencyDecision
decide_same_key [] candidate = record { status = fresh; findings = []; matched = none }
decide_same_key (first ∷ same) candidate = decide_reuse first same candidate

unfoldable pub decide_from :
    List Finding → List JournaledOperation → JournaledOperation → IdempotencyDecision
decide_from (f ∷ fs) journal candidate = record {
  status = conflict;
  findings = f ∷ fs;
  matched = none;
}
decide_from [] journal candidate = decide_same_key (filter (same_key candidate) journal) candidate

unfoldable pub decide_idempotency :
    List JournaledOperation → JournaledOperation → IdempotencyDecision
unfolding decide_from
decide_idempotency journal candidate = decide_from (identity_findings candidate) journal candidate

pub data Concurrency : Type 0 where
  unfenced best_effort expected_generation provider_etag : Concurrency

unfoldable pub concurrency_name : Concurrency → String
concurrency_name unfenced = "none"
concurrency_name best_effort = "best-effort"
concurrency_name expected_generation = "expected-generation"
concurrency_name provider_etag = "provider-etag"

-- `observed` is `none` where the property is `undefined`, and `some none` where it is `null`.
pub record ConcurrencyFenceInput : Type 0 where
  pub concurrency : Concurrency
  pub expected_generation_id : Value
  pub observed_generation_id : Option (Option String)

unfoldable pub fence_identity_invalid : ConcurrencyFenceInput → Finding
unfolding kernel_finding
fence_identity_invalid input =
    kernel_finding "CONCURRENCY_FENCE_IDENTITY_INVALID" source_error
      ("Concurrency class \""
        ++ (concurrency_name input.concurrency
            ++ ("\" requires an expected generation identity or the "
                ++ (quoted expect_nothing_served
                    ++ (" sentinel; received "
                        ++ (shown input.expected_generation_id
                            ++ (". Adapter protocol "
                                ++ (adapter_protocol_version
                                    ++ " has no fence value that means \"no expectation\" (LOCAL-47)."))))))))
      ("Preflight must resolve and record the currently observed generation before staging under this concurrency class; when it observes that nothing is served, state that explicitly with "
        ++ (quoted expect_nothing_served ++ " rather than omitting the expectation."))
      (at_location "/fence/expectedGenerationId")

unfoldable pub observation_missing : ConcurrencyFenceInput → Finding
unfolding kernel_finding
observation_missing input =
    kernel_finding "CONCURRENCY_FENCE_OBSERVATION_MISSING" source_error
      ("Concurrency class \""
        ++ (concurrency_name input.concurrency
            ++ "\" requires the destination's currently observed generation; none was supplied."))
      "Re-run preflight and pass its observation as `observedGenerationId` — a generation identity, or `null` when the destination serves nothing. Omitting it is not an unfenced publish."
      (at_location "/fence/observedGenerationId")

abbrev observed_value : Option String → Value
observed_value none = null
observed_value (some g) = str g

unfoldable pub stale_expectation : ConcurrencyFenceInput → Option String → Finding
unfolding kernel_finding
stale_expectation input observed =
    kernel_finding "CONCURRENCY_FENCE_STALE_EXPECTATION" target_constraint_error
      ("Expected generation "
        ++ (shown input.expected_generation_id
            ++ (" disagrees with the destination's currently observed generation "
                ++ (shown (observed_value observed) ++ "."))))
      "Re-run preflight to observe the current generation, then reconcile or issue a new operation rather than overwriting blindly."
      no_extra

-- What follows the resolution of the fence.
unfoldable pub check_observation :
    ConcurrencyFenceInput → GenerationFence → Option (Option String) → List Finding
check_observation input fence none = observation_missing input ∷ []
check_observation input fence (some observed) =
    if fence_disagrees fence observed then stale_expectation input observed ∷ [] else []

-- The `try` around the resolution: a refused expectation is a finding.
unfoldable pub check_resolved :
    ConcurrencyFenceInput → Result AdapterProtocolError GenerationFence → List Finding
check_resolved input (err e) = fence_identity_invalid input ∷ []
check_resolved input (ok fence) = check_observation input fence input.observed_generation_id

unfoldable pub is_fenced : Concurrency → Bool
is_fenced unfenced = false
is_fenced best_effort = false
is_fenced expected_generation = true
is_fenced provider_etag = true

unfoldable pub check_concurrency_fence : ConcurrencyFenceInput → List Finding
unfolding is_fenced
check_concurrency_fence input =
    if is_fenced input.concurrency
    then check_resolved input
        (require_generation_fence input.expected_generation_id "publish-kernel")
    else []
