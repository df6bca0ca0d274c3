-- ===== src/Kernel/DecisionFields.antt =====
-- packages/publish-kernel/src/capability-decision.js: the fields of a capability decision and the
-- findings on them.
use Prim.Native.String.{◌++◌}
use publish.Prelude.{String, Bool, false, not, List, [], ◌∷◌, any, ◌==◌, if◌then◌else◌}
use publish.Json.{Value, Fields, undefined, str, obj, instance_of, get}
use publish.Json.Print.{shown}
use publish.Finding.{Finding, kernel_finding, artifact_safety_error, at_location}
use publish.Protocol.Digest.{is_undefined}

abbrev pub capability_decision_domain : String
capability_decision_domain = "GALA-CAPABILITY-DECISION-V2\0"

-- `DESTINATION_KINDS` of the protocol package.
abbrev pub destination_kinds : List String
destination_kinds = "local-directory" ∷ "github-pages" ∷ "do-spaces" ∷ []

abbrev pub required_fields : List String
required_fields =
    "artifactId" ∷ "artifactDigest" ∷ "manifestDigest" ∷ "destination" ∷ "adapter"
    ∷ "capabilityDigest" ∷ "artifactFileCount" ∷ "deploymentObjectCount" ∷ "artifactByteCount"
    ∷ "markerByteLength" ∷ "deploymentByteCount" ∷ "maximumFinalPathByteLength"
    ∷ "maximumStageRequestCount" ∷ "maximumStageRequestBytes" ∷ "maximumStageResponseBytes"
    ∷ "maximumStageResponseWireBytes" ∷ []

abbrev pub github_pages_fields : List String
github_pages_fields =
    "credentialEgressProfileDigest" ∷ "pagesOidcOriginCatalogDigest" ∷ "pagesActionsArtifactName"
    ∷ "pagesActionsArtifactByteCount" ∷ "pagesActionsArtifactDigest" ∷ "pagesBuildVersion" ∷ []

abbrev pub do_spaces_fields : List String
do_spaces_fields =
    "credentialEgressProfileDigest" ∷ "spacesStagePrefix" ∷ "spacesWebsiteConfigurationDigest"
    ∷ "spacesControlPlaneBindingDigest" ∷ "spacesControlPlaneRequestCatalogDigest"
    ∷ "spacesControlPlaneResponseCatalogDigest" ∷ "spacesControlPlaneTlsProfileDigest" ∷ []

-- `CONDITIONAL_FIELDS[adapterId]` for one of the three adapters.
unfoldable pub conditional_fields : String → List String
conditional_fields adapter_id =
    if adapter_id == "github-pages"
    then github_pages_fields
    else if adapter_id == "do-spaces"
    then do_spaces_fields
    else []

-- Each name once, in the order of its first place.
abbrev pub all_conditional_field_names : List String
all_conditional_field_names =
    "credentialEgressProfileDigest" ∷ "pagesOidcOriginCatalogDigest" ∷ "pagesActionsArtifactName"
    ∷ "pagesActionsArtifactByteCount" ∷ "pagesActionsArtifactDigest" ∷ "pagesBuildVersion"
    ∷ "spacesStagePrefix" ∷ "spacesWebsiteConfigurationDigest" ∷ "spacesControlPlaneBindingDigest"
    ∷ "spacesControlPlaneRequestCatalogDigest" ∷ "spacesControlPlaneResponseCatalogDigest"
    ∷ "spacesControlPlaneTlsProfileDigest" ∷ []

-- `list.includes(value)` of a list of texts.
unfoldable pub includes : List String → Value → Bool
includes names (str s) = any (λ n. n == s) names
includes names _ = false

-- `value?.[key]`, for a name that no other value has.
unfoldable pub property : Value → String → Value
property (obj fs) key = get fs key
property (instance_of fs) key = get fs key
property _ key = undefined

unfoldable pub adapter_id_of : Fields → Value
adapter_id_of fields = property (get fields "adapter") "adapterId"

unfoldable pub adapter_unknown : Value → Finding
adapter_unknown adapter_id =
    kernel_finding "CAPABILITY_DECISION_ADAPTER_UNKNOWN" artifact_safety_error
      ("adapter.adapterId "
        ++ (shown adapter_id ++ " is not one of the three closed adapter identities."))
      "Supply a capability decision only for local-directory, github-pages or do-spaces."
      (at_location "/adapter/adapterId")

unfoldable pub missing_field_finding : String → Finding
missing_field_finding name =
    kernel_finding "CAPABILITY_DECISION_FIELD_MISSING" artifact_safety_error
      ("Field \"" ++ (name ++ "\" is required and was not supplied."))
      ("Supply \"" ++ (name ++ "\" before building the capability decision."))
      (at_location ("/" ++ name))

unfoldable pub forbidden_field_finding : String → String → Finding
forbidden_field_finding name adapter_id =
    kernel_finding "CAPABILITY_DECISION_FIELD_FORBIDDEN" artifact_safety_error
      ("Field \""
        ++ (name ++ ("\" must be absent for adapterId " ++ (shown (str adapter_id) ++ "."))))
      ("Remove \"" ++ (name ++ "\" from the capability decision; it is exact per adapter."))
      (at_location ("/" ++ name))

unfoldable pub present : Fields → String → Bool
present fields name = not (is_undefined (get fields name))

unfoldable pub required_findings : List String → Fields → List Finding
required_findings [] fields = []
required_findings (name ∷ names) fields =
    let rest = required_findings names fields in
    if present fields name then rest else missing_field_finding name ∷ rest

-- The loop over every conditional name, for the adapter's own names `required`.
unfoldable pub conditional_findings : List String → List String → String → Fields → List Finding
conditional_findings [] required adapter_id fields = []
conditional_findings (name ∷ names) required adapter_id fields =
    let rest = conditional_findings names required adapter_id fields in
    if includes required (str name)
    then if present fields name then rest else missing_field_finding name ∷ rest
    else if present fields name
    then forbidden_field_finding name adapter_id ∷ rest
    else rest
