-- ===== src/Kernel/DestinationAuthority.antt =====
-- packages/publish-kernel/src/destination-authority.js: duty 4, the destination that an operation
-- may touch.
pub mod Agreement
use Prim.Native.String.{◌++◌}
use publish.Prelude.{
  String, Bool, true, false, not, Option, none, some, List, [], ◌∷◌, any, ◌==◌, if◌then◌else◌,
}
use publish.Json.{Value, str, obj, end, field}
use publish.Json.Print.{quoted}
use publish.Finding.{Finding, kernel_finding, target_constraint_error, at_location}

pub record DestinationIdentity : Type 0 where
  pub environment : String
  pub adapter_id : String
  pub adapter_version : String
  pub target_digest : String
  pub base_url : String

pub data ComparedField : Type 0 where
  environment adapter_id adapter_version target_digest base_url : ComparedField

-- `COMPARED_FIELDS`, in its order.
abbrev pub compared_fields : List ComparedField
compared_fields = environment ∷ adapter_id ∷ adapter_version ∷ target_digest ∷ base_url ∷ []

unfoldable pub field_name : ComparedField → String
field_name environment = "environment"
field_name adapter_id = "adapterId"
field_name adapter_version = "adapterVersion"
field_name target_digest = "targetDigest"
field_name base_url = "baseUrl"

-- `destination[field]`
unfoldable pub field_of : DestinationIdentity → ComparedField → String
field_of d environment = d.environment
field_of d adapter_id = d.adapter_id
field_of d adapter_version = d.adapter_version
field_of d target_digest = d.target_digest
field_of d base_url = d.base_url

-- `left[field] !== right[field]`
unfoldable pub differs : DestinationIdentity → DestinationIdentity → ComparedField → Bool
unfolding field_of
differs a b f = not (field_of a f == field_of b f)

unfoldable pub changed_detail : DestinationIdentity → DestinationIdentity → ComparedField → String
changed_detail before now f =
    "Destination field \""
    ++ (field_name f
        ++ ("\" changed since preflight: was "
            ++ (quoted (field_of before f) ++ (", is now " ++ (quoted (field_of now f) ++ ".")))))

unfoldable pub authority_mismatch :
    DestinationIdentity → DestinationIdentity → ComparedField → Finding
unfolding kernel_finding
authority_mismatch before now f =
    kernel_finding "DESTINATION_AUTHORITY_MISMATCH" target_constraint_error
      (changed_detail before now f)
      "Run preflight again against the new destination and issue a new operation; the kernel never mutates a destination that changed after preflight."
      (at_location ("/" ++ field_name f))

-- The loop of `checkDestinationAuthority`.
unfoldable pub changes :
    DestinationIdentity → DestinationIdentity → List ComparedField → List Finding
changes before now [] = []
changes before now (f ∷ fs) =
    let rest = changes before now fs in
    if differs before now f then authority_mismatch before now f ∷ rest else rest

unfoldable pub check_destination_authority :
    DestinationIdentity → DestinationIdentity → List Finding
check_destination_authority preflight_destination current_destination =
    changes preflight_destination current_destination compared_fields

unfoldable pub identity_value : DestinationIdentity → Value
identity_value d = obj (
    field "environment" (str d.environment) (
      field "adapterId" (str d.adapter_id) (
        field "adapterVersion" (str d.adapter_version)
          (field "targetDigest" (str d.target_digest) (field "baseUrl" (str d.base_url) end)))))

unfoldable pub unowned : DestinationIdentity → DestinationIdentity → Finding
unfolding kernel_finding
unowned authorized candidate =
    kernel_finding "DESTINATION_AUTHORITY_UNOWNED" target_constraint_error
      "The candidate destination is not the destination this operation is authorized to mutate."
      "Issue a new operation authorized against the intended destination."
      (record {
        location = none;
        evidence = some (
            field "authorizedDestination" (identity_value authorized)
              (field "candidateDestination" (identity_value candidate) end));
        overridable = none;
      })

unfoldable pub check_destination_ownership :
    DestinationIdentity → DestinationIdentity → List Finding
check_destination_ownership authorized candidate =
    if not (any (differs authorized candidate) compared_fields)
    then []
    else unowned authorized candidate ∷ []
