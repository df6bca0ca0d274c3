-- ===== src/Examples/Values.antt =====
-- Credentials, fences and adapter modules at concrete inputs.
use publish.Prelude.{
  some, true, false, ◌≡◌, ◌↔◌, refl, ok, String, if◌then◌else◌, ◌==◌, Option, none,
}
use publish.Json.{Value, Fields, str, obj, field, end}
use publish.Finding.{has_blocking_finding}
use publish.Protocol.StableId.{is_stable_id}
use publish.Protocol.Fence.{
  GenerationFence, fence_for, require_generation_fence, fence_disagrees, expect_nothing_served,
}
use publish.Protocol.Fence.Laws.{nothing_fence, Accepts, fence_for-exact, require-ok_iff}
use publish.Protocol.Lifecycle.{lifecycle_operations}
use publish.Protocol.Lifecycle.Defined.{functions}
use publish.Kernel.Secrets.{
  find_secret_exposure, redact_secrets, walk_exposure, bears_credential, is_credential_key,
  visit_exposure, is_credential_value, walk_keys,
}
use publish.Kernel.Secrets.Pattern.{is_match}
use publish.Kernel.Secrets.Exposure.Free.{IsFree, silent_iff}
use publish.Kernel.Secrets.Redaction.{IsHidden, redact-IsHidden}
use publish.Examples.Data.{first_generation, second_generation}

abbrev intent : Value
intent = obj (field "token" (str "hunter2") (field "title" (str "notes") end))

abbrev harmless : Value
harmless = obj (field "title" (str "notes") end)

silent_iff_example : (has_blocking_finding (find_secret_exposure intent) ≡ false) ↔ IsFree intent
silent_iff_example = silent_iff intent

redact-IsHidden_example : IsHidden (redact_secrets intent)
redact-IsHidden_example = redact-IsHidden intent

harmless-silent : has_blocking_finding (find_secret_exposure harmless) ≡ false
unfolding find_secret_exposure has_blocking_finding walk_exposure bears_credential is_credential_key
    is_match visit_exposure is_credential_value walk_keys
harmless-silent = refl

stable : is_stable_id first_generation ≡ true
unfolding is_stable_id
stable = refl

fence_for-exact_example :
    (f : GenerationFence) × (require_generation_fence
        (str (fence_for (some first_generation)))
        "local-directory"
      ≡ ok f)
    × ((fence_disagrees f (some second_generation) ≡ false)
        ↔ (some second_generation ≡ some first_generation))
fence_for-exact_example =
    fence_for-exact (some first_generation) (some second_generation) "local-directory" stable

require-ok_iff_example :
    (require_generation_fence (str expect_nothing_served) "do-spaces" ≡ ok nothing_fence)
    ↔ Accepts (str expect_nothing_served) nothing_fence
require-ok_iff_example = require-ok_iff (str expect_nothing_served) "do-spaces" nothing_fence

abbrev adapter_module : Fields
adapter_module = field "PROFILE" (str "example") (functions lifecycle_operations)

abbrev import_module : String → Option Fields
import_module specifier = if specifier == "file:adapter.mjs" then some adapter_module else none
