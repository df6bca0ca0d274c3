-- ===== src/Kernel/Retention.antt =====
-- packages/publish-kernel/src/retention.js: duty 9, the history of certified digests, most recent
-- first.
pub mod History
pub mod Selection
use Prim.Native.String.{◌++◌}
use publish.Prelude.{
  ℕ, ◌+◌, String, Bool, not, Option, none, some, List, [], ◌∷◌, ◌==◌, if◌then◌else◌, filter, find,
  take,
}
use publish.Json.Print.{quoted}
use publish.Finding.{Finding, kernel_finding, target_constraint_error, no_extra}

abbrev pub default_maximum_prior_generations : ℕ
default_maximum_prior_generations = 5

pub record CertifiedDigestRecord : Type 0 where
  pub generation_id : String
  pub artifact_digest : String
  pub certified_at : String

abbrev pub is_generation : String → CertifiedDigestRecord → Bool
is_generation g entry = entry.generation_id == g

abbrev pub cap_of : Option ℕ → ℕ
cap_of none = default_maximum_prior_generations
cap_of (some n) = n

-- The cap is a natural number: a negative one would make `slice` count from the end.
unfoldable pub retain_certified_digest :
    List CertifiedDigestRecord → CertifiedDigestRecord → Option ℕ → List CertifiedDigestRecord
retain_certified_digest history newly_certified maximum =
    take (cap_of maximum + 1)
      (newly_certified ∷ filter (λ e. not (is_generation newly_certified.generation_id e)) history)

pub record Selected : Type 0 where
  pub found : Option CertifiedDigestRecord
  pub findings : List Finding

unfoldable pub not_retained : String → Finding
unfolding kernel_finding
not_retained generation_id =
    kernel_finding "ROLLBACK_GENERATION_NOT_RETAINED" target_constraint_error
      ("Generation "
        ++ (quoted generation_id
            ++ " is not in the retained last-known-good history and cannot be rolled back to."))
      "Select a generation identity present in the retained history, or refuse the rollback before any mutation."
      no_extra

-- What `find` gave, and a finding where it is `undefined`.
unfoldable pub selection : String → Option CertifiedDigestRecord → Selected
selection generation_id (some entry) = record { found = some entry; findings = [] }
selection generation_id none = record { found = none; findings = not_retained generation_id ∷ [] }

unfoldable pub select_retained_generation : List CertifiedDigestRecord → String → Selected
unfolding selection
select_retained_generation history generation_id =
    selection generation_id (find (is_generation generation_id) history)
