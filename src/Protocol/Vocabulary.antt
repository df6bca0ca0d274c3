-- ===== src/Protocol/Vocabulary.antt =====
-- packages/adapter-protocol/src/capability-vocabulary.js: the admission rows and the comparison of
-- sets.
use publish.Prelude.{
  String, Bool, true, false, Option, none, some, List, [], ◌∷◌, length, eqb, ◌==◌, ◌&&◌,
  if◌then◌else◌,
}
use publish.Json.{Value, str}
use publish.Protocol.Digest.{text_units, before}

abbrev pub operations : List String
operations = "inspect" ∷ "stage" ∷ "activate" ∷ "observe" ∷ "cleanup-staged" ∷ "rollback" ∷ []

abbrev pub rollback : String
rollback = "reupload"

abbrev pub cache_invalidation : String
cache_invalidation = "none"

pub record AdapterCapabilityRow : Type 0 where
  pub adapter_id : String
  pub destination_kind : String
  pub staging : String
  pub activation : String
  pub concurrency : String
  pub idempotency_class : String
  pub verification : List String
  pub provider_inventory_assurance : String
  pub transport : String
  pub not_found_behavior : Bool

abbrev pub local_directory_row : AdapterCapabilityRow
local_directory_row = record {
  adapter_id = "local-directory";
  destination_kind = "local-directory";
  staging = "unreachable-generation";
  activation = "pointer-swap";
  concurrency = "expected-generation";
  idempotency_class = "observable-identity";
  verification = "provider-state" ∷ "artifact-digest" ∷ "generation-marker" ∷ [];
  provider_inventory_assurance = "complete-artifact-digest";
  transport = "filesystem";
  not_found_behavior = false;
}

abbrev pub github_pages_row : AdapterCapabilityRow
github_pages_row = record {
  adapter_id = "github-pages";
  destination_kind = "github-pages";
  staging = "private";
  activation = "provider-promotion";
  concurrency = "none";
  idempotency_class = "observable-identity";
  verification = "provider-state" ∷ "public-http" ∷ "generation-marker" ∷ [];
  provider_inventory_assurance = "none";
  transport = "http";
  not_found_behavior = false;
}

abbrev pub do_spaces_row : AdapterCapabilityRow
do_spaces_row = record {
  adapter_id = "do-spaces";
  destination_kind = "do-spaces";
  staging = "private";
  activation = "replace-in-place";
  concurrency = "best-effort";
  idempotency_class = "observable-identity";
  verification = "provider-state" ∷ "public-http" ∷ "generation-marker" ∷ [];
  provider_inventory_assurance = "none";
  transport = "http";
  not_found_behavior = true;
}

unfoldable pub get_capability_row : Value → Option AdapterCapabilityRow
get_capability_row (str s) =
    if s == "local-directory"
    then some local_directory_row
    else if s == "github-pages"
    then some github_pages_row
    else if s == "do-spaces"
    then some do_spaces_row
    else none
get_capability_row _ = none

-- `[...texts].sort()`, the order of UTF-16 code units.
unfoldable pub place_text : String → List String → List String
place_text t [] = t ∷ []
place_text t (x ∷ xs) =
    let rest = place_text t xs in
    if before (text_units x) (text_units t) then x ∷ rest else t ∷ x ∷ xs

unfoldable pub sort_texts : List String → List String
sort_texts [] = []
sort_texts (t ∷ ts) = place_text t (sort_texts ts)

-- Member by member, of two lists of one length.
unfoldable pub equal_texts : List String → List String → Bool
equal_texts [] right = true
equal_texts (x ∷ xs) [] = false
equal_texts (x ∷ xs) (y ∷ ys) = let rest = equal_texts xs ys in x == y && rest

unfoldable pub is_same_set : List String → List String → Bool
is_same_set left right =
    if eqb (length left) (length right)
    then equal_texts (sort_texts left) (sort_texts right)
    else false
