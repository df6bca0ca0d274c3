-- ===== src/Examples/Paths.antt =====
-- Artifact paths at concrete inputs.
use publish.Prelude.{some, List, [], ◌∷◌, false, ◌≡◌, ◌↔◌, refl, All}
use publish.Finding.{has_blocking_finding}
use publish.Kernel.Containment.{
  ArtifactPathEntry, segments_of, check_path_syntax, check_path_containment, reserved_violations,
  push_if, begins_with, includes, is_dots, is_dot_or_empty, has, stem_of,
}
use publish.Kernel.Containment.Safe.{IsSafePath, safe_iff, walk, contained}
use publish.Kernel.Containment.Collisions.{IsSafeEntry, Distinguished, containment_iff}
use publish.Examples.Data.{entry, unchanged}

safe_iff_example :
    (check_path_syntax unchanged unchanged "css/../index.html" ≡ [])
    ↔ IsSafePath unchanged unchanged "css/../index.html"
safe_iff_example = safe_iff unchanged unchanged "css/../index.html"

safe_path : check_path_syntax unchanged unchanged "css/site.css" ≡ []
unfolding check_path_syntax push_if begins_with includes segments_of is_dots is_dot_or_empty
    reserved_violations has stem_of
safe_path = refl

contained_example : walk [] (segments_of "css/site.css") ≡ some (segments_of "css/site.css")
contained_example = contained unchanged unchanged "css/site.css" safe_path

abbrev entries : List ArtifactPathEntry
entries = entry "index.html" ∷ entry "css/site.css" ∷ []

containment_iff_example :
    (has_blocking_finding (check_path_containment unchanged unchanged entries) ≡ false)
    ↔ (All (IsSafeEntry unchanged unchanged) entries × Distinguished unchanged unchanged entries)
containment_iff_example = containment_iff unchanged unchanged entries
