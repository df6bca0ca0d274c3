-- ===== src/Kernel/Containment.antt =====
-- packages/publish-kernel/src/path-containment.js: duty 2, the paths of an artifact. `toLowerCase`
-- and `normalize('NFC')` are tables of the Unicode standard, and parameters here.
pub mod Segments
pub mod Safe
pub mod Collisions
use Prim.Native.Char.{Char, code}
use Prim.Native.String
use Prim.Native.String.{◌++◌}
use publish.Prelude.{
  ℕ, String, Bool, true, false, not, ◌&&◌, ◌||◌, Option, none, some, List, [], ◌∷◌, ◌++◌ as append,
  eqb, ◌==◌, if◌then◌else◌, any, map,
}
use publish.Json.{Value, str, singleton}
use publish.Finding.{Finding, kernel_finding, artifact_safety_error, at_location_with}

pub data Kind : Type 0 where
  file directory symlink device socket fifo other : Kind

pub record ArtifactPathEntry : Type 0 where
  pub path : String
  pub kind : Kind

unfoldable pub kind_name : Kind → String
kind_name file = "file"
kind_name directory = "directory"
kind_name symlink = "symlink"
kind_name device = "device"
kind_name socket = "socket"
kind_name fifo = "fifo"
kind_name other = "other"

-- `ADMITTED_KINDS.includes(kind)`
unfoldable pub is_admitted : Kind → Bool
is_admitted file = true
is_admitted _ = false

-- The labels of the rules, with the code of each label's finding.
pub data Violation : Type 0 where
  empty absolute backslash nul_byte traversal dot_or_empty_segment non_nfc reserved_device_name
        reserved_target_path :
      Violation

unfoldable pub violation_label : Violation → String
violation_label empty = "empty"
violation_label absolute = "absolute"
violation_label backslash = "backslash"
violation_label nul_byte = "nul-byte"
violation_label traversal = "traversal"
violation_label dot_or_empty_segment = "dot-or-empty-segment"
violation_label non_nfc = "non-nfc"
violation_label reserved_device_name = "reserved-device-name"
violation_label reserved_target_path = "reserved-target-path"

-- The label in upper case, its dashes replaced by underscores, behind `ARTIFACT_PATH_`.
unfoldable pub violation_code : Violation → String
violation_code empty = "ARTIFACT_PATH_EMPTY"
violation_code absolute = "ARTIFACT_PATH_ABSOLUTE"
violation_code backslash = "ARTIFACT_PATH_BACKSLASH"
violation_code nul_byte = "ARTIFACT_PATH_NUL_BYTE"
violation_code traversal = "ARTIFACT_PATH_TRAVERSAL"
violation_code dot_or_empty_segment = "ARTIFACT_PATH_DOT_OR_EMPTY_SEGMENT"
violation_code non_nfc = "ARTIFACT_PATH_NON_NFC"
violation_code reserved_device_name = "ARTIFACT_PATH_RESERVED_DEVICE_NAME"
violation_code reserved_target_path = "ARTIFACT_PATH_RESERVED_TARGET_PATH"

-- `text.includes(c)` and `text.startsWith(c)` of one character.
unfoldable pub includes : ℕ → String → Bool
includes n String.[] = false
includes n (String.◌∷◌ c s) = eqb (code c) n || includes n s

unfoldable pub begins_with : ℕ → String → Bool
begins_with n String.[] = false
begins_with n (String.◌∷◌ c s) = eqb (code c) n

-- `text.split('/')`: the first segment and the others.
unfoldable pub split_slash : String → String × List String
split_slash String.[] = ("", [])
split_slash (String.◌∷◌ c s) =
    let (head, rest) = split_slash s in
    if eqb (code c) b'/' then ("", head ∷ rest) else (String.◌∷◌ c head, rest)

unfoldable pub segments_of : String → List String
unfolding split_slash
segments_of s = (split_slash s).0 ∷ (split_slash s).1

-- What stands before the first dot, or all of it.
unfoldable pub stem_of : String → String
stem_of String.[] = ""
stem_of (String.◌∷◌ c s) =
    let rest = stem_of s in if eqb (code c) b'.' then "" else String.◌∷◌ c rest

abbrev pub reserved_stems : List String
reserved_stems =
    "con" ∷ "prn" ∷ "aux" ∷ "nul" ∷ "com0" ∷ "com1" ∷ "com2" ∷ "com3" ∷ "com4" ∷ "com5" ∷ "com6"
    ∷ "com7" ∷ "com8" ∷ "com9" ∷ "lpt0" ∷ "lpt1" ∷ "lpt2" ∷ "lpt3" ∷ "lpt4" ∷ "lpt5" ∷ "lpt6"
    ∷ "lpt7" ∷ "lpt8" ∷ "lpt9" ∷ []

abbrev pub reserved_segments : List String
reserved_segments = ".git" ∷ ".well-known" ∷ []

-- `set.has(text)`
unfoldable pub has : List String → String → Bool
has set text = any (λ s. s == text) set

-- `if (test) violations.push(violation)`
unfoldable pub push_if : Bool → Violation → List Violation → List Violation
push_if test v rest = if test then v ∷ rest else rest

unfoldable pub is_dots : String → Bool
is_dots segment = segment == ".."

unfoldable pub is_dot_or_empty : String → Bool
is_dot_or_empty segment = segment == "." || segment == ""

unfoldable pub kind_unsafe : ArtifactPathEntry → Finding
unfolding kernel_finding
kind_unsafe entry =
    kernel_finding "ARTIFACT_MEMBER_KIND_UNSAFE" artifact_safety_error
      ("Artifact member \""
        ++ (entry.path
            ++ ("\" has kind \""
                ++ (kind_name entry.kind
                    ++ "\"; only regular files are admitted as staged archive members."))))
      "Remove the symlink, device, socket, fifo or other special-file member from the artifact before freezing."
      (at_location_with entry.path (singleton "kind" (str (kind_name entry.kind))))

unfoldable pub violation_finding : ArtifactPathEntry → Violation → Finding
unfolding kernel_finding
violation_finding entry violation =
    kernel_finding (violation_code violation) artifact_safety_error
      ("Artifact member path \""
        ++ (entry.path
            ++ ("\" violates containment rule \"" ++ (violation_label violation ++ "\"."))))
      "Rewrite the artifact path to a normalized, relative, NFC-form path with no traversal, absolute, backslash, NUL or reserved segment."
      (at_location_with entry.path (singleton "violation" (str (violation_label violation))))

unfoldable pub case_collision : ArtifactPathEntry → String → Finding
unfolding kernel_finding
case_collision entry prior =
    kernel_finding "ARTIFACT_PATH_CASE_COLLISION" artifact_safety_error
      ("Artifact member paths \""
        ++ (prior
            ++ ("\" and \"" ++ (entry.path ++ "\" collide under case-insensitive comparison."))))
      "Rename one of the colliding members; a case-insensitive destination filesystem cannot host both."
      (at_location_with entry.path (singleton "with" (str prior)))

unfoldable pub kind_findings : ArtifactPathEntry → List Finding
kind_findings entry = if is_admitted entry.kind then [] else kind_unsafe entry ∷ []

-- The map from a case-folded path to the path that was first seen under it.
unfoldable pub lookup : String → List (String × String) → Option String
lookup key [] = none
lookup key ((k, v) ∷ seen) = if k == key then some v else lookup key seen

unfoldable pub insert : String → String → List (String × String) → List (String × String)
insert key v [] = (key, v) ∷ []
insert key v ((k, w) ∷ seen) = if k == key then (key, v) ∷ seen else (k, w) ∷ insert key v seen

-- The prior path that the entry collides with.
unfoldable pub colliding : ArtifactPathEntry → Option String → Option String
colliding entry none = none
colliding entry (some prior) = if not (prior == entry.path) then some prior else none

unfoldable pub collision_findings : ArtifactPathEntry → Option String → List Finding
collision_findings entry none = []
collision_findings entry (some prior) = case_collision entry prior ∷ []

module _ (to_lower_case normalize_nfc : String → String) where
  -- The loop over the segments.
  unfoldable pub reserved_violations : List String → List Violation
  reserved_violations [] = []
  reserved_violations (segment ∷ segments) =
      push_if (has reserved_stems (to_lower_case (stem_of segment))) reserved_device_name (
        push_if (has reserved_segments segment) reserved_target_path (reserved_violations segments))

  unfoldable pub check_path_syntax : String → List Violation
  check_path_syntax path =
      if path == ""
      then empty ∷ []
      else push_if (begins_with b'/' path) absolute (
          push_if (includes 92 path) backslash (
            push_if (includes 0 path) nul_byte (
              push_if (any is_dots (segments_of path)) traversal (
                push_if (any is_dot_or_empty (segments_of path)) dot_or_empty_segment (
                  push_if (not (normalize_nfc path == path)) non_nfc
                    (reserved_violations (segments_of path)))))))

  unfoldable pub syntax_findings : ArtifactPathEntry → List Finding
  syntax_findings entry = map (violation_finding entry) (check_path_syntax entry.path)

  unfoldable pub next_seen :
      ArtifactPathEntry → Option String → List (String × String) → List (String × String)
  next_seen entry none seen = insert (to_lower_case entry.path) entry.path seen
  next_seen entry (some prior) seen = seen

  -- The loop over the entries.
  unfoldable pub contain_from : List (String × String) → List ArtifactPathEntry → List Finding
  contain_from seen [] = []
  contain_from seen (entry ∷ entries) =
      let collision = colliding entry (lookup (to_lower_case entry.path) seen) in
      append (kind_findings entry) (
        append (syntax_findings entry) (
          append (collision_findings entry collision)
            (contain_from (next_seen entry collision seen) entries)))

  unfoldable pub check_path_containment : List ArtifactPathEntry → List Finding
  unfolding contain_from
  check_path_containment entries = contain_from [] entries
