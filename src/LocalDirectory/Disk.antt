-- ===== src/LocalDirectory/Disk.antt =====
-- What the adapter keeps below its root: the directories under `releases`, the link `current`, the
-- history and the journal (packages/adapter-local-directory/src/constants.js names them). Both
-- files of the control directory hold the records that the adapter writes and reads. The files of a
-- directory are held under their paths below it. Files of which one stands where a directory of the
-- other is wanted are not told apart from others: `a` and `a/b` are written, where the file system
-- refuses the second. The two directories that `bootstrap` makes are empty and are not held.
pub mod Entries
use Prim.Native.String
use Prim.Native.String.{◌++◌}
use publish.Prelude.{
  after_prefix, ℕ, String, Bool, true, false, Option, none, some, List, [], ◌∷◌, ◌==◌,
  if◌then◌else◌, filter, not, any, all, ◌||◌, ◌++◌ as append,
}
use publish.Json.{Value}
use publish.Protocol.Frame.{Bytes}
use publish.Protocol.ArtifactDigest.{StagedFile}
use publish.Protocol.Loader.{starts_with}
use publish.Kernel.Containment.{includes, segments_of}
use publish.Kernel.Containment.Segments.{join_slash}
use publish.LocalDirectory.FsSafety.{resolve_from}
use publish.Kernel.Retention.{CertifiedDigestRecord}

abbrev pub releases_dir : String
releases_dir = "releases"

abbrev pub generation_marker_filename : String
generation_marker_filename = "gala-generation-marker.json"

abbrev pub maximum_prior_generations_on_disk : ℕ
maximum_prior_generations_on_disk = 5

-- The marker file: the text of a document that the adapter printed, or bytes of somebody else.
pub data MarkerFile : Type 0 where
  document : Value → MarkerFile
  raw : Bytes → MarkerFile

-- `files` is in the order in which the paths were first written.
pub record Directory : Type 0 where
  pub files : List StagedFile
  pub marker : Option MarkerFile

abbrev pub empty_directory : Directory
empty_directory = record { files = []; marker = none }

pub record JournalEntry : Type 0 where
  pub operation_id : String
  pub attempt_id : String
  pub idempotency_key : String
  pub artifact_digest : String
  pub generation_id : String

-- `current` is the text that the link holds. A record of the history has the three fields of the
-- kernel's certified digest.
pub record Disk : Type 0 where
  pub releases : List (String × Directory)
  pub current : Option String
  pub history : List CertifiedDigestRecord
  pub journal : List JournalEntry

-- A directory under `releases` by its name.
unfoldable pub directory_named : String → List (String × Directory) → Option Directory
directory_named name [] = none
directory_named name ((n, d) ∷ entries) =
    let further = directory_named name entries in if n == name then some d else further

-- The directory `name` becomes `d`.
unfoldable pub with_directory :
    String → Directory → List (String × Directory) → List (String × Directory)
with_directory name d [] = (name, d) ∷ []
with_directory name d ((n, e) ∷ entries) =
    let further = with_directory name d entries in
    if n == name then (name, d) ∷ entries else (n, e) ∷ further

unfoldable pub without_directory : String → List (String × Directory) → List (String × Directory)
without_directory name [] = []
without_directory name ((n, d) ∷ entries) =
    let further = without_directory name entries in if n == name then further else (n, d) ∷ further

unfoldable pub or_empty : Option Directory → Directory
or_empty none = empty_directory
or_empty (some d) = d

-- A file is written over the one of its path.
unfoldable pub write_path : StagedFile → List StagedFile → List StagedFile
write_path file [] = file ∷ []
write_path file (f ∷ fs) =
    let further = write_path file fs in if f.path == file.path then file ∷ fs else f ∷ further

unfoldable pub write_file : StagedFile → Directory → Directory
write_file file d =
    if file.path == generation_marker_filename
    then record d { marker = some (raw file.bytes) }
    else record d { files = write_path file d.files }

-- `.gala-stage-${stageToken}`
abbrev pub stage_prefix : String
stage_prefix = ".gala-stage-"

unfoldable pub stage_name : String → String
stage_name token = stage_prefix ++ token

unfoldable pub is_stage_name : String → Bool
is_stage_name name = starts_with stage_prefix name

-- `path.join('releases', name)` of a name that is one segment.
unfoldable pub release_path : String → String
release_path name = "releases/" ++ name

-- `readCurrentGenerationId`
unfoldable pub generation_of_link : Option String → Option String
generation_of_link none = none
generation_of_link (some target) = after_prefix "releases/" target

unfoldable pub read_current_generation_id : Disk → Option String
read_current_generation_id disk = generation_of_link disk.current

-- `listReleaseGenerations`
unfoldable pub release_names : List (String × Directory) → List String
release_names [] = []
release_names ((n, d) ∷ entries) =
    let further = release_names entries in if is_stage_name n then further else n ∷ further

unfoldable pub list_release_generations : Disk → List String
list_release_generations disk = release_names disk.releases

-- What `path.join(root, 'releases', name)` leads to: the directory itself, an entry of it, or a
-- place that is not held here, above it or below an entry, which is taken for missing.
pub data Target : Type 0 where
  all_releases : Target
  entry : String → Target
  elsewhere : Target

unfoldable pub target_at : Option (List String) → Target
target_at (some (r ∷ [])) = if r == releases_dir then all_releases else elsewhere
target_at (some (r ∷ n ∷ [])) = if r == releases_dir then entry n else elsewhere
target_at _ = elsewhere

abbrev segments_present : String → List String
segments_present path = filter (λ s. not (s == "")) (segments_of path)

-- A name with a slash is resolved segment by segment.
unfoldable pub target_of : String → Target
target_of name =
    if name == ""
    then all_releases
    else if name == "."
    then all_releases
    else if name == ".."
    then elsewhere
    else if includes 47 name
    then target_at (resolve_from (releases_dir ∷ []) (segments_present name))
    else entry name

-- The entry that `path.join(root, 'releases', name)` leads to; the name itself, which no entry has,
-- where it leads elsewhere.
unfoldable pub entry_of : Target → String → String
entry_of (entry n) name = n
entry_of all_releases name = name
entry_of elsewhere name = name

unfoldable pub entry_name : String → String
entry_name name = entry_of (target_of name) name

-- Where a file of the directory `name` is written, `path.join(stageDir, file.path)`: into an entry of
-- `releases`, by its path there, or to a place that is not held here.
pub data Place : Type 0 where
  inside : String → String → Place
  outside : Place

unfoldable pub place_at : Option (List String) → Place
place_at (some (r ∷ n ∷ s ∷ ss)) =
    if r == releases_dir then inside n (join_slash (s ∷ ss)) else outside
place_at _ = outside

-- Nothing that `path.join` takes out.
unfoldable pub is_normal : String → Bool
is_normal path = all (λ s. not (s == "" || s == "." || s == "..")) (segments_of path)

unfoldable pub place_of : String → String → Place
place_of name path =
    if includes 47 name || not (is_normal path)
    then place_at
        (resolve_from (releases_dir ∷ []) (append (segments_present name) (segments_present path)))
    else inside name path

-- `fs.stat` of the target succeeds.
unfoldable pub is_some_directory : Option Directory → Bool
is_some_directory none = false
is_some_directory (some d) = true

unfoldable pub target_exists : Target → Disk → Bool
target_exists all_releases disk = true
target_exists (entry name) disk = is_some_directory (directory_named name disk.releases)
target_exists elsewhere disk = false

unfoldable pub remove_target : Target → Disk → Disk
remove_target all_releases disk = record disk { releases = [] }
remove_target (entry name) disk = record disk { releases = without_directory name disk.releases }
remove_target elsewhere disk = disk
