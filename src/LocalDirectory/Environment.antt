-- ===== src/LocalDirectory/Environment.antt =====
-- packages/adapter-local-directory/src/index.js: what an operation is given from outside, and the
-- parts that several operations share. The digest functions, the schema validator, the JSON reader
-- of bytes and `normalize` are parameters; the rest is what the file system and the clock say.
pub mod Quiet
pub mod Prepared
use Prim.Native.String
use Prim.Native.String.{◌++◌}
use publish.Prelude.{
  ℕ, zero, suc, String, Bool, Option, none, some, List, [], ◌∷◌, map, Result, ok, err,
}
use publish.Json.{Value, obj, field, str, end, arr}
use publish.Json.Print.{shown}
use publish.Protocol.Frame.{Bytes}
use publish.Protocol.Digest.{NotCanonical, domain_digest}
use publish.Protocol.ArtifactDigest.{
  StagedFile, ArtifactEntry, artifact_digest_domain, entry_items, sort_entries,
  project_artifact_entry,
}
use publish.Kernel.Marker.{Validator}
use publish.LocalDirectory.FsSafety.{
  FsError, Lstat, assert_valid_root, bootstrap, assert_no_escaping_symlink, assert_removable,
}
use publish.LocalDirectory.Disk.{Directory, Disk, Target, target_of, remove_target, releases_dir}
use publish.LocalDirectory.Monad.{
  AdapterError, fs_error, type_error, M, pure, throw, change, when_ok, ◌>>=◌, ◌>>◌,
}
use publish.Kernel.Containment.{segments_of}

pub record Environment : Type 0 where
  pub root : String
  pub normalize_nfc : String → String
  pub lstat : Lstat
  pub mode : List String → ℕ
  pub sha256 : String → String
  pub sha256_bytes : Bytes → String
  pub validate : Validator
  pub parse_json : Bytes → Option Value
  pub now : String

module _ (env : Environment) where
  unfoldable pub prepare_root : M (Unit {0})
  prepare_root = do
    root ← when_ok fs_error (assert_valid_root env.normalize_nfc env.lstat env.root)
    when_ok fs_error (bootstrap env.lstat env.mode root)

  -- The path is given by its segments below the root.
  unfoldable pub refuse_symlinks : List String → M (Unit {0})
  refuse_symlinks path = when_ok fs_error (assert_no_escaping_symlink env.lstat env.root path)

  unfoldable pub remove_contained_tree : String → M (Unit {0})
  remove_contained_tree name = do
    when_ok fs_error (assert_removable env.root (releases_dir ∷ segments_of name))
    change (remove_target (target_of name))

  -- `walkGenerationEntries` of a directory that is there.
  unfoldable pub walk_generation_entries : Directory → List ArtifactEntry
  walk_generation_entries d =
      sort_entries (map (project_artifact_entry env.sha256 env.sha256_bytes) d.files)

  unfoldable pub entries_digest : List ArtifactEntry → Result NotCanonical String
  entries_digest entries =
      domain_digest env.sha256 artifact_digest_domain (arr (entry_items entries))

  unfoldable pub digest_of_entries : List ArtifactEntry → M String
  digest_of_entries entries = when_ok (λ _. type_error) (entries_digest entries)
