-- ===== src/LocalDirectory/Environment/Prepared.antt =====
-- A root that the checks accept, and paths without links.
use publish.Prelude.{String, List, ◌≡◌, ok}
use publish.LocalDirectory.FsSafety.{assert_valid_root, bootstrap, assert_no_escaping_symlink}
use publish.LocalDirectory.Disk.{Disk}
use publish.LocalDirectory.Monad.{fs_error}
use publish.LocalDirectory.Monad.Total.{Total, Total-known, Total-when_ok, Total-after}
use publish.LocalDirectory.Environment.{Environment, prepare_root, refuse_symlinks}

pub record IsPrepared (env : Environment) : Type 0 where
  pub ready : assert_valid_root env.normalize_nfc env.lstat env.root ≡ ok env.root
  pub made : bootstrap env.lstat env.mode env.root ≡ ok tt

abbrev pub IsUnlinked : Environment → List String → Type 0
IsUnlinked env path = assert_no_escaping_symlink env.lstat env.root path ≡ ok tt

module _ (P : Disk → Type 0) (env : Environment) where
  pub Total-prepare_root : IsPrepared env → Total P (prepare_root env) (λ _. P)
  unfolding prepare_root
  Total-prepare_root prepared =
      Total-known P (λ _. P) _ _ env.root (Total-when_ok P fs_error _ env.root prepared.ready)
        (Total-after P _ _ _ (λ a disk q. q.0) (Total-when_ok P fs_error _ tt prepared.made))

  pub Total-refuse_symlinks :
      (path : List String) → IsUnlinked env path → Total P (refuse_symlinks env path) (λ _. P)
  unfolding refuse_symlinks
  Total-refuse_symlinks path free =
      Total-after P _ _ _ (λ a disk q. q.0) (Total-when_ok P fs_error _ tt free)
