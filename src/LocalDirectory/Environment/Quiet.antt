-- ===== src/LocalDirectory/Environment/Quiet.antt =====
-- The checks that change nothing keep whatever holds of the disk.
use publish.Prelude.{String, List}
use publish.Protocol.ArtifactDigest.{ArtifactEntry}
use publish.LocalDirectory.Disk.{Disk}
use publish.LocalDirectory.Monad.{fs_error, type_error}
use publish.LocalDirectory.Monad.Holds.{Holds, Holds-bind, Holds-when_ok}
use publish.LocalDirectory.Environment.{
  Environment, prepare_root, refuse_symlinks, digest_of_entries,
}

module _ (I P : Disk → Type 0) (env : Environment) where
  pub Holds-prepare_root : Holds I P (prepare_root env) (λ _. P)
  unfolding prepare_root
  Holds-prepare_root =
      Holds-bind I P (λ _. P) (λ _. P) _ _ (Holds-when_ok I P fs_error _)
        (λ root. Holds-when_ok I P fs_error _)

  pub Holds-refuse_symlinks : (path : List String) → Holds I P (refuse_symlinks env path) (λ _. P)
  unfolding refuse_symlinks
  Holds-refuse_symlinks path = Holds-when_ok I P fs_error _

  pub Holds-digest_of_entries :
      (entries : List ArtifactEntry) → Holds I P (digest_of_entries env entries) (λ _. P)
  unfolding digest_of_entries
  Holds-digest_of_entries entries = Holds-when_ok I P (λ _. type_error) _
