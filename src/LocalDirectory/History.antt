-- ===== src/LocalDirectory/History.antt =====
-- packages/adapter-local-directory/src/history.js: the retained history and the journal.
pub mod Agreement
use publish.Prelude.{
  ℕ, ◌+◌, String, Bool, not, List, [], ◌∷◌, ◌++◌, ◌==◌, filter, take, if◌then◌else◌,
}
use publish.Kernel.Retention.{CertifiedDigestRecord}
use publish.LocalDirectory.Disk.{Disk, JournalEntry}
use publish.LocalDirectory.Monad.{M, pure, gets, change, ◌>>=◌, ◌>>◌}

unfoldable pub read_history : M (List CertifiedDigestRecord)
read_history = gets (λ disk. disk.history)

unfoldable pub pruned_history :
    List CertifiedDigestRecord → CertifiedDigestRecord → ℕ → List CertifiedDigestRecord
pruned_history existing newest maximum_prior_generations =
    take (maximum_prior_generations + 1)
      (newest ∷ filter (λ e. not (e.generation_id == newest.generation_id)) existing)

unfoldable pub retain_and_persist : CertifiedDigestRecord → ℕ → M (List CertifiedDigestRecord)
unfolding read_history
retain_and_persist newest maximum_prior_generations = do
  existing ← read_history
  change
      (λ disk. record disk { history = pruned_history existing newest maximum_prior_generations })
  pure (pruned_history existing newest maximum_prior_generations)

unfoldable pub read_journal : M (List JournalEntry)
read_journal = gets (λ disk. disk.journal)

unfoldable pub append_journal : JournalEntry → M (Unit {0})
unfolding read_journal
append_journal entry = do
  existing ← read_journal
  change (λ disk. record disk { journal = existing ++ entry ∷ [] })
