-- ===== src/LocalDirectory/History/Agreement.antt =====
-- The adapter keeps what the kernel's duty 9 would keep.
use publish.Prelude.{ℕ, List, ◌≡◌, refl, some}
use publish.Kernel.Retention.{CertifiedDigestRecord, retain_certified_digest}
use publish.LocalDirectory.History.{pruned_history}

-- The history that the adapter writes is the one that the kernel's `retainCertifiedDigest` gives
-- for the same cap.
pub pruned-eq_retained :
    (existing : List CertifiedDigestRecord) (newest : CertifiedDigestRecord) (maximum : ℕ)
    → pruned_history existing newest maximum
      ≡ retain_certified_digest existing newest (some maximum)
unfolding pruned_history retain_certified_digest
pruned-eq_retained existing newest maximum = refl
