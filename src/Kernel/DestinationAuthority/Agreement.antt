-- ===== src/Kernel/DestinationAuthority/Agreement.antt =====
-- Which destinations pass the two checks.
use publish.Prelude.{false, List, [], ◌∷◌, ◌≡◌, ◌↔◌, refl, arith, eq_iff, any}
use publish.Finding.{has_blocking_finding, blocks}
use publish.Kernel.DestinationAuthority.{
  DestinationIdentity, ComparedField, compared_fields, differs, changes, authority_mismatch,
  unowned, check_destination_authority, check_destination_ownership,
}

module _ (a b : DestinationIdentity) where
  -- No compared field differs exactly when the identities are equal.
  pub differs-none_iff : (any (differs a b) compared_fields ≡ false) ↔ (a ≡ b)
  unfolding differs
  differs-none_iff = (
    (λ h. ground (
      arith,
      eq_iff a.environment b.environment,
      eq_iff a.adapter_id b.adapter_id,
      eq_iff a.adapter_version b.adapter_version,
      eq_iff a.target_digest b.target_digest,
      eq_iff a.base_url b.base_url,
    )),
    (λ e. ground (
      arith,
      eq_iff a.environment b.environment,
      eq_iff a.adapter_id b.adapter_id,
      eq_iff a.adapter_version b.adapter_version,
      eq_iff a.target_digest b.target_digest,
      eq_iff a.base_url b.base_url,
    )),
  )

  blocking-changes :
      (fields : List ComparedField)
      → has_blocking_finding (changes a b fields) ≡ any (differs a b) fields
  unfolding changes has_blocking_finding authority_mismatch blocks
  blocking-changes [] = refl
  blocking-changes (f ∷ fs) = ground (arith, blocking-changes fs)

  -- The two checks block the same destinations: `checkDestinationAuthority` and
  -- `checkDestinationOwnership` each have no blocking finding exactly when the two identities
  -- agree in every field.
  pub authority_iff : (has_blocking_finding (check_destination_authority a b) ≡ false) ↔ (a ≡ b)
  unfolding check_destination_authority
  authority_iff = rw (blocking-changes compared_fields) differs-none_iff

  blocking-ownership :
      has_blocking_finding (check_destination_ownership a b) ≡ any (differs a b) compared_fields
  unfolding check_destination_ownership has_blocking_finding unowned blocks
  blocking-ownership = ground arith

  pub ownership_iff : (has_blocking_finding (check_destination_ownership a b) ≡ false) ↔ (a ≡ b)
  ownership_iff = rw blocking-ownership differs-none_iff
