-- ===== src/Examples/Journals.antt =====
-- The journal of operations and the history of certified digests at concrete inputs.
use publish.Prelude.{◌+◌, some, List, [], ◌∷◌, ◌≡◌, ◌≢◌, ◌↔◌, refl, take, arith}
use publish.Protocol.StableId.{is_stable_id}
use publish.Kernel.Fencing.{
  JournaledOperation, Status, fresh, conflict, decide_idempotency, identity_findings,
  check_identity_syntax, decide_from, decide_same_key, decide_reuse,
}
use publish.Kernel.Fencing.Journal.{
  Journaled, start, append, IsUniquelyKeyed, Journaled-IsUniquelyKeyed, Exact, decision-Exact,
}
use publish.Kernel.Retention.{CertifiedDigestRecord, cap_of}
use publish.Kernel.Retention.History.{HasDistinctGenerations}
use publish.Kernel.Retention.Selection.{certify_all, retain_all, retain_all-eq-take}
use publish.Examples.Data.{first_generation, second_generation, operation, certified}

abbrev journal : List JournaledOperation
journal = operation "sha256:aa" ∷ []

well_formed : identity_findings (operation "sha256:dd") ≡ []
unfolding identity_findings check_identity_syntax is_stable_id
well_formed = refl

first_status : (decide_idempotency [] (operation "sha256:aa")).status ≡ fresh
unfolding decide_idempotency decide_from decide_same_key identity_findings check_identity_syntax
    is_stable_id
first_status = refl

fresh-ne-conflict : (s : Status) → s ≡ fresh → s ≢ conflict
fresh-ne-conflict s h e = ground arith

journaled : Journaled journal
journaled = append (operation "sha256:aa") start (fresh-ne-conflict _ first_status)

Journaled-IsUniquelyKeyed_example : IsUniquelyKeyed journal
Journaled-IsUniquelyKeyed_example = Journaled-IsUniquelyKeyed journaled

decision-Exact_example :
    ((decide_idempotency journal (operation "sha256:dd")).status ≡ conflict)
    ↔ Exact journal (operation "sha256:dd") conflict
decision-Exact_example = decision-Exact journaled (operation "sha256:dd") well_formed conflict

-- The same key for other bytes.
reused_key : (decide_idempotency journal (operation "sha256:dd")).status ≡ conflict
unfolding decide_idempotency decide_from decide_same_key decide_reuse identity_findings
    check_identity_syntax is_stable_id
reused_key = refl

abbrev history : List CertifiedDigestRecord
history = certified first_generation "sha256:aa" ∷ []

history-distinct : HasDistinctGenerations history
history-distinct = ((λ e h. absurd h), tt)

abbrev certifications : List CertifiedDigestRecord
certifications =
    certified first_generation "sha256:cc"
    ∷ certified second_generation "sha256:bb"
    ∷ certified first_generation "sha256:aa"
    ∷ []

retain_all-eq-take_example :
    retain_all (some 1) certifications ≡ take (cap_of (some 1) + 1) (certify_all certifications)
retain_all-eq-take_example = retain_all-eq-take (some 1) certifications
