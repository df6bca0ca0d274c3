-- ===== src/Kernel/Fencing/Journal.antt =====
-- Journals that hold only operations which were not in conflict when they came.
use publish.Prelude.{
  List, [], ◌∷◌, ◌++◌, ◌≡◌, ◌≢◌, ◌↔◌, inl, inr, refl, sym, ◌∙◌, ap, In, In-concat, subst,
}
use publish.Kernel.Fencing.{
  JournaledOperation, IdempotencyDecision, Status, fresh, idempotent_replay, conflict,
  identity_findings, decide_idempotency,
}
use publish.Kernel.Fencing.Idempotency.{Repeats, Clashes, Sound, decision-Sound}

-- One key names one artifact.
abbrev pub IsUniquelyKeyed : List JournaledOperation → Type 0
IsUniquelyKeyed j =
    (a b : JournaledOperation)
    → In a j
    → In b j
    → a.idempotency_key ≡ b.idempotency_key
    → a.artifact_digest ≡ b.artifact_digest

-- A caller appends an operation after a decision that is no conflict.
pub data Journaled : List JournaledOperation → Type 0 where
  start : Journaled []
  append :
      {j : List JournaledOperation} (c : JournaledOperation)
      → Journaled j
      → (decide_idempotency j c).status ≢ conflict
      → Journaled (j ++ c ∷ [])

-- An entry with the key of an admitted candidate has its digest.
admitted-digest :
    (j : List JournaledOperation) (c e : JournaledOperation) (d : IdempotencyDecision) (s : Status)
    → IsUniquelyKeyed j
    → s ≢ conflict
    → Sound j c d s
    → In e j
    → e.idempotency_key ≡ c.idempotency_key
    → e.artifact_digest ≡ c.artifact_digest
admitted-digest j c e d fresh u h sound i k = absurd (sound e i k)
admitted-digest j c e d conflict u h sound i k = absurd (h refl)
admitted-digest j c e d idempotent_replay u h (r, _, rep) i k =
    u e r i rep.listed (k ∙ sym rep.key) ∙ rep.digest

-- In a journal of admitted operations no key names two artifacts.
pub Journaled-IsUniquelyKeyed : {j : List JournaledOperation} → Journaled j → IsUniquelyKeyed j
Journaled-IsUniquelyKeyed start a b i _ k = elim i [ ]
Journaled-IsUniquelyKeyed (append {j} c r ok) a b i i' k =
    let u = Journaled-IsUniquelyKeyed r in
    let admitted = λ (e : JournaledOperation).
      admitted-digest j c e (decide_idempotency j c) _ u ok (decision-Sound j c) in
    elim (In-concat j i) [
      | inl old ↦ elim (In-concat j i') [
        | inl old' ↦ u a b old old' k
        | inr new' ↦
            admitted a old (k ∙ ap (λ x. x.idempotency_key) new')
            ∙ ap (λ x. x.artifact_digest) (sym new')
      ]
      | inr new ↦ elim (In-concat j i') [
        | inl old' ↦
            ap (λ x. x.artifact_digest) new
            ∙ sym (admitted b old' (sym k ∙ ap (λ x. x.idempotency_key) new))
        | inr new' ↦ ap (λ x. x.artifact_digest) (new ∙ sym new')
      ]
    ]

-- What each status means where keys are unique.
abbrev pub Exact : List JournaledOperation → JournaledOperation → Status → Type 0
Exact j c fresh = (e : JournaledOperation) → In e j → e.idempotency_key ≢ c.idempotency_key
Exact j c idempotent_replay = (e : JournaledOperation) × Repeats j c e
Exact j c conflict = (e : JournaledOperation) × Clashes j c e

Exact-unique :
    (j : List JournaledOperation) (c : JournaledOperation) (s t : Status)
    → IsUniquelyKeyed j
    → Exact j c s
    → Exact j c t
    → s ≡ t
Exact-unique j c fresh fresh u p q = refl
Exact-unique j c fresh idempotent_replay u p (e, r) = absurd (p e r.listed r.key)
Exact-unique j c fresh conflict u p (e, r) = absurd (p e r.listed r.key)
Exact-unique j c idempotent_replay fresh u (e, r) q = absurd (q e r.listed r.key)
Exact-unique j c idempotent_replay idempotent_replay u p q = refl
Exact-unique j c idempotent_replay conflict u (e, r) (k, s) =
    absurd (s.digest (u k e s.listed r.listed (s.key ∙ sym r.key) ∙ r.digest))
Exact-unique j c conflict fresh u (e, r) q = absurd (q e r.listed r.key)
Exact-unique j c conflict idempotent_replay u (k, s) (e, r) =
    absurd (s.digest (u k e s.listed r.listed (s.key ∙ sym r.key) ∙ r.digest))
Exact-unique j c conflict conflict u p q = refl

Exact-Sound :
    (j : List JournaledOperation) (c : JournaledOperation) (d : IdempotencyDecision) (s : Status)
    → identity_findings c ≡ []
    → Sound j c d s
    → Exact j c s
Exact-Sound j c d fresh h sound = sound
Exact-Sound j c d idempotent_replay h (e, _, r) = (e, r)
Exact-Sound j c d conflict h (inl bad) = absurd (bad h)
Exact-Sound j c d conflict h (inr (e, _, r)) = (e, r)

-- Over a journal of admitted operations, a well-formed candidate is fresh exactly when its key is
-- new, a replay exactly when its key was used for the same artifact, and a conflict exactly when
-- its key was used for another artifact.
pub decision-Exact :
    {j : List JournaledOperation}
    → Journaled j
    → (c : JournaledOperation) → identity_findings c ≡ []
    → (s : Status) → ((decide_idempotency j c).status ≡ s) ↔ Exact j c s
decision-Exact {j} r c h s =
    let exact = Exact-Sound j c (decide_idempotency j c) _ h (decision-Sound j c) in
    (
      (λ e. subst (Exact j c) e exact),
      (λ q. Exact-unique j c _ s (Journaled-IsUniquelyKeyed r) exact q),
    )
