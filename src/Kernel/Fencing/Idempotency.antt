-- ===== src/Kernel/Fencing/Idempotency.antt =====
-- What `decideIdempotency` decides of a journal.
use publish.Prelude.{
  true, false, not, some, List, [], ◌∷◌, ◌≡◌, ◌≢◌, ◌↔◌, ◌⊎◌, inl, inr, refl, arith, eq_iff, In,
  filter, find, Option-cases, find-some, find-none, In-filter,
}
use publish.Finding.{Finding, has_blocking_finding, blocks}
use publish.Kernel.Fencing.{
  JournaledOperation, IdempotencyDecision, Status, fresh, idempotent_replay, conflict,
  identity_findings, same_key, same_digest, exact_replay, decide_reuse, decide_same_key,
  decide_from, decide_idempotency, reuse_conflict, check_identity_syntax, identity_invalid,
}

-- A journaled operation with the candidate's key and the candidate's bytes.
pub record Repeats (journal : List JournaledOperation) (c e : JournaledOperation) : Type 0 where
  pub listed : In e journal
  pub key : e.idempotency_key ≡ c.idempotency_key
  pub digest : e.artifact_digest ≡ c.artifact_digest

-- A journaled operation with the candidate's key and other bytes.
pub record Clashes (journal : List JournaledOperation) (c e : JournaledOperation) : Type 0 where
  pub listed : In e journal
  pub key : e.idempotency_key ≡ c.idempotency_key
  pub digest : e.artifact_digest ≢ c.artifact_digest

module _ (journal : List JournaledOperation) (c : JournaledOperation) where
  abbrev Same : List JournaledOperation → Type 0
  Same same = (e : JournaledOperation) → In e same → In e journal × (same_key c e ≡ true)

  Repeats-Same :
      (same : List JournaledOperation) (e : JournaledOperation)
      → Same same
      → In e same
      → same_digest c e ≡ true
      → Repeats journal c e
  Repeats-Same same e h i d =
      let (listed, key) = h e i in
      record { listed = listed; key = (eq_iff _ _).0 key; digest = (eq_iff _ _).0 d }

  Clashes-Same :
      (same : List JournaledOperation) (e : JournaledOperation)
      → Same same
      → In e same
      → not (same_digest c e) ≡ true
      → Clashes journal c e
  Clashes-Same same e h i d =
      let (listed, key) = h e i in
      record {
        listed = listed;
        key = (eq_iff _ _).0 key;
        digest = λ q. ground (arith, (eq_iff e.artifact_digest c.artifact_digest).1 q);
      }

  -- What a decision says, by its status.
  abbrev pub Sound : IdempotencyDecision → Status → Type 0
  Sound d fresh = (e : JournaledOperation) → In e journal → e.idempotency_key ≢ c.idempotency_key
  Sound d idempotent_replay = (e : JournaledOperation) × (d.matched ≡ some e) × Repeats journal c e
  Sound d conflict =
      (identity_findings c ≢ [])
      ⊎ ((e : JournaledOperation) × (d.matched ≡ some e) × Clashes journal c e)

  Sound-reuse :
      (first : JournaledOperation) (same : List JournaledOperation)
      → Same (first ∷ same)
      → Sound (decide_reuse first same c) (decide_reuse first same c).status
  unfolding decide_reuse
  Sound-reuse first same h = elim (Option-cases (find (exact_replay c) (first ∷ same))) [
    | inr (e, found) ↦
        let (i, p) = find-some (exact_replay c) (first ∷ same) e found in
        rw (found, decide_reuse) (e, refl, Repeats-Same (first ∷ same) e h i (ground arith))
    | inl missed ↦ elim (Option-cases (find (λ x. not (same_digest c x)) (first ∷ same))) [
      | inr (e, found) ↦
          let (i, p) = find-some (λ x. not (same_digest c x)) (first ∷ same) e found in
          rw (missed, found, decide_reuse) (inr (e, refl, Clashes-Same (first ∷ same) e h i p))
      | inl agreed ↦
          let p = find-none (λ x. not (same_digest c x)) (first ∷ same) agreed first (inl refl) in
          rw (missed, agreed, decide_reuse)
            (first, refl, Repeats-Same (first ∷ same) first h (inl refl) (ground arith))
    ]
  ]

  Sound-same_key :
      (same : List JournaledOperation)
      → Same same
      → ((e : JournaledOperation) → In e journal → same_key c e ≡ true → In e same)
      → Sound (decide_same_key same c) (decide_same_key same c).status
  unfolding decide_same_key
  Sound-same_key [] h complete = λ e i q. complete e i ((eq_iff _ _).1 q)
  Sound-same_key (first ∷ same) h complete = Sound-reuse first same h

  Sound-from :
      (fs : List Finding)
      → identity_findings c ≡ fs
      → Sound (decide_from fs journal c) (decide_from fs journal c).status
  unfolding decide_from
  Sound-from (f ∷ fs) e = inl (λ q. cc)
  Sound-from [] e =
      Sound-same_key (filter (same_key c) journal) (λ x i. (In-filter _ journal x).0 i)
        (λ x i q. (In-filter _ journal x).1 (i, q))

  -- Every decision has its reason. A fresh operation's key occurs nowhere in the journal; a replay
  -- names an entry of the journal with the candidate's key and the candidate's artifact digest; a
  -- conflict has an identity that is not well formed, or names an entry with the candidate's key
  -- and another digest.
  pub decision-Sound : Sound (decide_idempotency journal c) (decide_idempotency journal c).status
  unfolding decide_idempotency
  decision-Sound = Sound-from (identity_findings c) refl

  from-conflict : (fs : List Finding) → fs ≢ [] → (decide_from fs journal c).status ≡ conflict
  unfolding decide_from
  from-conflict [] h = absurd (h refl)
  from-conflict (f ∷ fs) h = refl

  -- An operation with an identity that is not well formed is never admitted.
  pub invalid-conflict : identity_findings c ≢ [] → (decide_idempotency journal c).status ≡ conflict
  unfolding decide_idempotency
  invalid-conflict = from-conflict (identity_findings c)

unblocked-reuse :
    (first : JournaledOperation) (same : List JournaledOperation) (c : JournaledOperation)
    → (has_blocking_finding (decide_reuse first same c).findings ≡ false)
      ↔ ((decide_reuse first same c).status ≢ conflict)
unfolding decide_reuse has_blocking_finding reuse_conflict blocks
unblocked-reuse first same c = elim (Option-cases (find (exact_replay c) (first ∷ same))) [
  | inr (e, found) ↦ rw (found, decide_reuse) ((λ _ q. cc), (λ _. refl))
  | inl missed ↦ elim (Option-cases (find (λ x. not (same_digest c x)) (first ∷ same))) [
    | inr (e, found) ↦ rw (missed, found, decide_reuse) ((λ h. cc), (λ h. absurd (h refl)))
    | inl agreed ↦ rw (missed, agreed, decide_reuse) ((λ _ q. cc), (λ _. refl))
  ]
]

unblocked-same_key :
    (same : List JournaledOperation) (c : JournaledOperation)
    → (has_blocking_finding (decide_same_key same c).findings ≡ false)
      ↔ ((decide_same_key same c).status ≢ conflict)
unfolding decide_same_key
unblocked-same_key [] c = ((λ _ q. cc), (λ _. unfold has_blocking_finding in refl))
unblocked-same_key (first ∷ same) c = unblocked-reuse first same c

-- Every finding about an identity blocks.
blocking-identity :
    (c : JournaledOperation)
    → identity_findings c ≢ []
    → has_blocking_finding (identity_findings c) ≡ true
unfolding identity_findings check_identity_syntax has_blocking_finding identity_invalid blocks
blocking-identity c h = ground arith

unblocked-from :
    (fs : List Finding) (journal : List JournaledOperation) (c : JournaledOperation)
    → (fs ≢ [] → has_blocking_finding fs ≡ true)
    → (has_blocking_finding (decide_from fs journal c).findings ≡ false)
      ↔ ((decide_from fs journal c).status ≢ conflict)
unfolding decide_from
unblocked-from [] journal c h = unblocked-same_key (filter (same_key c) journal) c
unblocked-from (f ∷ fs) journal c h =
    let blocked = h (λ e. cc) in ((λ e. cc), (λ e. absurd (e refl)))

-- A decision has a blocking finding exactly when it is a conflict.
pub unblocked-decision :
    (journal : List JournaledOperation) (c : JournaledOperation)
    → (has_blocking_finding (decide_idempotency journal c).findings ≡ false)
      ↔ ((decide_idempotency journal c).status ≢ conflict)
unfolding decide_idempotency
unblocked-decision journal c = unblocked-from (identity_findings c) journal c (blocking-identity c)
