-- ===== src/Kernel/Containment/Collisions.antt =====
-- When an artifact's paths pass as a set.
use mathlib.Core.Option.{some-injective}
use publish.Prelude.{
  String, false, Option, none, some, List, [], ◌∷◌, ◌≡◌, ◌↔◌, refl, arith, eq_iff, eq_refl, All, In,
  ◌==◌, Bool-cases, inl, inr, map, ap, sym, ◌∙◌, iff_trans, subst,
}
use publish.Finding.{has_blocking_finding, unblocked-append, blocks}
use publish.Kernel.Containment.{
  ArtifactPathEntry, file, is_admitted, Violation, kind_findings, kind_unsafe, syntax_findings,
  violation_finding, case_collision, lookup, insert, colliding, collision_findings, next_seen,
  contain_from, check_path_containment,
}
use publish.Kernel.Containment.Safe.{IsSafePath, safe_iff}

unblocked-kind :
    (e : ArtifactPathEntry) → (has_blocking_finding (kind_findings e) ≡ false) ↔ (e.kind ≡ file)
unfolding has_blocking_finding kind_findings is_admitted kind_unsafe blocks
unblocked-kind e = ((λ h. ground arith), (λ h. ground arith))

unblocked-violations :
    (e : ArtifactPathEntry) (vs : List Violation)
    → (has_blocking_finding (map (violation_finding e) vs) ≡ false) ↔ (vs ≡ [])
unfolding has_blocking_finding violation_finding blocks
unblocked-violations e [] = ((λ _. refl), (λ _. refl))
unblocked-violations e (v ∷ vs) = ((λ h. cc), (λ h. cc))

unblocked-collision :
    (e : ArtifactPathEntry) (c : Option String)
    → (has_blocking_finding (collision_findings e c) ≡ false) ↔ (c ≡ none)
unfolding has_blocking_finding collision_findings case_collision blocks
unblocked-collision e none = ((λ _. refl), (λ _. refl))
unblocked-collision e (some p) = ((λ h. cc), (λ h. cc))

-- What the map of seen paths holds after one more path.
seen_under_key :
    (folded_path path : String) (seen : List (String × String))
    → lookup folded_path (insert folded_path path seen) ≡ some path
unfolding lookup insert
seen_under_key q path [] = rw (eq_refl q)
seen_under_key q path ((held, first) ∷ more) = elim (Bool-cases (held == q)) [
  | inl taken ↦ rw taken (rw (eq_refl q))
  | inr free ↦ rw free (rw (free, seen_under_key q path more))
]

lookup-insert_self :
    {k j : String} (v : String) (m : List (String × String))
    → k ≡ j
    → lookup j (insert k v m) ≡ some v
lookup-insert_self {k} v m h = ap (λ q. lookup q (insert k v m)) (sym h) ∙ seen_under_key k v m

lookup-insert_ne :
    (k j v : String) (m : List (String × String))
    → (k == j) ≡ false
    → lookup j (insert k v m) ≡ lookup j m
unfolding lookup insert
lookup-insert_ne k j v [] apart = rw apart
lookup-insert_ne k j v ((held, first) ∷ more) apart =
    let rest = lookup-insert_ne k j v more apart in
    elim (Bool-cases (held == k)) [
      | inl taken ↦ rw taken (ground (arith, eq_iff held k, eq_iff k j, eq_iff held j))
      | inr free ↦ rw free (ground (arith, rest))
    ]

module _ (to_lower_case normalize_nfc : String → String) where
  abbrev folded : ArtifactPathEntry → String
  folded e = to_lower_case e.path

  -- An entry is a regular file under a safe path.
  pub record IsSafeEntry (e : ArtifactPathEntry) : Type 0 where
    pub kind : e.kind ≡ file
    pub path : IsSafePath to_lower_case normalize_nfc e.path

  -- Entries whose paths fold to one text have one path.
  abbrev pub Distinguished : List ArtifactPathEntry → Type 0
  Distinguished [] = Unit
  Distinguished (e ∷ es) =
      ((x : ArtifactPathEntry) → In x es → folded e ≡ folded x → e.path ≡ x.path) × Distinguished es

  -- The entries do not collide with what was seen before.
  abbrev Agree : List (String × String) → List ArtifactPathEntry → Type 0
  Agree seen es =
      (x : ArtifactPathEntry)
      → In x es
      → (p : String) → lookup (folded x) seen ≡ some p
      → p ≡ x.path

  colliding-none :
      (e : ArtifactPathEntry) (o : Option String)
      → (colliding e o ≡ none) ↔ ((p : String) → o ≡ some p → p ≡ e.path)
  unfolding colliding
  colliding-none e none = ((λ _ p h. cc), (λ _. refl))
  colliding-none e (some q) = (
    (λ h p same. ground (arith, eq_iff q e.path)),
    (λ h. let same = h q refl in ground (arith, eq_iff q e.path)),
  )

  -- What the collision test of an entry leaves for the later ones.
  Agree-cons :
      (seen : List (String × String)) (e : ArtifactPathEntry) (es : List ArtifactPathEntry)
      → ((p : String) → lookup (folded e) seen ≡ some p → p ≡ e.path)
      → Agree (insert (folded e) e.path seen) es ↔ (
          Agree seen es
          × ((x : ArtifactPathEntry) → In x es → folded e ≡ folded x → e.path ≡ x.path))
  Agree-cons seen e es clear = (
    (λ h. (
      (λ x i p found. elim (Bool-cases (folded e == folded x)) [
        | inl same ↦
            let q = (eq_iff _ _).0 same in
            clear p (ap (λ k. lookup k seen) q ∙ found)
            ∙ h x i e.path (lookup-insert_self e.path seen q)
        | inr other ↦ h x i p (lookup-insert_ne _ _ e.path seen other ∙ found)
      ]),
      (λ x i same. h x i e.path (lookup-insert_self e.path seen same)),
    )),
    (λ h x i p found. elim (Bool-cases (folded e == folded x)) [
      | inl same ↦
          let q = (eq_iff _ _).0 same in
          some-injective _ _ (sym found ∙ lookup-insert_self e.path seen q) ∙ h.1 x i q
      | inr other ↦ h.0 x i p (sym (lookup-insert_ne _ _ e.path seen other) ∙ found)
    ]),
  )

  unblocked-syntax :
      (e : ArtifactPathEntry)
      → (has_blocking_finding (syntax_findings to_lower_case normalize_nfc e) ≡ false)
        ↔ IsSafePath to_lower_case normalize_nfc e.path
  unfolding syntax_findings
  unblocked-syntax e =
      iff_trans (unblocked-violations e _) (safe_iff to_lower_case normalize_nfc e.path)

  abbrev Exact : List (String × String) → List ArtifactPathEntry → Type 0
  Exact seen es =
      (has_blocking_finding (contain_from to_lower_case normalize_nfc seen es) ≡ false)
      ↔ (All IsSafeEntry es × (Agree seen es × Distinguished es))

  contain_sound :
      (seen : List (String × String)) (e : ArtifactPathEntry) (es : List ArtifactPathEntry)
      → Exact (insert (folded e) e.path seen) es
      → has_blocking_finding (contain_from to_lower_case normalize_nfc seen (e ∷ es)) ≡ false
      → All IsSafeEntry (e ∷ es) × (Agree seen (e ∷ es) × Distinguished (e ∷ es))
  unfolding contain_from next_seen
  contain_sound seen e es ih h =
      let (kind, h₁) = (unblocked-append _ _).0 h in
      let (syntax, h₂) = (unblocked-append _ _).0 h₁ in
      let (collision, rest) = (unblocked-append _ _).0 h₂ in
      let none' = (unblocked-collision e (colliding e (lookup (folded e) seen))).0 collision in
      let clear = (colliding-none e (lookup (folded e) seen)).0 none' in
      let rest' =
        subst
          (λ c.
            has_blocking_finding (
              contain_from to_lower_case normalize_nfc
                (next_seen to_lower_case normalize_nfc e c seen) es)
            ≡ false)
          none' rest in
      let (safe, (agree, distinct)) = ih.0 rest' in
      let (before, mine) = (Agree-cons seen e es clear).0 agree in
      (
        (record { kind = (unblocked-kind e).0 kind; path = (unblocked-syntax e).0 syntax }, safe),
        (
          (λ x i p found. elim i [
            | inl same ↦
                clear p (ap (λ (y : ArtifactPathEntry). lookup (folded y) seen) (sym same) ∙ found)
                ∙ ap (λ (y : ArtifactPathEntry). y.path) (sym same)
            | inr later ↦ before x later p found
          ]),
          (mine, distinct),
        ),
      )

  contain_complete :
      (seen : List (String × String)) (e : ArtifactPathEntry) (es : List ArtifactPathEntry)
      → Exact (insert (folded e) e.path seen) es
      → All IsSafeEntry (e ∷ es) × (Agree seen (e ∷ es) × Distinguished (e ∷ es))
      → has_blocking_finding (contain_from to_lower_case normalize_nfc seen (e ∷ es)) ≡ false
  unfolding contain_from next_seen
  contain_complete seen e es ih ((here, safe), (agree, (mine, distinct))) =
      let clear =
        λ (p : String) (found : lookup (folded e) seen ≡ some p). agree e (inl refl) p found in
      let none' = (colliding-none e (lookup (folded e) seen)).1 clear in
      let later = (Agree-cons seen e es clear).1 ((λ x i. agree x (inr i)), mine) in
      (unblocked-append _ _).1 (
        (unblocked-kind e).1 here.kind,
        (unblocked-append _ _).1 (
          (unblocked-syntax e).1 here.path,
          rw none' (
              (unblocked-append _ _).1
                ((unblocked-collision e none).1 refl, ih.1 (safe, (later, distinct)))),
        ),
      )

  contain-Exact : (seen : List (String × String)) (es : List ArtifactPathEntry) → Exact seen es
  contain-Exact seen [] = (
    (λ _. (tt, ((λ x i. elim i [ ]), tt))),
    (λ _. unfold contain_from has_blocking_finding in refl),
  )
  contain-Exact seen (e ∷ es) =
      let ih = contain-Exact (insert (folded e) e.path seen) es in
      (contain_sound seen e es ih, contain_complete seen e es ih)

  -- An artifact's path set has no blocking finding exactly when every entry is a regular file under
  -- a safe path, and no two entries with different paths have the same path in lower case.
  pub containment_iff :
      (es : List ArtifactPathEntry)
      → (has_blocking_finding (check_path_containment to_lower_case normalize_nfc es) ≡ false)
        ↔ (All IsSafeEntry es × Distinguished es)
  unfolding check_path_containment
  containment_iff es =
      let exact = contain-Exact [] es in
      (
        (λ h. let (safe, (_, distinct)) = exact.0 h in (safe, distinct)),
        (λ h. exact.1 (h.0, ((λ x i p found. unfold lookup in cc), h.1))),
      )
