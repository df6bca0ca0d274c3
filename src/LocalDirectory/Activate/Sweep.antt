-- ===== src/LocalDirectory/Activate/Sweep.antt =====
-- The sweep after a promotion: it ends, it leaves the promoted release and the pointer as they are,
-- and no release outlives it that is not retained.
use publish.Prelude.{
  String, Bool, true, false, ◌||◌, some, List, [], ◌∷◌, any, ◌≡◌, subst, ◌∙◌, arith, ◌==◌, eq_iff,
  if◌then◌else◌, All, Bool-cases, inl, inr,
}
use publish.Kernel.Retention.{CertifiedDigestRecord}
use publish.LocalDirectory.FsSafety.Removable.{entry-IsOneSegment, segment-assert_removable}
use publish.LocalDirectory.Disk.{
  Disk, Directory, is_stage_name, read_current_generation_id, target_of, remove_target,
  list_release_generations, release_names, directory_named, without_directory,
}
use publish.LocalDirectory.Disk.Entries.{named-without_other}
use publish.LocalDirectory.Monad.{fs_error}
use publish.LocalDirectory.Monad.Total.{
  Total, Total-bind, Total-pure, Total-change, Total-when_ok, Total-weaken, Total-known, Total-if,
}
use publish.LocalDirectory.Environment.{Environment, remove_contained_tree}
use publish.LocalDirectory.Activate.{sweep_from}
use publish.LocalDirectory.Safety.{IsSegment}
use publish.LocalDirectory.Safety.Changes.{release_names-without}
use publish.LocalDirectory.Safety.Activation.{IsCurrent, not_retained}

abbrev pub is_kept : List CertifiedDigestRecord → String → Bool
is_kept retained g = any (λ r. r.generation_id == g) retained

-- The promoted release, while the sweep goes through the names `left`.
pub record IsPromoted (g : String) (d : Directory) (retained : List CertifiedDigestRecord)
    (left : List String) (disk : Disk) : Type 0 where
  pub there : directory_named g disk.releases ≡ some d
  pub current : IsCurrent g disk
  pub history : disk.history ≡ retained
  pub names :
      All
        (λ n. (is_kept retained n || any (λ m. m == n) left) ≡ true)
        (list_release_generations disk)

pub All-map :
    {A : Type 0} (P Q : A → Type 0) (xs : List A) → ((x : A) → P x → Q x) → All P xs → All Q xs
All-map P Q [] f h = tt
All-map P Q (x ∷ xs) f h = (f x h.0, All-map P Q xs f h.1)

still_kept :
    (retained : List CertifiedDigestRecord) (h n : String) (left : List String)
    → is_kept retained h ≡ true
    → (is_kept retained n || any (λ m. m == n) (h ∷ left)) ≡ true
    → (is_kept retained n || any (λ m. m == n) left) ≡ true
still_kept retained h n left kept e = elim (Bool-cases (h == n)) [
  | inl same ↦ ground (arith, subst (λ x. is_kept retained x ≡ true) ((eq_iff h n).0 same) kept)
  | inr apart ↦ ground (arith, apart)
]

apart_sym : (a b : String) → (a == b) ≡ false → (b == a) ≡ false
apart_sym a b h = ground (arith, eq_iff a b, eq_iff b a)

listed :
    (staged : Bool) (h n : String) (rest : List String)
    → (h == n) ≡ false
    → All (λ m. (h == m) ≡ false) rest
    → All (λ m. (h == m) ≡ false) (if staged then rest else n ∷ rest)
listed true h n rest e k = k
listed false h n rest e k = (e, k)

-- The name that is removed is no longer listed.
unlisted :
    (h : String) (entries : List (String × Directory))
    → All (λ n. (h == n) ≡ false) (release_names (without_directory h entries))
unfolding release_names without_directory
unlisted h [] = tt
unlisted h ((n, d) ∷ entries) =
    let rest = unlisted h entries in
    elim (Bool-cases (n == h)) [
      | inl same ↦ rw same rest
      | inr apart ↦ rw apart (listed (is_stage_name n) h n _ (apart_sym n h apart) rest)
    ]

All-both :
    {A : Type 0} (P Q : A → Type 0) (xs : List A) → All P xs → All Q xs → All (λ x. P x × Q x) xs
All-both P Q [] h k = tt
All-both P Q (x ∷ xs) h k = ((h.0, k.0), All-both P Q xs h.1 k.1)

module _ (env : Environment) where
  IsPromoted-remove :
      (g : String) (d : Directory) (retained : List CertifiedDigestRecord) (h : String)
      (left : List String) (disk : Disk)
      → IsSegment h
      → (h == g) ≡ false
      → IsPromoted g d retained (h ∷ left) disk
      → IsPromoted g d retained left (remove_target (target_of h) disk)
  unfolding read_current_generation_id list_release_generations remove_target
  IsPromoted-remove g d retained h left disk segment apart p = rw (segment.0) (record {
    there = named-without_other h g disk.releases apart ∙ p.there;
    current = p.current;
    history = p.history;
    names =
        All-map _ _ _ (λ n q. ground (arith, q.0, q.1))
          (All-both _ _ _ (release_names-without _ h disk.releases p.names)
            (unlisted h disk.releases));
  })

  Total-remove_other :
      (g : String) (d : Directory) (retained : List CertifiedDigestRecord) (h : String)
      (left : List String)
      → IsSegment h
      → (h == g) ≡ false
      → Total
          (IsPromoted g d retained (h ∷ left))
          (remove_contained_tree env h)
          (λ _. IsPromoted g d retained left)
  unfolding remove_contained_tree
  Total-remove_other g d retained h left segment apart =
      let one = entry-IsOneSegment h segment.0 segment.1 in
      let P = IsPromoted g d retained (h ∷ left) in
      Total-known P _ _ _ tt
        (Total-when_ok P fs_error _ tt
          (segment-assert_removable env.root h one.some_name one.one_dot one.two_dots one.whole))
        (Total-change P _ _ (λ disk p. IsPromoted-remove g d retained h left disk segment apart p))

  pub Total-sweep_from :
      (g : String) (d : Directory) (retained : List CertifiedDigestRecord) (left : List String)
      → is_kept retained g ≡ true
      → All IsSegment left
      → Total
          (IsPromoted g d retained left)
          (sweep_from env retained left)
          (λ _. IsPromoted g d retained [])
  unfolding sweep_from
  Total-sweep_from g d retained [] head segments = Total-pure _ _ tt (λ disk p. p)
  Total-sweep_from g d retained (h ∷ hs) head segments =
      let rest = Total-sweep_from g d retained hs head segments.1 in
      Total-if _ _ (is_kept retained h) _ _
        (λ kept.
          Total-weaken _ _ _ _
            (λ disk p. record {
              there = p.there;
              current = p.current;
              history = p.history;
              names = All-map _ _ _ (λ n. still_kept retained h n hs kept) p.names;
            })
            rest)
        (λ dropped.
          Total-bind _ (λ _. IsPromoted g d retained hs) _ _ _
            (Total-remove_other g d retained h hs segments.0
              (not_retained retained g h head dropped))
            (λ u. rest))
