-- ===== src/LocalDirectory/Safety/Changes.antt =====
-- The durable changes keep the invariant.
use publish.Prelude.{
  String, Bool, true, false, some, List, [], ◌∷◌, ◌≡◌, ◌≢◌, refl, sym, ap, ◌∙◌, arith, ◌==◌, eq_iff,
  if◌then◌else◌, Bool-cases, inl, inr, All,
}
use publish.LocalDirectory.Disk.{
  Directory, Disk, directory_named, with_directory, without_directory, is_stage_name,
  is_some_directory, read_current_generation_id, list_release_generations, release_names, entry,
  elsewhere, all_releases, Target, remove_target, release_path, generation_of_link,
}
use publish.LocalDirectory.Disk.Entries.{
  named-with_directory, named-with_other, named-without_other, generation-release_path,
}
use publish.LocalDirectory.Stage.{write_into}
use publish.LocalDirectory.Activate.{rename_directory, point_current}
use publish.LocalDirectory.Safety.{IsSegment, IsPlain, IsThere, IsSound}

split :
    (P : String → Type 0) (b : Bool) (name : String) (rest : List String)
    → All P (if b then rest else name ∷ rest)
    → (b ≡ false → P name) × All P rest
split P true name rest h = (λ e. ground arith, h)
split P false name rest h = (λ e. h.0, h.1)

joined :
    (P : String → Type 0) (b : Bool) (name : String) (rest : List String)
    → (b ≡ false → P name)
    → All P rest
    → All P (if b then rest else name ∷ rest)
joined P true name rest h k = k
joined P false name rest h k = (h refl, k)

pub release_names-with :
    (P : String → Type 0) (name : String) (d : Directory) (entries : List (String × Directory))
    → (is_stage_name name ≡ false → P name)
    → All P (release_names entries)
    → All P (release_names (with_directory name d entries))
unfolding release_names with_directory
release_names-with P name d [] h k = elim (Bool-cases (is_stage_name name)) [
  | inl staged ↦ rw staged tt
  | inr plain ↦ rw plain (h plain, tt)
]
release_names-with P name d ((n, e) ∷ entries) h k =
    let (here, further) = split P (is_stage_name n) n _ k in
    let rest = release_names-with P name d entries h further in
    elim (Bool-cases (n == name)) [
      | inl same ↦ rw same (joined P (is_stage_name name) name _ h further)
      | inr apart ↦ rw apart (joined P (is_stage_name n) n _ here rest)
    ]

pub release_names-without :
    (P : String → Type 0) (name : String) (entries : List (String × Directory))
    → All P (release_names entries)
    → All P (release_names (without_directory name entries))
unfolding release_names without_directory
release_names-without P name [] k = tt
release_names-without P name ((n, e) ∷ entries) k =
    let (here, further) = split P (is_stage_name n) n _ k in
    let rest = release_names-without P name entries further in
    elim (Bool-cases (n == name)) [
      | inl same ↦ rw same rest
      | inr apart ↦ rw apart (joined P (is_stage_name n) n _ here rest)
    ]

-- Names that a test tells apart.
pub apart-stage :
    (s g : String) → is_stage_name s ≡ true → is_stage_name g ≡ false → (s == g) ≡ false
apart-stage s g staged plain = ground (arith, eq_iff s g)

pub there-with :
    (name g : String) (d : Directory) (entries : List (String × Directory))
    → is_some_directory (directory_named g entries) ≡ true
    → is_some_directory (directory_named g (with_directory name d entries)) ≡ true
unfolding is_some_directory
there-with name g d entries there = elim (Bool-cases (name == g)) [
  | inl same ↦
      let e = (eq_iff name g).0 same in
      rw (sym e) (ap is_some_directory (named-with_directory name d entries))
  | inr apart ↦ ap is_some_directory (named-with_other name g d entries apart) ∙ there
]

pub there-without :
    (name g : String) (entries : List (String × Directory))
    → (name == g) ≡ false
    → is_some_directory (directory_named g entries) ≡ true
    → is_some_directory (directory_named g (without_directory name entries)) ≡ true
there-without name g entries apart there =
    ap is_some_directory (named-without_other name g entries apart) ∙ there

pub IsSound-write_into :
    (name : String) (f : Directory → Directory) (disk : Disk)
    → is_stage_name name ≡ true
    → IsSound disk
    → IsSound (write_into name f disk)
unfolding write_into read_current_generation_id list_release_generations
IsSound-write_into name f disk staged s = record {
  serving = λ g at.
      let (plain, there) = s.serving g at in (plain, there-with name g _ disk.releases there);
  names = release_names-with IsSegment name _ disk.releases (λ plain. ground arith) s.names;
}

-- The pointer does not lead to the directory that is removed.
abbrev pub IsIdle : String → Disk → Type 0
IsIdle name disk = (g : String) → read_current_generation_id disk ≡ some g → (name == g) ≡ false

pub IsSound-remove_target :
    (t : Target) (disk : Disk)
    → t ≢ all_releases
    → ((name : String) → t ≡ entry name → IsIdle name disk)
    → IsSound disk
    → IsSound (remove_target t disk)
unfolding remove_target read_current_generation_id list_release_generations
IsSound-remove_target all_releases disk ne idle s = absurd (ne refl)
IsSound-remove_target elsewhere disk ne idle s = s
IsSound-remove_target (entry name) disk ne idle s = record {
  serving = λ g at.
      let (plain, there) = s.serving g at in
      (plain, there-without name g disk.releases (idle name refl g at) there);
  names = release_names-without IsSegment name disk.releases s.names;
}

pub IsSound-rename_directory :
    (from to : String) (d : Directory) (disk : Disk)
    → is_stage_name from ≡ true
    → IsPlain to
    → IsSound disk
    → IsSound (rename_directory from to d disk) × IsThere to (rename_directory from to d disk)
unfolding rename_directory read_current_generation_id list_release_generations is_some_directory
IsSound-rename_directory from to d disk staged plain s = (
  record {
    serving = λ g at.
        let (p, there) = s.serving g at in
        (
          p,
          there-with to g d _
              (there-without from g disk.releases (apart-stage from g staged p.1) there),
        );
    names =
        release_names-with IsSegment to d _ (λ u. plain.0)
          (release_names-without IsSegment from disk.releases s.names);
  },
  ap is_some_directory (named-with_directory to d (without_directory from disk.releases)),
)

pub IsSound-point_current :
    (g : String) (disk : Disk)
    → IsPlain g
    → IsThere g disk
    → IsSound disk
    → IsSound (point_current g disk)
unfolding point_current release_path generation_of_link read_current_generation_id
    list_release_generations
IsSound-point_current g disk plain there s = record {
  serving = λ h at.
      let e = generation-release_path g in
      let same : g ≡ h = ground (arith, e, at) in rw (sym same) (plain, there);
  names = s.names;
}
