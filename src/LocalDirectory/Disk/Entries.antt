-- ===== src/LocalDirectory/Disk/Entries.antt =====
-- What a change of one directory leaves of the others.
use publish.Prelude.{
  after_prefix-append, String, true, false, some, List, [], ◌∷◌, ◌≡◌, refl, arith, ◌==◌, eq_iff,
  eq_refl, Bool-cases, inl, inr,
}
use publish.LocalDirectory.Disk.{
  target_of, entry, entry_name, entry_of, Directory, directory_named, with_directory,
  without_directory, generation_of_link, release_path, is_stage_name, stage_name, stage_prefix,
}
use publish.Protocol.Loader.Admission.{starts-append}

pub named-with_directory :
    (name : String) (d : Directory) (entries : List (String × Directory))
    → directory_named name (with_directory name d entries) ≡ some d
unfolding directory_named with_directory
named-with_directory name d [] = rw (eq_refl name)
named-with_directory name d ((n, e) ∷ entries) =
    let further = named-with_directory name d entries in
    elim (Bool-cases (n == name)) [
      | inl here ↦ rw here (rw (eq_refl name))
      | inr there ↦ rw there (rw (there, further))
    ]

pub named-with_other :
    (name other : String) (d : Directory) (entries : List (String × Directory))
    → (name == other) ≡ false
    → directory_named other (with_directory name d entries) ≡ directory_named other entries
unfolding directory_named with_directory
named-with_other name other d [] apart = rw apart
named-with_other name other d ((n, e) ∷ entries) apart =
    let further = named-with_other name other d entries apart in
    elim (Bool-cases (n == name)) [
      | inl here ↦ rw here (ground (arith, eq_iff n name, eq_iff name other, eq_iff n other))
      | inr there ↦ rw there (ground (arith, further))
    ]

pub named-without_other :
    (name other : String) (entries : List (String × Directory))
    → (name == other) ≡ false
    → directory_named other (without_directory name entries) ≡ directory_named other entries
unfolding directory_named without_directory
named-without_other name other [] apart = refl
named-without_other name other ((n, e) ∷ entries) apart =
    let further = named-without_other name other entries apart in
    elim (Bool-cases (n == name)) [
      | inl here ↦
          rw here (ground (arith, further, eq_iff n name, eq_iff name other, eq_iff n other))
      | inr there ↦ rw there (ground (arith, further))
    ]

pub entry_name-entry : (name : String) → target_of name ≡ entry name → entry_name name ≡ name
unfolding entry_name entry_of
entry_name-entry name e = rw e refl

pub generation-release_path :
    (name : String) → generation_of_link (some (release_path name)) ≡ some name
unfolding generation_of_link release_path
generation-release_path name = after_prefix-append "releases/" name

pub stage_name-is_stage_name : (token : String) → is_stage_name (stage_name token) ≡ true
unfolding is_stage_name stage_name
stage_name-is_stage_name token = starts-append stage_prefix token
