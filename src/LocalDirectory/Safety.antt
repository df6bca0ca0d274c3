-- ===== src/LocalDirectory/Safety.antt =====
-- What holds of the disk at every moment: the pointer, where it leads to a generation, leads to a
-- release that is there, and the names of the releases are single segments.
pub mod Changes
pub mod Staging
pub mod Activation
pub mod Reachable
use publish.Prelude.{String, true, false, some, ◌≡◌, All}
use publish.Kernel.Containment.{includes}
use publish.LocalDirectory.Disk.{
  Disk, target_of, entry, is_stage_name, is_some_directory, directory_named,
  read_current_generation_id, list_release_generations,
}

-- A name without a slash that leads to the entry of that name.
abbrev pub IsSegment : String → Type 0
IsSegment name = (target_of name ≡ entry name) × (includes 47 name ≡ false)

-- The identity of a generation names one directory, and not one of a stage.
abbrev pub IsPlain : String → Type 0
IsPlain name = IsSegment name × (is_stage_name name ≡ false)

abbrev pub IsThere : String → Disk → Type 0
IsThere name disk = is_some_directory (directory_named name disk.releases) ≡ true

abbrev pub IsServing : Disk → Type 0
IsServing disk =
    (g : String) → read_current_generation_id disk ≡ some g → IsPlain g × IsThere g disk

pub record IsSound (disk : Disk) : Type 0 where
  pub serving : IsServing disk
  pub names : All IsSegment (list_release_generations disk)
