-- ===== src/LocalDirectory/Stage/Served.antt =====
-- Staging is out of sight of whoever reads what is served.
use publish.Prelude.{String, true, false, List, All, ◌≡◌, refl, ◌∙◌}
use publish.Kernel.Marker.{Diagnostic}
use publish.LocalDirectory.Disk.{Disk, Directory, directory_named, is_stage_name, stage_name}
use publish.LocalDirectory.Disk.Entries.{named-with_other}
use publish.LocalDirectory.Monad.Holds.{Holds}
use publish.LocalDirectory.Monad.Keeps.{Anything, Ends}
use publish.LocalDirectory.Environment.{Environment}
use publish.LocalDirectory.Stage.{StageInput, write_into, stage, stage_token_for}
use publish.LocalDirectory.Stage.Kept.{Keeps-stage, AreInside}
use publish.LocalDirectory.Safety.Changes.{apart-stage}

-- The disk has what `before` has: the pointer, the history, and every directory that is no stage.
pub record IsServedAs (before after : Disk) : Type 0 where
  pub pointer : after.current ≡ before.current
  pub history : after.history ≡ before.history
  pub directories :
      (name : String)
      → is_stage_name name ≡ false
      → directory_named name after.releases ≡ directory_named name before.releases

IsServedAs-write_into :
    (before : Disk) (name : String) (f : Directory → Directory) (disk : Disk)
    → is_stage_name name ≡ true
    → IsServedAs before disk
    → IsServedAs before (write_into name f disk)
unfolding write_into
IsServedAs-write_into before name f disk staged s = record {
  pointer = s.pointer;
  history = s.history;
  directories = λ other plain.
      named-with_other name other _ disk.releases (apart-stage name other staged plain)
      ∙ s.directories other plain;
}

-- At every moment of a staging, and whether or not it fails, the pointer, the history and every
-- release are what they were before.
pub stage-IsServedAs :
    (env : Environment) (print_diagnostics : List Diagnostic → String) (input : StageInput)
    (before : Disk)
    → AreInside (stage_name (stage_token_for env print_diagnostics input)) input.files
    → Holds (IsServedAs before) Anything (stage env print_diagnostics input) Ends
stage-IsServedAs env print_diagnostics input before within =
    Keeps-stage (IsServedAs before) (IsServedAs-write_into before)
      (λ j disk s. record { pointer = s.pointer; history = s.history; directories = s.directories })
      env print_diagnostics input within

-- Where the paths of the files lead below the stage, a staging leaves the pointer, the history and every release as they were, on every disk on the
-- way and on the last one.
pub stage-served :
    (env : Environment) (print_diagnostics : List Diagnostic → String) (input : StageInput)
    (before : Disk)
    → AreInside (stage_name (stage_token_for env print_diagnostics input)) input.files
    → let run = stage env print_diagnostics input before in
      All (IsServedAs before) run.seen × IsServedAs before run.last
unfolding Holds
stage-served env print_diagnostics input before within =
    let start : IsServedAs before before = record {
      pointer = refl;
      history = refl;
      directories = λ name plain. refl;
    } in
    let (seen, (last, end)) =
      stage-IsServedAs env print_diagnostics input before within before start tt in
    (seen, last)
