-- ===== src/LocalDirectory/Safety/Staging.antt =====
-- `stage` and `cleanupStaged` keep the disk sound at every durable change.
use publish.Prelude.{
  String, Bool, true, false, ◌||◌, Option, none, some, List, any, ◌≡◌, ◌≢◌, sym, subst, ap, ◌∙◌,
  arith, ◌==◌,
}
use publish.Kernel.Marker.{Diagnostic}
use publish.LocalDirectory.Disk.{
  Disk, JournalEntry, stage_name, read_current_generation_id, target_of, entry, all_releases,
  is_stage_name, list_release_generations,
}
use publish.LocalDirectory.Disk.Entries.{stage_name-is_stage_name}
use publish.LocalDirectory.Monad.{fs_error}
use publish.LocalDirectory.Monad.Holds.{
  Holds, Holds-bind, Holds-change, Holds-if, Holds-when_ok, Holds-weaken,
}
use publish.LocalDirectory.Monad.Keeps.{
  Keeps, Ends, Keeps-bind, Keeps-pure, Keeps-gets, Keeps-read, Keeps-weaken, Anything,
}
use publish.LocalDirectory.Environment.{Environment, remove_contained_tree}
use publish.LocalDirectory.Environment.Quiet.{Holds-prepare_root}
use publish.LocalDirectory.Stage.{
  StageInput, stage, stage_token_for, is_generation_active, remove_if_there, remove_abandoned,
  cleanup_release, cleanup_staged,
}
use publish.LocalDirectory.Stage.Kept.{Keeps-stage, AreInside, stage-HasToken}
use publish.LocalDirectory.Safety.{IsPlain, IsSound, IsSegment}
use publish.LocalDirectory.Safety.Changes.{
  IsIdle, IsSound-write_into, IsSound-remove_target, apart-stage,
}

IsSound-journal :
    (j : List JournalEntry) (disk : Disk) → IsSound disk → IsSound (record disk { journal = j })
unfolding read_current_generation_id list_release_generations
IsSound-journal j disk s = record { serving = s.serving; names = s.names }

pub stage-IsSound :
    (env : Environment) (print_diagnostics : List Diagnostic → String) (input : StageInput)
    → AreInside (stage_name (stage_token_for env print_diagnostics input)) input.files
    → Keeps IsSound (stage env print_diagnostics input)
stage-IsSound env print_diagnostics input within =
    Keeps-stage IsSound IsSound-write_into IsSound-journal env print_diagnostics input within

-- The same with the token that is returned.
pub stage-Tokened :
    (env : Environment) (print_diagnostics : List Diagnostic → String) (input : StageInput)
    → AreInside (stage_name (stage_token_for env print_diagnostics input)) input.files
    → Holds IsSound Anything
        (stage env print_diagnostics input)
        (λ r disk. r.stage_token ≡ stage_token_for env print_diagnostics input)
stage-Tokened env print_diagnostics input within =
    stage-HasToken IsSound IsSound-write_into IsSound-journal env print_diagnostics input within

pub segment-apart : (name : String) → IsSegment name → target_of name ≢ all_releases
segment-apart name segment e = let f = segment.0 in ground (arith, f, e)

pub segment-entry : (name n : String) → IsSegment name → target_of name ≡ entry n → name ≡ n
segment-entry name n segment e = let f = segment.0 in ground (arith, f, e)

-- Removing what the pointer does not lead to.
pub Keeps-remove_contained_tree :
    (env : Environment) (name : String)
    → IsSegment name
    → Holds IsSound (IsIdle name) (remove_contained_tree env name) Ends
unfolding remove_contained_tree
Keeps-remove_contained_tree env name segment =
    Holds-bind IsSound (IsIdle name) (λ _. IsIdle name) Ends _ _
      (Holds-when_ok IsSound _ fs_error _)
      (λ u. Holds-change IsSound (IsIdle name) Anything _ (λ disk s idle. (
        IsSound-remove_target (target_of name) disk (segment-apart name segment)
            (λ n e. let same = segment-entry name n segment e in rw (sym same) idle) s,
        tt,
      )))

Holds-remove_if_there :
    (env : Environment) (there : Bool) (name : String)
    → IsSegment name
    → Holds IsSound (IsIdle name) (remove_if_there env there name) Ends
unfolding remove_if_there
Holds-remove_if_there env true name segment =
    Holds-bind IsSound (IsIdle name) Ends Ends _ _ (Keeps-remove_contained_tree env name segment)
      (λ u. Keeps-pure IsSound _)
Holds-remove_if_there env false name segment = Keeps-weaken IsSound _ _ (Keeps-pure IsSound _)

-- The pointer leads to no stage.
pub stage-IsIdle :
    (name : String) (disk : Disk) → is_stage_name name ≡ true → IsSound disk → IsIdle name disk
stage-IsIdle name disk staged s g at = apart-stage name g staged (s.serving g at).0.1

IsIdle-unless_active :
    (g : String) (disk : Disk)
    → is_generation_active g (read_current_generation_id disk) ≡ false
    → IsIdle g disk
unfolding is_generation_active
IsIdle-unless_active g disk inactive h at = sym (ap (is_generation_active g) at) ∙ inactive

Holds-remove_abandoned :
    (env : Environment) (g : String) (seen : Disk)
    → IsPlain g
    → Holds IsSound
        (λ disk. seen ≡ disk)
        (remove_abandoned env g (read_current_generation_id seen) seen.history seen)
        Ends
unfolding remove_abandoned
Holds-remove_abandoned env g seen plain =
    Holds-if IsSound _ Ends
      (is_generation_active g (read_current_generation_id seen)
        || any (λ r. r.generation_id == g) seen.history)
      _ _ (λ kept. Keeps-weaken IsSound _ _ (Keeps-pure IsSound _))
      (λ dropped.
        Holds-weaken IsSound (IsIdle g) _ Ends _
          (λ disk s same. IsIdle-unless_active g disk (
            subst (λ d. is_generation_active g (read_current_generation_id d) ≡ false) same
              (ground arith)))
          (Holds-remove_if_there env _ g plain.0))

-- The generation that is given up, if there is one, is named as generations are.
abbrev pub IsPlainOrNone : Option String → Type 0
IsPlainOrNone none = Unit
IsPlainOrNone (some g) = IsPlain g

Keeps-cleanup_release :
    (env : Environment) (g : Option String)
    → IsPlainOrNone g
    → Keeps IsSound (cleanup_release env g)
unfolding cleanup_release
Keeps-cleanup_release env none plain = Keeps-pure IsSound _
Keeps-cleanup_release env (some g) plain =
    Keeps-read IsSound _ _ (λ seen. Holds-remove_abandoned env g seen plain)

pub cleanup-IsSound :
    (env : Environment) (token : String) (g : Option String)
    → IsSegment (stage_name token)
    → IsPlainOrNone g
    → Keeps IsSound (cleanup_staged env token g)
unfolding cleanup_staged
cleanup-IsSound env token g segment plain =
    let staged = stage_name-is_stage_name token in
    Keeps-bind IsSound _ _ (Holds-prepare_root IsSound _ env) (λ u.
      Keeps-bind IsSound _ _ (Keeps-gets IsSound _) (λ disk.
        Keeps-bind IsSound _ _
          (Holds-weaken IsSound (IsIdle (stage_name token)) _ Ends _
            (λ now s p. stage-IsIdle (stage_name token) now staged s)
            (Holds-remove_if_there env _ (stage_name token) segment))
          (λ existed.
            Keeps-bind IsSound _ _ (Keeps-cleanup_release env g plain)
              (λ x. Keeps-pure IsSound _))))
