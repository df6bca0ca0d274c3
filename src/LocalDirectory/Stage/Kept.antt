-- ===== src/LocalDirectory/Stage/Kept.antt =====
-- `stage` keeps whatever the writes into a stage and the additions to the journal keep.
use publish.Prelude.{
  String, Bool, true, false, refl, Option, none, some, List, [], ◌∷◌, All, ◌≡◌, ◌==◌,
}
use publish.Kernel.Marker.{Validation, Diagnostic}
use publish.Protocol.ArtifactDigest.{StagedFile}
use publish.LocalDirectory.Disk.{
  Disk, Directory, JournalEntry, write_file, is_stage_name, stage_name, place_of, inside,
}
use publish.LocalDirectory.Disk.Entries.{stage_name-is_stage_name}
use publish.LocalDirectory.Monad.{thrown, M, pure, ◌>>=◌}
use publish.LocalDirectory.Monad.Holds.{
  Holds, Holds-bind, Holds-pure, Holds-throw, Holds-if, Holds-after,
}
use publish.LocalDirectory.Monad.Keeps.{
  Keeps, Ends, Anything, Keeps-bind, Keeps-pure, Keeps-throw, Keeps-gets, Keeps-change, Keeps-if,
}
use publish.LocalDirectory.Environment.{Environment}
use publish.LocalDirectory.Environment.Quiet.{Holds-prepare_root, Holds-refuse_symlinks}
use publish.LocalDirectory.History.{read_journal, append_journal}
use publish.LocalDirectory.Stage.{
  StageInput, StageResult, stage_result, write_into, stage_token_for, write_files, write_at,
  require_valid_marker, stage_new, stage_after, stage,
}

-- Each file's path leads to that path below the directory.
abbrev pub AreInside : String → List StagedFile → Type 0
AreInside name files = All (λ f. place_of name f.path ≡ inside name f.path) files

module _ (I : Disk → Type 0)
    (writes : (name : String) (f : Directory → Directory) (disk : Disk)
      → is_stage_name name ≡ true
      → I disk
      → I (write_into name f disk))
    (journals : (j : List JournalEntry) (disk : Disk)
      → I disk
      → I (record disk { journal = j })) where
  Keeps-append_journal : (e : JournalEntry) → Keeps I (append_journal e)
  unfolding append_journal read_journal
  Keeps-append_journal e =
      Keeps-bind I _ _ (Keeps-gets I _) (λ existing. Keeps-change I _ (λ disk. journals _ disk))

  module _ (env : Environment) (print_diagnostics : List Diagnostic → String) where
    Keeps-write_files :
        (name : String) (files : List StagedFile)
        → is_stage_name name ≡ true
        → AreInside name files
        → Keeps I (write_files env print_diagnostics name files)
    unfolding write_files write_at
    Keeps-write_files name [] staged within = Keeps-pure I _
    Keeps-write_files name (file ∷ files) staged within =
        Keeps-bind I _ _ (Holds-refuse_symlinks I _ env _) (λ u.
          Keeps-bind I _ _
            (rw within.0 (Keeps-change I _ (λ disk. writes name (write_file file) disk staged)))
            (λ v. Keeps-write_files name files staged within.1))

    Keeps-require_valid_marker :
        (validation : Validation) → Keeps I (require_valid_marker env print_diagnostics validation)
    unfolding require_valid_marker
    Keeps-require_valid_marker validation =
        Keeps-if I validation.valid _ _ (λ e. Keeps-pure I _) (λ e. Keeps-throw I _ (thrown _))

    -- The token that is returned is the one of the input.
    abbrev pub HasToken : StageInput → StageResult → Disk → Type 0
    HasToken input r disk = r.stage_token ≡ stage_token_for env print_diagnostics input

    HasToken-bind :
        {A : Type 0} (input : StageInput) (m : M A) (f : A → M StageResult)
        → Keeps I m
        → ((a : A) → Holds I Anything (f a) (HasToken input))
        → Holds I Anything (m >>= f) (HasToken input)
    HasToken-bind input m f h k = Holds-bind I Anything Ends (HasToken input) m f h k

    HasToken-result :
        (input : StageInput) (idempotent : Bool)
        → Holds I Anything
            (pure (stage_result env print_diagnostics input idempotent))
            (HasToken input)
    unfolding stage_result
    HasToken-result input idempotent = Holds-pure I Anything (HasToken input) _ (λ disk i p. refl)

    Keeps-stage_new :
        (input : StageInput)
        → AreInside (stage_name (stage_token_for env print_diagnostics input)) input.files
        → Holds I Anything (stage_new env print_diagnostics input) (HasToken input)
    unfolding stage_new
    Keeps-stage_new input within =
        let staged = stage_name-is_stage_name (stage_token_for env print_diagnostics input) in
        HasToken-bind input _ _ (Holds-refuse_symlinks I _ env _) (λ u.
          HasToken-bind input _ _ (Keeps-write_files _ input.files staged within) (λ v.
            HasToken-bind input _ _ (Keeps-require_valid_marker _) (λ w.
              HasToken-bind input _ _ (Keeps-change I _ (λ disk. writes _ _ disk staged)) (λ x.
                HasToken-bind input _ _ (Keeps-append_journal _)
                  (λ y. HasToken-result input false)))))

    Keeps-stage_after :
        (input : StageInput) (prior : Option JournalEntry)
        → AreInside (stage_name (stage_token_for env print_diagnostics input)) input.files
        → Holds I Anything (stage_after env print_diagnostics input prior) (HasToken input)
    unfolding stage_after
    Keeps-stage_after input none within = Keeps-stage_new input within
    Keeps-stage_after input (some prior) within =
        Holds-if I Anything (HasToken input) (prior.artifact_digest == input.artifact_digest) _ _
          (λ e. HasToken-result input true)
          (λ e. Holds-throw I Anything (HasToken input) (thrown _))

    pub stage-HasToken :
        (input : StageInput)
        → AreInside (stage_name (stage_token_for env print_diagnostics input)) input.files
        → Holds I Anything (stage env print_diagnostics input) (HasToken input)
    unfolding stage read_journal
    stage-HasToken input within = HasToken-bind input _ _ (Holds-prepare_root I _ env) (λ u.
        HasToken-bind input _ _ (Keeps-gets I _) (λ journal. Keeps-stage_after input _ within))

    pub Keeps-stage :
        (input : StageInput)
        → AreInside (stage_name (stage_token_for env print_diagnostics input)) input.files
        → Keeps I (stage env print_diagnostics input)
    Keeps-stage input within =
        Holds-after I Anything _ Ends _ (λ a disk i q. tt) (stage-HasToken input within)
