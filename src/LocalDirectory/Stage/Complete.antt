-- ===== src/LocalDirectory/Stage/Complete.antt =====
-- A stage that is not refused holds what was to be staged.
use publish.Prelude.{
  String, Bool, true, false, ◌||◌, Option, none, some, List, [], ◌∷◌, ◌++◌, any, find, ◌≡◌, refl,
  sym, ap, ◌∙◌, arith, ◌==◌, eq_iff, All,
}
use mathlib.Core.List.{append-nil, append_assoc}
use publish.Protocol.ArtifactDigest.{StagedFile}
use publish.Kernel.Containment.{segments_of}
use publish.Kernel.Marker.{Diagnostic, public_generation_marker_schema_id}
use publish.LocalDirectory.Disk.{
  Disk, Directory, JournalEntry, directory_named, or_empty, write_path, write_file, stage_name,
  releases_dir, generation_marker_filename, document,
}
use publish.LocalDirectory.Disk.Entries.{named-with_directory}
use publish.LocalDirectory.Monad.Total.{
  Total, Total-bind, Total-pure, Total-gets, Total-change, Total-weaken, Total-fact, Total-after,
}
use publish.LocalDirectory.Environment.{Environment}
use publish.LocalDirectory.Environment.Prepared.{
  IsPrepared, IsUnlinked, Total-prepare_root, Total-refuse_symlinks,
}
use publish.LocalDirectory.History.{read_journal, append_journal}
use publish.LocalDirectory.Stage.{
  StageInput, write_into, write_marker, stage_token_for, stage_result, write_files, marker_of,
  require_valid_marker, stage_new, stage_after, stage, write_at,
}
use publish.LocalDirectory.Stage.Kept.{AreInside}

-- The paths of the files differ from each other and from the marker's.
abbrev pub IsFresh : String → List StagedFile → Type 0
IsFresh path files = any (λ f. f.path == path) files ≡ false

abbrev pub AreFiles : List StagedFile → Type 0
AreFiles [] = Unit
AreFiles (f ∷ fs) =
    ((f.path == generation_marker_filename) ≡ false) × (IsFresh f.path fs × AreFiles fs)

two_false : (a b : Bool) → (a || b) ≡ false → (a ≡ false) × (b ≡ false)
two_false a b h = (ground arith, ground arith)

apart_sym : (a b : String) → (a == b) ≡ false → (b == a) ≡ false
apart_sym a b h = ground (arith, eq_iff a b, eq_iff b a)

write_path-fresh :
    (f : StagedFile) (fs : List StagedFile) → IsFresh f.path fs → write_path f fs ≡ fs ++ f ∷ []
unfolding write_path
write_path-fresh f [] fresh = refl
write_path-fresh f (g ∷ gs) fresh =
    let (apart, further) = two_false (g.path == f.path) _ fresh in
    rw apart (ap (λ gs. g ∷ gs) (write_path-fresh f gs further))

IsFresh-append :
    (f g : StagedFile) (fs : List StagedFile)
    → IsFresh f.path fs
    → (g.path == f.path) ≡ false
    → IsFresh f.path (fs ++ g ∷ [])
IsFresh-append f g [] fresh apart = rw apart refl
IsFresh-append f g (h ∷ hs) fresh apart =
    let (first, further) = two_false (h.path == f.path) _ fresh in
    rw first (IsFresh-append f g hs further apart)

All-IsFresh :
    (f : StagedFile) (done files : List StagedFile)
    → IsFresh f.path files
    → All (λ g. IsFresh g.path done) files
    → All (λ g. IsFresh g.path (done ++ f ∷ [])) files
All-IsFresh f done [] fresh hs = tt
All-IsFresh f done (g ∷ gs) fresh hs =
    let (first, further) = two_false (g.path == f.path) _ fresh in
    (
      IsFresh-append g f done hs.0 (apart_sym g.path f.path first),
      All-IsFresh f done gs further hs.1,
    )

abbrev plainly : List StagedFile → Directory
plainly files = record { files = files; marker = none }

-- What is in the directory so far.
abbrev Has : String → List StagedFile → Disk → Type 0
Has name files disk = or_empty (directory_named name disk.releases) ≡ plainly files

write-Has :
    (name : String) (f : StagedFile) (done : List StagedFile) (disk : Disk)
    → (f.path == generation_marker_filename) ≡ false
    → IsFresh f.path done
    → Has name done disk
    → Has name (done ++ f ∷ []) (write_into name (write_file f) disk)
unfolding write_into write_file or_empty
write-Has name f done disk plain fresh has =
    rw
      (named-with_directory name (write_file f (or_empty (directory_named name disk.releases)))
        disk.releases)
      (rw has (rw plain (ap (λ fs. plainly fs) (write_path-fresh f done fresh))))

module _ (env : Environment) (print_diagnostics : List Diagnostic → String) where
  Total-write_files :
      (name : String) (done files : List StagedFile)
      → AreFiles files
      → All (λ f. IsFresh f.path done) files
      → AreInside name files
      → All (λ f. IsUnlinked env (releases_dir ∷ name ∷ segments_of f.path)) files
      → Total
          (Has name done)
          (write_files env print_diagnostics name files)
          (λ _. Has name (done ++ files))
  unfolding write_files write_at
  Total-write_files name done [] are fresh within free =
      Total-pure _ _ tt (λ disk has. has ∙ ap (λ fs. plainly fs) (sym (append-nil done)))
  Total-write_files name done (f ∷ fs) are fresh within free =
      Total-bind (Has name done) (λ _. Has name done) _ _ _ (Total-refuse_symlinks _ env _ free.0)
        (λ u.
          Total-bind (Has name done) (λ _. Has name (done ++ f ∷ [])) _ _ _
            (rw within.0 (Total-change _ _ _ (λ disk. write-Has name f done disk are.0 fresh.0)))
            (λ v.
              Total-after _ _ _ _
                (λ a disk has. has ∙ ap (λ gs. plainly gs) (append_assoc done (f ∷ []) fs))
                (Total-write_files name (done ++ f ∷ []) fs are.1.1
                  (All-IsFresh f done fs are.1.0 fresh.1) within.1 free.1)))

  Total-append_journal :
      (P : Disk → Type 0) (e : JournalEntry)
      → ((j : List JournalEntry) (disk : Disk) → P disk → P (record disk { journal = j }))
      → Total P (append_journal e) (λ _. P)
  unfolding append_journal read_journal
  Total-append_journal P e keeps =
      Total-bind P (λ _. P) _ _ _ (Total-after _ _ _ _ (λ a disk q. q.0) (Total-gets P _))
        (λ existing. Total-change P P _ (λ disk p. keeps _ disk p))

  -- What the checks of a staging ask for.
  pub record IsStageable (input : StageInput) : Type 0 where
    pub prepared : IsPrepared env
    pub files : AreFiles input.files
    pub within : AreInside (stage_name (stage_token_for env print_diagnostics input)) input.files
    pub unlinked :
        IsUnlinked env
          (releases_dir ∷ stage_name (stage_token_for env print_diagnostics input) ∷ [])
    pub unlinked_files :
        All
          (λ f. IsUnlinked env (
            releases_dir
            ∷ stage_name (stage_token_for env print_diagnostics input)
            ∷ segments_of f.path))
          input.files
    pub marker :
        (env.validate public_generation_marker_schema_id
          (marker_of env print_diagnostics input)).valid
        ≡ true

  -- The directory of a stage that is complete.
  abbrev pub finished : StageInput → Directory
  finished input = record {
    files = input.files;
    marker = some (document (marker_of env print_diagnostics input));
  }

  abbrev pub IsStaged : StageInput → Disk → Type 0
  IsStaged input disk =
      directory_named (stage_name (stage_token_for env print_diagnostics input)) disk.releases
      ≡ some (finished input)

  marker-IsStaged :
      (input : StageInput) (disk : Disk)
      → Has (stage_name (stage_token_for env print_diagnostics input)) input.files disk
      → IsStaged input (
          write_into
            (stage_name (stage_token_for env print_diagnostics input))
            (write_marker (marker_of env print_diagnostics input))
            disk)
  unfolding write_into write_marker
  marker-IsStaged input disk has =
      named-with_directory _ _ _
      ∙ ap (λ d. some (write_marker (marker_of env print_diagnostics input) d)) has

  All-of_none : (files : List StagedFile) → All (λ f. IsFresh f.path []) files
  All-of_none [] = tt
  All-of_none (f ∷ fs) = (refl, All-of_none fs)

  Total-stage_new :
      (input : StageInput)
      → IsStageable input
      → Total
          (Has (stage_name (stage_token_for env print_diagnostics input)) [])
          (stage_new env print_diagnostics input)
          (λ r disk. (r ≡ stage_result env print_diagnostics input false) × IsStaged input disk)
  unfolding stage_new require_valid_marker
  Total-stage_new input able =
      let name = stage_name (stage_token_for env print_diagnostics input) in
      let has = Has name input.files in
      Total-bind (Has name []) (λ _. Has name []) _ _ _
        (Total-refuse_symlinks _ env _ able.unlinked)
        (λ u.
          Total-bind (Has name []) (λ _. has) _ _ _
            (Total-write_files name [] input.files able.files (All-of_none input.files) able.within
              able.unlinked_files)
            (λ v.
              Total-bind has (λ _. has) _ _ _ (rw able.marker (Total-pure has _ tt (λ disk h. h)))
                (λ w.
                  Total-bind has (λ _. IsStaged input) _ _ _
                    (Total-change has _ _ (λ disk. marker-IsStaged input disk))
                    (λ x.
                      Total-bind (IsStaged input) (λ _. IsStaged input) _ _ _
                        (Total-append_journal (IsStaged input) _ (λ j disk p. p))
                        (λ y. Total-pure (IsStaged input) _ _ (λ disk staged. (refl, staged)))))))

  -- Nothing was staged under the key and nothing stands where the stage is written.
  pub record IsUnstaged (input : StageInput) (disk : Disk) : Type 0 where
    pub journal : find (λ e. e.idempotency_key == input.idempotency_key) disk.journal ≡ none
    pub missing :
        directory_named (stage_name (stage_token_for env print_diagnostics input)) disk.releases
        ≡ none

  unstaged-Has :
      (input : StageInput) (disk : Disk)
      → IsUnstaged input disk
      → Has (stage_name (stage_token_for env print_diagnostics input)) [] disk
  unfolding or_empty
  unstaged-Has input disk un = ap or_empty un.missing

  Total-stage_after :
      (input : StageInput) (prior : Option JournalEntry)
      → IsStageable input
      → prior ≡ none
      → Total
          (IsUnstaged input)
          (stage_after env print_diagnostics input prior)
          (λ r disk. (r ≡ stage_result env print_diagnostics input false) × IsStaged input disk)
  unfolding stage_after
  Total-stage_after input prior able e =
      rw e
        (Total-weaken _ _ _ _ (λ disk un. unstaged-Has input disk un) (Total-stage_new input able))

  -- A staging that nothing stands against returns, and the stage then holds the files in their
  -- order and the marker that names them.
  pub stage_complete :
      (input : StageInput)
      → IsStageable input
      → Total
          (IsUnstaged input)
          (stage env print_diagnostics input)
          (λ r disk. (r ≡ stage_result env print_diagnostics input false) × IsStaged input disk)
  unfolding stage read_journal
  stage_complete input able =
      let P = IsUnstaged input in
      Total-bind P (λ _. P) _ _ _ (Total-prepare_root P env able.prepared)
        (λ u.
          Total-bind P
            (λ j disk. P disk × (find (λ e. e.idempotency_key == input.idempotency_key) j ≡ none)) _
            _ _
            (Total-after _ _ _ _
              (λ j disk q. (
                q.0,
                ap (find (λ e. e.idempotency_key == input.idempotency_key)) q.1 ∙ q.0.journal,
              ))
              (Total-gets P _))
            (λ journal. Total-fact P _ _ _ (Total-stage_after input _ able)))
