-- ===== src/LocalDirectory/Safety/Reachable.antt =====
-- Runs of the adapter that may stop at any durable change: an operation that fails, or a process
-- that dies, leaves one of the disks on the way.
use publish.Prelude.{
  String, Option, none, some, List, [], ◌∷◌, ◌≡◌, ◌⊎◌, inl, inr, refl, sym, subst, All,
}
use publish.Kernel.Marker.{Diagnostic}
use publish.LocalDirectory.Disk.{Disk, read_current_generation_id, stage_name}
use publish.LocalDirectory.Monad.{Run, M}
use publish.LocalDirectory.Monad.Holds.{Holds}
use publish.LocalDirectory.Monad.Keeps.{Anything}
use publish.LocalDirectory.Environment.{Environment}
use publish.LocalDirectory.Stage.{StageInput, stage, cleanup_staged, stage_token_for}
use publish.LocalDirectory.Stage.Kept.{AreInside}
use publish.LocalDirectory.Activate.{ActivateInput, activate}
use publish.LocalDirectory.Safety.{IsPlain, IsThere, IsSound, IsSegment}
use publish.LocalDirectory.Safety.Staging.{stage-IsSound, IsPlainOrNone, cleanup-IsSound}
use publish.LocalDirectory.Safety.Activation.{activate-IsSound}

abbrev pub Among : Disk → List Disk → Type 0
Among disk [] = ⊥
Among disk (d ∷ ds) = (disk ≡ d) ⊎ Among disk ds

-- The disks that a run leaves: after a durable change, or at its end.
abbrev pub Left : {A : Type 0} → Run A → Disk → Type 0
Left run disk = (disk ≡ run.last) ⊎ Among disk run.seen

-- Every operation has its own environment: the clock, the links and the root may change between
-- two of them.
module _ (print_diagnostics : List Diagnostic → String) where
  pub data Step (before after : Disk) : Type 0 where
    staging :
        (env : Environment) (input : StageInput)
        → AreInside (stage_name (stage_token_for env print_diagnostics input)) input.files
        → Left (stage env print_diagnostics input before) after
        → Step before after
    activating :
        (env : Environment) (input : ActivateInput)
        → IsSegment (stage_name input.stage_token)
        → IsPlain input.generation_id
        → Left (activate env input before) after
        → Step before after
    cleaning :
        (env : Environment) (token : String) (g : Option String)
        → IsSegment (stage_name token)
        → IsPlainOrNone g
        → Left (cleanup_staged env token g before) after
        → Step before after

  pub data Reach (start : Disk) : Disk → Type 0 where
    here : Reach start start
    next : {d e : Disk} → Reach start d → Step d e → Reach start e

  among-All : (P : Disk → Type 0) (d : Disk) (ds : List Disk) → All P ds → Among d ds → P d
  among-All P d [] h m = absurd m
  among-All P d (x ∷ xs) h (inl e) = subst P (sym e) h.0
  among-All P d (x ∷ xs) h (inr m) = among-All P d xs h.1 m

  Left-IsSound :
      {A : Type 0} (Q : A → Disk → Type 0) (m : M A) (d e : Disk)
      → Holds IsSound Anything m Q
      → IsSound d
      → Left (m d) e
      → IsSound e
  unfolding Holds
  Left-IsSound Q m d e h s (inl same) = subst IsSound (sym same) (h d s tt).1.0
  Left-IsSound Q m d e h s (inr among) = among-All IsSound e (m d).seen (h d s tt).0 among

  pub Step-IsSound : (d e : Disk) → Step d e → IsSound d → IsSound e
  Step-IsSound d e (staging env input within l) s =
      Left-IsSound _ _ d e (stage-IsSound env print_diagnostics input within) s l
  Step-IsSound d e (activating env input segment plain l) s =
      Left-IsSound _ _ d e (activate-IsSound env input segment plain) s l
  Step-IsSound d e (cleaning env token g segment plain l) s =
      Left-IsSound _ _ d e (cleanup-IsSound env token g segment plain) s l

  Reach-IsSound : {d e : Disk} → IsSound d → Reach d e → IsSound e
  Reach-IsSound s here = s
  Reach-IsSound s (next {d} {e} r st) = Step-IsSound d e st (Reach-IsSound s r)

  -- The pointer leads to no generation, or to a directory that is there and that is no stage.
  abbrev pub Serves : Disk → Option String → Type 0
  Serves disk none = Unit
  Serves disk (some g) = IsPlain g × IsThere g disk

  sound-Serves :
      (disk : Disk) (observed : Option String)
      → read_current_generation_id disk ≡ observed
      → IsSound disk
      → Serves disk observed
  sound-Serves disk none at s = tt
  sound-Serves disk (some g) at s = s.serving g at

  -- From a sound disk, however many stagings of files that lead below their stage, activations of
  -- plain generations and cleanups of stages were started, and at whichever durable change each of
  -- them stopped, the pointer leads to no generation or to the directory of a release, which is
  -- there and is no stage.
  pub Reach-Serves : (d e : Disk) → IsSound d → Reach d e → Serves e (read_current_generation_id e)
  Reach-Serves d e s r = sound-Serves e _ refl (Reach-IsSound s r)
