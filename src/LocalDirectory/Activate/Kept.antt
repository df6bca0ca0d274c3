-- ===== src/LocalDirectory/Activate/Kept.antt =====
-- The parts of `activate` that only read keep whatever holds of the disk.
use publish.Prelude.{String, Option, none, some, ◌==◌}
use publish.Json.{Value, undefined, null}
use publish.LocalDirectory.Disk.{Disk, MarkerFile, document, raw}
use publish.LocalDirectory.Monad.{AdapterError, M, pure, thrown, gets, required, type_error, ◌>>=◌}
use publish.LocalDirectory.Monad.Holds.{
  Holds, Holds-bind, Holds-pure, Holds-throw, Holds-gets, Holds-required, Holds-if, Holds-after,
}
use publish.LocalDirectory.Environment.{Environment}
use publish.LocalDirectory.Environment.Quiet.{Holds-digest_of_entries}
use publish.LocalDirectory.Activate.{
  inject, marker_digest, parse_marker, compare_stage, check_stage_integrity, read_marker_digest,
}

module _ (I P : Disk → Type 0) where
  -- An operation that changes nothing that `P` says.
  abbrev pub Leaves : {A : Type 0} → M A → Type 0
  Leaves m = Holds I P m (λ _. P)

  pub Leaves-bind :
      {A B : Type 0} (m : M A) (f : A → M B)
      → Leaves m
      → ((a : A) → Leaves (f a))
      → Leaves (m >>= f)
  Leaves-bind m f h k = Holds-bind I P (λ _. P) (λ _. P) m f h k

  pub Leaves-pure : {A : Type 0} (a : A) → Leaves (pure a)
  Leaves-pure a = Holds-pure I P (λ _. P) a (λ disk i p. p)

  pub Leaves-gets : {A : Type 0} (f : Disk → A) → Leaves (gets f)
  Leaves-gets f = Holds-after I P _ (λ _. P) _ (λ a disk i q. q.0) (Holds-gets I P f)

  pub Leaves-required : {A : Type 0} (e : AdapterError) (o : Option A) → Leaves (required e o)
  Leaves-required e o = Holds-after I P _ (λ _. P) _ (λ a disk i q. q.0) (Holds-required I P e o)

  pub Leaves-inject : (e : Option AdapterError) → Leaves (inject e)
  unfolding inject
  Leaves-inject none = Leaves-pure tt
  Leaves-inject (some e) = Holds-throw I P _ e

  Leaves-marker_digest : (v : Value) → Leaves (marker_digest v)
  unfolding marker_digest
  Leaves-marker_digest null = Holds-throw I P _ type_error
  Leaves-marker_digest undefined = Holds-throw I P _ type_error
  Leaves-marker_digest v = Leaves-pure _

  module _ (env : Environment) where
    Leaves-parse_marker : (file : MarkerFile) → Leaves (parse_marker env file)
    unfolding parse_marker
    Leaves-parse_marker (document v) = Leaves-pure v
    Leaves-parse_marker (raw bytes) = Leaves-required _ _

    pub Leaves-read_marker_digest : (g : String) → Leaves (read_marker_digest env g)
    unfolding read_marker_digest
    Leaves-read_marker_digest g = Leaves-bind _ _ (Leaves-gets _) (λ found.
        Leaves-bind _ _ (Leaves-required _ found) (λ d.
          Leaves-bind _ _ (Leaves-required _ d.marker)
            (λ file. Leaves-bind _ _ (Leaves-parse_marker file) Leaves-marker_digest)))

    Leaves-compare_stage : (staged expected : String) → Leaves (compare_stage env staged expected)
    unfolding compare_stage
    Leaves-compare_stage staged expected =
        Holds-if I P (λ _. P) (staged == expected) _ _ (λ e. Leaves-pure _)
          (λ e. Holds-throw I P _ (thrown _))

    pub Leaves-check_stage_integrity :
        (name : String) (expected : Option String)
        → Leaves (check_stage_integrity env name expected)
    unfolding check_stage_integrity
    Leaves-check_stage_integrity name none = Leaves-pure tt
    Leaves-check_stage_integrity name (some expected) = Leaves-bind _ _ (Leaves-gets _) (λ found.
        Leaves-bind _ _ (Leaves-required _ found) (λ d.
          Leaves-bind _ _ (Holds-digest_of_entries I P env _)
            (λ staged. Leaves-compare_stage staged expected)))
