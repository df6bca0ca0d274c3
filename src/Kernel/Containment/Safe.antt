-- ===== src/Kernel/Containment/Safe.antt =====
-- Which paths break no rule, and where such a path leads.
use mathlib.Core.List.{reverse, reverse-cons, append-nil, append_assoc}
use publish.Prelude.{
  ◌∙◌, String, Bool, true, false, not, ◌||◌, Option, none, some, List, [], ◌∷◌, ◌++◌, ◌≡◌, ◌≢◌, ◌↔◌,
  refl, arith, eq_iff, any, All, ◌==◌, if◌then◌else◌, Bool-cases, inl, inr, ap,
}
use publish.Kernel.Containment.{
  Violation, push_if, has, is_dots, is_dot_or_empty, reserved_stems, reserved_segments, stem_of,
  reserved_violations, check_path_syntax, includes, begins_with, segments_of, split_slash,
}
use publish.Kernel.Containment.Segments.{absolute-empty}

push_if-nil :
    (t : Bool) (v : Violation) (rest : List Violation)
    → (push_if t v rest ≡ []) ↔ ((t ≡ false) × (rest ≡ []))
unfolding push_if
push_if-nil true v rest = ((λ h. cc), (λ h. cc (h.0)))
push_if-nil false v rest = ((λ h. (refl, h)), (λ h. h.1))

-- The two tests of a segment, as inequations.
plain_iff :
    (s : String)
    → ((is_dots s ≡ false) × (is_dot_or_empty s ≡ false)) ↔ ((s ≢ "") × (s ≢ ".") × (s ≢ ".."))
unfolding is_dots is_dot_or_empty
plain_iff s = (
  (λ h. ground (arith, eq_iff s "", eq_iff s ".", eq_iff s "..")),
  (λ h. ground (arith, eq_iff s "", eq_iff s ".", eq_iff s "..")),
)

or-false : (b c : Bool) → ((b || c) ≡ false) ↔ ((b ≡ false) × (c ≡ false))
or-false b c = ground arith

module _ (to_lower_case normalize_nfc : String → String) where
  -- A segment that names neither a directory step nor a reserved name.
  pub record IsSafeSegment (segment : String) : Type 0 where
    pub not_empty : segment ≢ ""
    pub not_dot : segment ≢ "."
    pub not_dots : segment ≢ ".."
    pub stem_free : has reserved_stems (to_lower_case (stem_of segment)) ≡ false
    pub target_free : has reserved_segments segment ≡ false

  pub record IsSafePath (path : String) : Type 0 where
    pub nfc : normalize_nfc path ≡ path
    pub no_backslash : includes 92 path ≡ false
    pub no_nul : includes 0 path ≡ false
    pub segments : All IsSafeSegment (segments_of path)

  safe_segments :
      (ss : List String)
      → any is_dots ss ≡ false
      → any is_dot_or_empty ss ≡ false
      → reserved_violations to_lower_case normalize_nfc ss ≡ []
      → All IsSafeSegment ss
  unfolding reserved_violations
  safe_segments [] h k r = tt
  safe_segments (s ∷ ss) h k r =
      let (dots, hs) = (or-false _ _).0 h in
      let (dot, ks) = (or-false _ _).0 k in
      let (stem, r') = (push_if-nil _ _ _).0 r in
      let (target, rs) = (push_if-nil _ _ _).0 r' in
      let (not_empty, not_dot, not_dots) = (plain_iff s).0 (dots, dot) in
      (
        record {
          not_empty = not_empty;
          not_dot = not_dot;
          not_dots = not_dots;
          stem_free = stem;
          target_free = target;
        },
        safe_segments ss hs ks rs,
      )

  safe_segments_of :
      (ss : List String)
      → All IsSafeSegment ss
      → (any is_dots ss ≡ false)
        × (any is_dot_or_empty ss ≡ false)
        × (reserved_violations to_lower_case normalize_nfc ss ≡ [])
  unfolding reserved_violations
  safe_segments_of [] h = (refl, refl, refl)
  safe_segments_of (s ∷ ss) (h, hs) =
      let (dots, dot) = (plain_iff s).1 (h.not_empty, h.not_dot, h.not_dots) in
      let (ds, es, rs) = safe_segments_of ss hs in
      (
        (or-false _ _).1 (dots, ds),
        (or-false _ _).1 (dot, es),
        (push_if-nil _ _ _).1 (h.stem_free, (push_if-nil _ _ _).1 (h.target_free, rs)),
      )

  -- An empty path has an empty segment.
  empty_segment : any is_dot_or_empty (segments_of "") ≡ true
  unfolding segments_of split_slash is_dot_or_empty
  empty_segment = refl

  safe_path :
      (path : String) → check_path_syntax to_lower_case normalize_nfc path ≡ [] → IsSafePath path
  unfolding check_path_syntax
  safe_path path h = elim (Bool-cases (path == "")) [
    | inl none' ↦ absurd (ground arith)
    | inr given ↦
        let (absolute, a) = (push_if-nil _ _ _).0 (rw given at h) in
        let (backslash, b) = (push_if-nil _ _ _).0 a in
        let (nul, c) = (push_if-nil _ _ _).0 b in
        let (dots, d) = (push_if-nil _ _ _).0 c in
        let (dot, e) = (push_if-nil _ _ _).0 d in
        let (nfc, r) = (push_if-nil _ _ _).0 e in
        record {
          nfc = ground (arith, eq_iff (normalize_nfc path) path);
          no_backslash = backslash;
          no_nul = nul;
          segments = safe_segments (segments_of path) dots dot r;
        }
  ]

  safe_path_of :
      (path : String) → IsSafePath path → check_path_syntax to_lower_case normalize_nfc path ≡ []
  unfolding check_path_syntax
  safe_path_of path h =
      let (dots, dot, r) = safe_segments_of (segments_of path) h.segments in
      let given : (path == "") ≡ false = elim (Bool-cases (path == "")) [
        | inl none' ↦
            let e : path ≡ "" = (eq_iff _ _).0 none' in
            cc (ap (λ p. any is_dot_or_empty (segments_of p)) e, empty_segment)
        | inr given ↦ given
      ] in
      let relative : begins_with b'/' path ≡ false = elim (Bool-cases (begins_with b'/' path)) [
        | inl absolute ↦ cc (absolute-empty path absolute)
        | inr relative ↦ relative
      ] in
      let nfc : not (normalize_nfc path == path) ≡ false =
        rw ((eq_iff (normalize_nfc path) path).1 h.nfc) in
      rw given (
        (push_if-nil _ _ _).1 (
          relative,
          (push_if-nil _ _ _).1 (
            h.no_backslash,
            (push_if-nil _ _ _).1 (
              h.no_nul,
              (push_if-nil _ _ _).1
                  (dots, (push_if-nil _ _ _).1 (dot, (push_if-nil _ _ _).1 (nfc, r))),
            ),
          ),
        ))

  -- A path breaks no rule exactly when it is in normal form C, holds no backslash and no NUL, and
  -- each of its segments is not empty, not "." and not "..", and has no reserved name. So it is
  -- not empty and not absolute.
  pub safe_iff :
      (path : String) → (check_path_syntax to_lower_case normalize_nfc path ≡ []) ↔ IsSafePath path
  safe_iff path = (safe_path path, safe_path_of path)

abbrev parent : List String → Option (List String)
parent [] = none
parent (name ∷ below) = some below

-- One step of a file system below a directory, the deepest name first; `none` leaves it.
unfoldable pub step : List String → String → Option (List String)
step below segment =
    if is_dot_or_empty segment
    then some below
    else if is_dots segment
    then parent below
    else some (segment ∷ below)

unfoldable pub walk : List String → List String → Option (List String)
walk below [] = some (reverse below)
walk below (segment ∷ segments) = elim (step below segment) [
  | none ↦ none
  | some next ↦ walk next segments
]

step-safe :
    (below : List String) (s : String)
    → is_dots s ≡ false
    → is_dot_or_empty s ≡ false
    → step below s ≡ some (s ∷ below)
unfolding step
step-safe below s dots dot = rw (dot, dots)

walk-safe :
    (to_lower_case normalize_nfc : String → String) (below segments : List String)
    → All (IsSafeSegment to_lower_case normalize_nfc) segments
    → walk below segments ≡ some (reverse below ++ segments)
unfolding walk
walk-safe lower nfc below [] h = rw append-nil
walk-safe lower nfc below (s ∷ ss) (h, hs) =
    let (dots, dot) = (plain_iff s).1 (h.not_empty, h.not_dot, h.not_dots) in
    rw (step-safe below s dots dot, walk)
      (walk-safe lower nfc (s ∷ below) ss hs ∙ simp (reverse-cons, append_assoc))

-- A path that breaks no rule leads, from any directory, to the place below that directory which
-- its segments name.
pub contained :
    (to_lower_case normalize_nfc : String → String) (path : String)
    → check_path_syntax to_lower_case normalize_nfc path ≡ []
    → walk [] (segments_of path) ≡ some (segments_of path)
contained lower nfc path h =
    walk-safe lower nfc [] (segments_of path) ((safe_iff lower nfc path).0 h).segments
