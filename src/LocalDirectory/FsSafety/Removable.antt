-- ===== src/LocalDirectory/FsSafety/Removable.antt =====
-- A name of one segment may be removed below `releases`.
use Prim.Native.Char.{code}
use publish.Prelude.{
  String, Bool, false, some, [], ◌∷◌, ◌≡◌, refl, arith, ◌==◌, if◌then◌else◌, ok, eqb,
}
use publish.Kernel.Containment.{segments_of, split_slash, includes}
use publish.LocalDirectory.Disk.{Target, target_of, entry, all_releases, elsewhere}
use publish.LocalDirectory.FsSafety.{assert_removable, check_removal, resolve_from, join_segment}

whole-split : (s : String) → includes 47 s ≡ false → split_slash s ≡ (s, [])
unfolding split_slash includes
whole-split String.[] h = refl
whole-split (String.◌∷◌ c s) h =
    let further : includes 47 s ≡ false = ground arith in
    let here : eqb (code c) 47 ≡ false = ground arith in rw here (rw (whole-split s further) refl)

pub whole-segments_of : (s : String) → includes 47 s ≡ false → segments_of s ≡ s ∷ []
unfolding segments_of
whole-segments_of s h = rw (whole-split s h) refl

joined :
    (name : String)
    → (name == ".") ≡ false
    → (name == "..") ≡ false
    → join_segment ("releases" ∷ []) name ≡ some ("releases" ∷ name ∷ [])
unfolding join_segment
joined name one two = rw one (rw two refl)

first_joined : join_segment [] "releases" ≡ some ("releases" ∷ [])
unfolding join_segment
first_joined = refl

resolved :
    (root name : String)
    → (name == ".") ≡ false
    → (name == "..") ≡ false
    → check_removal root ("releases" ∷ name ∷ []) (resolve_from [] ("releases" ∷ name ∷ [])) ≡ ok tt
unfolding check_removal resolve_from
resolved root name one two =
    let next = joined name one two in
    rw (first_joined, check_removal) (rw (next, check_removal) refl)

pub segment-assert_removable :
    (root name : String)
    → (name == "") ≡ false
    → (name == ".") ≡ false
    → (name == "..") ≡ false
    → includes 47 name ≡ false
    → assert_removable root ("releases" ∷ segments_of name) ≡ ok tt
unfolding assert_removable
segment-assert_removable root name some_name one two whole =
    rw (whole-segments_of name whole) (rw some_name (resolved root name one two))

-- What `target_of` says of a name that is one segment.
pub record IsOneSegment (name : String) : Type 0 where
  pub some_name : (name == "") ≡ false
  pub one_dot : (name == ".") ≡ false
  pub two_dots : (name == "..") ≡ false
  pub whole : includes 47 name ≡ false

sorted_out :
    (a b c d : Bool) (t : Target) (name : String)
    → (if a
        then all_releases
        else if b
        then all_releases
        else if c
        then elsewhere
        else if d
        then t
        else entry name)
      ≡ entry name
    → d ≡ false
    → (a ≡ false) × ((b ≡ false) × ((c ≡ false) × (d ≡ false)))
sorted_out a b c d t name h e = (ground arith, (ground arith, (ground arith, ground arith)))

pub entry-IsOneSegment :
    (name : String) → target_of name ≡ entry name → includes 47 name ≡ false → IsOneSegment name
unfolding target_of
entry-IsOneSegment name h flat =
    let (a, (b, (c, d))) =
      sorted_out (name == "") (name == ".") (name == "..") (includes 47 name) _ name h flat in
    record { some_name = a; one_dot = b; two_dots = c; whole = d }
