-- ===== src/LocalDirectory/FsSafety.antt =====
-- packages/adapter-local-directory/src/fs-safety.js: the checks of paths. `lstat` is what the file
-- system says of a path below the root, given by its segments, and of the root for no segment;
-- `none` where the call fails.
pub mod Removable
use Prim.Native.Char.{code}
use Prim.Native.String
use Prim.Native.String.{◌++◌}
use publish.Prelude.{
  ℕ, ◌+◌, String, Bool, true, false, not, ◌||◌, Option, none, some, List, [], ◌∷◌, any, filter, ltb,
  drop_last, snoc, ◌==◌, if◌then◌else◌, Result, ok, err, ◌>>=◌, ◌/◌, ◌%◌, eqb,
}
use publish.Json.Print.{quoted}
use publish.Kernel.Containment.{segments_of, includes, begins_with}
use publish.Kernel.Containment.Segments.{join_slash}

pub record FsError : Type 0 where
  pub code : String
  pub message : String

pub data NodeKind : Type 0 where
  directory file symlink other_node : NodeKind

abbrev pub Lstat : Type 0
Lstat = List String → Option NodeKind

-- `path.join(cursor, segment)` for a cursor below the root: `none` where it leaves the root.
unfoldable pub parent : List String → Option (List String)
parent [] = none
parent (s ∷ ss) = some (drop_last (s ∷ ss))

unfoldable pub join_segment : List String → String → Option (List String)
join_segment cursor segment =
    if segment == "."
    then some cursor
    else if segment == ".."
    then parent cursor
    else some (snoc cursor segment)

-- The absolute path of a cursor, for a message.
unfoldable pub absolute : String → List String → String
absolute root [] = root
absolute root (s ∷ ss) = root ++ ("/" ++ join_slash (s ∷ ss))

-- `path.join(root, '..')`
unfoldable pub above : String → String
above root = let up = join_slash (drop_last (segments_of root)) in if up == "" then "/" else up

unfoldable pub path_escapes : String → FsError
path_escapes root = record {
  code = "PATH_ESCAPES_ROOT";
  message =
      "Resolved path " ++ (quoted (above root) ++ (" escapes publicationRoot " ++ quoted root));
}

unfoldable pub symlink_escape : String → List String → FsError
symlink_escape root cursor = record {
  code = "SYMLINK_ESCAPE_DETECTED";
  message = "Refusing to traverse or replace symlink at " ++ quoted (absolute root cursor);
}

-- The loop over the segments; a component that is missing ends it.
module _ (lstat : Lstat) (root : String) where
  unfoldable pub at_node :
      Option NodeKind → List String → Result FsError (Unit {0}) → Result FsError (Unit {0})
  at_node none cursor rest = ok tt
  at_node (some symlink) cursor rest = err (symlink_escape root cursor)
  at_node (some kind) cursor rest = rest

  unfoldable pub walk_segments : List String → List String → Result FsError (Unit {0})
  walk_segments cursor [] = ok tt
  walk_segments cursor (segment ∷ segments) = elim (join_segment cursor segment) [
    | none ↦ err (path_escapes root)
    | some next ↦ at_node (lstat next) next (walk_segments next segments)
  ]

  -- The path is given by its segments, the empty ones among them.
  unfoldable pub assert_no_escaping_symlink : List String → Result FsError (Unit {0})
  assert_no_escaping_symlink path = walk_segments [] (filter (λ s. not (s == "")) path)

unfoldable pub root_invalid : String → FsError
root_invalid message = record { code = "ROOT_INVALID"; message = message }

-- The bytes of a character in UTF-8, and `Buffer.byteLength(text, 'utf8')`.
unfoldable pub utf8_size : ℕ → ℕ
utf8_size n = if ltb n 0x80 then 1 else if ltb n 0x800 then 2 else if ltb n 0x10000 then 3 else 4

unfoldable pub byte_length : String → ℕ
byte_length String.[] = 0
byte_length (String.◌∷◌ c s) = utf8_size (code c) + byte_length s

-- `text.endsWith('/')`
unfoldable pub ends_with_slash : String → Bool
ends_with_slash String.[] = false
ends_with_slash (String.◌∷◌ c String.[]) = begins_with 47 (String.◌∷◌ c String.[])
ends_with_slash (String.◌∷◌ c (String.◌∷◌ d s)) = ends_with_slash (String.◌∷◌ d s)

unfoldable pub dotted : String → Bool
dotted segment = segment == "." || segment == ".."

unfoldable pub check_root_node : String → Option NodeKind → Result FsError String
check_root_node root none = err (record {
  code = "ROOT_MISSING";
  message = "publicationRoot " ++ (quoted root ++ " does not exist");
})
check_root_node root (some directory) = ok root
check_root_node root (some kind) = err (record {
  code = "ROOT_NOT_DIRECTORY";
  message = "publicationRoot " ++ (quoted root ++ " is not a directory (or is a symlink to one)");
})

unfoldable pub assert_valid_root : (String → String) → Lstat → String → Result FsError String
assert_valid_root normalize_nfc lstat root =
    if root == ""
    then err (root_invalid "publicationRoot must be a non-empty string")
    else if not (begins_with 47 root) || root == "/"
    then err (root_invalid "publicationRoot must be an absolute path other than \"/\"")
    else if includes 0 root || ends_with_slash root || not (root == normalize_nfc root)
    then err
        (root_invalid "publicationRoot must be NUL-free, non-trailing-slash and NFC-normalized")
    else if ltb 4096 (byte_length root)
    then err (root_invalid "publicationRoot must be at most 4096 UTF-8 bytes")
    else if any dotted (filter (λ s. not (s == "")) (segments_of root))
    then err (root_invalid "publicationRoot must contain no \".\" or \"..\" component")
    else check_root_node root (lstat [])

unfoldable pub delete_refused : String → FsError
delete_refused message = record { code = "DELETE_OUTSIDE_ROOT_REFUSED"; message = message }

-- `path.resolve` of segments below the root: `none` where it leaves the root on the way.
unfoldable pub resolve_from : List String → List String → Option (List String)
resolve_from cursor [] = some cursor
resolve_from cursor (segment ∷ segments) = elim (join_segment cursor segment) [
  | none ↦ none
  | some next ↦ resolve_from next segments
]

-- `ensureSafeNode` for a directory. `mode` is the mode of a node; the directory is made where it is
-- missing, empty, which changes nothing of what the disk holds.
unfoldable pub is_shared_mode : ℕ → Bool
is_shared_mode mode = eqb ((mode / 16) % 2) 1 || eqb ((mode / 2) % 2) 1

unfoldable pub node_unsafe : String → String → FsError
node_unsafe path what = record {
  code = "CONTROL_NODE_UNSAFE";
  message = "Existing node at " ++ (quoted path ++ what);
}

unfoldable pub ensure_safe_directory :
    String → List String → ℕ → Option NodeKind → Result FsError (Unit {0})
ensure_safe_directory root path mode none = ok tt
ensure_safe_directory root path mode (some directory) =
    if is_shared_mode mode
    then err (node_unsafe (absolute root path) " is group- or other-writable")
    else ok tt
ensure_safe_directory root path mode (some kind) =
    err (node_unsafe (absolute root path) " is not a directory")

unfoldable pub bootstrap : Lstat → (List String → ℕ) → String → Result FsError (Unit {0})
bootstrap lstat mode root =
    ensure_safe_directory root ("releases" ∷ []) (mode ("releases" ∷ [])) (lstat ("releases" ∷ []))
    >>= λ _.
        ensure_safe_directory root (".gala-local-v2" ∷ []) (mode (".gala-local-v2" ∷ []))
          (lstat (".gala-local-v2" ∷ []))

-- The test of `removeContainedTree`, for a target given by its segments below the root.
unfoldable pub check_removal :
    String → List String → Option (List String) → Result FsError (Unit {0})
check_removal root target none = err (
    delete_refused (
      "Refusing to delete "
      ++ (quoted (absolute root target)
          ++ (": outside declared destination root " ++ quoted root))))
check_removal root target (some []) =
    err (delete_refused "Refusing to delete the publication root itself")
check_removal root target (some (s ∷ ss)) = ok tt

unfoldable pub assert_removable : String → List String → Result FsError (Unit {0})
assert_removable root target =
    check_removal root target (resolve_from [] (filter (λ s. not (s == "")) target))
