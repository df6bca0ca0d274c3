-- ===== src/Protocol/DigestString.antt =====
-- packages/adapter-protocol/src/digest.js: the syntax of a digest.
pub mod Digested
use publish.Prelude.{after_prefix, String, Bool, true, false, List, [], Option, none, some}
use publish.Json.{Value, str}
use publish.Protocol.StableId.{Class, hex, times, matches}

-- `[0-9a-f]{64}`
abbrev pub digest_pattern : List Class
digest_pattern = times 64 hex []

unfoldable pub fits_digest : Option String → Bool
fits_digest none = false
fits_digest (some rest) = matches digest_pattern rest

unfoldable pub is_digest_string : Value → Bool
is_digest_string (str s) = fits_digest (after_prefix "sha256:" s)
is_digest_string _ = false
