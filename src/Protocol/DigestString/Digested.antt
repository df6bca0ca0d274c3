-- ===== src/Protocol/DigestString/Digested.antt =====
-- What the digest functions return has the syntax of a digest.
use Prim.Native.String.{◌++◌}
use publish.Prelude.{after_prefix-append, String, true, ◌≡◌, sym, Result, ok, err, arith}
use publish.Json.{Value, str}
use publish.Protocol.StableId.{matches}
use publish.Protocol.Digest.{NotCanonical, domain_digest, digest_of_text, canonicalize_json}
use publish.Protocol.DigestString.{digest_pattern, fits_digest, is_digest_string}

prefixed-is_digest_string :
    (rest : String)
    → matches digest_pattern rest ≡ true
    → is_digest_string (str ("sha256:" ++ rest)) ≡ true
unfolding is_digest_string fits_digest
prefixed-is_digest_string rest h = rw (after_prefix-append "sha256:" rest) h

of_text-is_digest_string :
    (sha256 : String → String)
    → (domain_separator : String) → (canonical : Result NotCanonical String) → (digest : String)
    → ((s : String) → matches digest_pattern (sha256 s) ≡ true)
    → digest_of_text sha256 domain_separator canonical ≡ ok digest
    → is_digest_string (str digest) ≡ true
unfolding digest_of_text
of_text-is_digest_string sha256 domain_separator (ok t) digest hexadecimal h =
    let e : "sha256:" ++ sha256 (domain_separator ++ t) ≡ digest = ground (arith, h) in
    rw (sym e) (prefixed-is_digest_string (sha256 (domain_separator ++ t)) (hexadecimal _))
of_text-is_digest_string sha256 domain_separator (err e) digest hexadecimal h =
    absurd (ground (arith, h))

-- Where SHA-256 gives 64 lowercase hexadecimal digits, every digest that domainDigest returns is
-- a digest string.
pub domain_digest-is_digest_string :
    (sha256 : String → String)
    → (domain_separator : String) → (value : Value) → (digest : String)
    → ((s : String) → matches digest_pattern (sha256 s) ≡ true)
    → domain_digest sha256 domain_separator value ≡ ok digest
    → is_digest_string (str digest) ≡ true
unfolding domain_digest
domain_digest-is_digest_string sha256 domain_separator value digest hexadecimal h =
    of_text-is_digest_string sha256 domain_separator (canonicalize_json value) digest hexadecimal h
