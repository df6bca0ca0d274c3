-- ===== src/Kernel/Secrets.antt =====
-- packages/publish-kernel/src/secret-redaction.js: duty 5, what looks like a credential.
pub mod Pattern
pub mod Exposure
pub mod Redaction
use Prim.Native.Char.{Char, code}
use Prim.Native.String
use Prim.Native.String.{◌++◌}
use publish.Prelude.{
  ℕ, zero, suc, ◌+◌, String, Bool, true, false, not, ◌&&◌, ◌||◌, List, [], ◌∷◌, ◌++◌ as append, eqb,
  leb, ◌==◌, if◌then◌else◌, any,
}
use publish.Json.{
  Value, Items, Fields, undefined, null, function, other, bool, num, str, arr, obj, instance_of,
  nil, cons, end, field,
}
use publish.Json.Print.{decimal}
use publish.Finding.{Finding, kernel_finding, artifact_safety_error, at_location}
use Pattern.{
  Regex, empty, one, seq, either, many, fewest, word_edge, word_edge_any_case, literal,
  literal_any_case, at_least, exactly, optional, is_match, replace_all,
}

-- The classes of the patterns.
abbrev upper : ℕ → Bool
upper n = leb 65 n && leb n 90

abbrev lower : ℕ → Bool
lower n = leb 97 n && leb n 122

abbrev decimal_digit : ℕ → Bool
decimal_digit n = leb 48 n && leb n 57

abbrev alphanumeric : ℕ → Bool
alphanumeric n = upper n || lower n || decimal_digit n

-- `[A-Za-z0-9._~+/-]`
abbrev bearer_char : ℕ → Bool
bearer_char n =
    alphanumeric n
    || eqb n b'.'
    || eqb n b'_'
    || eqb n b'~'
    || eqb n b'+'
    || eqb n b'/'
    || eqb n b'-'

-- `\s`
abbrev space : ℕ → Bool
space n =
    eqb n 32
    || eqb n 160
    || (leb 9 n && leb n 13)
    || eqb n 0x1680
    || (leb 0x2000 n && leb n 0x200a)
    || eqb n 0x2028
    || eqb n 0x2029
    || eqb n 0x202f
    || eqb n 0x205f
    || eqb n 0x3000
    || eqb n 0xfeff

-- `.`, which takes no line terminator, and `[\s\S]`.
abbrev no_newline : ℕ → Bool
no_newline n = not (eqb n 10 || eqb n 13 || eqb n 0x2028 || eqb n 0x2029)

abbrev anything : ℕ → Bool
anything n = true

-- `/-----BEGIN [A-Z ]*PRIVATE KEY-----[\s\S]*?-----END [A-Z ]*PRIVATE KEY-----/gu`
abbrev private_key : Regex
private_key = seq (literal "-----BEGIN ") (
    seq (many (one (λ n. upper n || eqb n 32))) (
      seq (literal "PRIVATE KEY-----") (
        seq (fewest (one anything)) (
          seq (literal "-----END ")
            (seq (many (one (λ n. upper n || eqb n 32))) (literal "PRIVATE KEY-----"))))))

-- `/\bAKIA[0-9A-Z]{16}\b/gu`
abbrev access_key : Regex
access_key =
    seq word_edge
      (seq (literal "AKIA") (seq (exactly 16 (one (λ n. decimal_digit n || upper n))) word_edge))

-- `/\bBearer\s+[A-Za-z0-9._~+/-]{16,}=*/gu`
abbrev bearer : Regex
bearer = seq word_edge (
    seq (literal "Bearer") (
      seq (at_least 1 (one space))
        (seq (at_least 16 (one bearer_char)) (many (one (λ n. eqb n b'='))))))

-- `/\bAuthorization:[ \t]*\S(?:.*\S)?/giu`
abbrev authorization : Regex
authorization = seq word_edge_any_case (
    seq (literal_any_case "authorization:") (
      seq (many (one (λ n. eqb n 32 || eqb n 9))) (
        seq (one (λ n. not (space n)))
          (optional (seq (many (one no_newline)) (one (λ n. not (space n))))))))

-- `/\bghp_[A-Za-z0-9]{36,}\b/gu`
abbrev github_token : Regex
github_token = seq word_edge (seq (literal "ghp_") (seq (at_least 36 (one alphanumeric)) word_edge))

-- `/\bgithub_pat_[A-Za-z0-9_]{20,}\b/gu`
abbrev github_pat : Regex
github_pat = seq word_edge (
    seq (literal "github_pat_")
      (seq (at_least 20 (one (λ n. alphanumeric n || eqb n b'_'))) word_edge))

abbrev pub credential_value_patterns : List Regex
credential_value_patterns =
    private_key ∷ access_key ∷ bearer ∷ authorization ∷ github_token ∷ github_pat ∷ []

-- `[_-]?`
abbrev joint : Regex
joint = optional (one (λ n. eqb n b'_' || eqb n b'-'))

-- `CREDENTIAL_KEY_PATTERN`
abbrev pub credential_key_pattern : Regex
credential_key_pattern = either (literal_any_case "secret") (
    either (literal_any_case "password") (
      either (literal_any_case "passwd") (
        either (literal_any_case "token") (
          either (literal_any_case "credential") (
            either (literal_any_case "apikey") (
              either (seq (literal_any_case "api") (seq joint (literal_any_case "key"))) (
                either (seq (literal_any_case "access") (seq joint (literal_any_case "key"))) (
                  either (seq (literal_any_case "private") (seq joint (literal_any_case "key")))
                    (literal_any_case "bearer")))))))))

unfoldable pub is_credential_key : String → Bool
is_credential_key key = is_match credential_key_pattern key

-- `CREDENTIAL_VALUE_PATTERNS.some(pattern => pattern.test(text))`
unfoldable pub is_credential_value : String → Bool
is_credential_value text = any (λ r. is_match r text) credential_value_patterns

unfoldable pub value_exposed : String → Finding
unfolding kernel_finding
value_exposed location =
    let place = if location == "" then "/" else location in
    kernel_finding "SECRET_EXPOSURE_DETECTED" artifact_safety_error
      ("A credential-shaped value was found at \"" ++ (place ++ "\"."))
      "Remove the credential from the artifact, intent, observation, receipt, log, command argument or exception text before retaining or transmitting it."
      (at_location place)

unfoldable pub key_exposed : String → String → Finding
unfolding kernel_finding
key_exposed key location =
    kernel_finding "SECRET_EXPOSURE_DETECTED" artifact_safety_error
      ("A credential-bearing field \""
        ++ (key ++ ("\" carries a non-empty plain-text value at \"" ++ (location ++ "\"."))))
      "Remove the credential from the artifact, intent, observation, receipt, log, command argument or exception text before retaining or transmitting it."
      (at_location location)

abbrev pub at : String → String → String
at location key = location ++ ("/" ++ key)

-- `typeof entry === 'string' && entry.length > 0`
unfoldable pub is_plain_text : Value → Bool
is_plain_text (str s) = not (s == "")
is_plain_text _ = false

-- `CREDENTIAL_KEY_PATTERN.test(key) && typeof entry === 'string' && entry.length > 0`
unfoldable pub bears_credential : String → Value → Bool
bears_credential key entry = is_credential_key key && is_plain_text entry

-- What the visitor of `findSecretExposure` pushes at a string.
unfoldable pub visit_exposure : String → String → List Finding
visit_exposure text location = if is_credential_value text then value_exposed location ∷ [] else []

-- `walk(value, location, visit)` by the findings that its visitor pushes, in their order. A value
-- under a credential-bearing key is replaced, and is not visited.
unfoldable mutual
  pub walk_exposure : Value → String → List Finding
  walk_exposure (str s) location = visit_exposure s location
  walk_exposure (arr vs) location = walk_exposure_items vs location 0
  walk_exposure (obj fs) location = walk_exposure_fields fs location
  walk_exposure (instance_of fs) location = walk_exposure_fields fs location
  walk_exposure undefined location = []
  walk_exposure null location = []
  walk_exposure function location = []
  walk_exposure other location = []
  walk_exposure (bool b) location = []
  walk_exposure (num n) location = []

  pub walk_exposure_items : Items → String → ℕ → List Finding
  walk_exposure_items nil location index = []
  walk_exposure_items (cons v vs) location index =
      append (walk_exposure v (at location (decimal index)))
        (walk_exposure_items vs location (index + 1))

  pub walk_exposure_fields : Fields → String → List Finding
  walk_exposure_fields end location = []
  walk_exposure_fields (field key entry fs) location =
      append (if bears_credential key entry then [] else walk_exposure entry (at location key))
        (walk_exposure_fields fs location)

unfoldable mutual
  pub walk_keys : Value → String → List Finding
  walk_keys (arr vs) location = walk_keys_items vs location 0
  walk_keys (obj fs) location = walk_keys_fields fs location
  walk_keys (instance_of fs) location = walk_keys_fields fs location
  walk_keys (str s) location = []
  walk_keys undefined location = []
  walk_keys null location = []
  walk_keys function location = []
  walk_keys other location = []
  walk_keys (bool b) location = []
  walk_keys (num n) location = []

  pub walk_keys_items : Items → String → ℕ → List Finding
  walk_keys_items nil location index = []
  walk_keys_items (cons v vs) location index =
      append (walk_keys v (at location (decimal index))) (walk_keys_items vs location (index + 1))

  pub walk_keys_fields : Fields → String → List Finding
  walk_keys_fields end location = []
  walk_keys_fields (field key entry fs) location =
      append
        (if bears_credential key entry
          then key_exposed key (at location key) ∷ []
          else walk_keys entry (at location key))
        (walk_keys_fields fs location)

unfoldable pub find_secret_exposure : Value → List Finding
find_secret_exposure value = append (walk_exposure value "") (walk_keys value "")

-- `REDACTION_PLACEHOLDER` of packages/adapter-protocol/src/redaction.js.
abbrev pub redacted : String
redacted = "[REDACTED]"

-- The loop of `redactString`.
unfoldable pub redact_by : List Regex → String → String
redact_by [] out = out
redact_by (pattern' ∷ patterns) out = redact_by patterns (replace_all pattern' out redacted)

unfoldable pub redact_string : String → String
redact_string text = redact_by credential_value_patterns text

-- `walk` by the clone that it returns. `Object.defineProperty` makes an own property whatever the
-- key; the clone of an object is a plain object.
unfoldable mutual
  pub redact_secrets : Value → Value
  redact_secrets (str s) = str (redact_string s)
  redact_secrets (arr vs) = arr (redact_items vs)
  redact_secrets (obj fs) = obj (redact_fields fs)
  redact_secrets (instance_of fs) = obj (redact_fields fs)
  redact_secrets undefined = undefined
  redact_secrets null = null
  redact_secrets function = function
  redact_secrets other = other
  redact_secrets (bool b) = bool b
  redact_secrets (num n) = num n

  pub redact_items : Items → Items
  redact_items nil = nil
  redact_items (cons v vs) = cons (redact_secrets v) (redact_items vs)

  pub redact_fields : Fields → Fields
  redact_fields end = end
  redact_fields (field key entry fs) =
      field key (if bears_credential key entry then str redacted else redact_secrets entry)
        (redact_fields fs)
