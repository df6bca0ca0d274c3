-- ===== src/Protocol/Loader.antt =====
-- packages/adapter-protocol/src/loader.js: loading an adapter module. `import_module` is the
-- runtime's `import()`, a parameter: the exports of the module, or nothing where it rejects.
pub mod Admission
use Prim.Native.Char.{code}
use Prim.Native.String
use Prim.Native.String.{◌++◌}
use publish.Prelude.{
  String, Bool, true, false, ◌||◌, ◌&&◌, Option, none, some, List, [], ◌∷◌, any, eqb, ◌==◌, Result,
  ok, err, if◌then◌else◌,
}
use publish.Json.{Fields}
use publish.Json.Print.{quoted}
use publish.Finding.{source_error}
use publish.Protocol.Errors.{AdapterProtocolError, finding, no_extra}
use publish.Protocol.Lifecycle.{define_adapter}

abbrev pub admitted_bare_specifiers : List String
admitted_bare_specifiers =
    "@rathnasgala2/adapter-local-directory" ∷ "@rathnasgala2/adapter-github-pages"
    ∷ "@rathnasgala2/adapter-do-spaces" ∷ []

-- `text.startsWith(prefix)`
unfoldable pub starts_with : String → String → Bool
starts_with String.[] text = true
starts_with (String.◌∷◌ c prefix) String.[] = false
starts_with (String.◌∷◌ c prefix) (String.◌∷◌ d text) =
    eqb (code c) (code d) && starts_with prefix text

unfoldable pub is_admitted_specifier : String → Bool
is_admitted_specifier specifier =
    any (λ s. s == specifier) admitted_bare_specifiers || starts_with "file:" specifier

unfoldable pub not_admitted : String → AdapterProtocolError
not_admitted specifier = record {
  message = "loadAdapterModule refuses an unadmitted specifier: " ++ quoted specifier;
  findings =
      finding "ADAPTER_SPECIFIER_NOT_ADMITTED" source_error
        (quoted specifier
          ++ " is not one of the three admitted adapter package specifiers and is not a file: URL")
        no_extra
      ∷ [];
}

pub data LoadError : Type 0 where
  refused : AdapterProtocolError → LoadError
  import_rejected : LoadError

unfoldable pub defined : Result AdapterProtocolError Fields → Result LoadError Fields
defined (ok lifecycle) = ok lifecycle
defined (err e) = err (refused e)

unfoldable pub after_import : Option Fields → Result LoadError Fields
after_import none = err import_rejected
after_import (some module_namespace) = defined (define_adapter module_namespace)

unfoldable pub load_adapter_module : (String → Option Fields) → String → Result LoadError Fields
load_adapter_module import_module specifier =
    if is_admitted_specifier specifier
    then after_import (import_module specifier)
    else err (refused (not_admitted specifier))
