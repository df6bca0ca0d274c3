-- ===== src/Protocol/Loader/Admission.antt =====
-- What is loaded.
use Prim.Native.String.append
use Prim.Native.String.{◌++◌}
use publish.Prelude.{◌⊎◌, ap, ◌∙◌, String, true, ◌≡◌, arith}
use publish.Protocol.Loader.{starts_with}

pub starts-append : (prefix text : String) → starts_with prefix (prefix ++ text) ≡ true
unfolding starts_with
starts-append String.[] text = ap (starts_with String.[]) (append.nil text)
starts-append (String.◌∷◌ c prefix) text =
    ap (starts_with (String.◌∷◌ c prefix)) (append.cons c prefix text)
    ∙ (let rest = starts-append prefix text in ground (arith, rest))

-- One of the three packages, or what begins with `file:`.
abbrev pub IsAdmitted : String → Type 0
IsAdmitted specifier =
    (specifier ≡ "@rathnasgala2/adapter-local-directory")
    ⊎ ((specifier ≡ "@rathnasgala2/adapter-github-pages")
        ⊎ ((specifier ≡ "@rathnasgala2/adapter-do-spaces")
            ⊎ ((rest : String) × (specifier ≡ "file:" ++ rest))))
