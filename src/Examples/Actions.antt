-- ===== src/Examples/Actions.antt =====
-- Exit codes and generated identities at concrete inputs.
use publish.Prelude.{true, false, List, [], ◌∷◌, ◌≡◌, refl}
use publish.Finding.{warning}
use publish.Protocol.StableId.{is_stable_id}
use publish.Protocol.Uuid.{generate_uuid_v7}
use publish.Protocol.Uuid.Stable.{generate-is_stable_id}
use publish.Action.Outcome.{ActionFinding, any_blocking, is_blocking}

abbrev warned_run : List ActionFinding
warned_run = record { code = "TITLE_LONG"; severity = warning; detail = "A title is long." } ∷ []

warned-unblocked : any_blocking warned_run ≡ false
unfolding any_blocking is_blocking
warned-unblocked = refl

generate-is_stable_id_example :
    is_stable_id (generate_uuid_v7 1767225600000 (1 ∷ 2 ∷ 3 ∷ 4 ∷ 5 ∷ 6 ∷ 7 ∷ 8 ∷ 9 ∷ 10 ∷ []))
    ≡ true
generate-is_stable_id_example =
    generate-is_stable_id 1767225600000 (1 ∷ 2 ∷ 3 ∷ 4 ∷ 5 ∷ 6 ∷ 7 ∷ 8 ∷ 9 ∷ 10 ∷ [])
