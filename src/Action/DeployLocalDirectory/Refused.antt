-- ===== src/Action/DeployLocalDirectory/Refused.antt =====
-- A deployment of a path that the kernel does not admit.
use publish.Prelude.{String, List, All, ◌≡◌}
use publish.Kernel.Marker.{Diagnostic}
use publish.Kernel.Containment.Collisions.{IsSafeEntry}
use publish.LocalDirectory.Disk.{Disk}
use publish.LocalDirectory.Monad.Holds.{Holds}
use publish.LocalDirectory.Environment.{Environment}
use publish.LocalDirectory.Activate.{reconcile_it}
use publish.Action.DeployLocalDirectory.{DeployInput, DeployResult, path_entries}

module _ (env : Environment) (print_diagnostics : List Diagnostic → String)
    (adapter_version : String) (to_lower_case : String → String) (input : DeployInput)
    (unsafe : All (IsSafeEntry to_lower_case env.normalize_nfc) (path_entries input.files)
      → ⊥) where
  abbrev IsRefused : DeployResult → Disk → Type 0
  IsRefused r disk = r.decision ≡ reconcile_it
