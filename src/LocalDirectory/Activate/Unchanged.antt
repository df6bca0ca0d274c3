-- ===== src/LocalDirectory/Activate/Unchanged.antt =====
-- Runs that change nothing.
use publish.Prelude.{[], ◌≡◌, refl, Result, ok}
use publish.LocalDirectory.Disk.{Disk}
use publish.LocalDirectory.Monad.{AdapterError, Run, pure, when_ok, ◌>>=◌}
use publish.LocalDirectory.Environment.{Environment, prepare_root}
use publish.LocalDirectory.Environment.Prepared.{IsPrepared}

-- A run that changes nothing on its way.
abbrev pub unchanged : {A : Type 0} → Disk → Result AdapterError A → Run A
unchanged disk r = record { seen = []; last = disk; result = r }

pub prepared-unchanged :
    (env : Environment) (disk : Disk)
    → IsPrepared env
    → prepare_root env disk ≡ unchanged disk (ok tt)
unfolding prepare_root ◌>>=◌ when_ok pure
prepared-unchanged env disk p = rw p.ready (rw p.made refl)
