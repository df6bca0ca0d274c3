-- ===== src/LocalDirectory/Monad.antt =====
-- Running an operation of the adapter on the disk: the disks after each durable change, the last
-- disk, and what is returned or thrown. A change that was made before an error stays.
pub mod Holds
pub mod Keeps
pub mod Total
use publish.Prelude.{
  String, Bool, true, false, Option, none, some, List, [], ◌∷◌, ◌++◌, Result, ok, err,
}
use publish.Kernel.BoundedResources.BigInt.{BigIntError}
use publish.Protocol.Errors.{AdapterProtocolError}
use publish.LocalDirectory.FsSafety.{FsError}
use publish.LocalDirectory.Disk.{Disk}

-- `system_error` is an error of the file system, by its code; `type_error` one of the language;
-- `not_held` ends a run that writes to a place which is not held here.
pub data AdapterError : Type 0 where
  fs_error : FsError → AdapterError
  protocol_error : AdapterProtocolError → AdapterError
  thrown : String → AdapterError
  system_error : String → AdapterError
  type_error syntax_error not_held : AdapterError
  big_int_error : BigIntError → AdapterError

pub record Run (A : Type 0) : Type 0 where
  pub seen : List Disk
  pub last : Disk
  pub result : Result AdapterError A

abbrev pub M : Type 0 → Type 0
M A = Disk → Run A

unfoldable pub pure : {A : Type 0} → A → M A
pure a disk = record { seen = []; last = disk; result = ok a }

unfoldable pub throw : {A : Type 0} → AdapterError → M A
throw e disk = record { seen = []; last = disk; result = err e }

abbrev pub after : {B : Type 0} → List Disk → Run B → Run B
after seen run = record { seen = seen ++ run.seen; last = run.last; result = run.result }

abbrev pub continue : {A B : Type 0} → List Disk → Disk → Result AdapterError A → (A → M B) → Run B
continue seen last (ok a) f = after seen (f a last)
continue seen last (err e) f = record { seen = seen; last = last; result = err e }

infixl 5 ◌>>=◌ ◌>>◌
unfoldable pub ◌>>=◌ : {A B : Type 0} → M A → (A → M B) → M B
◌>>=◌ m f disk = let run = m disk in continue run.seen run.last run.result f

abbrev pub ◌>>◌ : {B : Type 0} → M (Unit {0}) → M B → M B
m >> k = m >>= λ _. k

unfoldable pub gets : {A : Type 0} → (Disk → A) → M A
gets f disk = record { seen = []; last = disk; result = ok (f disk) }

-- One durable change.
unfoldable pub change : (Disk → Disk) → M (Unit {0})
change f disk = record { seen = f disk ∷ []; last = f disk; result = ok tt }

unfoldable pub when_ok : {E A : Type 0} → (E → AdapterError) → Result E A → M A
when_ok f (ok a) = pure a
when_ok f (err e) = throw (f e)

unfoldable pub required : {A : Type 0} → AdapterError → Option A → M A
required e none = throw e
required e (some a) = pure a
