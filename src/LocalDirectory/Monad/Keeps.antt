-- ===== src/LocalDirectory/Monad/Keeps.antt =====
-- An operation that keeps an invariant, whatever it returns or throws: the case of `Holds` without
-- a precondition and without a postcondition.
use publish.Prelude.{Option, Result, Bool, true, false, ◌≡◌, if◌then◌else◌}
use publish.LocalDirectory.Disk.{Disk}
use publish.LocalDirectory.Monad.{
  AdapterError, M, pure, throw, ◌>>=◌, gets, change, when_ok, required,
}
use publish.LocalDirectory.Monad.Holds.{
  Holds, Holds-bind, Holds-change, Holds-pure, Holds-throw, Holds-gets, Holds-when_ok,
  Holds-required, Holds-if, Holds-weaken, Holds-after,
}

abbrev pub Anything : Disk → Type 0
Anything disk = Unit

abbrev pub Ends : {A : Type 0} → A → Disk → Type 0
Ends a disk = Unit

abbrev pub Keeps : {A : Type 0} → (Disk → Type 0) → M A → Type 0
Keeps I m = Holds I Anything m Ends

module _ (I : Disk → Type 0) where
  -- With a precondition and a postcondition that are not needed.
  pub Keeps-weaken : {A : Type 0} (P : Disk → Type 0) (m : M A) → Keeps I m → Holds I P m Ends
  Keeps-weaken P m h = Holds-weaken I Anything P Ends m (λ disk i p. tt) h

  pub Keeps-bind :
      {A B : Type 0} (m : M A) (f : A → M B)
      → Keeps I m
      → ((a : A) → Keeps I (f a))
      → Keeps I (m >>= f)
  Keeps-bind m f h k = Holds-bind I Anything Ends Ends m f h k

  pub Keeps-pure : {A : Type 0} (a : A) → Keeps I (pure a)
  Keeps-pure a = Holds-pure I Anything Ends a (λ disk i p. tt)

  pub Keeps-throw : (A : Type 0) (e : AdapterError) → Keeps I (throw {A = A} e)
  Keeps-throw A e = Holds-throw I Anything Ends e

  pub Keeps-gets : {A : Type 0} (f : Disk → A) → Keeps I (gets f)
  Keeps-gets f = Holds-after I Anything _ Ends _ (λ a disk i q. tt) (Holds-gets I Anything f)

  pub Keeps-when_ok : {E A : Type 0} (f : E → AdapterError) (r : Result E A) → Keeps I (when_ok f r)
  Keeps-when_ok f r = Holds-when_ok I Anything f r

  pub Keeps-required : {A : Type 0} (e : AdapterError) (o : Option A) → Keeps I (required e o)
  Keeps-required e o =
      Holds-after I Anything _ Ends _ (λ a disk i q. tt) (Holds-required I Anything e o)

  pub Keeps-change : (f : Disk → Disk) → ((disk : Disk) → I disk → I (f disk)) → Keeps I (change f)
  Keeps-change f h = Holds-change I Anything Anything f (λ disk i p. (h disk i, tt))

  pub Keeps-if :
      {A : Type 0} (b : Bool) (m n : M A)
      → (b ≡ true → Keeps I m)
      → (b ≡ false → Keeps I n)
      → Keeps I (if b then m else n)
  Keeps-if b m n h k = Holds-if I Anything Ends b m n h k

  -- What is read from the disk is known to come from it.
  pub Keeps-read :
      {A B : Type 0} (f : Disk → A) (k : A → M B)
      → ((a : A) → Holds I (λ disk. a ≡ f disk) (k a) Ends)
      → Keeps I (gets f >>= k)
  Keeps-read f k h =
      Holds-bind I Anything (λ a disk. a ≡ f disk) Ends (gets f) k
        (Holds-after I Anything _ _ _ (λ a disk i q. q.1) (Holds-gets I Anything f)) h
