-- ===== src/LocalDirectory/Monad/Holds.antt =====
-- What an operation makes sure of: from a disk with the precondition, every disk on the way has the
-- invariant, and what it returns or throws comes with a last disk that has it too, and with the
-- postcondition where it returns.
use publish.Prelude.{
  Bool, true, false, if◌then◌else◌, List, [], ◌∷◌, ◌++◌, Option, none, some, ◌≡◌, refl, All, Result,
  ok, err,
}
use publish.LocalDirectory.Disk.{Disk}
use publish.LocalDirectory.Monad.{
  AdapterError, Run, M, pure, throw, continue, ◌>>=◌, gets, change, when_ok, required,
}

All-append : (P : Disk → Type 0) (xs ys : List Disk) → All P xs → All P ys → All P (xs ++ ys)
All-append P [] ys h k = k
All-append P (x ∷ xs) ys h k = (h.0, All-append P xs ys h.1 k)

abbrev pub Post : {A : Type 0} → (A → Disk → Type 0) → Result AdapterError A → Disk → Type 0
Post Q (ok a) disk = Q a disk
Post Q (err e) disk = Unit

abbrev pub Outcome : {A : Type 0} → (Disk → Type 0) → (A → Disk → Type 0) → Run A → Type 0
Outcome I Q run = All I run.seen × (I run.last × Post Q run.result run.last)

unfoldable pub Holds :
    {A : Type 0} → (Disk → Type 0) → (Disk → Type 0) → M A → (A → Disk → Type 0) → Type 0
Holds I P m Q = (disk : Disk) → I disk → P disk → Outcome I Q (m disk)

module _ (I : Disk → Type 0) where
  continued :
      {A B : Type 0} (Q : A → Disk → Type 0) (R : B → Disk → Type 0) (seen : List Disk)
      (last : Disk) (r : Result AdapterError A) (f : A → M B)
      → All I seen
      → I last
      → Post Q r last
      → ((a : A) → Holds I (Q a) (f a) R)
      → Outcome I R (continue seen last r f)
  unfolding Holds
  continued Q R seen last (ok a) f h i q k =
      let (hs, rest) = k a last i q in (All-append I seen _ h hs, rest)
  continued Q R seen last (err e) f h i q k = (h, (i, tt))

  pub Holds-bind :
      {A B : Type 0} (P : Disk → Type 0) (Q : A → Disk → Type 0) (R : B → Disk → Type 0) (m : M A)
      (f : A → M B)
      → Holds I P m Q
      → ((a : A) → Holds I (Q a) (f a) R)
      → Holds I P (m >>= f) R
  unfolding Holds ◌>>=◌
  Holds-bind P Q R m f h k disk i p =
      let (hs, (il, q)) = h disk i p in continued Q R _ _ _ f hs il q k

  pub Holds-change :
      (P Q : Disk → Type 0) (f : Disk → Disk)
      → ((disk : Disk) → I disk → P disk → I (f disk) × Q (f disk))
      → Holds I P (change f) (λ _. Q)
  unfolding Holds change
  Holds-change P Q f h disk i p = let (j, q) = h disk i p in ((j, tt), (j, q))

  pub Holds-pure :
      {A : Type 0} (P : Disk → Type 0) (Q : A → Disk → Type 0) (a : A)
      → ((disk : Disk) → I disk → P disk → Q a disk)
      → Holds I P (pure a) Q
  unfolding Holds pure
  Holds-pure P Q a h disk i p = (tt, (i, h disk i p))

  pub Holds-throw :
      {A : Type 0} (P : Disk → Type 0) (Q : A → Disk → Type 0) (e : AdapterError)
      → Holds I P (throw e) Q
  unfolding Holds throw
  Holds-throw P Q e disk i p = (tt, (i, tt))

  pub Holds-gets :
      {A : Type 0} (P : Disk → Type 0) (f : Disk → A)
      → Holds I P (gets f) (λ a disk. P disk × (a ≡ f disk))
  unfolding Holds gets
  Holds-gets P f disk i p = (tt, (i, (p, refl)))

  pub Holds-when_ok :
      {E A : Type 0} (P : Disk → Type 0) (f : E → AdapterError) (r : Result E A)
      → Holds I P (when_ok f r) (λ _. P)
  unfolding Holds when_ok pure throw
  Holds-when_ok P f (ok a) disk i p = (tt, (i, p))
  Holds-when_ok P f (err e) disk i p = (tt, (i, tt))

  pub Holds-known :
      {E A : Type 0} (P : Disk → Type 0) (f : E → AdapterError) (r : Result E A)
      → Holds I P (when_ok f r) (λ a disk. P disk × (r ≡ ok a))
  unfolding Holds when_ok pure throw
  Holds-known P f (ok a) disk i p = (tt, (i, (p, refl)))
  Holds-known P f (err e) disk i p = (tt, (i, tt))

  pub Holds-required :
      {A : Type 0} (P : Disk → Type 0) (e : AdapterError) (o : Option A)
      → Holds I P (required e o) (λ a disk. P disk × (o ≡ some a))
  unfolding Holds required pure throw
  Holds-required P e none disk i p = (tt, (i, tt))
  Holds-required P e (some a) disk i p = (tt, (i, (p, refl)))

  -- A weaker precondition, and a postcondition that follows.
  pub Holds-weaken :
      {A : Type 0} (P P' : Disk → Type 0) (Q : A → Disk → Type 0) (m : M A)
      → ((disk : Disk) → I disk → P' disk → P disk)
      → Holds I P m Q
      → Holds I P' m Q
  unfolding Holds
  Holds-weaken P P' Q m w h disk i p = h disk i (w disk i p)

  pub Post-weaken :
      {A : Type 0} (Q R : A → Disk → Type 0) (r : Result AdapterError A) (disk : Disk)
      → ((a : A) → Q a disk → R a disk)
      → Post Q r disk
      → Post R r disk
  Post-weaken Q R (ok a) disk w q = w a q
  Post-weaken Q R (err e) disk w q = tt

  pub Holds-after :
      {A : Type 0} (P : Disk → Type 0) (Q R : A → Disk → Type 0) (m : M A)
      → ((a : A) (disk : Disk) → I disk → Q a disk → R a disk)
      → Holds I P m Q
      → Holds I P m R
  unfolding Holds
  Holds-after P Q R m w h disk i p =
      let (hs, (il, q)) = h disk i p in
      (hs, (il, Post-weaken Q R (m disk).result (m disk).last (λ a. w a (m disk).last il) q))

  pub Holds-if :
      {A : Type 0} (P : Disk → Type 0) (Q : A → Disk → Type 0) (b : Bool) (m n : M A)
      → (b ≡ true → Holds I P m Q)
      → (b ≡ false → Holds I P n Q)
      → Holds I P (if b then m else n) Q
  Holds-if P Q true m n h k = h refl
  Holds-if P Q false m n h k = k refl

  -- A fact that does not speak of the disk.
  pub Holds-fact :
      {A : Type 0} (P : Disk → Type 0) (F : Type 0) (Q : A → Disk → Type 0) (m : M A)
      → (F → Holds I P m Q)
      → Holds I (λ disk. P disk × F) m Q
  unfolding Holds
  Holds-fact P F Q m h disk i p = h p.1 disk i p.0
