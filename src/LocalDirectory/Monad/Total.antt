-- ===== src/LocalDirectory/Monad/Total.antt =====
-- An operation that returns: from a disk with the precondition it throws nothing, and the last disk
-- has the postcondition.
use publish.Prelude.{
  Bool, true, false, List, Option, some, Result, ok, ◌≡◌, refl, sym, subst, ◌∙◌, if◌then◌else◌,
}
use publish.LocalDirectory.Disk.{Disk}
use publish.LocalDirectory.Monad.{
  AdapterError, Run, M, pure, continue, ◌>>=◌, gets, change, when_ok, required,
}

pub record Returns {A : Type 0} (Q : A → Disk → Type 0) (run : Run A) : Type 0 where
  pub value : A
  pub returned : run.result ≡ ok value
  pub holds : Q value run.last

unfoldable pub Total : {A : Type 0} → (Disk → Type 0) → M A → (A → Disk → Type 0) → Type 0
Total P m Q = (disk : Disk) → P disk → Returns Q (m disk)

continued :
    {A B : Type 0} (Q : A → Disk → Type 0) (R : B → Disk → Type 0) (seen : List Disk) (last : Disk)
    (r : Result AdapterError A) (f : A → M B) (a : A)
    → r ≡ ok a
    → Q a last
    → Total (Q a) (f a) R
    → Returns R (continue seen last r f)
unfolding Total
continued Q R seen last r f a e q h =
    let rest = h last q in
    rw e (record { value = rest.value; returned = rest.returned; holds = rest.holds })

pub Total-bind :
    {A B : Type 0} (P : Disk → Type 0) (Q : A → Disk → Type 0) (R : B → Disk → Type 0) (m : M A)
    (f : A → M B)
    → Total P m Q
    → ((a : A) → Total (Q a) (f a) R)
    → Total P (m >>= f) R
unfolding Total ◌>>=◌
Total-bind P Q R m f h k disk p =
    let run = h disk p in
    continued Q R (m disk).seen (m disk).last (m disk).result f run.value run.returned run.holds
      (k run.value)

pub Total-pure :
    {A : Type 0} (P : Disk → Type 0) (Q : A → Disk → Type 0) (a : A)
    → ((disk : Disk) → P disk → Q a disk)
    → Total P (pure a) Q
unfolding Total pure
Total-pure P Q a h disk p = record { value = a; returned = refl; holds = h disk p }

pub Total-gets :
    {A : Type 0} (P : Disk → Type 0) (f : Disk → A)
    → Total P (gets f) (λ a disk. P disk × (a ≡ f disk))
unfolding Total gets
Total-gets P f disk p = record { value = f disk; returned = refl; holds = (p, refl) }

pub Total-change :
    (P : Disk → Type 0) (Q : Disk → Type 0) (f : Disk → Disk)
    → ((disk : Disk) → P disk → Q (f disk))
    → Total P (change f) (λ _. Q)
unfolding Total change
Total-change P Q f h disk p = record { value = tt; returned = refl; holds = h disk p }

pub Total-when_ok :
    {E A : Type 0} (P : Disk → Type 0) (f : E → AdapterError) (r : Result E A) (a : A)
    → r ≡ ok a
    → Total P (when_ok f r) (λ b disk. P disk × (b ≡ a))
unfolding Total when_ok pure
Total-when_ok P f r a e disk p = rw e (record { value = a; returned = refl; holds = (p, refl) })

pub Total-required :
    {A : Type 0} (P : Disk → Type 0) (e : AdapterError) (o : Option A) (a : A)
    → o ≡ some a
    → Total P (required e o) (λ b disk. P disk × (b ≡ a))
unfolding Total required pure
Total-required P e o a h disk p = rw h (record { value = a; returned = refl; holds = (p, refl) })

pub Total-weaken :
    {A : Type 0} (P P' : Disk → Type 0) (Q : A → Disk → Type 0) (m : M A)
    → ((disk : Disk) → P' disk → P disk)
    → Total P m Q
    → Total P' m Q
unfolding Total
Total-weaken P P' Q m w h disk p = h disk (w disk p)

-- A fact that does not speak of the disk.
pub Total-fact :
    {A : Type 0} (P : Disk → Type 0) (F : Type 0) (Q : A → Disk → Type 0) (m : M A)
    → (F → Total P m Q)
    → Total (λ disk. P disk × F) m Q
unfolding Total
Total-fact P F Q m h disk p = h p.1 disk p.0

-- What is returned is known.
pub Total-known :
    {A B : Type 0} (P : Disk → Type 0) (R : B → Disk → Type 0) (m : M A) (f : A → M B) (a : A)
    → Total P m (λ b disk. P disk × (b ≡ a))
    → Total P (f a) R
    → Total P (m >>= f) R
Total-known P R m f a h k =
    Total-bind P _ R m f h
      (λ b. Total-fact P (b ≡ a) R (f b) (λ e. subst (λ x. Total P (f x) R) (sym e) k))

pub Total-after :
    {A : Type 0} (P : Disk → Type 0) (Q R : A → Disk → Type 0) (m : M A)
    → ((a : A) (disk : Disk) → Q a disk → R a disk)
    → Total P m Q
    → Total P m R
unfolding Total
Total-after P Q R m w h disk p =
    let run = h disk p in
    record {
      value = run.value;
      returned = run.returned;
      holds = w run.value (m disk).last run.holds;
    }

pub Total-if :
    {A : Type 0} (P : Disk → Type 0) (Q : A → Disk → Type 0) (b : Bool) (m n : M A)
    → (b ≡ true → Total P m Q)
    → (b ≡ false → Total P n Q)
    → Total P (if b then m else n) Q
Total-if P Q true m n h k = h refl
Total-if P Q false m n h k = k refl

-- What is read is known.
pub Total-read :
    {A B : Type 0} (P : Disk → Type 0) (R : B → Disk → Type 0) (f : Disk → A) (k : A → M B) (a : A)
    → ((disk : Disk) → P disk → f disk ≡ a)
    → Total P (k a) R
    → Total P (gets f >>= k) R
Total-read P R f k a found h =
    Total-known P R _ k a
      (Total-after P _ _ _ (λ b disk q. (q.0, q.1 ∙ found disk q.0)) (Total-gets P f)) h

-- What is needed is there.
pub Total-need :
    {A B : Type 0} (P : Disk → Type 0) (R : B → Disk → Type 0) (e : AdapterError) (o : Option A)
    (k : A → M B) (a : A)
    → o ≡ some a
    → Total P (k a) R
    → Total P (required e o >>= k) R
Total-need P R e o k a found h = Total-known P R _ k a (Total-required P e o a found) h
