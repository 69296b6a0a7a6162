-- ===== src/Base/Proc.antt =====
-- Code that passes a state and cannot fail, and what it guarantees from a condition on the state.
use mathlib.Core.Bool.{Bool, true, false}
use mathlib.Core.Path.{◌≡◌, refl}
use qnx_unit_tests.Base.Tests.{if◌then◌else◌}

abbrev pub Proc : Type 0 → Type 0 → Type 0
Proc S A = S → A × S

module _ {S : Type 0} where
  abbrev pub done : {A : Type 0} → A → Proc S A
  done a s = (a, s)

  abbrev pub update : (S → S) → Proc S (Unit {0})
  update f s = (tt, f s)

  infixl 5 ◌>>=◌ ◌>>◌
  abbrev pub ◌>>=◌ : {A B : Type 0} → Proc S A → (A → Proc S B) → Proc S B
  ◌>>=◌ m f s = f (m s).0 (m s).1

  abbrev pub ◌>>◌ : {B : Type 0} → Proc S (Unit {0}) → Proc S B → Proc S B
  m >> k = m >>= λ _. k

-- From a state with `P` the code ends with a value and a state with `Q`.
pub record Gives {S A : Type 0} (P : S → Type 0) (Q : A → S → Type 0) (m : Proc S A) : Type 0 where
  pub run : (s : S) → P s → Q (m s).0 (m s).1

module _ {S : Type 0} {P : S → Type 0} where
  pub done-Gives :
      {A : Type 0} {Q : A → S → Type 0} (a : A) → ((s : S) → P s → Q a s) → Gives P Q (done a)
  done-Gives a h = record { run = h }

  pub bind-Gives :
      {A B : Type 0} {Q : A → S → Type 0} {R : B → S → Type 0} {m : Proc S A} {f : A → Proc S B}
      → Gives P Q m
      → ((a : A) → Gives (Q a) R (f a))
      → Gives P R (m >>= f)
  bind-Gives {m = m} k l = record { run = λ s p. (l (m s).0).run (m s).1 (k.run s p) }

  pub update-Gives :
      {Q : Unit {0} → S → Type 0} (f : S → S) → ((s : S) → P s → Q tt (f s)) → Gives P Q (update f)
  update-Gives f h = record { run = h }

  pub if-Gives :
      {A : Type 0} {Q : A → S → Type 0} {m n : Proc S A} (b : Bool)
      → Gives P Q m
      → Gives P Q n
      → Gives P Q (if b then m else n)
  if-Gives true k l = k
  if-Gives false k l = l

  -- With what the test says in each branch.
  pub cases-Gives :
      {A : Type 0} {Q : A → S → Type 0} {m n : Proc S A} (b : Bool)
      → (b ≡ true → Gives P Q m)
      → (b ≡ false → Gives P Q n)
      → Gives P Q (if b then m else n)
  cases-Gives true k l = k refl
  cases-Gives false k l = l refl
