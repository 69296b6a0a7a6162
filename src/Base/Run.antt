-- ===== src/Base/Run.antt =====
-- Code that passes a state and may end in undefined behaviour.
use qnx_unit_tests.Base.Outcome.{Result, ok, fault, stuck}
use mathlib.Core.Bool.{Bool, true, false}
use mathlib.Core.Option.{Option, none, some}
use qnx_unit_tests.Base.Tests.{if◌then◌else◌}
use qnx_unit_tests.Base.Proc.{Proc, Gives}

abbrev pub Run : Type 0 → Type 0 → Type 0
Run S A = S → Result (A × S)

module _ {S : Type 0} where
  abbrev pub give : {A : Type 0} → A → Run S A
  give a s = ok (a, s)

  -- Code that cannot fail.
  abbrev pub lift : {A : Type 0} → Proc S A → Run S A
  lift m s = ok ((m s).0, (m s).1)

  abbrev pub continue : {A B : Type 0} → Result (A × S) → (A → Run S B) → Result (B × S)
  continue (ok (a, s)) f = f a s
  continue fault f = fault
  continue stuck f = stuck

  infixl 5 ◌>>=◌ ◌>>◌
  abbrev pub ◌>>=◌ : {A B : Type 0} → Run S A → (A → Run S B) → Run S B
  ◌>>=◌ m f s = continue (m s) f

  abbrev pub ◌>>◌ : {B : Type 0} → Run S (Unit {0}) → Run S B → Run S B
  m >> k = m >>= λ _. k

  -- The step of a function that returns at once where the step gives it a value.
  infixr 4 ◌before◌
  abbrev pub ◌before◌ : {A : Type 0} → Run S (Option A) → Run S (Option A) → Run S (Option A)
  m before n = m >>= λ early. elim early [ none ↦ n | some a ↦ give (some a) ]

-- What holds of the value and the state of a call that ends well.
abbrev pub After : {S A : Type 0} → (A → S → Type 0) → Result (A × S) → Type 0
After Q (ok (a, s)) = Q a s
After Q fault = Unit {0}
After Q stuck = Unit {0}

-- From a state with `P`, the code ends with `Q` if it ends well.
pub record Ends {S A : Type 0} (P : S → Type 0) (Q : A → S → Type 0) (m : Run S A) : Type 0 where
  pub run : (s : S) → P s → After Q (m s)

continue-After :
    {S A B : Type 0} {Q : A → S → Type 0} {R : B → S → Type 0} (r : Result (A × S))
    (f : A → Run S B)
    → After Q r
    → ((a : A) → Ends (Q a) R (f a))
    → After R (continue r f)
continue-After (ok (a, s)) f q h = (h a).run s q
continue-After fault f q h = tt
continue-After stuck f q h = tt

After-map :
    {S A : Type 0} {Q R : A → S → Type 0} (r : Result (A × S))
    → ((a : A) (s : S) → Q a s → R a s)
    → After Q r
    → After R r
After-map (ok (a, s)) h q = h a s q
After-map fault h q = tt
After-map stuck h q = tt

module _ {S : Type 0} {P : S → Type 0} where
  pub weaken-Ends :
      {A : Type 0} {Q R : A → S → Type 0} {m : Run S A}
      → ((a : A) (s : S) → Q a s → R a s)
      → Ends P Q m
      → Ends P R m
  weaken-Ends {m = m} h k = record { run = λ s p. After-map (m s) h (k.run s p) }

  pub give-Ends :
      {A : Type 0} {Q : A → S → Type 0} (a : A) → ((s : S) → P s → Q a s) → Ends P Q (give a)
  give-Ends a h = record { run = h }

  pub lift-Ends : {A : Type 0} {Q : A → S → Type 0} {m : Proc S A} → Gives P Q m → Ends P Q (lift m)
  lift-Ends g = record { run = g.run }

  pub bind-Ends :
      {A B : Type 0} {Q : A → S → Type 0} {R : B → S → Type 0} {m : Run S A} {f : A → Run S B}
      → Ends P Q m
      → ((a : A) → Ends (Q a) R (f a))
      → Ends P R (m >>= f)
  bind-Ends {m = m} {f = f} k h = record { run = λ s p. continue-After (m s) f (k.run s p) h }

  pub if-Ends :
      {A : Type 0} {Q : A → S → Type 0} {m n : Run S A} (b : Bool)
      → Ends P Q m
      → Ends P Q n
      → Ends P Q (if b then m else n)
  if-Ends true k h = k
  if-Ends false k h = h

  -- Two steps that keep a condition, of which the first may return.
  pub before-Ends :
      {A : Type 0} {m n : Run S (Option A)}
      → Ends P (λ _. P) m
      → Ends P (λ _. P) n
      → Ends P (λ _. P) (m before n)
  before-Ends {A = A} {m = m} {n = n} k h =
      bind-Ends {m = m} {f = λ early. elim early [ none ↦ n | some a ↦ give (some a) ]} k λ early.
        elim early as (λ o. Ends P (λ _. P) (elim o [ none ↦ n | some a ↦ give (some a) ])) [
          | none ↦ h
          | some a ↦ give-Ends (some a) λ s p. p
        ]
