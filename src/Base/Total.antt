-- ===== src/Base/Total.antt =====
-- Code that passes a state and comes to its end: no undefined behaviour, and no bound that runs out.
use mathlib.Core.Bool.{Bool, true, false}
use mathlib.Core.Option.{Option, none, some}
use mathlib.Core.Path.{◌≡◌, refl}
use qnx_unit_tests.Base.Outcome.{Result, ok, fault, stuck}
use qnx_unit_tests.Base.Tests.{if◌then◌else◌}
use qnx_unit_tests.Base.Proc.{Proc, Gives}
use qnx_unit_tests.Base.Run.{Run, give, lift, continue, ◌>>=◌, ◌before◌}

abbrev pub Returned : {S A : Type 0} → (A → S → Type 0) → Result (A × S) → Type 0
Returned Q (ok (a, s)) = Q a s
Returned Q fault = ⊥
Returned Q stuck = ⊥

-- From a state with `P`, the code ends well, with `Q`.
pub record Returns {S A : Type 0} (P : S → Type 0) (Q : A → S → Type 0) (m : Run S A) : Type 0 where
  pub run : (s : S) → P s → Returned Q (m s)

continue-Returned :
    {S A B : Type 0} {Q : A → S → Type 0} {R : B → S → Type 0} (r : Result (A × S))
    (f : A → Run S B)
    → Returned Q r
    → ((a : A) → Returns (Q a) R (f a))
    → Returned R (continue r f)
continue-Returned (ok (a, s)) f q h = (h a).run s q
continue-Returned fault f q h = absurd q
continue-Returned stuck f q h = absurd q

Returned-map :
    {S A : Type 0} {Q R : A → S → Type 0} (r : Result (A × S))
    → ((a : A) (s : S) → Q a s → R a s)
    → Returned Q r
    → Returned R r
Returned-map (ok (a, s)) h q = h a s q
Returned-map fault h q = absurd q
Returned-map stuck h q = absurd q

module _ {S : Type 0} {P : S → Type 0} where
  pub weaken-Returns :
      {A : Type 0} {Q R : A → S → Type 0} {m : Run S A}
      → ((a : A) (s : S) → Q a s → R a s)
      → Returns P Q m
      → Returns P R m
  weaken-Returns {m = m} h k = record { run = λ s p. Returned-map (m s) h (k.run s p) }

  pub give-Returns :
      {A : Type 0} {Q : A → S → Type 0} (a : A) → ((s : S) → P s → Q a s) → Returns P Q (give a)
  give-Returns a h = record { run = h }

  pub lift-Returns :
      {A : Type 0} {Q : A → S → Type 0} {m : Proc S A} → Gives P Q m → Returns P Q (lift m)
  lift-Returns g = record { run = g.run }

  pub bind-Returns :
      {A B : Type 0} {Q : A → S → Type 0} {R : B → S → Type 0} {m : Run S A} {f : A → Run S B}
      → Returns P Q m
      → ((a : A) → Returns (Q a) R (f a))
      → Returns P R (m >>= f)
  bind-Returns {m = m} {f = f} k h = record { run = λ s p. continue-Returned (m s) f (k.run s p) h }

  pub if-Returns :
      {A : Type 0} {Q : A → S → Type 0} {m n : Run S A} (b : Bool)
      → Returns P Q m
      → Returns P Q n
      → Returns P Q (if b then m else n)
  if-Returns true k h = k
  if-Returns false k h = h

  -- With what the test says in each branch.
  pub cases-Returns :
      {A : Type 0} {Q : A → S → Type 0} {m n : Run S A} (b : Bool)
      → (b ≡ true → Returns P Q m)
      → (b ≡ false → Returns P Q n)
      → Returns P Q (if b then m else n)
  cases-Returns true k h = k refl
  cases-Returns false k h = h refl

  -- Two steps, of which the first may return.
  pub before-Returns :
      {A : Type 0} {Q : S → Type 0} {m n : Run S (Option A)}
      → ((s : S) → P s → Q s)
      → Returns P (λ _. P) m
      → Returns P (λ _. Q) n
      → Returns P (λ _. Q) (m before n)
  before-Returns {A = A} {Q = Q} {m = m} {n = n} w k h =
      bind-Returns {m = m} {f = λ early. elim early [ none ↦ n | some a ↦ give (some a) ]} k
        λ early.
          elim early as (λ o. Returns P (λ _. Q) (elim o [ none ↦ n | some a ↦ give (some a) ])) [
            | none ↦ h
            | some a ↦ give-Returns (some a) w
          ]

-- Two steps, of which the first may return, with what holds then.
module _ {S : Type 0} {P : S → Type 0} where
  pub early-Returns :
      {A : Type 0} {Q : Option A → S → Type 0} {m n : Run S (Option A)}
      → Returns P Q m
      → Returns (Q none) Q n
      → Returns P Q (m before n)
  early-Returns {A = A} {Q = Q} {m = m} {n = n} k h =
      bind-Returns {m = m} {f = λ early. elim early [ none ↦ n | some a ↦ give (some a) ]} k
        λ early.
          elim early as (λ o. Returns (Q o) Q (elim o [ none ↦ n | some a ↦ give (some a) ])) [
            | none ↦ h
            | some a ↦ record { run = λ s q. q }
          ]

-- What the result of code that comes to its end is.
pub Returned-ok :
    {S A : Type 0} {Q : A → S → Type 0} (r : Result (A × S))
    → Returned Q r
    → (a : A) × (s : S) × (r ≡ ok (a, s)) × Q a s
Returned-ok (ok (a, s)) q = (a, s, refl, q)
Returned-ok fault q = absurd q
Returned-ok stuck q = absurd q
