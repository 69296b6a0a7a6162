-- ===== src/Link/Books.antt =====
-- The books of the kernel's resources through the steps of Link/Steps.
use qnx_unit_tests.Base.{ℕ, zero, suc, Option, none, some, ◌≡◌, refl, ap, arith, ◌==◌, ◌!=◌}
use qnx_unit_tests.Base.Proc.{Proc, done, update, Gives, done-Gives, bind-Gives, if-Gives}
use qnx_unit_tests.Virtqueue.{Virtqueue, new_queue}
use qnx_unit_tests.Virtqueue.Mappings.{Balanced}
use qnx_unit_tests.Machine.{Machine}
use qnx_unit_tests.Link.{Link, Driver, Failure, code}
use qnx_unit_tests.Link.Steps.{must, reset_code, on_queue, get_addr, replace_queue, quiesce}
use qnx_unit_tests.Link.Balance.{
  Accounts, AnyLink, Blind, Stage, Then, queue_held, call-Keeps, set_link-Gives, reset_queue-Stage,
}

-- A queue that has been made and is not set up yet.
abbrev pub Made : (Link → Type 0) → ℕ → Link → Type 0
Made I size l = (l.virtqueue ≡ some (new_queue size)) × I l

module _ {T W : Type 0} (live : W → ℕ) (own_held : T → ℕ) (n : ℕ) where
  abbrev pub Keeps : {A : Type 0} → (Link → Type 0) → Proc (Driver T W) A → Type 0
  Keeps I m = Gives (Stage live own_held n I) (λ _. Stage live own_held n I) m

  pub done-Keeps : {A : Type 0} (I : Link → Type 0) (a : A) → Keeps I (done a)
  done-Keeps I a = done-Gives a λ s p. p

  pub get_addr-Keeps : (I : Link → Type 0) (f : Virtqueue → ℕ) → Keeps I (get_addr f)
  get_addr-Keeps I f = record { run = λ d p. p }

  -- A step on the driver's own fields that holds what it held.
  pub set_own-Keeps :
      (I : Link → Type 0) (f : T → T)
      → ((t : T) → own_held (f t) ≡ own_held t)
      → Keeps I (update λ d. record d { own = f d.own })
  set_own-Keeps I f h = record { run = λ d p. (omega (arith, p.0, h d.own), p.1) }

  pub must-Then :
      (I : Link → Type 0) {m : Proc (Driver T W) ℕ}
      → Keeps I m
      → Gives (Stage live own_held n I) (Then live own_held n (Stage live own_held n I)) (must m)
  must-Then I h = bind-Gives h λ rc.
      if-Gives (rc != 0) (done-Gives (some (code rc)) λ s p. (p.0, tt)) (done-Gives none λ s p. p)

  on_queue-Stage :
      (I : Link → Type 0) (blind : Blind I) (size : ℕ) (f : Virtqueue → W → (ℕ × Virtqueue) × W)
      → ((w : W) → Balanced live (live w) (f (new_queue size) w))
      → (o : Option Virtqueue) (d : Driver T W) → o ≡ some (new_queue size)
      → Stage live own_held n (Made I size) d
      → Stage live own_held n I (on_queue f o d).1
  on_queue-Stage I blind size f h o d made p =
      rw made (omega (arith, h d.world, p.0, ap queue_held p.1.0), blind d.link _ p.1.1)

  pub on_queue-Gives :
      (I : Link → Type 0) (blind : Blind I) (size : ℕ) (f : Virtqueue → W → (ℕ × Virtqueue) × W)
      → ((w : W) → Balanced live (live w) (f (new_queue size) w))
      → Gives
          (Stage live own_held n (Made I size))
          (λ _. Stage live own_held n I)
          (λ d. on_queue f d.link.virtqueue d)
  on_queue-Gives I blind size f h = record {
    run = λ d p. on_queue-Stage I blind size f h d.link.virtqueue d p.1.0 p;
  }

  module _ (k : Machine W) (accounts : Accounts live k) where
    pub replace_queue-Made :
        (I : Link → Type 0) (blind : Blind I) (size : ℕ)
        → Gives
            (Stage live own_held n I)
            (λ _. Stage live own_held n (Made I size))
            (replace_queue k size)
    unfolding replace_queue
    replace_queue-Made I blind size =
        bind-Gives (reset_queue-Stage live own_held k accounts n I blind) λ _.
          set_link-Gives live own_held (λ l. record l { virtqueue = some (new_queue size) })
            λ d p. (
              omega (arith, p.0, ap queue_held p.1.0),
              (refl, blind d.link (some (new_queue size)) p.1.1),
            )

    pub quiesce-Keeps :
        (I : Link → Type 0) (read : Proc (Driver T W) ℕ) (rounds : ℕ)
        → Keeps I read
        → Keeps I (quiesce k read rounds)
    unfolding quiesce
    quiesce-Keeps I read zero h = done-Keeps I tt
    quiesce-Keeps I read (suc rounds) h = bind-Gives h λ s. if-Gives (s == 0) (done-Keeps I tt) (
        bind-Gives
          (call-Keeps live own_held n 0 I (λ w. (tt, k.nanosleep 10000000 w))
            λ w. accounts.nanosleep_counts 10000000 w)
          λ _. quiesce-Keeps I read rounds h)

    pub reset_code-Keeps :
        (failed : Option Failure)
        → Gives
            (Then live own_held n (Stage live own_held n AnyLink) failed)
            (λ _. Stage live own_held n AnyLink)
            (reset_code k failed)
    reset_code-Keeps none = record { run = λ d p. p }
    reset_code-Keeps (some f) = record { run = λ d p. p }
