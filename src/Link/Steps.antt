-- ===== src/Link/Steps.antt =====
-- Steps of the set-up that both transports have: codes, the queue in place, and the wait for a reset.
use qnx_unit_tests.Base.{ℕ, zero, suc, Option, none, some, ◌==◌, ◌!=◌, if◌then◌else◌}
use qnx_unit_tests.Base.Proc.{Proc, done, ◌>>=◌, ◌>>◌}
use qnx_unit_tests.Virtqueue.{Virtqueue, new_queue}
use qnx_unit_tests.Machine.{Machine}
use qnx_unit_tests.Link.{Driver, Failure, code, call, set_link, failure_code, reset_queue}

module _ {T W : Type 0} where
  -- A step that returns a code.
  abbrev pub must : Proc (Driver T W) ℕ → Proc (Driver T W) (Option Failure)
  must m = do rc ← m; if rc != 0 then done (some (code rc)) else done none

  -- The queue is set up in place; there is one where this is called.
  abbrev pub on_queue :
      (Virtqueue → W → (ℕ × Virtqueue) × W) → Option Virtqueue → Proc (Driver T W) ℕ
  on_queue f none d = (0, d)
  on_queue f (some q) d =
      let ((rc, q'), w) = f q d.world in
      (rc, record d { world = w; link = record d.link { virtqueue = some q' } })

  abbrev pub get_addr : (Virtqueue → ℕ) → Proc (Driver T W) ℕ
  get_addr f d = (elim d.link.virtqueue [ none ↦ 0 | some q ↦ f q ], d)

module _ {T W : Type 0} (k : Machine W) where
  -- What a failure of the set-up returns.
  abbrev pub reset_code : Option Failure → Proc (Driver T W) ℕ
  reset_code none d = (0, d)
  reset_code (some failed) d = (failure_code k failed d, d)

  -- virtqueue_ = std::make_unique<Virtqueue>(queue_size), which destroys the queue that was there
  unfoldable pub replace_queue : ℕ → Proc (Driver T W) (Unit {0})
  unfolding reset_queue
  replace_queue queue_size = do
    reset_queue k
    set_link λ l. record l { virtqueue = some (new_queue queue_size) }

  -- The wait for the status, which `read` reads, to be 0, for so many rounds.
  unfoldable pub quiesce : Proc (Driver T W) ℕ → ℕ → Proc (Driver T W) (Unit {0})
  quiesce read zero = done tt
  quiesce read (suc n) =
      let rest : Proc (Driver T W) (Unit {0}) = quiesce read n in
      (do s ← read; if s == 0 then done tt else (do call λ w. (tt, k.nanosleep 10000000 w); rest))
