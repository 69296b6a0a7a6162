-- ===== src/Link/Traffic.antt =====
-- The core of Exchange keeps the books of the kernel's resources, however it ends.
use qnx_unit_tests.Base.{
  ℕ, zero, suc, List, [], Option, none, some, ◌≡◌, refl, ap, arith, length, ltb, Bool, true, false,
  if◌then◌else◌, Result, ok, fault, stuck,
}
use qnx_unit_tests.Base.Proc.{Proc}
use qnx_unit_tests.Base.Run.{Run, give, lift, After, Ends, give-Ends, lift-Ends, bind-Ends, if-Ends}
use qnx_unit_tests.Types.{max_message_size}
use qnx_unit_tests.Transport.{Errno, neg32, is_negative}
use qnx_unit_tests.Virtqueue.{Virtqueue, get_buf}
use qnx_unit_tests.Virtqueue.Mappings.{maps}
use qnx_unit_tests.Virtqueue.Traffic.{Steady, add_buf-Steady, get_buf-Steady}
use qnx_unit_tests.Machine.{Machine}
use qnx_unit_tests.Link.{Driver}
use qnx_unit_tests.Link.Exchange.{
  keep_queue, with_queue, memory, sync, look, spin, copy_request, copy_response, submit, after_wait,
  after_submit, exchange_ready, exchange_if, exchange_with,
}
use qnx_unit_tests.Link.Balance.{Accounts, AnyLink, Stage, queue_held, call-Keeps, set_link-Gives}

module _ {T W : Type 0} (live : W → ℕ) (own_held : T → ℕ) (n : ℕ) where
  abbrev pub Trip : {A : Type 0} → Run (Driver T W) A → Type 0
  Trip m = Ends (Stage live own_held n AnyLink) (λ _. Stage live own_held n AnyLink) m

  keep_queue-After :
      {A : Type 0} (r : Result (A × Virtqueue)) (q : Virtqueue) (d : Driver T W)
      → After (λ _ q'. maps q' ≡ maps q) r
      → d.link.virtqueue ≡ some q
      → Stage live own_held n AnyLink d
      → After (λ _. Stage live own_held n AnyLink) (keep_queue r d)
  keep_queue-After (ok (a, q')) q d h there p = (omega (arith, h, p.0, ap queue_held there), tt)
  keep_queue-After fault q d h there p = tt
  keep_queue-After stuck q d h there p = tt

  with_queue-After :
      {A : Type 0} (f : Virtqueue → Result (A × Virtqueue)) (o : Option Virtqueue) (d : Driver T W)
      → Steady f
      → d.link.virtqueue ≡ o
      → Stage live own_held n AnyLink d
      → After (λ _. Stage live own_held n AnyLink) (with_queue f o d)
  with_queue-After f none d h there p = tt
  with_queue-After f (some q) d h there p =
      keep_queue-After (f q) q d (h.run (maps q) q refl) there p

  done-Trip : {A : Type 0} (a : A) → Trip (give a)
  done-Trip a = give-Ends a λ s p. p

  module _ (k : Machine W) (accounts : Accounts live k) where
    sync-Stage :
        (o : Option Virtqueue) (d : Driver T W)
        → d.link.virtqueue ≡ o
        → Stage live own_held n AnyLink d
        → Stage live own_held n AnyLink (sync k o d).1
    sync-Stage none d there p = p
    sync-Stage (some q) d there p = (
      omega (arith, p.0, ap queue_held there, accounts.device_counts (memory q d.link) d.world),
      tt,
    )

    pub look-Trip : (fuel out : ℕ) → Trip (look k fuel out)
    unfolding look
    look-Trip fuel out = record {
      run = λ d p.
          let d' = (sync k d.link.virtqueue d).1 in
          with_queue-After (get_buf fuel out) d'.link.virtqueue d' (get_buf-Steady fuel out) refl
            (sync-Stage d.link.virtqueue d refl p);
    }

    pub spin-Trip : (fuel rounds out : ℕ) → Trip (spin k fuel rounds out)
    unfolding spin
    spin-Trip fuel zero out = done-Trip (neg32 1, out)
    spin-Trip fuel (suc rounds) out =
        bind-Ends
          (lift-Ends (
            call-Keeps live own_held n 0 AnyLink (λ w. (tt, k.nanosleep 100000 w))
              λ w. accounts.nanosleep_counts 100000 w))
          λ _.
            bind-Ends (look-Trip fuel out)
              λ (r : ℕ × ℕ). if-Ends (is_negative r.0) (spin-Trip fuel rounds r.1) (done-Trip r)

  module _ (e : Errno) where
    -- A memcpy that may run over.
    guard-After :
        {A : Type 0} (b : Bool) (r : Result (A × Driver T W))
        → After (λ _. Stage live own_held n AnyLink) r
        → After (λ _. Stage live own_held n AnyLink) (if b then fault else r)
    guard-After true r h = tt
    guard-After false r h = h

    copy_request-Trip : (request : List ℕ) → Trip (copy_request request)
    copy_request-Trip request = record {
      run = λ d p. guard-After (ltb max_message_size (length request)) _ p;
    }

    copy_response-Trip : (len : ℕ) → Trip (copy_response len)
    copy_response-Trip len = record { run = λ d p. guard-After (ltb max_message_size len) _ p }

    submit-Trip : (request : List ℕ) → Trip (submit e request)
    submit-Trip request = record {
      run = λ d p. with_queue-After _ d.link.virtqueue d (add_buf-Steady e _ _ _ _) refl p;
    }

    module _ (notify : Proc (Driver T W) (Unit {0})) (wait : Run (Driver T W) (ℕ × ℕ))
        (reset : Proc (Driver T W) ℕ) (notifies : Trip (lift notify)) (waits : Trip wait)
        (resets : Trip (lift reset)) where
      after_wait-Trip : (r : ℕ × ℕ) → Trip (after_wait e notify wait reset r)
      after_wait-Trip r =
          if-Ends (is_negative r.0) (bind-Ends resets λ _. done-Trip (r.0, []))
            (bind-Ends (copy_response-Trip r.1) λ bs. done-Trip (0, bs))

      after_submit-Trip : (head : ℕ) → Trip (after_submit e notify wait reset head)
      after_submit-Trip head =
          if-Ends (is_negative head) (done-Trip (head, []))
            (bind-Ends notifies λ _. bind-Ends waits after_wait-Trip)

      exchange_ready-Trip : (request : List ℕ) → Trip (exchange_ready e notify wait reset request)
      exchange_ready-Trip request =
          bind-Ends
            (lift-Ends (set_link-Gives live own_held (λ l. record l { dma_resp = [] }) λ d p. p))
            λ _.
              bind-Ends (copy_request-Trip request)
                λ _. bind-Ends (submit-Trip request) after_submit-Trip

      exchange_if-Trip :
          (request : List ℕ) (o : Option Virtqueue) (req resp : Option ℕ)
          → Trip (exchange_if e notify wait reset request o req resp)
      exchange_if-Trip request (some q) (some req) (some resp) = exchange_ready-Trip request
      exchange_if-Trip request (some q) (some req) none = done-Trip (neg32 e.einval, [])
      exchange_if-Trip request (some q) none resp = done-Trip (neg32 e.einval, [])
      exchange_if-Trip request none req resp = done-Trip (neg32 e.einval, [])

      pub exchange_with-Trip : (request : List ℕ) → Trip (exchange_with e notify wait reset request)
      unfolding exchange_with
      exchange_with-Trip request = record {
        run = λ d p.
            (exchange_if-Trip request d.link.virtqueue d.link.dma_req_virt d.link.dma_resp_virt).run
              d p;
      }
