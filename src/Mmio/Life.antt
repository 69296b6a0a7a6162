-- ===== src/Mmio/Life.antt =====
-- The life of the transport of transport/mmio_transport.cpp: Initialize, then exchanges, resets and
-- readings of the tag in any order and with any outcome, and Shutdown at the end.
use qnx_unit_tests.Base.{
  ℕ, ◌+◌, List, Option, none, some, ◌≡◌, refl, ap, subst, ◌∙◌, inl, inr, Bool, arith, ok,
}
use qnx_unit_tests.Base.Run.{Run, lift, After, give-Ends, lift-Ends, bind-Ends, if-Ends}
use qnx_unit_tests.Registers.{interrupt_status_reg, interrupt_ack_reg, queue_notify_reg, config_reg}
use qnx_unit_tests.Transport.{Errno, neg32, is_negative}
use qnx_unit_tests.Virtqueue.Mappings.{held}
use qnx_unit_tests.Machine.{Machine}
use qnx_unit_tests.Link.{Driver}
use qnx_unit_tests.Link.Balance.{Accounts, AnyLink}
use qnx_unit_tests.Link.Traffic.{Trip, look-Trip, spin-Trip, exchange_with-Trip}
use qnx_unit_tests.Link.Tag.{read_tag-live}
use qnx_unit_tests.Mmio.{Mmio, write_reg, shutdown}
use qnx_unit_tests.Mmio.Start.{initialize, reset_device}
use qnx_unit_tests.Mmio.Traffic.{
  arrived, unmask, await_pulse, timed_out, after_pulse, wait_for_completion, exchange, tag_at,
  get_mount_tag,
}
use qnx_unit_tests.Mmio.Balance.{
  regs_held, Books, Idle, Ended, idle-held, read_reg-Keeps, write_reg-Keeps,
}
use qnx_unit_tests.Mmio.Stages.{shutdown-Idle, initialize-Ended, reset_device-Books}

module _ {W : Type 0} (live : W → ℕ) (k : Machine W) (accounts : Accounts live k) (e : Errno)
    (n : ℕ) where
  abbrev MmioTrip : {A : Type 0} → Run (Driver Mmio W) A → Type 0
  MmioTrip m = Trip live regs_held n m

  arrived-Trip : (r : ℕ × ℕ) → MmioTrip (arrived k e r)
  arrived-Trip r =
      if-Ends (is_negative r.0) (give-Ends (neg32 e.eio, r.1) λ s p. p)
        (give-Ends (0, r.1) λ s p. p)

  after_pulse-Trip : (fuel : ℕ) → MmioTrip (after_pulse k e fuel)
  unfolding after_pulse
  after_pulse-Trip fuel =
      bind-Ends (lift-Ends (read_reg-Keeps live k accounts e n AnyLink interrupt_status_reg)) λ isr.
        bind-Ends (lift-Ends (write_reg-Keeps live k accounts e n AnyLink interrupt_ack_reg isr))
          λ _.
            bind-Ends {Q = λ _. Books live n AnyLink} {m = lift (unmask k e)}
              (record {
                run = λ d p. (accounts.unmask_counts d.own.irq d.link.irq_id d.world ∙ p.0, tt);
              })
              λ _. bind-Ends (look-Trip live regs_held n k accounts fuel 0) λ (r : ℕ × ℕ).
                if-Ends (is_negative r.0)
                  (bind-Ends (spin-Trip live regs_held n k accounts fuel 100 r.1) arrived-Trip)
                  (arrived-Trip r)

  wait_for_completion-Trip : (fuel : ℕ) → MmioTrip (wait_for_completion k e fuel)
  unfolding wait_for_completion
  wait_for_completion-Trip fuel =
      bind-Ends {Q = λ _. Books live n AnyLink} {m = lift (await_pulse k e)}
        (record { run = λ d p. (accounts.pulse_counts d.link.chid 30000000000 d.world ∙ p.0, tt) })
        λ (got : Bool).
          if-Ends {n = timed_out k e} got (after_pulse-Trip fuel) (record { run = λ d p. p })

  exchange-Trip : (fuel : ℕ) (request : List ℕ) → MmioTrip (exchange k e fuel request)
  unfolding exchange
  exchange-Trip fuel request =
      exchange_with-Trip live regs_held n e (write_reg k e queue_notify_reg 0)
        (wait_for_completion k e fuel) (reset_device k e)
        (lift-Ends (write_reg-Keeps live k accounts e n AnyLink queue_notify_reg 0))
        (wait_for_completion-Trip fuel) (lift-Ends (reset_device-Books live k accounts e n)) request

  tag_at-live : (einval : ℕ) (o : Option ℕ) (w : W) → live (tag_at k e einval o w).1 ≡ live w
  tag_at-live einval none w = refl
  tag_at-live einval (some regs) w = read_tag-live live k accounts einval (regs + config_reg) w

  get_mount_tag-Books :
      (d : Driver Mmio W) → Books live n AnyLink d → Books live n AnyLink (get_mount_tag k e d).1
  unfolding get_mount_tag
  get_mount_tag-Books d p = (tag_at-live e.einval d.own.regs d.world ∙ p.0, tt)

module _ {W : Type 0} (k : Machine W) (e : Errno) where
  -- A state of the transport that was in the first state before Initialize, which returned 0.
  pub data Life : Driver Mmio W → Driver Mmio W → Type 0 where
    begun : (d : Driver Mmio W) → (initialize k e d).0 ≡ 0 → Life d (initialize k e d).1
    was_reset : (d d' : Driver Mmio W) → Life d d' → Life d (reset_device k e d').1
    tagged : (d d' : Driver Mmio W) → Life d d' → Life d (get_mount_tag k e d').1
    exchanged :
        (fuel : ℕ) (request : List ℕ) (r : ℕ × List ℕ) (d d' d'' : Driver Mmio W)
        → Life d d'
        → exchange k e fuel request d' ≡ ok (r, d'')
        → Life d d''

module _ {W : Type 0} (live : W → ℕ) (k : Machine W) (accounts : Accounts live k) (e : Errno) where
  begun-Books : (n : ℕ) (rc : ℕ) (d : Driver Mmio W) → Ended live n rc d → Books live n AnyLink d
  begun-Books n rc d (inl (_, p)) = p
  begun-Books n rc d (inr (same, idle)) =
      (omega (arith, same, ap held idle.0, idle-held d.link idle.1 idle.2), tt)

  Life-Books :
      (d d' : Driver Mmio W) → Idle d → Life k e d d' → Books live (live d.world) AnyLink d'
  Life-Books d _ idle (begun _ _) =
      begun-Books (live d.world) (initialize k e d).0 (initialize k e d).1
        ((initialize-Ended live k accounts e (live d.world)).run d (refl, idle))
  Life-Books d _ idle (was_reset _ d' life) =
      (reset_device-Books live k accounts e (live d.world)).run d' (Life-Books d d' idle life)
  Life-Books d _ idle (tagged _ d' life) =
      get_mount_tag-Books live k accounts e (live d.world) d' (Life-Books d d' idle life)
  Life-Books d _ idle (exchanged fuel request r _ d' d'' life ends) =
      subst (After (λ _. Books live (live d.world) AnyLink)) ends (
        (exchange-Trip live k accounts e (live d.world) fuel request).run d'
          (Life-Books d d' idle life))

  -- The transport starts with nothing. However it lives, Shutdown at the end leaves the kernel with as
  -- many mappings, channels, connections and interrupts as there were before Initialize, and the
  -- transport with none.
  pub shutdown-Life :
      (d d' : Driver Mmio W)
      → Idle d
      → Life k e d d'
      → (live (shutdown k e d').1.world ≡ live d.world) × Idle (shutdown k e d').1
  shutdown-Life d d' idle life =
      (shutdown-Idle live k accounts e (live d.world)).run d' (Life-Books d d' idle life)

  -- Where it starts with nothing, Initialize returns 0 and what the kernel holds more is what the
  -- transport's fields name, or it has given back everything that it took.
  pub initialize-Balanced :
      (d : Driver Mmio W)
      → Idle d
      → Ended live (live d.world) (initialize k e d).0 (initialize k e d).1
  initialize-Balanced d idle =
      (initialize-Ended live k accounts e (live d.world)).run d (refl, idle)
