-- ===== src/Mmio/Stages.antt =====
-- The books of the kernel's resources through Initialize, ResetDevice and Shutdown of
-- transport/mmio_transport.cpp.
use qnx_unit_tests.Base.{ℕ, ◌+◌, Option, none, some, ◌≡◌, refl, ap, inl, inr, arith, ◌!=◌}
use qnx_unit_tests.Base.Proc.{update, Gives, done-Gives, bind-Gives, if-Gives}
use qnx_unit_tests.Registers.{magic_value_reg, device_id_reg, virtio_9p_device_id, status_reg}
use qnx_unit_tests.Transport.{Errno, neg32}
use qnx_unit_tests.Virtqueue.Mappings.{held, Mapped-held}
use qnx_unit_tests.Machine.{Machine}
use qnx_unit_tests.Link.{Link, reset_queue, detach_irq, Failure, code}
use qnx_unit_tests.Link.Balance.{
  Accounts, AnyLink, NoRequest, Then, andthen-Then, detach_irq-Stage, free_buffers-Stage,
  reset_queue-Stage,
}
use qnx_unit_tests.Link.Setup.{alloc_request-Then, alloc_response-Then, attach_irq-Then}
use qnx_unit_tests.Mmio.{Mmio, unmap, shutdown}
use qnx_unit_tests.Link.Steps.{reset_code}
use qnx_unit_tests.Link.Books.{done-Keeps, must-Then, quiesce-Keeps, reset_code-Keeps}
use qnx_unit_tests.Mmio.Start.{
  check_reg, bring_up, give_up, verify, after_map, map_regs, initialize, quiet_at, quiet,
  reset_device,
}
use qnx_unit_tests.Mmio.Balance.{
  regs_held, Books, Keeps, Idle, Ended, idle-held, unmap_regs-live, read_reg-Keeps, write_reg-Keeps,
  negotiate_features-Keeps, setup_virtqueue-Keeps,
}

module _ {W : Type 0} (live : W → ℕ) (k : Machine W) (accounts : Accounts live k) (e : Errno)
    (n : ℕ) where
  module _ (I : Link → Type 0) where
    check_reg-Then :
        (offset expected : ℕ)
        → Gives
            (Books live n I)
            (Then live regs_held n (Books live n I))
            (check_reg k e offset expected)
    unfolding check_reg
    check_reg-Then offset expected = bind-Gives (read_reg-Keeps live k accounts e n I offset) λ v.
        if-Gives (v != expected) (done-Gives (some (code (neg32 e.enodev))) λ s p. (p.0, tt))
          (done-Gives none λ s p. p)

    quiet_at-Keeps : (o : Option ℕ) → Keeps live n I (quiet_at k e o)
    quiet_at-Keeps none = done-Keeps live regs_held n I tt
    quiet_at-Keeps (some regs) =
        bind-Gives (write_reg-Keeps live k accounts e n I status_reg 0) λ _.
          quiesce-Keeps live regs_held n k accounts I _ 100
            (read_reg-Keeps live k accounts e n I status_reg)

  bring_up-Then :
      Gives (Books live n NoRequest) (Then live regs_held n (Books live n AnyLink)) (bring_up k e)
  unfolding bring_up
  bring_up-Then =
      andthen-Then live regs_held n
        (must-Then live regs_held n NoRequest
          (negotiate_features-Keeps live k accounts e n NoRequest))
        (andthen-Then live regs_held n
          (must-Then live regs_held n NoRequest
            (setup_virtqueue-Keeps live k accounts e n NoRequest λ l o h. h))
          (andthen-Then live regs_held n (alloc_request-Then live regs_held k accounts e n) (
            andthen-Then live regs_held n (alloc_response-Then live regs_held k accounts e n)
              (record {
                run = λ d. (attach_irq-Then live regs_held k accounts e n d.own.irq).run d;
              }))))

  verify-Then :
      Gives (Books live n NoRequest) (Then live regs_held n (Books live n AnyLink)) (verify k e)
  unfolding verify
  verify-Then =
      andthen-Then live regs_held n (check_reg-Then NoRequest magic_value_reg 0x74726976) (
        andthen-Then live regs_held n (check_reg-Then NoRequest device_id_reg virtio_9p_device_id)
          bring_up-Then)

  pub shutdown-Idle :
      Gives (Books live n AnyLink) (λ _ d. (live d.world ≡ n) × Idle d) (shutdown k e)
  unfolding shutdown
  shutdown-Idle = bind-Gives (detach_irq-Stage live regs_held k accounts n) λ _.
      bind-Gives (free_buffers-Stage live regs_held k accounts n) λ _.
        bind-Gives (write_reg-Keeps live k accounts e n NoRequest status_reg 0) λ _.
          bind-Gives {Q = λ _ d. Books live n NoRequest d × (d.own.regs ≡ none)} {m = unmap k e}
            {f = λ _. reset_queue k}
            (record {
              run = λ d p. (
                (
                  omega (
                    arith,
                    p.0,
                    unmap_regs-live live k accounts d.own.regs d.own.region_size d.world,
                  ),
                  p.1,
                ),
                refl,
              );
            })
            λ _. record {
              run = λ d p.
                  let r =
                    (reset_queue-Stage live regs_held k accounts n NoRequest λ l o h. h).run d
                      p.0 in
                  (
                    omega (
                      arith,
                      r.0,
                      ap held p.1,
                      idle-held (reset_queue {T = Mmio} k d).1.link r.1.0 r.1.1,
                    ),
                    (p.1, r.1.0, r.1.1),
                  );
            }

  give_up-Ended :
      (failed : Option Failure)
      → Gives
          (Then live regs_held n (Books live n AnyLink) failed)
          (Ended live n)
          (give_up k e failed)
  give_up-Ended none = done-Gives 0 λ d p. inl (refl, p)
  give_up-Ended (some f) =
      bind-Gives {f = λ _. reset_code k (some f)} shutdown-Idle λ _. record { run = λ d p. inr p }

  after_map-Ended :
      (regs : Option ℕ)
      → Gives
          (λ d. Books live n NoRequest d × (d.link.virtqueue ≡ none) × (d.own.regs ≡ regs))
          (Ended live n)
          (after_map k e regs)
  after_map-Ended none = record {
    run = λ d p.
        inr (omega (arith, p.0.0, ap held p.2, idle-held d.link p.1 p.0.1), (p.2, p.1, p.0.1));
  }
  after_map-Ended (some virt) =
      bind-Gives (record { run = λ d p. verify-Then.run d p.0 }) give_up-Ended

  pub initialize-Ended : Gives (λ d. (live d.world ≡ n) × Idle d) (Ended live n) (initialize k e)
  unfolding initialize
  initialize-Ended =
      bind-Gives {Q = λ regs d. (live d.world ≡ n + held regs) × Idle d} {m = map_regs k e}
        (record {
          run = λ d p. (
            omega (
              arith,
              p.0,
              Mapped-held live _ _
                  (accounts.map_counts d.own.region_size d.own.base_address d.world),
            ),
            p.1,
          );
        })
        λ regs.
          bind-Gives
            {Q = λ _ d. Books live n NoRequest d × (d.link.virtqueue ≡ none) × (d.own.regs ≡ regs)}
            {m = update λ d. record d { own = record d.own { regs = regs } }}
            (record {
              run = λ d p. ((omega (arith, p.0, idle-held d.link p.1.1 p.1.2), p.1.2), p.1.1, refl);
            })
            λ _. after_map-Ended regs

  -- ResetDevice keeps the books, whether it goes well or not.
  pub reset_device-Books :
      Gives (Books live n AnyLink) (λ _. Books live n AnyLink) (reset_device k e)
  unfolding reset_device
  reset_device-Books =
      bind-Gives {m = quiet k e} (record { run = λ d. (quiet_at-Keeps AnyLink d.own.regs).run d })
        λ _. bind-Gives (reset_queue-Stage live regs_held k accounts n AnyLink λ l o h. h) λ _.
          bind-Gives {m = detach_irq {T = Mmio} k}
            (record { run = λ d p. (detach_irq-Stage live regs_held k accounts n).run d (p.0, tt) })
            λ _. bind-Gives (free_buffers-Stage live regs_held k accounts n) λ _.
              bind-Gives bring_up-Then λ failed. reset_code-Keeps live regs_held n k accounts failed
