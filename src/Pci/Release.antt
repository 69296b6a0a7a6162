-- ===== src/Pci/Release.antt =====
-- The books of the kernel's resources through ResetDevice and Shutdown of
-- transport/pci_transport.cpp.
use qnx_unit_tests.Base.{
  ℕ, ◌+◌, ◌-◌, List, [], ◌∷◌, Option, none, some, false, ◌≡◌, refl, ap, arith, ◌!=◌, ◌&&◌,
}
use qnx_unit_tests.Base.Proc.{Gives, bind-Gives, if-Gives}
use qnx_unit_tests.Registers.Pci.{device_status_off}
use qnx_unit_tests.Transport.{Errno}
use qnx_unit_tests.Virtqueue.Mappings.{held}
use qnx_unit_tests.Machine.{Machine}
use qnx_unit_tests.Link.{Driver, detach_irq, reset_queue}
use qnx_unit_tests.Link.Balance.{
  Accounts, AnyLink, NoRequest, call-Keeps, detach_irq-Stage, free_buffers-Stage, reset_queue-Stage,
}
use qnx_unit_tests.Link.Books.{done-Keeps, set_own-Keeps, quiesce-Keeps}
use qnx_unit_tests.Pci.{Pci}
use qnx_unit_tests.Pci.Bus.{Bus}
use qnx_unit_tests.Pci.Start.{
  quiet_at, quiet, reset_device, stop_at, stop, unmap_bars, release_bars, msix_off_at, msix_off,
  release_irq, detach_device, release_device, shutdown,
}
use qnx_unit_tests.Pci.Balance.{
  bars_held, own_held, Books, Keeps, read_common-Keeps, write_common-Keeps, initialize_device-Books,
}
use qnx_unit_tests.Pci.Find.{BusAccounts}
use qnx_unit_tests.Pci.Stages.{idle-held, Idle}

module _ {W : Type 0} (live : W → ℕ) (k : Machine W) (accounts : Accounts live k) (n : ℕ) where
  module _ (e : Errno) where
    quiet_at-Keeps : (o : Option ℕ) → Keeps live n AnyLink (quiet_at k o)
    quiet_at-Keeps none = done-Keeps live own_held n AnyLink tt
    quiet_at-Keeps (some cfg) =
        bind-Gives (write_common-Keeps live k accounts n AnyLink cfg 8 device_status_off 0) λ _.
          quiesce-Keeps live own_held n k accounts AnyLink _ 100
            (read_common-Keeps live k accounts n AnyLink cfg 8 device_status_off)

    -- ResetDevice keeps the books, whether it goes well or not.
    pub reset_device-Books :
        Gives (Books live n AnyLink) (λ _. Books live n AnyLink) (reset_device k e)
    unfolding reset_device
    reset_device-Books =
        bind-Gives {m = quiet k} (record { run = λ d. (quiet_at-Keeps d.own.common_cfg).run d })
          λ _. bind-Gives (reset_queue-Stage live own_held k accounts n AnyLink λ l o h. h) λ _.
            bind-Gives {m = detach_irq {T = Pci} k}
              (record {
                run = λ d p. (detach_irq-Stage live own_held k accounts n).run d (p.0, tt);
              })
              λ _.
                bind-Gives (free_buffers-Stage live own_held k accounts n)
                  λ _. initialize_device-Books live k accounts n e

  stop_at-Keeps : (o : Option ℕ) → Keeps live n NoRequest (stop_at k o)
  stop_at-Keeps none = done-Keeps live own_held n NoRequest tt
  stop_at-Keeps (some cfg) =
      write_common-Keeps live k accounts n NoRequest cfg 8 device_status_off 0

  unmap_bars-live :
      (bars : List (Option ℕ × ℕ)) (w : W)
      → (live (unmap_bars k bars w).1 ≡ live w - bars_held bars)
        × (bars_held (unmap_bars k bars w).0 ≡ 0)
  unfolding unmap_bars
  unmap_bars-live [] w = (omega arith, refl)
  unmap_bars-live ((none, size) ∷ bars) w =
      let (less, empty) = unmap_bars-live bars w in (omega (arith, less), omega (arith, empty))
  unmap_bars-live ((some virt, size) ∷ bars) w =
      let (less, empty) = unmap_bars-live bars (k.unmap_device virt size w) in
      (omega (arith, less, accounts.unmap_counts virt size w), omega (arith, empty))

  module _ (bus : Bus W) (bus_accounts : BusAccounts live bus) where
    msix_off_at-Keeps : (o : Option ℕ) (cap : ℕ) → Keeps live n NoRequest (msix_off_at bus o cap)
    msix_off_at-Keeps none cap = done-Keeps live own_held n NoRequest tt
    msix_off_at-Keeps (some hdl) cap =
        if-Gives (cap != 0)
          (bind-Gives
            (call-Keeps live own_held n 0 NoRequest (λ w. (tt, bus.cfg_wr16 hdl (cap + 2) 0 w))
              (bus_accounts.wr16_counts hdl (cap + 2) 0))
            λ _.
              set_own-Keeps live own_held n NoRequest (λ t. record t { use_msix = false })
                λ t. refl)
          (done-Keeps live own_held n NoRequest tt)

    msix_off-Keeps : Keeps live n NoRequest (msix_off bus)
    msix_off-Keeps = record {
      run = λ d p.
          (if-Gives d.own.use_msix (msix_off_at-Keeps d.own.pci_handle d.own.msix_cap_offset)
              (done-Keeps live own_held n NoRequest tt)).run
            d p;
    }

    release_irq-Keeps : Keeps live n NoRequest (release_irq bus)
    release_irq-Keeps = record {
      run = λ d p.
          (if-Gives ((d.own.irq_num != 0) && (d.own.msix_cap_offset != 0))
              (call-Keeps live own_held n 0 NoRequest (λ w. (tt, bus.rsrc_detach d.own.irq_num w))
                (bus_accounts.rsrc_detach_counts d.own.irq_num))
              (done-Keeps live own_held n NoRequest tt)).run
            d p;
    }

    detach_device-live : (o : Option ℕ) (w : W) → live (detach_device bus o w) ≡ live w - held o
    detach_device-live none w = omega arith
    detach_device-live (some hdl) w = bus_accounts.detach_counts hdl w

    -- Without mapped registers, and without a hold on the device.
    abbrev NoBars : Driver Pci W → Type 0
    NoBars d = Books live n NoRequest d × (bars_held d.own.bars ≡ 0)

    abbrev NoDevice : Driver Pci W → Type 0
    NoDevice d = NoBars d × (d.own.pci_handle ≡ none)

    release_bars-NoBars : Gives (Books live n NoRequest) (λ _. NoBars) (release_bars k)
    release_bars-NoBars = record {
      run = λ d p.
          let (less, empty) = unmap_bars-live d.own.bars d.world in
          ((omega (arith, p.0, less, empty), p.1), empty);
    }

    release_device-NoDevice : Gives NoBars (λ _. NoDevice) (release_device bus)
    release_device-NoDevice = record {
      run = λ d p.
          (((omega (arith, p.0.0, detach_device-live d.own.pci_handle d.world), p.0.1), p.1), refl);
    }

    reset_queue-Idle : Gives NoDevice (λ _ d. (live d.world ≡ n) × Idle d) (reset_queue {T = Pci} k)
    unfolding reset_queue
    reset_queue-Idle = record {
      run = λ d p.
          let r = (reset_queue-Stage live own_held k accounts n NoRequest λ l o h. h).run d p.0.0 in
          (
            omega (
              arith,
              r.0,
              p.0.1,
              ap held p.1,
              idle-held (reset_queue {T = Pci} k d).1.link r.1.0 r.1.1,
            ),
            (p.0.1, p.1, r.1.0, r.1.1),
          );
    }

    pub shutdown-Idle :
        Gives (Books live n AnyLink) (λ _ d. (live d.world ≡ n) × Idle d) (shutdown k bus)
    unfolding shutdown
    shutdown-Idle = bind-Gives (detach_irq-Stage live own_held k accounts n) λ _.
        bind-Gives (free_buffers-Stage live own_held k accounts n) λ _.
          bind-Gives {m = stop k} (record { run = λ d. (stop_at-Keeps d.own.common_cfg).run d })
            λ _. bind-Gives msix_off-Keeps λ _. bind-Gives release_irq-Keeps λ _.
              bind-Gives
                (set_own-Keeps live own_held n NoRequest (λ t. record t { msix_table = none })
                  λ t. refl)
                λ _.
                  bind-Gives release_bars-NoBars
                    λ _. bind-Gives release_device-NoDevice λ _. reset_queue-Idle
