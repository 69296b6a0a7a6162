-- ===== src/Pci/Completes.antt =====
-- Initialize of transport/pci_transport.cpp comes to its end over a configuration space whose
-- capabilities name registers that there are.
use qnx_unit_tests.Base.{
  ℕ, ◌<◌, List, Option, none, some, Bool, true, false, ◌≡◌, inl, arith, length, ◌!=◌, ok,
  if◌then◌else◌,
}
use qnx_unit_tests.Base.Run.{Run, give, lift, ◌>>=◌, ◌before◌}
use qnx_unit_tests.Base.Total.{
  Returns, give-Returns, lift-Returns, bind-Returns, if-Returns, before-Returns, Returned-ok,
}
use qnx_unit_tests.Registers.Pci.{virtio_pci_vendor_id, virtio_9p_pci_device_id}
use qnx_unit_tests.Transport.{Errno}
use qnx_unit_tests.Machine.{Machine}
use qnx_unit_tests.Link.{Driver, call}
use qnx_unit_tests.Pci.{Pci, set_own}
use qnx_unit_tests.Pci.Bus.{Bar, Bus}
use qnx_unit_tests.Pci.Scan.{CapInfo, Found, nothing_found, or_zero}
use qnx_unit_tests.Pci.Bars.{max_bars}
use qnx_unit_tests.Pci.Interrupts.{legacy_irq, finish_if, finish_msix}
use qnx_unit_tests.Pci.Discover.{
  with_bars, configure, with_handle, required, probe, discover_device,
}
use qnx_unit_tests.Pci.Start.{bring_up, initialize}
use qnx_unit_tests.Pci.Returns.{enable_bus-Through, legacy_irq-Through, choose_msix-InTable}
use qnx_unit_tests.Pci.Sane.{Sane, Within, Fine, scan-Fine}
use qnx_unit_tests.Pci.Ranges.{Good, bar_virt-GoesOn, map_bars-GoesOn, set_pointers-GoesOn}

module _ {W : Type 0} (k : Machine W) (bus : Bus W) (e : Errno) (words : ℕ → ℕ → Option ℕ)
    (sane : Sane bus words) (bdf : ℕ) where
  -- The end, of which only is asked that it comes.
  abbrev Halts : {A : Type 0} → Run (Driver Pci W) A → Type 0
  Halts m = Returns (Good k bus e words sane bdf) (λ _ _. Unit {0}) m

  finish_if-Halts :
      (hdl : ℕ) (table : ℕ × ℕ) (b : Bool)
      → table.0 < max_bars
      → Halts (finish_if bus k e bdf hdl table b)
  finish_if-Halts hdl table false low = record { run = λ d p. tt }
  finish_if-Halts hdl (table_bar, table_offset) true low =
      bind-Returns (bar_virt-GoesOn k bus e words sane bdf table_bar low)
        λ v. record { run = λ d p. tt }

  finish_msix-Halts :
      (hdl : ℕ) (table : ℕ × ℕ) → table.0 < max_bars → Halts (finish_msix bus k e bdf hdl table)
  unfolding finish_msix
  finish_msix-Halts hdl table low = record {
    run = λ d p. (finish_if-Halts hdl table d.own.use_msix low).run d p;
  }

  with_bars-Halts :
      (hdl : ℕ) (common notify : CapInfo) (found : Found) (table : ℕ × ℕ) (o : Option (List Bar))
      → Fine found
      → common.bar < max_bars
      → notify.bar < max_bars
      → table.0 < max_bars
      → Halts (with_bars k bus e bdf hdl common notify found table o)
  with_bars-Halts hdl common notify found table none fine c n low = give-Returns _ λ d p. tt
  with_bars-Halts hdl common notify found table (some bars) fine c n low =
      before-Returns (λ d p. tt) (map_bars-GoesOn k bus e words sane bdf found table.0 bars)
        (before-Returns (λ d p. tt)
          (set_pointers-GoesOn k bus e words sane bdf common notify found c n fine.2 fine.3)
          (finish_msix-Halts hdl table low))

  -- The rest of the set-up behind the choice of MSI-X.
  abbrev claimed : ℕ → CapInfo → CapInfo → Found → ℕ × ℕ → Run (Driver Pci W) (Option ℕ)
  claimed hdl common notify found table =
      lift (legacy_irq bus e hdl)
      before (lift (call (bus.read_ba hdl)) >>= with_bars k bus e bdf hdl common notify found table)

  claimed-Halts :
      (hdl : ℕ) (common notify : CapInfo) (found : Found) (table : ℕ × ℕ)
      → Fine found
      → common.bar < max_bars
      → notify.bar < max_bars
      → table.0 < max_bars
      → Halts (claimed hdl common notify found table)
  claimed-Halts hdl common notify found table fine c n low =
      before-Returns (λ d p. tt) (lift-Returns (legacy_irq-Through k bus e words sane bdf hdl))
        (bind-Returns {Q = λ _. (Good k bus e words sane bdf)} {m = lift (call (bus.read_ba hdl))}
          (record { run = λ d p. p })
          λ o. with_bars-Halts hdl common notify found table o fine c n low)

  with_handle-Halts :
      (common notify : CapInfo) (found : Found) (o : Option ℕ)
      → Fine found
      → common.bar < max_bars
      → notify.bar < max_bars
      → Halts (with_handle k bus e bdf common notify found o)
  unfolding configure
  with_handle-Halts common notify found none fine c n = give-Returns _ λ d p. tt
  with_handle-Halts common notify found (some hdl) fine c n =
      before-Returns (λ d p. tt) (lift-Returns (enable_bus-Through k bus e words sane bdf hdl))
        (bind-Returns {f = claimed hdl common notify found}
          (lift-Returns (choose_msix-InTable k bus e words sane bdf))
          λ table. record {
            run = λ d p. (claimed-Halts hdl common notify found table fine c n p.1).run d p.0;
          })

  required-Halts :
      (found : Found) (c o : Option CapInfo)
      → Fine found
      → Within c
      → Within o
      → Halts (required k bus e bdf found c o)
  required-Halts found (some c) (some o) fine hc ho =
      bind-Returns {Q = λ _. (Good k bus e words sane bdf)}
        {m = lift (call (bus.device_attach bdf))} (record { run = λ d p. p })
        λ handle.
          bind-Returns {Q = λ _. (Good k bus e words sane bdf)}
            {m = lift (set_own λ t. record t { pci_handle = handle })} (record { run = λ d p. p })
            λ _. with_handle-Halts c o found handle fine hc ho
  required-Halts found (some c) none fine hc ho = give-Returns _ λ d p. tt
  required-Halts found none o fine hc ho = give-Returns _ λ d p. tt

-- A transport before Initialize.
abbrev pub Begins : {W : Type 0} → Driver Pci W → Type 0
Begins d = (length d.own.bars ≡ max_bars) × (d.own.msix_cap_offset ≡ 0)

module _ {W : Type 0} (k : Machine W) (bus : Bus W) (e : Errno) (words : ℕ → ℕ → Option ℕ)
    (sane : Sane bus words) where
  -- What is found in the scan of a device.
  abbrev look_at : ℕ → Found → Run (Driver Pci W) (Option ℕ)
  look_at bdf found = required k bus e bdf found found.common found.notify

  probe-Halts : (o : Option ℕ) → Returns Begins (λ _ _. Unit {0}) (probe k bus e o)
  probe-Halts none = give-Returns _ λ d p. tt
  probe-Halts (some bdf) = record {
    run = λ d p.
        (bind-Returns {f = look_at bdf}
            (scan-Fine bus words sane bdf 48 0x40 nothing_found (tt, tt, tt, tt) (omega arith))
            λ found. record {
              run = λ d' q.
                  (required-Halts k bus e words sane bdf found found.common found.notify q.1 q.1.0
                      q.1.1).run
                    d' q.0;
            }).run
          d (p.0, inl p.1);
  }

  -- Where every capability of the configuration space names one of the six registers, Initialize comes
  -- to its end, whatever the calls of the machine and of the bus return: it makes no access out of the
  -- bounds of bar_virt_, and 48 rounds of the scan are enough.
  pub initialize-Returns :
      (d : Driver Pci W)
      → Begins d
      → (rc : ℕ) × (d' : Driver Pci W) × (initialize k bus e d ≡ ok (rc, d'))
  unfolding initialize discover_device
  initialize-Returns d p =
      let (rc, d', ends, over) = Returned-ok (initialize k bus e d) (
        (bind-Returns {Q = λ _ _. Unit {0}} {R = λ _ _. Unit {0}} {m = discover_device k bus e}
            {f = λ rc. if rc != 0 then give rc else lift (bring_up k bus e)}
            (bind-Returns {Q = λ _. Begins}
              {m = lift (call (bus.device_find virtio_pci_vendor_id virtio_9p_pci_device_id))}
              (record { run = λ d p. p })
              λ bdf. bind-Returns (probe-Halts bdf) λ rc. give-Returns (or_zero rc) λ d p. tt)
            λ rc. if-Returns (rc != 0) (give-Returns rc λ d p. tt) (record { run = λ d p. tt })).run
          d p) in
      (rc, d', ends)
