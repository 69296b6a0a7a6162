-- ===== src/Pci/Stages.antt =====
-- The books of the kernel's resources through the whole of DiscoverDevice of
-- transport/pci_transport.cpp.
use qnx_unit_tests.Base.{ℕ, zero, suc, List, Option, none, some, ◌≡◌, ap, ◌∙◌, arith, ltb}
use qnx_unit_tests.Base.Run.{Run, lift, Ends, give-Ends, lift-Ends, bind-Ends, if-Ends, before-Ends}
use qnx_unit_tests.Registers.Pci.{virtio_pci_vendor_id, virtio_9p_pci_device_id}
use qnx_unit_tests.Transport.{Errno}
use qnx_unit_tests.Virtqueue.Mappings.{held}
use qnx_unit_tests.Machine.{Machine}
use qnx_unit_tests.Link.{Link, Driver, call}
use qnx_unit_tests.Link.Balance.{
  Accounts, NoRequest, Owes, call-Keeps, call-Owes, queue_held, link_held,
}
use qnx_unit_tests.Pci.{Pci, set_own}
use qnx_unit_tests.Pci.Bus.{Bar, Bus}
use qnx_unit_tests.Pci.Scan.{CapInfo, Found, nothing_found, or_zero, cap_region_end, scan}
use qnx_unit_tests.Pci.Discover.{
  with_bars, configure, with_handle, attach_device, required, probe, discover_device,
}
use qnx_unit_tests.Pci.Balance.{bars_held, own_held, Books}
use qnx_unit_tests.Pci.Find.{BusAccounts, Unmoved, scan_at-Stays}
use qnx_unit_tests.Pci.Obtain.{choose_msix-Keeps, legacy_irq-Keeps, enable_bus-Keeps}
use qnx_unit_tests.Pci.Hold.{map_bars-Trip, set_pointers-Trip, finish_msix-Trip}

pub idle-held : (l : Link) → l.virtqueue ≡ none → NoRequest l → link_held l ≡ 0
idle-held l q (req, (resp, (chid, (coid, irq)))) =
    omega
      (arith, ap queue_held q, ap held req, ap held resp, ap held chid, ap held coid, ap held irq)

-- The transport holds nothing.
abbrev pub Idle : {W : Type 0} → Driver Pci W → Type 0
Idle d =
    (bars_held d.own.bars ≡ 0)
    × (d.own.pci_handle ≡ none)
    × (d.link.virtqueue ≡ none)
    × NoRequest d.link

module _ {W : Type 0} (live : W → ℕ) (k : Machine W) (accounts : Accounts live k) (bus : Bus W)
    (bus_accounts : BusAccounts live bus) (e : Errno) (n : ℕ) where
  module _ (I : Link → Type 0) where
    abbrev KeepsRun : {A : Type 0} → Run (Driver Pci W) A → Type 0
    KeepsRun m = Ends (Books live n I) (λ _. Books live n I) m

    with_bars-Trip :
        (bdf hdl : ℕ) (common notify : CapInfo) (found : Found) (table : ℕ × ℕ)
        (o : Option (List Bar))
        → KeepsRun (with_bars k bus e bdf hdl common notify found table o)
    with_bars-Trip bdf hdl common notify found table none = give-Ends _ λ s p. p
    with_bars-Trip bdf hdl common notify found table (some bars) =
        before-Ends (map_bars-Trip live k accounts bus bus_accounts e n I found table.0 bars) (
          before-Ends (set_pointers-Trip live k accounts bus bus_accounts e n I common notify found)
            (finish_msix-Trip live k accounts bus bus_accounts e n I bdf hdl table))

    configure-Trip :
        (bdf hdl : ℕ) (common notify : CapInfo) (found : Found)
        → KeepsRun (configure k bus e bdf hdl common notify found)
    unfolding configure
    configure-Trip bdf hdl common notify found =
        bind-Ends (lift-Ends (choose_msix-Keeps live k accounts bus bus_accounts e n I bdf))
          λ table.
            before-Ends (lift-Ends (legacy_irq-Keeps live k accounts bus bus_accounts e n I hdl)) (
              bind-Ends
                (lift-Ends (
                  call-Keeps live own_held n 0 I (bus.read_ba hdl)
                    (bus_accounts.read_ba_counts hdl)))
                (with_bars-Trip bdf hdl common notify found table))

    with_handle-Trip :
        (bdf : ℕ) (common notify : CapInfo) (found : Found) (o : Option ℕ)
        → KeepsRun (with_handle k bus e bdf common notify found o)
    with_handle-Trip bdf common notify found none = give-Ends _ λ s p. p
    with_handle-Trip bdf common notify found (some hdl) =
        before-Ends (lift-Ends (enable_bus-Keeps live k accounts bus bus_accounts e n I bdf hdl))
          (configure-Trip bdf hdl common notify found)

    -- From a transport without a hold on the device.
    abbrev Free : Driver Pci W → Type 0
    Free d = Books live n I d × (d.own.pci_handle ≡ none)

    Free-Unmoved : Unmoved live Free
    Free-Unmoved = record {
      world_moves = λ d w same p. ((same ∙ p.0.0, p.0.1), p.1);
      notes_move = λ d cap mult p. p;
    }

    scan-Free :
        (bdf fuel offset : ℕ) (found : Found)
        → Ends Free (λ _. Free) (scan bus bdf fuel offset found)
    unfolding scan
    scan-Free bdf zero offset found =
        if-Ends (ltb cap_region_end offset) (give-Ends found λ s p. p) (record { run = λ s p. tt })
    scan-Free bdf (suc fuel) offset found =
        if-Ends (ltb cap_region_end offset) (give-Ends found λ s p. p) (
          bind-Ends
            (lift-Ends (scan_at-Stays live bus bus_accounts Free Free-Unmoved bdf offset found))
            λ r. scan-Free bdf fuel r.0 r.1)

    attach_device-Ends :
        (bdf : ℕ) (common notify : CapInfo) (found : Found)
        → Ends Free (λ _. Books live n I) (attach_device k bus e bdf common notify found)
    attach_device-Ends bdf common notify found =
        bind-Ends {Q = λ o d. (Owes live own_held n I (held o) d) × (d.own.pci_handle ≡ none)}
          {m = lift (call (bus.device_attach bdf))}
          (record {
            run = λ d p. (
              (call-Owes live own_held n I (bus.device_attach bdf)
                    (bus_accounts.attach_counts bdf)).run
                  d p.0,
              p.1,
            );
          })
          λ handle.
            bind-Ends {Q = λ _. Books live n I}
              {m = lift (set_own λ t. record t { pci_handle = handle })}
              (record { run = λ d p. (omega (arith, p.0.0, ap held p.1), p.0.1) })
              λ _. with_handle-Trip bdf common notify found handle

    required-Ends :
        (bdf : ℕ) (found : Found) (c o : Option CapInfo)
        → Ends Free (λ _. Books live n I) (required k bus e bdf found c o)
    required-Ends bdf found (some c) (some o) = attach_device-Ends bdf c o found
    required-Ends bdf found (some c) none = give-Ends _ λ s p. p.0
    required-Ends bdf found none o = give-Ends _ λ s p. p.0

    probe-Ends : (o : Option ℕ) → Ends Free (λ _. Books live n I) (probe k bus e o)
    probe-Ends none = give-Ends _ λ s p. p.0
    probe-Ends (some bdf) =
        bind-Ends (scan-Free bdf 48 0x40 nothing_found)
          λ found. required-Ends bdf found found.common found.notify

    pub discover_device-Ends : Ends Free (λ _. Books live n I) (discover_device k bus e)
    unfolding discover_device
    discover_device-Ends =
        bind-Ends {Q = λ _. Free}
          {m = lift (call (bus.device_find virtio_pci_vendor_id virtio_9p_pci_device_id))}
          (record {
            run = λ d p. (
              (
                bus_accounts.find_counts virtio_pci_vendor_id virtio_9p_pci_device_id d.world
                    ∙ p.0.0,
                p.0.1,
              ),
              p.1,
            );
          })
          λ bdf. bind-Ends (probe-Ends bdf) λ rc. give-Ends (or_zero rc) λ s p. p
