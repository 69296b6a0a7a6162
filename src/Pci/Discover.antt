-- ===== src/Pci/Discover.antt =====
-- DiscoverDevice of transport/pci_transport.cpp.
use qnx_unit_tests.Base.{ℕ, List, Option, none, some}
use qnx_unit_tests.Base.Run.{Run, give, lift, ◌>>=◌, ◌>>◌, ◌before◌}
use qnx_unit_tests.Registers.Pci.{virtio_pci_vendor_id, virtio_9p_pci_device_id}
use qnx_unit_tests.Transport.{Errno, neg32}
use qnx_unit_tests.Machine.{Machine}
use qnx_unit_tests.Link.{Driver, call}
use qnx_unit_tests.Pci.{Pci, set_own}
use qnx_unit_tests.Pci.Bus.{Bar, Bus}
use qnx_unit_tests.Pci.Scan.{CapInfo, Found, nothing_found, or_zero, scan}
use qnx_unit_tests.Pci.Bars.{map_bars, set_pointers}
use qnx_unit_tests.Pci.Interrupts.{enable_bus, choose_msix, legacy_irq, finish_msix}

module _ {W : Type 0} (k : Machine W) (bus : Bus W) (e : Errno) where
  -- What is done with the registers.
  abbrev pub with_bars :
      ℕ → ℕ → CapInfo → CapInfo → Found → ℕ × ℕ → Option (List Bar) → Run (Driver Pci W) (Option ℕ)
  with_bars bdf hdl common notify found table none = give (some (neg32 e.eio))
  with_bars bdf hdl common notify found table (some bars) =
      map_bars k found table.0 bars
      before set_pointers e common notify found
      before finish_msix bus k e bdf hdl table

  -- What follows the enabling of the bus.
  unfoldable pub configure : ℕ → ℕ → CapInfo → CapInfo → Found → Run (Driver Pci W) (Option ℕ)
  unfolding choose_msix legacy_irq map_bars set_pointers finish_msix
  configure bdf hdl common notify found = do
    table ← lift (choose_msix bus bdf)
    lift (legacy_irq bus e hdl) before (do
      bars ← lift (call (bus.read_ba hdl))
      with_bars bdf hdl common notify found table bars)

  abbrev pub with_handle : ℕ → CapInfo → CapInfo → Found → Option ℕ → Run (Driver Pci W) (Option ℕ)
  with_handle bdf common notify found none = give (some (neg32 e.eio))
  with_handle bdf common notify found (some hdl) =
      lift (enable_bus bus e bdf hdl) before configure bdf hdl common notify found

  abbrev pub attach_device : ℕ → CapInfo → CapInfo → Found → Run (Driver Pci W) (Option ℕ)
  attach_device bdf common notify found = do
    handle ← lift (call (bus.device_attach bdf))
    lift (set_own λ t. record t { pci_handle = handle })
    with_handle bdf common notify found handle

  -- The check of the required capabilities.
  abbrev pub required : ℕ → Found → Option CapInfo → Option CapInfo → Run (Driver Pci W) (Option ℕ)
  required bdf found (some common) (some notify) = attach_device bdf common notify found
  required bdf found (some common) none = give (some (neg32 e.enodev))
  required bdf found none notify = give (some (neg32 e.enodev))

  -- The scan starts behind the header; 48 rounds reach its end.
  abbrev pub probe : Option ℕ → Run (Driver Pci W) (Option ℕ)
  probe none = give (some (neg32 e.enodev))
  probe (some bdf) = do
    found ← scan bus bdf 48 0x40 nothing_found
    required bdf found found.common found.notify

  unfoldable pub discover_device : Run (Driver Pci W) ℕ
  unfolding scan configure enable_bus
  discover_device = do
    bdf ← lift (call (bus.device_find virtio_pci_vendor_id virtio_9p_pci_device_id))
    rc ← probe bdf
    give (or_zero rc)
