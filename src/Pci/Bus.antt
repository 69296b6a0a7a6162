-- ===== src/Pci/Bus.antt =====
-- What transport/pci_transport.cpp uses of the PCI server's library <pci/pci.h> and of the resource
-- database, over the state of the machine. A call that fails leaves the variable that it was to write.
use qnx_unit_tests.Base.{ℕ, List, Option, Bool}

-- pci_ba_t: the number, the address and the size of a base address register.
pub record Bar : Type 0 where
  pub bar_num : ℕ
  pub addr : ℕ
  pub size : ℕ

pub record Bus (W : Type 0) : Type 0 where
  -- pci_device_find for a vendor and a device; `none` is PCI_BDF_NONE
  pub device_find : ℕ → ℕ → W → Option ℕ × W
  -- pci_device_cfg_rd32 at an offset; `none` is an error, as in all that follows
  pub cfg_rd32 : ℕ → ℕ → W → Option ℕ × W
  pub cfg_wr16 : ℕ → ℕ → ℕ → W → W
  pub device_attach : ℕ → W → Option ℕ × W
  pub device_detach : ℕ → W → W
  pub read_cmd : ℕ → W → Option ℕ × W
  pub write_cmd : ℕ → ℕ → W → Bool × W
  -- pci_device_read_irq, the interrupts that it reports, and pci_device_read_ba, at most six registers
  pub read_irq : ℕ → W → Option (List ℕ) × W
  pub read_ba : ℕ → W → Option (List Bar) × W
  -- rsrcdbmgr_create, rsrcdbmgr_attach, which gives the interrupt, and rsrcdbmgr_detach
  pub rsrc_create : ℕ → W → W
  pub rsrc_attach : ℕ → W → Option ℕ × W
  pub rsrc_detach : ℕ → W → W
