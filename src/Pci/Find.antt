-- ===== src/Pci/Find.antt =====
-- The books of the kernel's resources through the scan of DiscoverDevice of transport/pci_transport.cpp.
use qnx_unit_tests.Base.{ℕ, ◌+◌, ◌-◌, ◌%◌, ◌^◌, Option, none, some, ◌≡◌, leb, ltb, ◌==◌, ◌!=◌, ◌||◌}
use qnx_unit_tests.Base.Proc.{Proc, done, Gives, done-Gives, bind-Gives, if-Gives}
use qnx_unit_tests.Registers.Pci.{common_cfg_type, notify_cfg_type, isr_cfg_type, device_cfg_type}
use qnx_unit_tests.Virtqueue.Start.{Mapped}
use qnx_unit_tests.Link.{Driver, call}
use qnx_unit_tests.Pci.{Pci, set_own}
use qnx_unit_tests.Pci.Bus.{Bus}
use qnx_unit_tests.Pci.Scan.{
  CapInfo, Found, or_zero, skipped, read_dword, read_multiplier, note_cap, vendor_cap, capability,
  scan_at,
}

-- A hold on the device is counted; the interrupts of the resource database are not.
pub record BusAccounts {W : Type 0} (live : W → ℕ) (bus : Bus W) : Type 0 where
  pub find_counts : (vendor device : ℕ) (w : W) → live (bus.device_find vendor device w).1 ≡ live w
  pub rd32_counts : (bdf offset : ℕ) (w : W) → live (bus.cfg_rd32 bdf offset w).1 ≡ live w
  pub wr16_counts : (hdl offset v : ℕ) (w : W) → live (bus.cfg_wr16 hdl offset v w) ≡ live w
  pub attach_counts : (bdf : ℕ) (w : W) → Mapped live (live w) (bus.device_attach bdf w)
  pub detach_counts : (hdl : ℕ) (w : W) → live (bus.device_detach hdl w) ≡ live w - 1
  pub read_cmd_counts : (bdf : ℕ) (w : W) → live (bus.read_cmd bdf w).1 ≡ live w
  pub write_cmd_counts : (hdl cmd : ℕ) (w : W) → live (bus.write_cmd hdl cmd w).1 ≡ live w
  pub read_irq_counts : (hdl : ℕ) (w : W) → live (bus.read_irq hdl w).1 ≡ live w
  pub read_ba_counts : (hdl : ℕ) (w : W) → live (bus.read_ba hdl w).1 ≡ live w
  pub create_counts : (irq : ℕ) (w : W) → live (bus.rsrc_create irq w) ≡ live w
  pub rsrc_attach_counts : (irq : ℕ) (w : W) → live (bus.rsrc_attach irq w).1 ≡ live w
  pub rsrc_detach_counts : (irq : ℕ) (w : W) → live (bus.rsrc_detach irq w) ≡ live w

-- A condition that the calls of the bus and what the scan notes in the fields leave.
pub record Unmoved {W : Type 0} (live : W → ℕ) (P : Driver Pci W → Type 0) : Type 0 where
  pub world_moves :
      (d : Driver Pci W) (w : W) → live w ≡ live d.world → P d → P (record d { world = w })
  pub notes_move :
      (d : Driver Pci W) (cap mult : ℕ)
      → P d
      → P (record d {
        own = record d.own { msix_cap_offset = cap; notify_offset_multiplier = mult };
      })

module _ {W : Type 0} (live : W → ℕ) (bus : Bus W) (bus_accounts : BusAccounts live bus)
    (P : Driver Pci W → Type 0) (unmoved : Unmoved live P) where
  abbrev pub Stays : {A : Type 0} → Proc (Driver Pci W) A → Type 0
  Stays m = Gives P (λ _. P) m

  stay-Stays : {A : Type 0} (a : A) → Stays (done a)
  stay-Stays a = done-Gives a λ s p. p

  module _ (bdf : ℕ) where
    read-Stays : (offset : ℕ) → Stays (call (bus.cfg_rd32 bdf offset))
    read-Stays offset = record {
      run = λ d p. unmoved.world_moves d _ (bus_accounts.rd32_counts bdf offset d.world) p;
    }

    pub read_dword-Stays : (offset : ℕ) → Stays (read_dword bus bdf offset)
    read_dword-Stays offset = bind-Gives (read-Stays offset) λ v. stay-Stays (or_zero v)

    read_multiplier-Stays : (cap_len offset : ℕ) → Stays (read_multiplier bus bdf cap_len offset)
    read_multiplier-Stays cap_len offset =
        if-Gives (leb 20 cap_len)
          (bind-Gives (read_dword-Stays (offset + 16))
            λ mult. record { run = λ d p. unmoved.notes_move d d.own.msix_cap_offset mult p })
          (stay-Stays tt)

    note_cap-Stays :
        (cfg_type cap_len offset : ℕ) (info : CapInfo) (found : Found)
        → Stays (note_cap bus bdf cfg_type cap_len offset info found)
    unfolding note_cap
    note_cap-Stays cfg_type cap_len offset info found =
        if-Gives (cfg_type == common_cfg_type) (stay-Stays (record found { common = some info })) (
          if-Gives (cfg_type == notify_cfg_type)
            (bind-Gives (read_multiplier-Stays cap_len offset)
              λ _. stay-Stays (record found { notify = some info }))
            (if-Gives (cfg_type == device_cfg_type)
              (stay-Stays (record found { device = some info }))
              (if-Gives (cfg_type == isr_cfg_type) (stay-Stays (record found { isr = some info }))
                (stay-Stays found))))

    vendor_cap-Stays :
        (offset cap_len cfg_type : ℕ) (found : Found)
        → Stays (vendor_cap bus bdf offset cap_len cfg_type found)
    unfolding vendor_cap
    vendor_cap-Stays offset cap_len cfg_type found =
        if-Gives (ltb cfg_type 1 || ltb 5 cfg_type || ltb cap_len 16)
          (stay-Stays (offset + 4, found))
          (bind-Gives (read_dword-Stays (offset + 4)) λ dword1.
            bind-Gives (read_dword-Stays (offset + 8)) λ bar_offset.
              bind-Gives (read_dword-Stays (offset + 12)) λ bar_length.
                bind-Gives
                  (note_cap-Stays cfg_type cap_len offset
                    (record { bar = dword1 % 2 ^ 8; offset = bar_offset; length = bar_length })
                    found)
                  λ found'. stay-Stays (offset + skipped cap_len + 4, found'))

    capability-Stays :
        (offset : ℕ) (found : Found) (o : Option ℕ) → Stays (capability bus bdf offset found o)
    capability-Stays offset found none = stay-Stays (offset + 4, found)
    capability-Stays offset found (some hdr0) =
        if-Gives (hdr0 % 2 ^ 8 == 0x11)
          (bind-Gives {Q = λ _. P} {m = set_own λ t. record t { msix_cap_offset = offset }}
            (record { run = λ d p. unmoved.notes_move d offset d.own.notify_offset_multiplier p })
            λ _. stay-Stays (offset + 4, found))
          (if-Gives (hdr0 % 2 ^ 8 != 0x09) (stay-Stays (offset + 4, found))
            (vendor_cap-Stays offset _ _ found))

    pub scan_at-Stays : (offset : ℕ) (found : Found) → Stays (scan_at bus bdf offset found)
    unfolding scan_at
    scan_at-Stays offset found =
        bind-Gives (read-Stays offset) λ hdr0. capability-Stays offset found hdr0
