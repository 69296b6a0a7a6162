-- ===== src/Pci/Interrupts.antt =====
-- The command register and the interrupts in DiscoverDevice of transport/pci_transport.cpp. A step gives
-- the code with which DiscoverDevice returns at once, if it does.
use qnx_unit_tests.Base.{
  ℕ, ◌+◌, ◌-◌, ◌%◌, ◌^◌, List, [], ◌∷◌, Option, none, some, Bool, true, false, bit_and, bit_or,
  ◌==◌, if◌then◌else◌,
}
use qnx_unit_tests.Base.Proc.{Proc, done, ◌>>=◌, ◌>>◌}
use qnx_unit_tests.Base.Run.{Run, continue, lift}
use qnx_unit_tests.Transport.{Errno, neg32}
use qnx_unit_tests.Machine.{Machine}
use qnx_unit_tests.Link.{Driver, call}
use qnx_unit_tests.Pci.{Pci, get_own, set_own}
use qnx_unit_tests.Pci.Bus.{Bus}
use qnx_unit_tests.Pci.Scan.{or_zero, read_dword}
use qnx_unit_tests.Pci.Bars.{bar_virt}

-- kMsiInterruptBase
abbrev pub msi_interrupt_base : ℕ
msi_interrupt_base = 0x100

-- kMsiVectorNo + (irq_num_ - 0x100U), in 32 bits
abbrev pub apic_vector : ℕ → ℕ
apic_vector irq_num = (78 + irq_num + 2 ^ 32 - msi_interrupt_base) % 2 ^ 32

module _ {W : Type 0} (bus : Bus W) where
  -- The interrupt of the resource database, if there is one.
  abbrev pub take_irq : Option ℕ → Proc (Driver Pci W) (Unit {0})
  take_irq none = done tt
  take_irq (some irq) = set_own λ t. record t { irq_num = irq % 2 ^ 32; use_msix = true }

  -- The register and the offset of the MSI-X table, with an interrupt claimed if there is one.
  abbrev pub claim_irq : ℕ → Proc (Driver Pci W) (ℕ × ℕ)
  claim_irq table_bir_off = do
    call λ w. (tt, bus.rsrc_create msi_interrupt_base w)
    irq ← call (bus.rsrc_attach msi_interrupt_base)
    take_irq irq
    done (table_bir_off % 2 ^ 3, table_bir_off - table_bir_off % 2 ^ 3)

  abbrev pub msix_at : ℕ → ℕ → Proc (Driver Pci W) (ℕ × ℕ)
  msix_at bdf cap_offset = do
    msix_hdr ← read_dword bus bdf cap_offset
    table_bir_off ← read_dword bus bdf (cap_offset + 4)
    claim_irq table_bir_off

  unfoldable pub choose_msix : ℕ → Proc (Driver Pci W) (ℕ × ℕ)
  choose_msix bdf = do
    cap ← get_own λ t. t.msix_cap_offset
    if cap == 0 then done (0, 0) else msix_at bdf cap

  module _ (e : Errno) where
    abbrev pub command_read : ℕ → Option ℕ → Proc (Driver Pci W) (Option ℕ)
    command_read hdl none = done none
    command_read hdl (some cmd) = if bit_and cmd 6 == 6 then done none else (do
      written ← call (bus.write_cmd hdl (bit_or cmd 6))
      if written then done none else done (some (neg32 e.eio)))

    -- Memory space and bus mastering.
    unfoldable pub enable_bus : ℕ → ℕ → Proc (Driver Pci W) (Option ℕ)
    enable_bus bdf hdl = do cmd ← call (bus.read_cmd bdf); command_read hdl cmd

    abbrev pub use_intx : Option (List ℕ) → Proc (Driver Pci W) (Option ℕ)
    use_intx none = done (some (neg32 e.eio))
    use_intx (some []) = done (some (neg32 e.eio))
    use_intx (some (irq ∷ irqs)) = do set_own λ t. record t { irq_num = irq % 2 ^ 32 }; done none

    unfoldable pub read_intx : ℕ → Proc (Driver Pci W) (Option ℕ)
    read_intx hdl = do irqs ← call (bus.read_irq hdl); use_intx irqs

    -- Without MSI-X, the interrupt of the line.
    unfoldable pub legacy_irq : ℕ → Proc (Driver Pci W) (Option ℕ)
    unfolding read_intx
    legacy_irq hdl = do
      use_msix ← get_own λ t. t.use_msix
      if use_msix then done none else read_intx hdl

    -- The MSI-X table is not mapped.
    unfoldable pub fall_back : ℕ → Proc (Driver Pci W) (Option ℕ)
    unfolding read_intx
    fall_back hdl = do
      irq ← get_own λ t. t.irq_num
      call λ w. (tt, bus.rsrc_detach irq w)
      set_own λ t. record t { use_msix = false }
      read_intx hdl

  module _ (k : Machine W) where
    -- A store of 32 bits into the table.
    abbrev pub store_entry : ℕ → ℕ → Proc (Driver Pci W) (Unit {0})
    store_entry at value = call λ w. (tt, k.store 32 at value w)

    abbrev pub write_ctrl : ℕ → ℕ → Proc (Driver Pci W) (Unit {0})
    write_ctrl hdl value = do
      cap ← get_own λ t. t.msix_cap_offset
      call λ w. (tt, bus.cfg_wr16 hdl (cap + 2) value w)

    abbrev pub disable_intx : ℕ → ℕ → Proc (Driver Pci W) (Unit {0})
    disable_intx hdl cmd =
        if bit_and cmd 0x400 == 0
        then (do written ← call (bus.write_cmd hdl (bit_or cmd 0x400)); done tt)
        else done tt

    -- The entry of the table, and its activation.
    unfoldable pub program_msix : ℕ → ℕ → ℕ → Proc (Driver Pci W) (Option ℕ)
    program_msix bdf hdl entry = do
      irq ← get_own λ t. t.irq_num
      store_entry (entry + 12) 1
      store_entry (entry + 0) 0xfee00000
      store_entry (entry + 4) 0
      store_entry (entry + 8) (apic_vector irq)
      store_entry (entry + 12) 0
      set_own λ t. record t { msix_table = some entry; msix_table_size = 16 }
      write_ctrl hdl 0xc000
      write_ctrl hdl 0x8000
      cmd ← call (bus.read_cmd bdf)
      disable_intx hdl (or_zero cmd)
      done none

    module _ (e : Errno) where
      abbrev pub table_mapped : ℕ → ℕ → ℕ → Option ℕ → Proc (Driver Pci W) (Option ℕ)
      table_mapped bdf hdl offset (some virt) = program_msix bdf hdl (virt + offset)
      table_mapped bdf hdl offset none = fall_back e hdl

      abbrev pub finish_if : ℕ → ℕ → ℕ × ℕ → Bool → Run (Driver Pci W) (Option ℕ)
      finish_if bdf hdl table false = lift (done none)
      finish_if bdf hdl (table_bar, table_offset) true =
          λ d. continue (bar_virt table_bar d) (λ v. lift (table_mapped bdf hdl table_offset v))

      -- The end of DiscoverDevice.
      unfoldable pub finish_msix : ℕ → ℕ → ℕ × ℕ → Run (Driver Pci W) (Option ℕ)
      unfolding bar_virt program_msix fall_back
      finish_msix bdf hdl table d = finish_if bdf hdl table d.own.use_msix d
