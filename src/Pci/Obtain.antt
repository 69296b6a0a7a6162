-- ===== src/Pci/Obtain.antt =====
-- The books of the kernel's resources through the command register and the interrupts in
-- DiscoverDevice of transport/pci_transport.cpp.
use qnx_unit_tests.Base.{
  ℕ, ◌+◌, ◌-◌, ◌%◌, ◌^◌, List, [], ◌∷◌, Option, none, some, true, false, ◌≡◌, refl, ◌∙◌, ◌==◌,
  bit_and, bit_or,
}
use qnx_unit_tests.Base.Proc.{bind-Gives, if-Gives}
use qnx_unit_tests.Transport.{Errno, neg32}
use qnx_unit_tests.Machine.{Machine}
use qnx_unit_tests.Link.{Link, call}
use qnx_unit_tests.Link.Balance.{Accounts, call-Keeps}
use qnx_unit_tests.Link.Books.{done-Keeps, set_own-Keeps}
use qnx_unit_tests.Pci.{Pci, set_own}
use qnx_unit_tests.Pci.Bus.{Bus}
use qnx_unit_tests.Pci.Scan.{or_zero}
use qnx_unit_tests.Pci.Interrupts.{
  msi_interrupt_base, take_irq, msix_at, choose_msix, command_read, enable_bus, use_intx, read_intx,
  legacy_irq, fall_back, store_entry, write_ctrl, disable_intx, program_msix, apic_vector,
}
use qnx_unit_tests.Pci.Balance.{own_held, Books, Keeps, get_own-Keeps}
use qnx_unit_tests.Pci.Find.{BusAccounts, Unmoved, read_dword-Stays}

pub Books-Unmoved :
    {W : Type 0} (live : W → ℕ) (n : ℕ) (I : Link → Type 0) → Unmoved live (Books live n I)
Books-Unmoved live n I = record {
  world_moves = λ d w same p. (same ∙ p.0, p.1);
  notes_move = λ d cap mult p. p;
}

module _ {W : Type 0} (live : W → ℕ) (k : Machine W) (accounts : Accounts live k) (bus : Bus W)
    (bus_accounts : BusAccounts live bus) (e : Errno) (n : ℕ) (I : Link → Type 0) where
  -- Shorter names for the steps on this bus.
  on_bus :
      {A : Type 0} (f : W → A × W) → ((w : W) → live (f w).1 ≡ live w) → Keeps live n I (call f)
  on_bus f h = call-Keeps live own_held n 0 I f h

  pub stay : {A : Type 0} (a : A) → Keeps live n I (λ d. (a, d))
  stay a = done-Keeps live own_held n I a

  pub own : (f : Pci → Pci) → ((t : Pci) → own_held (f t) ≡ own_held t) → Keeps live n I (set_own f)
  own f h = set_own-Keeps live own_held n I f h

  take_irq-Keeps : (o : Option ℕ) → Keeps live n I (take_irq bus o)
  take_irq-Keeps none = stay tt
  take_irq-Keeps (some irq) =
      own (λ t. record t { irq_num = irq % 2 ^ 32; use_msix = true }) λ t. refl

  msix_at-Keeps : (bdf cap : ℕ) → Keeps live n I (msix_at bus bdf cap)
  msix_at-Keeps bdf cap =
      bind-Gives
        (read_dword-Stays live bus bus_accounts (Books live n I) (Books-Unmoved live n I) bdf cap)
        λ msix_hdr.
          bind-Gives
            (read_dword-Stays live bus bus_accounts (Books live n I) (Books-Unmoved live n I) bdf
              (cap + 4))
            λ bir.
              bind-Gives
                (on_bus (λ w. (tt, bus.rsrc_create msi_interrupt_base w))
                  (bus_accounts.create_counts msi_interrupt_base))
                λ _.
                  bind-Gives
                    (on_bus (bus.rsrc_attach msi_interrupt_base)
                      (bus_accounts.rsrc_attach_counts msi_interrupt_base))
                    λ irq.
                      bind-Gives (take_irq-Keeps irq) λ _. stay (bir % 2 ^ 3, bir - bir % 2 ^ 3)

  pub choose_msix-Keeps : (bdf : ℕ) → Keeps live n I (choose_msix bus bdf)
  unfolding choose_msix
  choose_msix-Keeps bdf =
      bind-Gives (get_own-Keeps live k accounts n I (λ t. t.msix_cap_offset))
        λ cap. if-Gives (cap == 0) (stay (0, 0)) (msix_at-Keeps bdf cap)

  command_read-Keeps : (hdl : ℕ) (o : Option ℕ) → Keeps live n I (command_read bus e hdl o)
  command_read-Keeps hdl none = stay none
  command_read-Keeps hdl (some cmd) = if-Gives (bit_and cmd 6 == 6) (stay none) (
      bind-Gives
        (on_bus (bus.write_cmd hdl (bit_or cmd 6))
          (bus_accounts.write_cmd_counts hdl (bit_or cmd 6)))
        λ written. if-Gives written (stay none) (stay (some (neg32 e.eio))))

  pub enable_bus-Keeps : (bdf hdl : ℕ) → Keeps live n I (enable_bus bus e bdf hdl)
  unfolding enable_bus
  enable_bus-Keeps bdf hdl =
      bind-Gives (on_bus (bus.read_cmd bdf) (bus_accounts.read_cmd_counts bdf))
        (command_read-Keeps hdl)

  use_intx-Keeps : (o : Option (List ℕ)) → Keeps live n I (use_intx bus e o)
  use_intx-Keeps none = stay _
  use_intx-Keeps (some []) = stay _
  use_intx-Keeps (some (irq ∷ irqs)) =
      bind-Gives (own (λ t. record t { irq_num = irq % 2 ^ 32 }) λ t. refl) λ _. stay none

  read_intx-Keeps : (hdl : ℕ) → Keeps live n I (read_intx bus e hdl)
  unfolding read_intx
  read_intx-Keeps hdl =
      bind-Gives (on_bus (bus.read_irq hdl) (bus_accounts.read_irq_counts hdl)) use_intx-Keeps

  pub legacy_irq-Keeps : (hdl : ℕ) → Keeps live n I (legacy_irq bus e hdl)
  unfolding legacy_irq
  legacy_irq-Keeps hdl =
      bind-Gives (get_own-Keeps live k accounts n I (λ t. t.use_msix))
        λ use_msix. if-Gives use_msix (stay none) (read_intx-Keeps hdl)

  pub fall_back-Keeps : (hdl : ℕ) → Keeps live n I (fall_back bus e hdl)
  unfolding fall_back
  fall_back-Keeps hdl = bind-Gives (get_own-Keeps live k accounts n I (λ t. t.irq_num)) λ irq.
      bind-Gives (on_bus (λ w. (tt, bus.rsrc_detach irq w)) (bus_accounts.rsrc_detach_counts irq))
        λ _.
          bind-Gives (own (λ t. record t { use_msix = false }) λ t. refl) λ _. read_intx-Keeps hdl

  store_entry-Keeps : (at value : ℕ) → Keeps live n I (store_entry bus k at value)
  store_entry-Keeps at value =
      on_bus (λ w. (tt, k.store 32 at value w)) (accounts.store_counts 32 at value)

  write_ctrl-Keeps : (hdl value : ℕ) → Keeps live n I (write_ctrl bus k hdl value)
  write_ctrl-Keeps hdl value =
      bind-Gives (get_own-Keeps live k accounts n I (λ t. t.msix_cap_offset)) λ cap.
        on_bus (λ w. (tt, bus.cfg_wr16 hdl (cap + 2) value w))
          (bus_accounts.wr16_counts hdl (cap + 2) value)

  disable_intx-Keeps : (hdl cmd : ℕ) → Keeps live n I (disable_intx bus k hdl cmd)
  disable_intx-Keeps hdl cmd =
      if-Gives (bit_and cmd 0x400 == 0)
        (bind-Gives
          (on_bus (bus.write_cmd hdl (bit_or cmd 0x400))
            (bus_accounts.write_cmd_counts hdl (bit_or cmd 0x400)))
          λ written. stay tt)
        (stay tt)

  pub program_msix-Keeps : (bdf hdl entry : ℕ) → Keeps live n I (program_msix bus k bdf hdl entry)
  unfolding program_msix
  program_msix-Keeps bdf hdl entry =
      bind-Gives (get_own-Keeps live k accounts n I (λ t. t.irq_num)) λ irq.
        bind-Gives (store_entry-Keeps (entry + 12) 1) λ _.
          bind-Gives (store_entry-Keeps (entry + 0) 0xfee00000) λ _.
            bind-Gives (store_entry-Keeps (entry + 4) 0) λ _.
              bind-Gives (store_entry-Keeps (entry + 8) (apic_vector irq)) λ _.
                bind-Gives (store_entry-Keeps (entry + 12) 0) λ _.
                  bind-Gives
                    (own (λ t. record t { msix_table = some entry; msix_table_size = 16 })
                      λ t. refl)
                    λ _. bind-Gives (write_ctrl-Keeps hdl 0xc000) λ _.
                      bind-Gives (write_ctrl-Keeps hdl 0x8000) λ _.
                        bind-Gives (on_bus (bus.read_cmd bdf) (bus_accounts.read_cmd_counts bdf))
                          λ cmd. bind-Gives (disable_intx-Keeps hdl (or_zero cmd)) λ _. stay none
