-- ===== src/Pci/Returns.antt =====
-- The command register and the interrupts in DiscoverDevice of transport/pci_transport.cpp, over a
-- configuration space whose capabilities name registers that there are.
use qnx_unit_tests.Base.{
  ℕ, ◌+◌, ◌-◌, ◌%◌, ◌^◌, ◌<◌, List, [], ◌∷◌, Option, none, some, ◌≡◌, refl, ap, inl, inr, arith,
  ◌==◌, bit_and, bit_or,
}
use qnx_unit_tests.Base.Proc.{Proc, ◌>>=◌, Gives, done-Gives, bind-Gives, if-Gives, cases-Gives}
use qnx_unit_tests.Transport.{Errno, neg32}
use qnx_unit_tests.Machine.{Machine}
use qnx_unit_tests.Link.{Driver, call}
use qnx_unit_tests.Pci.{Pci, get_own}
use qnx_unit_tests.Pci.Bus.{Bus}
use qnx_unit_tests.Pci.Scan.{or_zero, read_dword}
use qnx_unit_tests.Pci.Bars.{max_bars}
use qnx_unit_tests.Pci.Interrupts.{
  msi_interrupt_base, take_irq, claim_irq, choose_msix, msix_at, command_read, enable_bus, use_intx,
  read_intx, legacy_irq,
}
use qnx_unit_tests.Pci.Sane.{Sane, Ranged, read_dword-Ranged}

module _ {W : Type 0} (k : Machine W) (bus : Bus W) (e : Errno) (words : ℕ → ℕ → Option ℕ)
    (sane : Sane bus words) (bdf : ℕ) where
  abbrev pub InRange : Driver Pci W → Type 0
  InRange d = Ranged bus words sane bdf d

  abbrev Through : {A : Type 0} → Proc (Driver Pci W) A → Type 0
  Through m = Gives InRange (λ _. InRange) m

  -- The steps that touch neither the registers nor the capability.
  pub command_read-Through : (hdl : ℕ) (o : Option ℕ) → Through (command_read bus e hdl o)
  command_read-Through hdl none = done-Gives none λ d p. p
  command_read-Through hdl (some cmd) = if-Gives (bit_and cmd 6 == 6) (done-Gives none λ d p. p) (
      bind-Gives {Q = λ _. InRange} {m = call (bus.write_cmd hdl (bit_or cmd 6))}
        (record { run = λ d p. p })
        λ written.
          if-Gives written (done-Gives none λ d p. p) (done-Gives (some (neg32 e.eio)) λ d p. p))

  pub enable_bus-Through : (hdl : ℕ) → Through (enable_bus bus e bdf hdl)
  unfolding enable_bus
  enable_bus-Through hdl =
      bind-Gives {Q = λ _. InRange} {m = call (bus.read_cmd bdf)} (record { run = λ d p. p })
        (command_read-Through hdl)

  use_intx-Through : (o : Option (List ℕ)) → Through (use_intx bus e o)
  use_intx-Through none = done-Gives _ λ d p. p
  use_intx-Through (some []) = done-Gives _ λ d p. p
  use_intx-Through (some (irq ∷ irqs)) = record { run = λ d p. p }

  pub legacy_irq-Through : (hdl : ℕ) → Through (legacy_irq bus e hdl)
  unfolding legacy_irq read_intx
  legacy_irq-Through hdl =
      bind-Gives {Q = λ _. InRange} {m = get_own λ t. t.use_msix} (record { run = λ d p. p })
        λ use_msix. if-Gives use_msix (done-Gives none λ d p. p) (
          bind-Gives {Q = λ _. InRange} {m = call (bus.read_irq hdl)} (record { run = λ d p. p })
            use_intx-Through)

  take_irq-Through : (o : Option ℕ) → Through (take_irq bus o)
  take_irq-Through none = done-Gives tt λ d p. p
  take_irq-Through (some irq) = record { run = λ d p. p }

  -- The table is in one of the six registers.
  abbrev pub InTable : ℕ × ℕ → Driver Pci W → Type 0
  InTable table d = InRange d × (table.0 < max_bars)

  claim_irq-InTable : (bir : ℕ) → bir % 2 ^ 3 < max_bars → Gives InRange InTable (claim_irq bus bir)
  claim_irq-InTable bir h =
      bind-Gives {Q = λ _. InRange} {m = call λ w. (tt, bus.rsrc_create msi_interrupt_base w)}
        (record { run = λ d p. p })
        λ _.
          bind-Gives {Q = λ _. InRange} {m = call (bus.rsrc_attach msi_interrupt_base)}
            (record { run = λ d p. p })
            λ irq.
              bind-Gives (take_irq-Through irq)
                λ _. done-Gives (bir % 2 ^ 3, bir - bir % 2 ^ 3) λ d p. (p, h)

  -- What follows the read of the header.
  abbrev table_at : ℕ → Proc (Driver Pci W) (ℕ × ℕ)
  table_at at = read_dword bus bdf (at + 4) >>= claim_irq bus

  table_at-InTable :
      (at : ℕ)
      → or_zero (words bdf (at + 4)) % 2 ^ 3 < max_bars
      → Gives InRange InTable (table_at at)
  table_at-InTable at h =
      bind-Gives {f = claim_irq bus} (read_dword-Ranged bus words sane bdf (at + 4)) λ bir. record {
        run = λ d p. (claim_irq-InTable bir (omega (arith, h, ap (λ v. v % 2 ^ 3) p.1))).run d p.0;
      }

  msix_at-InTable :
      (at : ℕ)
      → or_zero (words bdf (at + 4)) % 2 ^ 3 < max_bars
      → Gives InRange InTable (msix_at bus bdf at)
  msix_at-InTable at h =
      bind-Gives {f = λ msix_hdr. table_at at} (read_dword-Ranged bus words sane bdf at)
        λ msix_hdr. record { run = λ d p. (table_at-InTable at h).run d p.0 }

  pub choose_msix-InTable : Gives InRange InTable (choose_msix bus bdf)
  unfolding choose_msix
  choose_msix-InTable = record {
    run = λ d p.
        (cases-Gives {P = λ d'. InRange d' × (d'.own.msix_cap_offset ≡ d.own.msix_cap_offset)}
            {Q = InTable} {n = msix_at bus bdf d.own.msix_cap_offset} (d.own.msix_cap_offset == 0)
            (λ none_there. done-Gives (0, 0) λ d' q. (q.0, omega arith))
            λ there. record {
              run = λ d' q.
                  (elim p.1
                    as (λ _.
                      InTable (msix_at bus bdf d.own.msix_cap_offset d').0
                        (msix_at bus bdf d.own.msix_cap_offset d').1) [
                          | inl zero_at ↦ absurd (ground (arith, there, zero_at))
                          | inr low ↦ (msix_at-InTable d.own.msix_cap_offset low).run d' q.0
                        ]);
            }).run
          d (p, refl);
  }
