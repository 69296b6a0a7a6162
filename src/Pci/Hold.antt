-- ===== src/Pci/Hold.antt =====
-- The books of the kernel's resources through the registers in DiscoverDevice of
-- transport/pci_transport.cpp.
use qnx_unit_tests.Base.{
  ℕ, zero, suc, ◌+◌, ◌%◌, ◌^◌, List, [], ◌∷◌, Option, none, some, Bool, true, false, ◌≡◌, refl, ap,
  arith, get_elem?, set, leb, ok, fault,
}
use qnx_unit_tests.Base.Run.{
  Run, lift, After, Ends, give-Ends, lift-Ends, weaken-Ends, bind-Ends, if-Ends, before-Ends,
}
use qnx_unit_tests.Transport.{Errno, neg32}
use qnx_unit_tests.Virtqueue.Mappings.{held}
use qnx_unit_tests.Machine.{Machine}
use qnx_unit_tests.Link.{Link, Driver, call}
use qnx_unit_tests.Link.Balance.{Accounts, Owes, call-Owes}
use qnx_unit_tests.Pci.{Pci, get_own}
use qnx_unit_tests.Pci.Bus.{Bar, Bus}
use qnx_unit_tests.Pci.Scan.{CapInfo, Found}
use qnx_unit_tests.Pci.Bars.{
  need_bar, bar_virt, bar_mapped, map_missing, map_bar, map_bars, map_size, max_bars, Setter,
  to_common, to_notify, to_device, to_isr, point_at, point, point_if, set_pointers,
}
use qnx_unit_tests.Pci.Interrupts.{table_mapped, finish_if, finish_msix}
use qnx_unit_tests.Pci.Balance.{bars_held, own_held, Books, Keeps}
use qnx_unit_tests.Pci.Find.{BusAccounts}
use qnx_unit_tests.Pci.Obtain.{own, stay, fall_back-Keeps, program_msix-Keeps}

-- A register that is mapped into an empty entry is one more.
set-held :
    (bars : List (Option ℕ × ℕ)) (i virt size : ℕ) (v : Option ℕ) (z : ℕ)
    → get_elem? bars i ≡ some (v, z)
    → bars_held (set bars i (some virt, size)) + held v ≡ suc (bars_held bars)
set-held [] i virt size v z h = cc
set-held ((v', z') ∷ bars) zero virt size v z h =
    let same : v' ≡ v = ap (λ o. elim o [ none ↦ v | some b ↦ b.0 ]) h in
    omega (arith, ap held same)
set-held ((v', z') ∷ bars) (suc i) virt size v z h = omega (arith, set-held bars i virt size v z h)

module _ {W : Type 0} (live : W → ℕ) (k : Machine W) (accounts : Accounts live k) (bus : Bus W)
    (bus_accounts : BusAccounts live bus) (e : Errno) (n : ℕ) (I : Link → Type 0) where
  abbrev PciTrip : {A : Type 0} → Run (Driver Pci W) A → Type 0
  PciTrip m = Ends (Books live n I) (λ _. Books live n I) m

  table_mapped-Keeps :
      (bdf hdl offset : ℕ) (o : Option ℕ) → Keeps live n I (table_mapped bus k e bdf hdl offset o)
  table_mapped-Keeps bdf hdl offset (some virt) =
      program_msix-Keeps live k accounts bus bus_accounts e n I bdf hdl (virt + offset)
  table_mapped-Keeps bdf hdl offset none =
      fall_back-Keeps live k accounts bus bus_accounts e n I hdl

  -- What an entry of bar_virt_ holds.
  abbrev Slot : ℕ → Option ℕ → Driver Pci W → Type 0
  Slot i v d = (z : ℕ) × (get_elem? d.own.bars i ≡ some (v, z))

  bar_at-After :
      (i : ℕ) (d : Driver Pci W) (o : Option (Option ℕ × ℕ))
      → get_elem? d.own.bars i ≡ o
      → Books live n I d
      → After
          (λ v d. Books live n I d × Slot i v d)
          (elim o [ none ↦ fault | some b ↦ ok (b.0, d) ])
  bar_at-After i d none h p = tt
  bar_at-After i d (some (v, z)) h p = (p, (z, h))

  bar_virt-Ends :
      (i : ℕ) → Ends (Books live n I) (λ v d. Books live n I d × Slot i v d) (bar_virt i)
  unfolding bar_virt
  bar_virt-Ends i = record { run = λ d p. bar_at-After i d (get_elem? d.own.bars i) refl p }

  bar_virt-Trip : (i : ℕ) → PciTrip (bar_virt i)
  bar_virt-Trip i = weaken-Ends (λ v d p. p.0) (bar_virt-Ends i)

  bar_mapped-Ends :
      (i size : ℕ) (o : Option ℕ)
      → Ends
          (λ d. Owes live own_held n I (held o) d × Slot i none d)
          (λ _. Books live n I)
          (bar_mapped k i size o)
  bar_mapped-Ends i size none = record { run = λ d p. p.0 }
  bar_mapped-Ends i size (some virt) = record {
    run = λ d p. (omega (arith, p.0.0, set-held d.own.bars i virt size none p.1.0 p.1.1), p.0.1);
  }

  map_missing-Ends :
      (found : Found) (table_bar : ℕ) (b : Bar) (v : Option ℕ)
      → Ends
          (λ d. Books live n I d × Slot (b.bar_num % 2 ^ 8) v d)
          (λ _. Books live n I)
          (map_missing k found table_bar b v)
  map_missing-Ends found table_bar b (some virt) = give-Ends none λ s p. p.0
  map_missing-Ends found table_bar b none =
      bind-Ends {Q = λ _ d. Books live n I d × Slot (b.bar_num % 2 ^ 8) none d}
        {m = lift (get_own λ t. t.use_msix)} (record { run = λ d p. p })
        λ use_msix.
          if-Ends (need_bar found use_msix table_bar (b.bar_num % 2 ^ 8))
            (bind-Ends
              {Q = λ o d. (Owes live own_held n I (held o) d) × Slot (b.bar_num % 2 ^ 8) none d}
              {m = lift (call (k.map_device (map_size b.size) b.addr))}
              (record {
                run = λ d p. (
                  (call-Owes live own_held n I (k.map_device (map_size b.size) b.addr)
                        (accounts.map_counts (map_size b.size) b.addr)).run
                      d p.0,
                  p.1,
                );
              })
              (bar_mapped-Ends (b.bar_num % 2 ^ 8) (map_size b.size)))
            (give-Ends none λ s p. p.0)

  pub map_bars-Trip :
      (found : Found) (table_bar : ℕ) (bars : List Bar) → PciTrip (map_bars k found table_bar bars)
  unfolding map_bars map_bar
  map_bars-Trip found table_bar [] = give-Ends none λ s p. p
  map_bars-Trip found table_bar (b ∷ bars) =
      before-Ends
        (if-Ends (leb max_bars (b.bar_num % 2 ^ 8)) (give-Ends none λ s p. p)
          (bind-Ends (bar_virt-Ends (b.bar_num % 2 ^ 8)) (map_missing-Ends found table_bar b)))
        (map_bars-Trip found table_bar bars)

  point_at-Trip :
      (setter : Setter) (info : CapInfo) (missing o : Option ℕ)
      → ((at : ℕ) (t : Pci) → own_held (setter at t) ≡ own_held t)
      → PciTrip (point_at e setter info missing o)
  point_at-Trip setter info missing none h = give-Ends missing λ s p. p
  point_at-Trip setter info missing (some virt) h =
      bind-Ends
        (lift-Ends (
          own live k accounts bus bus_accounts e n I (setter (virt + info.offset))
            (h (virt + info.offset))))
        λ _. give-Ends none λ s p. p

  point-Trip :
      (setter : Setter) (info : CapInfo) (missing : Option ℕ)
      → ((at : ℕ) (t : Pci) → own_held (setter at t) ≡ own_held t)
      → PciTrip (point e setter info missing)
  unfolding point
  point-Trip setter info missing h =
      bind-Ends (bar_virt-Trip info.bar) λ v. point_at-Trip setter info missing v h

  point_if-Trip :
      (setter : Setter) (o : Option CapInfo)
      → ((at : ℕ) (t : Pci) → own_held (setter at t) ≡ own_held t)
      → PciTrip (point_if e setter o)
  point_if-Trip setter none h = give-Ends none λ s p. p
  point_if-Trip setter (some info) h = point-Trip setter info none h

  pub set_pointers-Trip :
      (common notify : CapInfo) (found : Found) → PciTrip (set_pointers e common notify found)
  unfolding set_pointers
  set_pointers-Trip common notify found =
      before-Ends (point-Trip to_common common (some (neg32 e.enodev)) λ at t. refl) (
        before-Ends (point-Trip to_notify notify (some (neg32 e.enodev)) λ at t. refl) (
          before-Ends (point_if-Trip to_device found.device λ at t. refl)
            (point_if-Trip to_isr found.isr λ at t. refl)))

  finish_if-Trip :
      (bdf hdl : ℕ) (table : ℕ × ℕ) (b : Bool) → PciTrip (finish_if bus k e bdf hdl table b)
  finish_if-Trip bdf hdl table false = lift-Ends (stay live k accounts bus bus_accounts e n I none)
  finish_if-Trip bdf hdl (table_bar, table_offset) true =
      bind-Ends (bar_virt-Trip table_bar) λ v. lift-Ends (table_mapped-Keeps bdf hdl table_offset v)

  pub finish_msix-Trip : (bdf hdl : ℕ) (table : ℕ × ℕ) → PciTrip (finish_msix bus k e bdf hdl table)
  unfolding finish_msix
  finish_msix-Trip bdf hdl table = record {
    run = λ d p. (finish_if-Trip bdf hdl table d.own.use_msix).run d p;
  }
