-- ===== src/Pci/Ranges.antt =====
-- The registers and the pointers in DiscoverDevice of transport/pci_transport.cpp, over a configuration
-- space whose capabilities name registers that there are.
use qnx_unit_tests.Base.{
  ℕ, ◌+◌, ◌%◌, ◌^◌, ◌<◌, List, [], ◌∷◌, Option, none, some, ◌≡◌, refl, ◌∙◌, arith, get_elem?,
  length-set, leb, ok, fault,
}
use qnx_unit_tests.Base.Run.{Run, lift}
use qnx_unit_tests.Base.Total.{
  Returned, Returns, give-Returns, bind-Returns, if-Returns, cases-Returns, before-Returns,
}
use qnx_unit_tests.Transport.{Errno, neg32}
use qnx_unit_tests.Virtqueue.Buffers.{get_elem?-Some}
use qnx_unit_tests.Machine.{Machine}
use qnx_unit_tests.Link.{Driver, call}
use qnx_unit_tests.Pci.{Pci, get_own}
use qnx_unit_tests.Pci.Bus.{Bar, Bus}
use qnx_unit_tests.Pci.Scan.{CapInfo, Found}
use qnx_unit_tests.Pci.Bars.{
  max_bars, bar_virt, bar_mapped, map_missing, map_bar, map_bars, map_size, need_bar, Setter,
  to_common, to_notify, to_device, to_isr, point_at, point, point_if, set_pointers,
}
use qnx_unit_tests.Pci.Returns.{InRange}
use qnx_unit_tests.Pci.Sane.{Sane, Within}

module _ {W : Type 0} (k : Machine W) (bus : Bus W) (e : Errno) (words : ℕ → ℕ → Option ℕ)
    (sane : Sane bus words) (bdf : ℕ) where
  abbrev pub Good : Driver Pci W → Type 0
  Good d = InRange k bus e words sane bdf d

  abbrev pub GoesOn : {A : Type 0} → Run (Driver Pci W) A → Type 0
  GoesOn m = Returns Good (λ _. Good) m

  bar_at-Returned :
      (d : Driver Pci W) (o : Option (Option ℕ × ℕ)) (b : Option ℕ × ℕ)
      → o ≡ some b
      → Good d
      → Returned (λ _. Good) (elim o [ none ↦ fault | some b' ↦ ok (b'.0, d) ])
  bar_at-Returned d none b h p = cc
  bar_at-Returned d (some b') b h p = p

  pub bar_virt-GoesOn : (i : ℕ) → i < max_bars → GoesOn (bar_virt i)
  unfolding bar_virt
  bar_virt-GoesOn i h = record {
    run = λ d p.
        let (b, there) = get_elem?-Some d.own.bars i (omega (arith, h, p.0)) in
        bar_at-Returned d (get_elem? d.own.bars i) b there p;
  }

  bar_mapped-GoesOn : (i size : ℕ) (o : Option ℕ) → GoesOn (bar_mapped k i size o)
  bar_mapped-GoesOn i size none = record { run = λ d p. p }
  bar_mapped-GoesOn i size (some virt) = record {
    run = λ d p. (length-set d.own.bars i (some virt, size) ∙ p.0, p.1);
  }

  map_missing-GoesOn :
      (found : Found) (table_bar : ℕ) (b : Bar) (v : Option ℕ)
      → GoesOn (map_missing k found table_bar b v)
  map_missing-GoesOn found table_bar b (some virt) = give-Returns none λ d p. p
  map_missing-GoesOn found table_bar b none =
      bind-Returns {Q = λ _. Good} {m = lift (get_own λ t. t.use_msix)} (record { run = λ d p. p })
        λ use_msix.
          if-Returns (need_bar found use_msix table_bar (b.bar_num % 2 ^ 8))
            (bind-Returns {Q = λ _. Good} {m = lift (call (k.map_device (map_size b.size) b.addr))}
              (record { run = λ d p. p }) (bar_mapped-GoesOn (b.bar_num % 2 ^ 8) (map_size b.size)))
            (give-Returns none λ d p. p)

  pub map_bars-GoesOn :
      (found : Found) (table_bar : ℕ) (bars : List Bar) → GoesOn (map_bars k found table_bar bars)
  unfolding map_bars map_bar
  map_bars-GoesOn found table_bar [] = give-Returns none λ d p. p
  map_bars-GoesOn found table_bar (b ∷ bars) =
      before-Returns (λ d p. p)
        (cases-Returns (leb max_bars (b.bar_num % 2 ^ 8)) (λ high. give-Returns none λ d p. p)
          λ low.
            bind-Returns (bar_virt-GoesOn (b.bar_num % 2 ^ 8) (ground (arith, low)))
              (map_missing-GoesOn found table_bar b))
        (map_bars-GoesOn found table_bar bars)

  -- A pointer is none of the fields that matter here.
  abbrev Harmless : Setter → Type 0
  Harmless setter =
      (at : ℕ) (t : Pci)
      → ((setter at t).bars ≡ t.bars) × ((setter at t).msix_cap_offset ≡ t.msix_cap_offset)

  point_at-GoesOn :
      (setter : Setter) (info : CapInfo) (missing o : Option ℕ)
      → Harmless setter
      → GoesOn (point_at e setter info missing o)
  point_at-GoesOn setter info missing none h = give-Returns missing λ d p. p
  point_at-GoesOn setter info missing (some virt) h = record {
    run = λ d p.
        let (same_bars, same_cap) = h (virt + info.offset) d.own in rw (same_bars, same_cap) p;
  }

  point-GoesOn :
      (setter : Setter) (info : CapInfo) (missing : Option ℕ)
      → Harmless setter
      → info.bar < max_bars
      → GoesOn (point e setter info missing)
  unfolding point
  point-GoesOn setter info missing h low =
      bind-Returns (bar_virt-GoesOn info.bar low) λ v. point_at-GoesOn setter info missing v h

  point_if-GoesOn :
      (setter : Setter) (o : Option CapInfo)
      → Harmless setter
      → Within o
      → GoesOn (point_if e setter o)
  point_if-GoesOn setter none h low = give-Returns none λ d p. p
  point_if-GoesOn setter (some info) h low = point-GoesOn setter info none h low

  pub set_pointers-GoesOn :
      (common notify : CapInfo) (found : Found)
      → common.bar < max_bars
      → notify.bar < max_bars
      → Within found.device
      → Within found.isr
      → GoesOn (set_pointers e common notify found)
  unfolding set_pointers
  set_pointers-GoesOn common notify found c n v i =
      before-Returns (λ d p. p)
        (point-GoesOn to_common common (some (neg32 e.enodev)) (λ at t. (refl, refl)) c)
        (before-Returns (λ d p. p)
          (point-GoesOn to_notify notify (some (neg32 e.enodev)) (λ at t. (refl, refl)) n)
          (before-Returns (λ d p. p)
            (point_if-GoesOn to_device found.device (λ at t. (refl, refl)) v)
            (point_if-GoesOn to_isr found.isr (λ at t. (refl, refl)) i)))
