-- ===== src/Tests/Buses.antt =====
-- The transport over the PCI bus on the machine of Tests/Drivers, with a bus that is there: a virtio
-- device whose capabilities are in register 4 and which has MSI-X with its table in register 1.
use qnx_unit_tests.Base.{
  length, ◌≤◌, ◌⊎◌, ℕ, zero, suc, ◌+◌, ◌-◌, ◌/◌, ◌%◌, ◌^◌, ◌<◌, List, [], ◌∷◌, Option, none, some,
  Bool, true, false, ◌≡◌, refl, ap, subst, arith, ltb, Bool-cases, le→ltb, sym, ◌∙◌, inl, inr, ◌&&◌,
  ◌||◌, ◌!=◌, get_elem?, Result, ok, fault, stuck, ◌==◌, if◌then◌else◌,
}
use qnx_unit_tests.Machine.{Machine}
use qnx_unit_tests.Link.{Driver}
use qnx_unit_tests.Link.Balance.{Accounts}
use qnx_unit_tests.Pci.{Pci, new_pci}
use qnx_unit_tests.Pci.Bus.{Bus}
use qnx_unit_tests.Pci.Bars.{max_bars}
use qnx_unit_tests.Pci.Scan.{or_zero}
use qnx_unit_tests.Pci.Start.{initialize, reset_device, shutdown}
use qnx_unit_tests.Pci.Traffic.{exchange, get_mount_tag}
use qnx_unit_tests.Pci.Find.{BusAccounts}
use qnx_unit_tests.Pci.Stages.{Idle}
use qnx_unit_tests.Pci.Life.{Life, begun, was_reset, tagged, pci_shutdown-Life}
use qnx_unit_tests.Transport.{neg32}
use qnx_unit_tests.Pci.Tag.{pci_get_mount_tag_lem}
use qnx_unit_tests.Pci.Endless.{Spurious, exchange-endless}
use qnx_unit_tests.Pci.Sane.{Sane}
use qnx_unit_tests.Pci.Completes.{initialize-Returns}
use qnx_unit_tests.Tests.Server.{posix}
use qnx_unit_tests.Tests.Drivers.{
  fs_tag, tag_box, fs_tag-bytes, box, box-Accounts, counter, window, ready_link, ready_link-Open,
}

-- The dwords of the configuration space from 0x40: the capabilities for the common configuration, the
-- notification, the device, and the ISR, and MSI-X.
abbrev config_words : List ℕ
config_words =
    0x01100009 ∷ 4 ∷ 0 ∷ 0x38 ∷ 0x02140009 ∷ 4 ∷ 0x3000 ∷ 0x1000 ∷ 4 ∷ 0x04100009 ∷ 4 ∷ 0x2000
    ∷ 0x1000 ∷ 0x03100009 ∷ 4 ∷ 0x1000 ∷ 1 ∷ 0x00070011 ∷ 1 ∷ []

-- A word that is not there cannot be read.
abbrev words_at : ℕ → ℕ → Option ℕ
words_at bdf offset = if ltb offset 0x40 then none else get_elem? config_words ((offset - 0x40) / 4)

abbrev bridge : Bus ℕ
bridge = record {
  device_find = λ vendor device w. (some 5, w);
  cfg_rd32 = λ bdf offset w. (words_at bdf offset, w);
  cfg_wr16 = λ hdl offset v w. w;
  device_attach = λ bdf w. (some 6, w + 1);
  device_detach = λ hdl w. w - 1;
  read_cmd = λ bdf w. (some 0, w);
  write_cmd = λ hdl cmd w. (true, w);
  read_irq = λ hdl w. (some (11 ∷ []), w);
  read_ba = λ hdl w. (
    some (
        record { bar_num = 1; addr = 0xfe000; size = 0 }
        ∷ record { bar_num = 4; addr = 0xe0000; size = 0x4000 }
        ∷ []),
    w,
  );
  rsrc_create = λ irq w. w;
  rsrc_attach = λ irq w. (some irq, w);
  rsrc_detach = λ irq w. w;
}

bridge-BusAccounts : BusAccounts counter bridge
bridge-BusAccounts = record {
  find_counts = λ vendor device w. refl;
  rd32_counts = λ bdf offset w. refl;
  wr16_counts = λ hdl offset v w. refl;
  attach_counts = λ bdf w. omega arith;
  detach_counts = λ hdl w. refl;
  read_cmd_counts = λ bdf w. refl;
  write_cmd_counts = λ hdl cmd w. refl;
  read_irq_counts = λ hdl w. refl;
  read_ba_counts = λ hdl w. refl;
  create_counts = λ irq w. refl;
  rsrc_attach_counts = λ irq w. refl;
  rsrc_detach_counts = λ irq w. refl;
}

-- The same machine with the registers of the device in the mapped register: its status, the size of its
-- queue, and the offset of the notification.
abbrev common_reg : ℕ → ℕ
common_reg offset =
    if offset == 0x14 then 11 else if offset == 0x18 then 2 else if offset == 0x1e then 1 else 0

abbrev pci_box : Machine ℕ
pci_box = record box { load = λ bits at w. (common_reg (at - window), w) }

pci_box-Accounts : Accounts counter pci_box
pci_box-Accounts = record {
  platform_counts = box-Accounts.platform_counts;
  load_counts = λ bits at w. refl;
  map_counts = box-Accounts.map_counts;
  unmap_counts = box-Accounts.unmap_counts;
  store_counts = box-Accounts.store_counts;
  channel_counts = box-Accounts.channel_counts;
  connect_counts = box-Accounts.connect_counts;
  interrupt_counts = box-Accounts.interrupt_counts;
  channel_destroy_counts = box-Accounts.channel_destroy_counts;
  detach_counts = box-Accounts.detach_counts;
  interrupt_detach_counts = box-Accounts.interrupt_detach_counts;
  nanosleep_counts = box-Accounts.nanosleep_counts;
  pulse_counts = box-Accounts.pulse_counts;
  unmask_counts = box-Accounts.unmask_counts;
  device_counts = box-Accounts.device_counts;
}

abbrev fresh_pci : Driver Pci ℕ
fresh_pci = new_pci 40

fresh_pci-Idle : Idle fresh_pci
fresh_pci-Idle = (refl, refl, refl, (refl, (refl, (refl, (refl, refl)))))

-- The state that a call leaves, if it ends well.
abbrev state_after : {A : Type 0} → Result (A × Driver Pci ℕ) → Driver Pci ℕ
state_after (ok (a, d)) = d
state_after fault = fresh_pci
state_after stuck = fresh_pci

abbrev started : Driver Pci ℕ
started = state_after (initialize pci_box bridge posix fresh_pci)

fresh_pci-starts : initialize pci_box bridge posix fresh_pci ≡ ok (0, started)
unfolding initialize
fresh_pci-starts = refl

once_reset-Life :
    Life pci_box bridge posix fresh_pci
      (get_mount_tag pci_box posix (reset_device pci_box posix started).1).1
once_reset-Life =
    tagged fresh_pci _ (was_reset fresh_pci _ (begun 0 fresh_pci started fresh_pci-starts))

pci_shutdown-Life_example :
    (counter
        (shutdown pci_box bridge
          (get_mount_tag pci_box posix (reset_device pci_box posix started).1).1).1.world
      ≡ 40)
    × Idle
        (shutdown pci_box bridge
          (get_mount_tag pci_box posix (reset_device pci_box posix started).1).1).1
pci_shutdown-Life_example =
    pci_shutdown-Life counter pci_box pci_box-Accounts bridge bridge-BusAccounts posix fresh_pci
      (get_mount_tag pci_box posix (reset_device pci_box posix started).1).1 fresh_pci-Idle
      once_reset-Life

-- A link between two exchanges.
abbrev ready_pci : Driver Pci ℕ
ready_pci = record fresh_pci { link = ready_link.link }

-- The machine's device never answers, on a line that is shared.
box-Spurious : Spurious box
box-Spurious = record { pulse = λ chid ns w. refl; idle = λ m w. refl }

exchange-endless_example : exchange box posix 2 1000 (1 ∷ 2 ∷ 3 ∷ []) ready_pci ≡ stuck
exchange-endless_example =
    exchange-endless box posix box-Spurious 2 1000 (1 ∷ 2 ∷ 3 ∷ []) ready_pci 0 1 (2 ∷ 3 ∷ [])
      ready_link-Open (omega arith)

-- A test of every word with the next.
abbrev vendor_fits : ℕ → List ℕ → Bool
vendor_fits h hs = h % 2 ^ 8 != 0x09 || ltb (or_zero (get_elem? hs 0) % 2 ^ 8) max_bars

abbrev msix_fits : ℕ → List ℕ → Bool
msix_fits h hs = h % 2 ^ 8 != 0x11 || ltb (or_zero (get_elem? hs 0) % 2 ^ 3) max_bars

abbrev checked : List ℕ → Bool
checked [] = true
checked (h ∷ hs) = vendor_fits h hs && msix_fits h hs && checked hs

and_true : (a b c : Bool) → (a && b && c) ≡ true → (a ≡ true) × (b ≡ true) × (c ≡ true)
and_true true true true h = (refl, refl, refl)
and_true true true false h = cc
and_true true false c h = cc
and_true false b c h = cc

some-inj : (a b : ℕ) → some a ≡ some b → a ≡ b
some-inj a b h = ap or_zero h

checked-next :
    (hs : List ℕ) (i h : ℕ)
    → checked hs ≡ true
    → get_elem? hs i ≡ some h
    → (h % 2 ^ 8 ≡ 0x09 → or_zero (get_elem? hs (suc i)) % 2 ^ 8 < max_bars)
      × (h % 2 ^ 8 ≡ 0x11 → or_zero (get_elem? hs (suc i)) % 2 ^ 3 < max_bars)
checked-next [] i h fits there = cc
checked-next (x ∷ hs) zero h fits there =
    let (vendor, msix, rest) = and_true (vendor_fits x hs) (msix_fits x hs) (checked hs) fits in
    let same = some-inj x h there in
    (λ is. ground (arith, vendor, same, is), λ is. ground (arith, msix, same, is))
checked-next (x ∷ hs) (suc i) h fits there =
    checked-next hs i h (and_true (vendor_fits x hs) (msix_fits x hs) (checked hs) fits).2 there

abbrev read_if : ℕ → Bool → Option ℕ
read_if i low = if low then none else get_elem? config_words i

words_at-next :
    (bdf offset h : ℕ)
    → words_at bdf offset ≡ some h
    → (get_elem? config_words ((offset - 0x40) / 4) ≡ some h)
      × (words_at bdf (offset + 4) ≡ get_elem? config_words (suc ((offset - 0x40) / 4)))
words_at-next bdf offset h there =
    let i = (offset - 0x40) / 4 in
    elim (Bool-cases (ltb offset 0x40)) [
      | inl low ↦ let e = ap (read_if i) low in absurd (cc)
      | inr high ↦
          let on : (offset + 4 - 0x40) / 4 ≡ suc ((offset - 0x40) / 4) = ground (arith, high) in
          (
            sym (ap (read_if i) high) ∙ there,
            ap (read_if ((offset + 4 - 0x40) / 4)) (le→ltb (offset + 4) 0x40 (ground (arith, high)))
                ∙ ap (get_elem? config_words) on,
          )
    ]

bridge-Sane : Sane bridge words_at
bridge-Sane = record {
  reads = λ bdf offset w. refl;
  vendor = λ bdf offset h there is.
      let (here, next) = words_at-next bdf offset h there in
      subst (λ o. or_zero o % 2 ^ 8 < max_bars) (sym next)
        ((checked-next config_words ((offset - 0x40) / 4) h refl here).0 is);
  msix = λ bdf offset h there is.
      let (here, next) = words_at-next bdf offset h there in
      subst (λ o. or_zero o % 2 ^ 3 < max_bars) (sym next)
        ((checked-next config_words ((offset - 0x40) / 4) h refl here).1 is);
}

initialize-Returns_example :
    (rc : ℕ) × (d' : Driver Pci ℕ) × (initialize pci_box bridge posix fresh_pci ≡ ok (rc, d'))
initialize-Returns_example =
    initialize-Returns pci_box bridge posix words_at bridge-Sane fresh_pci (refl, refl)

-- The configuration of the device with the tag "fs", where Tests/Drivers has it.
abbrev tagged_pci : Driver Pci ℕ
tagged_pci = record fresh_pci { own = record fresh_pci.own { device_cfg = some (window + 0x100) } }

pci_get_mount_tag_lem_example :
    ((0 < length fs_tag) × (length fs_tag ≤ 256)
      → get_mount_tag tag_box posix tagged_pci ≡ ((0, fs_tag), tagged_pci))
    × (((length fs_tag ≡ 0) ⊎ (256 < length fs_tag))
        → get_mount_tag tag_box posix tagged_pci ≡ ((neg32 posix.einval, []), tagged_pci))
pci_get_mount_tag_lem_example =
    pci_get_mount_tag_lem tag_box posix tagged_pci (window + 0x100) fs_tag refl
      (record { length_at = refl; bytes_at = fs_tag-bytes })
