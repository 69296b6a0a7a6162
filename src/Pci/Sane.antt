-- ===== src/Pci/Sane.antt =====
-- The scan of transport/pci_transport.cpp over a configuration space whose capabilities name registers
-- that there are.
use qnx_unit_tests.Base.{
  ℕ, zero, suc, ◌+◌, ◌*◌, ◌%◌, ◌^◌, ◌≤◌, ◌<◌, Option, none, some, true, ◌≡◌, sym, ap, ◌⊎◌, inr,
  arith, length, leb, ltb, ◌==◌, ◌!=◌, ◌||◌,
}
use qnx_unit_tests.Base.Proc.{
  Proc, done, ◌>>=◌, Gives, done-Gives, bind-Gives, if-Gives, cases-Gives,
}
use qnx_unit_tests.Base.Total.{Returns, give-Returns, lift-Returns, bind-Returns, if-Returns}
use qnx_unit_tests.Registers.Pci.{common_cfg_type, notify_cfg_type, isr_cfg_type, device_cfg_type}
use qnx_unit_tests.Link.{Driver, call}
use qnx_unit_tests.Pci.{Pci, set_own}
use qnx_unit_tests.Pci.Bus.{Bus}
use qnx_unit_tests.Pci.Scan.{
  CapInfo, Found, or_zero, skipped, cap_region_end, read_dword, read_multiplier, note_cap,
  vendor_cap, capability, scan_at, scan,
}
use qnx_unit_tests.Pci.Bars.{max_bars}

-- A read of the configuration space gives the word that is there; a capability of a vendor and the
-- table of MSI-X are in one of the six registers.
pub record Sane {W : Type 0} (bus : Bus W) (words : ℕ → ℕ → Option ℕ) : Type 0 where
  pub reads : (bdf offset : ℕ) (w : W) → (bus.cfg_rd32 bdf offset w).0 ≡ words bdf offset
  pub vendor :
      (bdf offset hdr0 : ℕ)
      → words bdf offset ≡ some hdr0
      → hdr0 % 2 ^ 8 ≡ 0x09
      → or_zero (words bdf (offset + 4)) % 2 ^ 8 < max_bars
  pub msix :
      (bdf offset hdr0 : ℕ)
      → words bdf offset ≡ some hdr0
      → hdr0 % 2 ^ 8 ≡ 0x11
      → or_zero (words bdf (offset + 4)) % 2 ^ 3 < max_bars

-- The register of what has been found.
abbrev pub Within : Option CapInfo → Type 0
Within none = Unit {0}
Within (some info) = info.bar < max_bars

abbrev pub Fine : Found → Type 0
Fine found = Within found.common × Within found.notify × Within found.device × Within found.isr

module _ {W : Type 0} (bus : Bus W) (words : ℕ → ℕ → Option ℕ) (sane : Sane bus words)
    (bdf : ℕ) where
  -- There are six entries for registers, and where there is an MSI-X capability, its table is in one.
  abbrev pub Ranged : Driver Pci W → Type 0
  Ranged d =
      (length d.own.bars ≡ max_bars)
      × ((d.own.msix_cap_offset ≡ 0)
          ⊎ (or_zero (words bdf (d.own.msix_cap_offset + 4)) % 2 ^ 3 < max_bars))

  abbrev pub Reads : Option ℕ → ℕ → Driver Pci W → Type 0
  Reads v offset d = Ranged d × (v ≡ words bdf offset)

  pub read-Ranged :
      (offset : ℕ) → Gives Ranged (λ v. Reads v offset) (call (bus.cfg_rd32 bdf offset))
  read-Ranged offset = record { run = λ d p. (p, sane.reads bdf offset d.world) }

  pub read_dword-Ranged :
      (offset : ℕ)
      → Gives Ranged
          (λ v d. Ranged d × (v ≡ or_zero (words bdf offset)))
          (read_dword bus bdf offset)
  read_dword-Ranged offset =
      bind-Gives (read-Ranged offset) λ v. done-Gives (or_zero v) λ d p. (p.0, ap or_zero p.1)

  -- What holds after a round from `offset`.
  abbrev Onward : ℕ → ℕ × Found → Driver Pci W → Type 0
  Onward offset r d = Ranged d × Fine r.1 × (offset + 4 ≤ r.0)

  read_multiplier-Ranged :
      (cap_len offset : ℕ) → Gives Ranged (λ _. Ranged) (read_multiplier bus bdf cap_len offset)
  read_multiplier-Ranged cap_len offset =
      if-Gives (leb 20 cap_len)
        (bind-Gives {f = λ mult. set_own λ t. record t { notify_offset_multiplier = mult }}
          (read_dword-Ranged (offset + 16)) λ mult. record { run = λ d p. p.0 })
        (done-Gives tt λ d p. p)

  note_cap-Fine :
      (cfg_type cap_len offset : ℕ) (info : CapInfo) (found : Found)
      → Fine found
      → info.bar < max_bars
      → Gives Ranged
          (λ found' d. Ranged d × Fine found')
          (note_cap bus bdf cfg_type cap_len offset info found)
  unfolding note_cap
  note_cap-Fine cfg_type cap_len offset info found (c, n, v, i) h =
      if-Gives (cfg_type == common_cfg_type) (done-Gives _ λ d p. (p, (h, n, v, i))) (
        if-Gives (cfg_type == notify_cfg_type)
          (bind-Gives (read_multiplier-Ranged cap_len offset)
            λ _. done-Gives (record found { notify = some info }) λ d p. (p, (c, h, v, i)))
          (if-Gives (cfg_type == device_cfg_type) (done-Gives _ λ d p. (p, (c, n, h, i))) (
            if-Gives (cfg_type == isr_cfg_type) (done-Gives _ λ d p. (p, (c, n, v, h)))
              (done-Gives found λ d p. (p, (c, n, v, i))))))

  any_dword-Ranged : (offset : ℕ) → Gives Ranged (λ _. Ranged) (read_dword bus bdf offset)
  any_dword-Ranged offset = record { run = λ d p. ((read_dword-Ranged offset).run d p).0 }

  -- What follows the read of the number of the register.
  abbrev noted : ℕ → ℕ → ℕ → Found → ℕ → Proc (Driver Pci W) (ℕ × Found)
  noted offset cap_len cfg_type found dword1 = do
    bar_offset ← read_dword bus bdf (offset + 8)
    bar_length ← read_dword bus bdf (offset + 12)
    found' ←
        note_cap bus bdf cfg_type cap_len offset
          (record { bar = dword1 % 2 ^ 8; offset = bar_offset; length = bar_length }) found
    done (offset + skipped cap_len + 4, found')

  noted-Onward :
      (offset cap_len cfg_type dword1 : ℕ) (found : Found)
      → Fine found
      → dword1 % 2 ^ 8 < max_bars
      → Gives Ranged (Onward offset) (noted offset cap_len cfg_type found dword1)
  noted-Onward offset cap_len cfg_type dword1 found fine h =
      bind-Gives (any_dword-Ranged (offset + 8)) λ bar_offset.
        bind-Gives (any_dword-Ranged (offset + 12)) λ bar_length.
          bind-Gives
            (note_cap-Fine cfg_type cap_len offset
              (record { bar = dword1 % 2 ^ 8; offset = bar_offset; length = bar_length }) found fine
              h)
            λ found'.
              done-Gives (offset + skipped cap_len + 4, found') λ d q. (q.0, q.1, omega arith)

  vendor_cap-Onward :
      (offset cap_len cfg_type : ℕ) (found : Found)
      → Fine found
      → or_zero (words bdf (offset + 4)) % 2 ^ 8 < max_bars
      → Gives Ranged (Onward offset) (vendor_cap bus bdf offset cap_len cfg_type found)
  unfolding vendor_cap
  vendor_cap-Onward offset cap_len cfg_type found fine h =
      if-Gives (ltb cfg_type 1 || ltb 5 cfg_type || ltb cap_len 16)
        (done-Gives _ λ d p. (p, fine, omega arith))
        (bind-Gives {f = noted offset cap_len cfg_type found} (read_dword-Ranged (offset + 4))
          λ dword1. record {
            run = λ d p.
                (noted-Onward offset cap_len cfg_type dword1 found fine
                    (omega (arith, h, ap (λ v. v % 2 ^ 8) p.1))).run
                  d p.0;
          })

  capability-Onward :
      (offset : ℕ) (found : Found) (o : Option ℕ)
      → Fine found
      → Gives (Reads o offset) (Onward offset) (capability bus bdf offset found o)
  capability-Onward offset found none fine = done-Gives _ λ d p. (p.0, fine, omega arith)
  capability-Onward offset found (some hdr0) fine =
      cases-Gives (hdr0 % 2 ^ 8 == 0x11)
        (λ is. record {
          run = λ d p. (
            (p.0.0, inr (sane.msix bdf offset hdr0 (sym p.1) (ground (arith, is)))),
            fine,
            omega arith,
          );
        })
        λ other.
          cases-Gives (hdr0 % 2 ^ 8 != 0x09)
            (λ no. done-Gives (offset + 4, found) λ d p. (p.0, fine, omega arith))
            λ is. record {
              run = λ d p.
                  (vendor_cap-Onward offset _ _ found fine
                      (sane.vendor bdf offset hdr0 (sym p.1) (ground (arith, is)))).run
                    d p.0;
            }

  pub scan_at-Onward :
      (offset : ℕ) (found : Found)
      → Fine found
      → Gives Ranged (Onward offset) (scan_at bus bdf offset found)
  unfolding scan_at
  scan_at-Onward offset found fine =
      bind-Gives (read-Ranged offset) λ hdr0. capability-Onward offset found hdr0 fine

  -- Enough rounds bring the scan to its end.
  pub scan-Fine :
      (fuel offset : ℕ) (found : Found)
      → Fine found
      → cap_region_end < offset + 4 * fuel
      → Returns Ranged (λ found' d. Ranged d × Fine found') (scan bus bdf fuel offset found)
  unfolding scan
  scan-Fine zero offset found fine h =
      let at_end : ltb cap_region_end offset ≡ true = ground arith in
      rw at_end (give-Returns found λ d p. (p, fine))
  scan-Fine (suc fuel) offset found fine h =
      if-Returns (ltb cap_region_end offset) (give-Returns found λ d p. (p, fine)) (
        bind-Returns (lift-Returns (scan_at-Onward offset found fine))
          λ r. record { run = λ d p. (scan-Fine fuel r.0 r.1 p.1 (omega (arith, p.2))).run d p.0 })
