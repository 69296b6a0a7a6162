-- ===== src/Pci/Scan.antt =====
-- The scan of the configuration space for capabilities in DiscoverDevice of
-- transport/pci_transport.cpp.
use qnx_unit_tests.Base.{
  ℕ, zero, suc, ◌+◌, ◌-◌, ◌*◌, ◌/◌, ◌%◌, ◌^◌, Option, none, some, ltb, leb, ◌==◌, ◌!=◌, ◌||◌,
  if◌then◌else◌, stuck,
}
use qnx_unit_tests.Base.Proc.{Proc, done, ◌>>=◌, ◌>>◌}
use qnx_unit_tests.Base.Run.{Run, give}
use qnx_unit_tests.Registers.Pci.{common_cfg_type, notify_cfg_type, isr_cfg_type, device_cfg_type}
use qnx_unit_tests.Link.{Driver, call}
use qnx_unit_tests.Pci.{Pci, set_own}
use qnx_unit_tests.Pci.Bus.{Bus}

pub record CapInfo : Type 0 where
  pub bar : ℕ
  pub offset : ℕ
  pub length : ℕ

-- The capabilities that have been found; `none` is a found_* that is false.
pub record Found : Type 0 where
  pub common : Option CapInfo
  pub notify : Option CapInfo
  pub device : Option CapInfo
  pub isr : Option CapInfo

abbrev pub nothing_found : Found
nothing_found = record { common = none; notify = none; device = none; isr = none }

abbrev pub or_zero : Option ℕ → ℕ
or_zero none = 0
or_zero (some v) = v

abbrev pub cap_region_end : ℕ
cap_region_end = 0xfc

-- How far a capability of so many bytes reaches beyond its first dword.
abbrev pub skipped : ℕ → ℕ
skipped cap_len = if ltb 1 ((cap_len + 3) / 4) then ((cap_len + 3) / 4 - 1) * 4 else 0

module _ {W : Type 0} (bus : Bus W) (bdf : ℕ) where
  -- A dword that is 0 where it cannot be read.
  abbrev pub read_dword : ℕ → Proc (Driver Pci W) ℕ
  read_dword offset = do v ← call (bus.cfg_rd32 bdf offset); done (or_zero v)

  abbrev pub read_multiplier : ℕ → ℕ → Proc (Driver Pci W) (Unit {0})
  read_multiplier cap_len offset =
      if leb 20 cap_len
      then (do
        mult ← read_dword (offset + 16)
        set_own λ t. record t { notify_offset_multiplier = mult })
      else done tt

  -- What is noted of a capability.
  unfoldable pub note_cap : ℕ → ℕ → ℕ → CapInfo → Found → Proc (Driver Pci W) Found
  note_cap cfg_type cap_len offset info found =
      if cfg_type == common_cfg_type
      then done (record found { common = some info })
      else if cfg_type == notify_cfg_type
      then (do read_multiplier cap_len offset; done (record found { notify = some info }))
      else if cfg_type == device_cfg_type
      then done (record found { device = some info })
      else if cfg_type == isr_cfg_type
      then done (record found { isr = some info })
      else done found

  -- A vendor-specific capability, and where the scan goes on.
  unfoldable pub vendor_cap : ℕ → ℕ → ℕ → Found → Proc (Driver Pci W) (ℕ × Found)
  unfolding note_cap
  vendor_cap offset cap_len cfg_type found =
      if ltb cfg_type 1 || ltb 5 cfg_type || ltb cap_len 16 then done (offset + 4, found) else (do
        dword1 ← read_dword (offset + 4)
        bar_offset ← read_dword (offset + 8)
        bar_length ← read_dword (offset + 12)
        found' ←
            note_cap cfg_type cap_len offset
              (record { bar = dword1 % 2 ^ 8; offset = bar_offset; length = bar_length }) found
        done (offset + skipped cap_len + 4, found'))

  -- What is at an offset, by its first dword.
  abbrev pub capability : ℕ → Found → Option ℕ → Proc (Driver Pci W) (ℕ × Found)
  capability offset found none = done (offset + 4, found)
  capability offset found (some hdr0) =
      if hdr0 % 2 ^ 8 == 0x11
      then (do set_own λ t. record t { msix_cap_offset = offset }; done (offset + 4, found))
      else if hdr0 % 2 ^ 8 != 0x09
      then done (offset + 4, found)
      else vendor_cap offset ((hdr0 / 2 ^ 16) % 2 ^ 8) ((hdr0 / 2 ^ 24) % 2 ^ 8) found

  unfoldable pub scan_at : ℕ → Found → Proc (Driver Pci W) (ℕ × Found)
  unfolding vendor_cap
  scan_at offset found = do hdr0 ← call (bus.cfg_rd32 bdf offset); capability offset found hdr0

  -- The loop, for at most `fuel` rounds.
  unfoldable pub scan : ℕ → ℕ → Found → Run (Driver Pci W) Found
  unfolding scan_at
  scan zero offset found = if ltb cap_region_end offset then give found else (λ d. stuck)
  scan (suc fuel) offset found =
      let rest : ℕ × Found → Run (Driver Pci W) Found = λ r. scan fuel r.0 r.1 in
      if ltb cap_region_end offset
      then give found
      else (λ d. rest (scan_at offset found d).0 (scan_at offset found d).1)
