-- ===== src/Pci/Tag.antt =====
-- GetMountTag of transport/pci_transport.cpp, over a device configuration that holds a tag.
use qnx_unit_tests.Base.{ℕ, ◌≤◌, ◌<◌, List, [], some, ◌≡◌, refl, ◌⊎◌, length}
use qnx_unit_tests.Transport.{Errno, neg32}
use qnx_unit_tests.Machine.{Machine}
use qnx_unit_tests.Link.{Driver}
use qnx_unit_tests.Link.Tag.{HoldsTag, read_tag-held}
use qnx_unit_tests.Pci.{Pci}
use qnx_unit_tests.Pci.Traffic.{get_mount_tag}

module _ {W : Type 0} (k : Machine W) (e : Errno) where
  -- Where the device configuration holds a tag of 1 to 256 bytes, GetMountTag returns 0 and the tag, and
  -- where it announces none or a longer one, -EINVAL and no tag; it changes nothing.
  pub pci_get_mount_tag_lem :
      (d : Driver Pci W) (at : ℕ) (tag : List ℕ)
      → d.own.device_cfg ≡ some at
      → HoldsTag k at tag d.world
      → ((0 < length tag) × (length tag ≤ 256) → get_mount_tag k e d ≡ ((0, tag), d))
        × (((length tag ≡ 0) ⊎ (256 < length tag))
            → get_mount_tag k e d ≡ ((neg32 e.einval, []), d))
  unfolding get_mount_tag
  pci_get_mount_tag_lem d at tag there h =
      let (reads, refuses) = read_tag-held k e.einval at tag d.world h in
      (λ fits. rw (there, reads fits) refl, λ out. rw (there, refuses out) refl)
