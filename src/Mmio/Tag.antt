-- ===== src/Mmio/Tag.antt =====
-- GetMountTag of transport/mmio_transport.cpp, over a configuration space that holds a tag.
use qnx_unit_tests.Base.{ℕ, ◌+◌, ◌≤◌, ◌<◌, List, [], some, ◌≡◌, refl, ◌⊎◌, length}
use qnx_unit_tests.Registers.{config_reg}
use qnx_unit_tests.Transport.{Errno, neg32}
use qnx_unit_tests.Machine.{Machine}
use qnx_unit_tests.Link.{Driver}
use qnx_unit_tests.Mmio.{Mmio}
use qnx_unit_tests.Link.Tag.{HoldsTag, read_tag-held}
use qnx_unit_tests.Mmio.Traffic.{get_mount_tag}

module _ {W : Type 0} (k : Machine W) (e : Errno) where
  -- Where the configuration space holds a tag of 1 to 256 bytes, GetMountTag returns 0 and the tag, and
  -- where it announces none or a longer one, -EINVAL and no tag; it changes nothing.
  pub get_mount_tag_lem :
      (d : Driver Mmio W) (regs : ℕ) (tag : List ℕ)
      → d.own.regs ≡ some regs
      → HoldsTag k (regs + config_reg) tag d.world
      → ((0 < length tag) × (length tag ≤ 256) → get_mount_tag k e d ≡ ((0, tag), d))
        × (((length tag ≡ 0) ⊎ (256 < length tag))
            → get_mount_tag k e d ≡ ((neg32 e.einval, []), d))
  unfolding get_mount_tag
  get_mount_tag_lem d regs tag there h =
      let (reads, refuses) = read_tag-held k e.einval (regs + config_reg) tag d.world h in
      (λ fits. rw (there, reads fits) refl, λ out. rw (there, refuses out) refl)
