-- ===== src/Virtqueue/Initialize.antt =====
-- The construction of a queue's memory: AllocDma, FreeDma, InitDescChain, both initializations and the
-- destructor. A mapping's bytes, cleared, are a list of zero descriptors, words or elements.
use qnx_unit_tests.Base.{
  ℕ, zero, suc, ◌+◌, ◌-◌, ◌*◌, ◌%◌, ◌^◌, List, [], ◌∷◌, Option, none, some, true, false, bit_and,
  ◌!=◌, if◌then◌else◌,
}
use qnx_unit_tests.Transport.{Errno, neg32}
use qnx_unit_tests.Virtqueue.{VringDesc, VringUsedElem, Virtqueue}

-- The loop of InitDescChain: the descriptor `i` is linked to `i + 1`, for `n` descriptors from `i`.
unfoldable pub link_all : ℕ → ℕ → List VringDesc → List VringDesc
link_all i zero ds = []
link_all i (suc n) [] = []
link_all i (suc n) (d ∷ ds) = record d { next = (i + 1) % 2 ^ 16 } ∷ link_all (i + 1) n ds

unfoldable pub init_desc_chain : Virtqueue → Virtqueue
unfolding link_all
init_desc_chain q = record q {
  desc = link_all 0 q.queue_size q.desc;
  free_head = 0;
  num_free = q.queue_size;
  last_used_idx = 0;
}

-- On a std::size_t of 64 bits.
abbrev pub align_up : ℕ → ℕ → ℕ
align_up value alignment =
    bit_and ((value + alignment + (2 ^ 64 - 1)) % 2 ^ 64) (2 ^ 64 - alignment)

-- mmap, mem_offset64 and munmap of the platform, over its memory: a mapping of that many bytes, or
-- none; a code and the physical address of a mapping; and the end of a mapping.
pub record Platform (M : Type 0) : Type 0 where
  pub mmap : ℕ → M → Option ℕ × M
  pub mem_offset64 : ℕ → ℕ → M → ℕ × ℕ × M
  pub munmap : ℕ → ℕ → M → M

abbrev pub replicate : {A : Type 0} → ℕ → A → List A
replicate zero a = []
replicate (suc n) a = a ∷ replicate n a

-- What memset to 0 makes of a table, the words of an available ring and a used ring.
abbrev pub no_desc : VringDesc
no_desc = record { addr = 0; len = 0; flags = 0; next = 0 }

abbrev no_elem : VringUsedElem
no_elem = record { id = 0; len = 0 }

module _ {M : Type 0} (p : Platform M) where
  -- What AllocDma does with the answer of mem_offset64, and with that of mmap.
  abbrev pub located : ℕ → ℕ → ℕ × ℕ × M → (Option ℕ × ℕ) × M
  located virt size (rc, offset, m) =
      if rc != 0 then ((none, 0), p.munmap virt size m) else ((some virt, offset), m)

  abbrev pub mapped : ℕ → Option ℕ × M → (Option ℕ × ℕ) × M
  mapped size (none, m) = ((none, 0), m)
  mapped size (some virt, m) = located virt size (p.mem_offset64 virt size m)

  -- The mapping and its physical address, which is 0 where there is none.
  unfoldable pub alloc_dma : ℕ → M → (Option ℕ × ℕ) × M
  alloc_dma size m = mapped size (p.mmap size m)

  unfoldable pub free_dma : Option ℕ → ℕ → M → M
  free_dma none size m = m
  free_dma (some virt) size m = p.munmap virt size m

  unfoldable pub initialize_legacy : Errno → ℕ → Virtqueue → M → (ℕ × Virtqueue) × M
  unfolding alloc_dma init_desc_chain
  initialize_legacy e align q m =
      let desc_size = q.queue_size * 16 in
      let avail_size = 4 + q.queue_size * 2 + 2 in
      let used_offset = align_up (desc_size + avail_size) align in
      let used_size = 4 + q.queue_size * 8 + 2 in
      let ((virt, phys), m') = alloc_dma (used_offset + used_size) m in
      let q' : Virtqueue = record q {
        legacy_mode = true;
        base_alloc_size = used_offset + used_size;
        base_virt = virt;
        base_phys = phys;
      } in
      elim virt [
        | none ↦ ((neg32 e.enomem, q'), m')
        | some base ↦ (
          (
            0,
            init_desc_chain (record q' {
              desc_virt = some base;
              desc_phys = phys;
              avail_virt = some (base + desc_size);
              avail_phys = phys + desc_size;
              used_virt = some (base + used_offset);
              used_phys = phys + used_offset;
              desc = replicate q.queue_size no_desc;
              avail = replicate (q.queue_size + 3) 0;
              used_idx = 0;
              used = replicate q.queue_size no_elem;
            }),
          ),
          m',
        )
      ]

  -- The queue with a cleared mapping of that many bytes for one of its parts.
  abbrev pub with_used : ℕ → ℕ → ℕ → Virtqueue → Virtqueue
  with_used size virt phys q = record q {
    used_alloc_size = size;
    used_virt = some virt;
    used_phys = phys;
    used_idx = 0;
    used = replicate q.queue_size no_elem;
  }

  abbrev pub with_avail : ℕ → ℕ → ℕ → Virtqueue → Virtqueue
  with_avail size virt phys q = record q {
    avail_alloc_size = size;
    avail_virt = some virt;
    avail_phys = phys;
    avail = replicate (q.queue_size + 2) 0;
  }

  abbrev pub with_desc : ℕ → ℕ → ℕ → Virtqueue → Virtqueue
  with_desc size virt phys q = record q {
    legacy_mode = false;
    desc_alloc_size = size;
    desc_virt = some virt;
    desc_phys = phys;
    desc = replicate q.queue_size no_desc;
  }

  -- What Initialize does with the allocation of the used ring, of that many bytes.
  unfoldable pub after_used : Errno → ℕ → Virtqueue → (Option ℕ × ℕ) × M → (ℕ × Virtqueue) × M
  unfolding free_dma init_desc_chain
  after_used e size q ((none, phys), m) = (
    (
      neg32 e.enomem,
      record q {
        used_alloc_size = size;
        used_virt = none;
        used_phys = phys;
        avail_virt = none;
        avail = [];
        desc_virt = none;
        desc = [];
      },
    ),
    free_dma q.desc_virt q.desc_alloc_size (free_dma q.avail_virt q.avail_alloc_size m),
  )
  after_used e size q ((some virt, phys), m) =
      ((0, init_desc_chain (with_used size virt phys q)), m)

  -- What it does with the allocation of the available ring.
  unfoldable pub after_avail : Errno → ℕ → Virtqueue → (Option ℕ × ℕ) × M → (ℕ × Virtqueue) × M
  unfolding alloc_dma free_dma after_used
  after_avail e size q ((none, phys), m) = (
    (
      neg32 e.enomem,
      record q {
        avail_alloc_size = size;
        avail_virt = none;
        avail_phys = phys;
        desc_virt = none;
        desc = [];
      },
    ),
    free_dma q.desc_virt q.desc_alloc_size m,
  )
  after_avail e size q ((some virt, phys), m) =
      after_used e (4 + q.queue_size * 8) (with_avail size virt phys q)
        (alloc_dma (4 + q.queue_size * 8) m)

  -- What it does with the allocation of the table.
  unfoldable pub after_desc : Errno → ℕ → Virtqueue → (Option ℕ × ℕ) × M → (ℕ × Virtqueue) × M
  unfolding alloc_dma after_avail
  after_desc e size q ((none, phys), m) = (
    (
      neg32 e.enomem,
      record q {
        legacy_mode = false;
        desc_alloc_size = size;
        desc_virt = none;
        desc_phys = phys;
        desc = [];
      },
    ),
    m,
  )
  after_desc e size q ((some virt, phys), m) =
      after_avail e (4 + q.queue_size * 2) (with_desc size virt phys q)
        (alloc_dma (4 + q.queue_size * 2) m)

  unfoldable pub initialize_modern : Errno → Virtqueue → M → (ℕ × Virtqueue) × M
  unfolding alloc_dma after_desc
  initialize_modern e q m = after_desc e (q.queue_size * 16) q (alloc_dma (q.queue_size * 16) m)

  -- ~Virtqueue(): a mapping that is not there is passed over.
  unfoldable pub destroy : Virtqueue → M → M
  unfolding free_dma
  destroy q m =
      if q.legacy_mode
      then free_dma q.base_virt q.base_alloc_size m
      else free_dma q.used_virt q.used_alloc_size
          (free_dma q.avail_virt q.avail_alloc_size (free_dma q.desc_virt q.desc_alloc_size m))
