-- ===== src/Tests/Drivers.antt =====
-- The transport over memory-mapped registers on a machine that is there: it counts what it has given out,
-- and its device has registers of version 1 and a queue of two, and never answers.
use qnx_unit_tests.Base.{
  ◌⊎◌, ◌≤◌, ℕ, zero, suc, ◌+◌, ◌-◌, ◌*◌, ◌<◌, List, [], ◌∷◌, some, true, ◌≡◌, refl, arith, length,
  get_elem?, ◌==◌, if◌then◌else◌,
}
use qnx_unit_tests.Virtqueue.{Virtqueue}
use qnx_unit_tests.Machine.{Machine}
use qnx_unit_tests.Link.{Driver, no_link}
use qnx_unit_tests.Link.Balance.{Accounts}
use qnx_unit_tests.Link.Reply.{Open}
use qnx_unit_tests.Mmio.{Mmio, new_mmio, shutdown}
use qnx_unit_tests.Mmio.Start.{initialize, reset_device}
use qnx_unit_tests.Mmio.Traffic.{get_mount_tag}
use qnx_unit_tests.Mmio.Balance.{Idle, Ended}
use qnx_unit_tests.Mmio.Life.{Life, begun, was_reset, tagged, shutdown-Life, initialize-Balanced}
use qnx_unit_tests.Mmio.Tag.{get_mount_tag_lem}
use qnx_unit_tests.Transport.{neg32}
use qnx_unit_tests.Tests.Server.{posix}
use qnx_unit_tests.Tests.Handlers.{four, four-HasFree}

abbrev device_reg : ℕ → ℕ
device_reg offset =
    if offset == 0x000
    then 0x74726976
    else if offset == 0x004
    then 1
    else if offset == 0x008
    then 9
    else if offset == 0x034
    then 2
    else 0

abbrev pub window : ℕ
window = 0x10000

abbrev pub counter : ℕ → ℕ
counter w = w

abbrev pub box : Machine ℕ
box = record {
  platform = record {
    mmap = λ size m. (some (4096 * (m + 1)), m + 1);
    mem_offset64 = λ virt size m. (0, virt, m);
    munmap = λ virt size m. m - 1;
  };
  map_device = λ size base w. (some window, w + 1);
  unmap_device = λ virt size w. w - 1;
  load = λ bits at w. (device_reg (at - window), w);
  store = λ bits at v w. w;
  errno = λ w. 5;
  channel_create = λ w. (some 1, w + 1);
  connect_attach = λ chid w. (some 2, w + 1);
  interrupt_attach = λ irq coid w. (some 3, w + 1);
  channel_destroy = λ id w. w - 1;
  connect_detach = λ id w. w - 1;
  interrupt_detach = λ id w. w - 1;
  interrupt_unmask = λ irq id w. w;
  receive_pulse = λ chid ns w. (true, w);
  nanosleep = λ ns w. w;
  device = λ m w. ((m.used_idx, m.used, m.resp), w);
}

pub box-Accounts : Accounts counter box
box-Accounts = record {
  platform_counts = record {
    mmap_counts = λ size m. omega arith;
    offset_counts = λ virt size m. refl;
    munmap_counts = λ virt size m. refl;
  };
  map_counts = λ size base w. omega arith;
  unmap_counts = λ virt size w. refl;
  load_counts = λ bits at w. refl;
  store_counts = λ bits at v w. refl;
  channel_counts = λ w. omega arith;
  connect_counts = λ chid w. omega arith;
  interrupt_counts = λ irq coid w. omega arith;
  channel_destroy_counts = λ id w. refl;
  detach_counts = λ id w. refl;
  interrupt_detach_counts = λ id w. refl;
  nanosleep_counts = λ ns w. refl;
  pulse_counts = λ chid ns w. refl;
  unmask_counts = λ irq id w. refl;
  device_counts = λ m w. refl;
}

-- A transport before Initialize, when other parts of the process hold 40 things.
abbrev fresh : Driver Mmio ℕ
fresh = new_mmio 0x1c0d0000 41 0x200 40

fresh-Idle : Idle fresh
fresh-Idle = (refl, refl, (refl, (refl, (refl, (refl, refl)))))

initialize-Balanced_example :
    Ended counter 40 (initialize box posix fresh).0 (initialize box posix fresh).1
initialize-Balanced_example = initialize-Balanced counter box box-Accounts posix fresh fresh-Idle

fresh-starts : (initialize box posix fresh).0 ≡ 0
unfolding initialize
fresh-starts = refl

-- Initialize, a reset, and a reading of the tag.
once_reset-Life :
    Life box posix fresh
      (get_mount_tag box posix (reset_device box posix (initialize box posix fresh).1).1).1
once_reset-Life = tagged fresh _ (was_reset fresh _ (begun fresh fresh-starts))

shutdown-Life_example :
    (counter
        (shutdown box posix
          (get_mount_tag box posix
            (reset_device box posix (initialize box posix fresh).1).1).1).1.world
      ≡ 40)
    × Idle
        (shutdown box posix
          (get_mount_tag box posix (reset_device box posix (initialize box posix fresh).1).1).1).1
shutdown-Life_example =
    shutdown-Life counter box box-Accounts posix fresh
      (get_mount_tag box posix (reset_device box posix (initialize box posix fresh).1).1).1
      fresh-Idle once_reset-Life

-- A ready link with four free descriptors, whose rings' indices are about to wrap.
abbrev wrapping : Virtqueue
wrapping = record four { used_idx = 65535; last_used_idx = 65535 }

abbrev pub ready_link : Driver Mmio ℕ
ready_link = record fresh {
  link = record no_link {
    virtqueue = some wrapping;
    dma_req_virt = some 4096;
    dma_req_phys = 4096;
    dma_resp_virt = some 8192;
    dma_resp_phys = 8192;
  };
}

abbrev pub ready_link-Open : Open ready_link.link (0 ∷ 1 ∷ 2 ∷ 3 ∷ [])
ready_link-Open = record {
  q = wrapping;
  idx = 65535;
  req = 4096;
  resp = 8192;
  has_queue = refl;
  ready = record {
    has_free = record {
      chain = four-HasFree.chain;
      distinct = four-HasFree.distinct;
      counted = four-HasFree.counted;
      small = four-HasFree.small;
    };
    words = (omega arith, (omega arith, (omega arith, (omega arith, tt))));
    some_size = omega arith;
    idx_at = refl;
    idx_word = omega arith;
    room = omega arith;
    all_free = omega arith;
  };
  caught_up = refl;
  has_req = refl;
  has_resp = refl;
}

-- The same machine, whose configuration space holds the tag "fs".
abbrev pub fs_tag : List ℕ
fs_tag = b'f' ∷ b's' ∷ []

abbrev tag_reg : ℕ → ℕ → ℕ
tag_reg bits offset =
    if bits == 16 then 2 else if offset == 0x102 then b'f' else if offset == 0x103 then b's' else 0

abbrev pub tag_box : Machine ℕ
tag_box = record box { load = λ bits at w. (tag_reg bits (at - window), w) }

pub fs_tag-bytes :
    (i b : ℕ) → get_elem? fs_tag i ≡ some b → tag_box.load 8 (window + 0x102 + i) 40 ≡ (b, 40)
fs_tag-bytes zero b found = cc
fs_tag-bytes (suc zero) b found = cc
fs_tag-bytes (suc (suc i)) b found = cc

abbrev mapped_fresh : Driver Mmio ℕ
mapped_fresh = record fresh { own = record fresh.own { regs = some window } }

get_mount_tag_lem_example :
    ((0 < length fs_tag) × (length fs_tag ≤ 256)
      → get_mount_tag tag_box posix mapped_fresh ≡ ((0, fs_tag), mapped_fresh))
    × (((length fs_tag ≡ 0) ⊎ (256 < length fs_tag))
        → get_mount_tag tag_box posix mapped_fresh ≡ ((neg32 posix.einval, []), mapped_fresh))
get_mount_tag_lem_example =
    get_mount_tag_lem tag_box posix mapped_fresh window fs_tag refl
      (record { length_at = refl; bytes_at = fs_tag-bytes })
