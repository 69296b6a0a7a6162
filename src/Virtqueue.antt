-- ===== src/Virtqueue.antt =====
-- transport/virtqueue.h and transport/virtqueue.cpp: a split virtqueue. A pointer is an optional
-- address; what it points at is a list: the descriptors, the 16-bit words of the available ring, and
-- the index and elements of the used ring, which the device writes. An access outside of a list is
-- `fault`. The memory barriers are left out: a call of the driver and a write of the device are steps.
pub mod Chain
pub mod Buffers
pub mod Initialize
pub mod Start
pub mod Mappings
pub mod Ready
pub mod Traffic
use qnx_unit_tests.Base.{
  ℕ, zero, suc, ◌+◌, ◌-◌, ◌*◌, ◌/◌, ◌%◌, ◌^◌, List, [], ◌∷◌, Option, none, some, Bool, true, false,
  get_elem?, set, ltb, bit_and, ◌==◌, ◌!=◌, if◌then◌else◌, Result, ok, fault, stuck,
}
use qnx_unit_tests.Transport.{Errno, neg32}

-- kVringDescFlagNext, kVringDescFlagWrite
abbrev pub vring_desc_flag_next : ℕ
vring_desc_flag_next = 1

abbrev pub vring_desc_flag_write : ℕ
vring_desc_flag_write = 2

pub record VringDesc : Type 0 where
  pub addr : ℕ
  pub len : ℕ
  pub flags : ℕ
  pub next : ℕ

pub record VringUsedElem : Type 0 where
  pub id : ℕ
  pub len : ℕ

pub record Virtqueue : Type 0 where
  pub queue_size : ℕ
  pub free_head : ℕ
  pub num_free : ℕ
  pub last_used_idx : ℕ
  pub legacy_mode : Bool
  pub base_virt : Option ℕ
  pub base_phys : ℕ
  pub base_alloc_size : ℕ
  pub desc_virt : Option ℕ
  pub desc_phys : ℕ
  pub avail_virt : Option ℕ
  pub avail_phys : ℕ
  pub used_virt : Option ℕ
  pub used_phys : ℕ
  pub desc_alloc_size : ℕ
  pub avail_alloc_size : ℕ
  pub used_alloc_size : ℕ
  pub desc : List VringDesc
  pub avail : List ℕ
  pub used_idx : ℕ
  pub used : List VringUsedElem

-- Virtqueue(std::uint16_t queue_size)
abbrev pub new_queue : ℕ → Virtqueue
new_queue queue_size = record {
  queue_size = queue_size;
  free_head = 0;
  num_free = queue_size;
  last_used_idx = 0;
  legacy_mode = false;
  base_virt = none;
  base_phys = 0;
  base_alloc_size = 0;
  desc_virt = none;
  desc_phys = 0;
  avail_virt = none;
  avail_phys = 0;
  used_virt = none;
  used_phys = 0;
  desc_alloc_size = 0;
  avail_alloc_size = 0;
  used_alloc_size = 0;
  desc = [];
  avail = [];
  used_idx = 0;
  used = [];
}

abbrev pub Step : Type 0 → Type 0
Step A = Virtqueue → Result (A × Virtqueue)

abbrev pub pure : {A : Type 0} → A → Step A
pure a q = ok (a, q)

abbrev pub continue :
    {A B : Type 0} → Result (A × Virtqueue) → (A → Step B) → Result (B × Virtqueue)
continue (ok (a, q)) f = f a q
continue fault f = fault
continue stuck f = stuck

infixl 5 ◌>>=◌ ◌>>◌
abbrev pub ◌>>=◌ : {A B : Type 0} → Step A → (A → Step B) → Step B
◌>>=◌ m f q = continue (m q) f

abbrev pub ◌>>◌ : {B : Type 0} → Step (Unit {0}) → Step B → Step B
m >> k = m >>= λ _. k

abbrev pub or_fault : {A : Type 0} → Option A → Step A
or_fault none q = fault
or_fault (some a) q = ok (a, q)

-- desc_virt_[i]
abbrev pub desc_at : ℕ → Step VringDesc
desc_at i q = or_fault (get_elem? q.desc i) q

abbrev pub put_desc : ℕ → VringDesc → Step (Unit {0})
put_desc i d q = ok (tt, record q { desc = set q.desc i d })

-- desc_virt_[i].addr, .len and .flags are written.
abbrev pub fill : ℕ → ℕ → ℕ → ℕ → Step (Unit {0})
fill i addr len flags = do
  d ← desc_at i
  put_desc i (record d { addr = addr; len = len; flags = flags })

-- desc_virt_[i].next = n
abbrev pub link : ℕ → ℕ → Step (Unit {0})
link i n = do d ← desc_at i; put_desc i (record d { next = n })

-- free_head_ = desc_virt_[i].next; --num_free_
abbrev pub pop : ℕ → Step (Unit {0})
pop i = do
  d ← desc_at i
  λ q. ok (tt, record q { free_head = d.next; num_free = (q.num_free + (2 ^ 16 - 1)) % 2 ^ 16 })

abbrev pub head_of : Step ℕ
head_of q = ok (q.free_head, q)

-- The head goes into the available ring, and then the ring's index is advanced.
abbrev pub publish : ℕ → Step (Unit {0})
publish head q =
    (or_fault (get_elem? q.avail 1) >>= λ avail_idx q.
    (or_fault (get_elem? q.avail (2 + avail_idx % q.queue_size)) >>= λ _ q. ok (
      tt,
      record q {
        avail = set (set q.avail (2 + avail_idx % q.queue_size) head) 1 ((avail_idx + 1) % 2 ^ 16);
      },
    ))
      q)
      q

unfoldable pub add_buf : Errno → ℕ → ℕ → ℕ → ℕ → Step ℕ
add_buf e out_phys out_len in_phys in_len q =
    if ltb q.num_free 2
    then ok (neg32 e.enospc, q)
    else (do
      head ← head_of
      fill head out_phys out_len vring_desc_flag_next
      pop head
      idx ← head_of
      fill idx in_phys in_len vring_desc_flag_write
      link head idx
      pop idx
      publish head
      pure head)
        q

-- free_head_ = i; ++num_free_
abbrev pub push : ℕ → Step (Unit {0})
push i q = ok (tt, record q { free_head = i; num_free = (q.num_free + 1) % 2 ^ 16 })

-- The loop that returns a chain to the free list, for at most `fuel` descriptors.
unfoldable pub free_chain : ℕ → ℕ → Step (Unit {0})
free_chain zero i = λ q. stuck
free_chain (suc fuel) i = do
  d ← desc_at i
  head ← head_of
  link i head
  push i
  if d.flags % 2 != 0 then free_chain fuel d.next else pure tt

-- The code, and `out_len`, which is not written where no buffer is there.
unfoldable pub get_buf : ℕ → ℕ → Step (ℕ × ℕ)
unfolding free_chain
get_buf fuel out_len q =
    if q.last_used_idx == q.used_idx
    then ok ((neg32 1, out_len), q)
    else (do
      elem ← (λ q. or_fault (get_elem? q.used (q.last_used_idx % q.queue_size)) q)
      free_chain fuel (elem.id % 2 ^ 16)
      λ q. ok ((elem.id, elem.len), record q { last_used_idx = (q.last_used_idx + 1) % 2 ^ 16 }))
        q

-- GetDescAddr, GetAvailAddr, GetUsedAddr and GetQueueSize.
abbrev pub get_desc_addr : Virtqueue → ℕ
get_desc_addr q = q.desc_phys

abbrev pub get_avail_addr : Virtqueue → ℕ
get_avail_addr q = q.avail_phys

abbrev pub get_used_addr : Virtqueue → ℕ
get_used_addr q = q.used_phys

abbrev get_queue_size : Virtqueue → ℕ
get_queue_size q = q.queue_size
