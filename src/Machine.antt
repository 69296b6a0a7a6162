-- ===== src/Machine.antt =====
-- What the transports use of QNX and of the device, over the state of both: the calls of the kernel,
-- the volatile accesses to mapped registers, and the device, which writes to the used ring and to the
-- response buffer on its own.
use qnx_unit_tests.Base.{ℕ, Option, Bool, List}
use qnx_unit_tests.Virtqueue.{VringDesc, VringUsedElem}
use qnx_unit_tests.Virtqueue.Initialize.{Platform}

-- What the driver and the device share: the descriptors and the two rings of the queue, whose places
-- the device is told at the set-up, and the two buffers with their physical addresses.
pub record Memory : Type 0 where
  pub queue_size : ℕ
  pub desc : List VringDesc
  pub avail : List ℕ
  pub used_idx : ℕ
  pub used : List VringUsedElem
  pub req_phys : ℕ
  pub req : List ℕ
  pub resp_phys : ℕ
  pub resp : List ℕ

pub record Machine (W : Type 0) : Type 0 where
  pub platform : Platform W
  -- mmap_device_memory for a size and a physical address, and munmap_device_memory
  pub map_device : ℕ → ℕ → W → Option ℕ × W
  pub unmap_device : ℕ → ℕ → W → W
  -- a volatile read and write of so many bits at an address
  pub load : ℕ → ℕ → W → ℕ × W
  pub store : ℕ → ℕ → ℕ → W → W
  pub errno : W → ℕ
  -- ChannelCreate, ConnectAttach and InterruptAttachEvent; `none` is -1
  pub channel_create : W → Option ℕ × W
  pub connect_attach : ℕ → W → Option ℕ × W
  pub interrupt_attach : ℕ → ℕ → W → Option ℕ × W
  pub channel_destroy : ℕ → W → W
  pub connect_detach : ℕ → W → W
  pub interrupt_detach : ℕ → W → W
  pub interrupt_unmask : ℕ → Option ℕ → W → W
  -- TimerTimeout with MsgReceivePulse: whether a pulse came on the channel
  pub receive_pulse : Option ℕ → ℕ → W → Bool × W
  pub nanosleep : ℕ → W → W
  -- What the driver finds of the device's writes when it looks: the used ring's index and elements and
  -- the response buffer, for the memory so far.
  pub device : Memory → W → (ℕ × List VringUsedElem × List ℕ) × W
