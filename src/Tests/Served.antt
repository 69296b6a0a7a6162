-- ===== src/Tests/Served.antt =====
-- Exchanges over both transports on a machine whose device answers a request by its echo behind a byte 7.
use qnx_unit_tests.Base.{
  ap, ◌⊎◌, ℕ, zero, suc, ◌+◌, ◌%◌, ◌^◌, ◌<◌, List, [], ◌∷◌, Option, none, some, Bool, true, false,
  ◌≡◌, refl, arith, length, get_elem?, ok, ◌==◌, ◌&&◌, if◌then◌else◌,
}
use qnx_unit_tests.Virtqueue.{VringDesc, VringUsedElem}
use qnx_unit_tests.Virtqueue.Initialize.{replicate}
use qnx_unit_tests.Machine.{Machine, Memory}
use qnx_unit_tests.Link.{Driver}
use qnx_unit_tests.Link.Exchange.{first_bytes}
use qnx_unit_tests.Link.Reply.{Serves, Open}
use qnx_unit_tests.Mmio.{Mmio, new_mmio}
use qnx_unit_tests.Mmio.Traffic as MmioTraffic
use qnx_unit_tests.Mmio.Reply.{Interrupts, exchange-Serves, Exchanged, exchanges-Open}
use qnx_unit_tests.Mmio.Reply as MmioReply
use qnx_unit_tests.Pci.{Pci, new_pci}
use qnx_unit_tests.Pci.Traffic as PciTraffic
use qnx_unit_tests.Pci.Reply.{pci_exchange-Serves}
use qnx_unit_tests.Pci.Reply as PciReply
use qnx_unit_tests.Tests.Server.{posix}
use qnx_unit_tests.Tests.Drivers.{window, ready_link, ready_link-Open}

abbrev echo : List ℕ → List ℕ
echo bs = 7 ∷ bs

-- The device: the requests that it has served, and whether it has been notified.
record Device : Type 0 where
  pub count : ℕ
  pub bell : Bool

abbrev count_of : Device → ℕ
count_of w = w.count

abbrev bell_of : Device → Bool
bell_of w = w.bell

abbrev Looked : Type 0
Looked = (ℕ × List VringUsedElem × List ℕ) × Device

abbrev nothing_new : Memory → Device → Looked
nothing_new m w = ((m.used_idx, m.used, m.resp), w)

-- The answer to the request of the chain of `d` and `other`, if they are of the two buffers.
abbrev reply : Memory → Device → ℕ → VringDesc → Option VringDesc → Looked
reply m w head d none = nothing_new m w
reply m w head d (some other) =
    let bs = echo (first_bytes d.len m.req) in
    if d.addr == m.req_phys && other.addr == m.resp_phys
    then (
      ((w.count + 1) % 2 ^ 16, replicate m.queue_size (record { id = head; len = length bs }), bs),
      record { count = (w.count + 1) % 2 ^ 16; bell = false },
    )
    else nothing_new m w

abbrev follow : Memory → Device → ℕ → Option VringDesc → Looked
follow m w head none = nothing_new m w
follow m w head (some d) = reply m w head d (get_elem? m.desc d.next)

abbrev take_head : Memory → Device → Option ℕ → Looked
take_head m w none = nothing_new m w
take_head m w (some head) = follow m w head (get_elem? m.desc head)

abbrev serve : Memory → Device → Looked
serve m w =
    if w.bell
    then take_head m w (get_elem? m.avail (2 + w.count % m.queue_size))
    else nothing_new m w

-- A store to the window's register 0x50 notifies the device.
abbrev machine : Machine Device
machine = record {
  platform = record {
    mmap = λ size w. (none, w);
    mem_offset64 = λ virt size w. (0, virt, w);
    munmap = λ virt size w. w;
  };
  map_device = λ size base w. (some window, w);
  unmap_device = λ virt size w. w;
  load = λ bits at w. (0, w);
  store = λ bits at v w. if at == window + 0x50 then record w { bell = true } else w;
  errno = λ w. 5;
  channel_create = λ w. (some 1, w);
  connect_attach = λ chid w. (some 2, w);
  interrupt_attach = λ irq coid w. (some 3, w);
  channel_destroy = λ id w. w;
  connect_detach = λ id w. w;
  interrupt_detach = λ id w. w;
  interrupt_unmask = λ irq id w. w;
  receive_pulse = λ chid ns w. (w.bell, w);
  nanosleep = λ ns w. w;
  device = serve;
}

get_elem?-replicate : {A : Type 0} (n i : ℕ) (a : A) → i < n → get_elem? (replicate n a) i ≡ some a
get_elem?-replicate zero i a h = absurd (omega arith)
get_elem?-replicate (suc n) zero a h = refl
get_elem?-replicate (suc n) (suc i) a h = get_elem?-replicate n i a (omega arith)

first_bytes-all : (xs : List ℕ) → first_bytes (length xs) xs ≡ xs
unfolding first_bytes
first_bytes-all [] = refl
first_bytes-all (x ∷ xs) = ap (◌∷◌ x) (first_bytes-all xs)

machine-Serves : (bits : ℕ) → Serves echo machine bits (window + 0x50) count_of bell_of
machine-Serves bits = record {
  rings = λ w. (refl, refl);
  load_quiet = λ b at w. (refl, refl);
  pulse_quiet = λ chid ns w. (refl, refl);
  unmask_quiet = λ irq id w. (refl, refl);
  completes = λ m w head len other room next rang some_size index slot first second fits.
      let mine : (m.req_phys == m.req_phys && m.resp_phys == m.resp_phys) ≡ true = ground arith in
      rw (rang, slot, first, second, mine)
        (
          refl,
          get_elem?-replicate m.queue_size (w.count % m.queue_size) _ (omega arith),
          first_bytes-all (echo (first_bytes len m.req)),
          refl,
        );
}

machine-Interrupts : Interrupts machine window 1 count_of bell_of
machine-Interrupts = record { pulses = λ w rang. rang; ack_quiet = λ v w. (refl, refl) }

-- The device has served 2^16 - 1 requests, so the indices are about to wrap.
abbrev before : Device
before = record { count = 65535; bell = false }

abbrev mmio_driver : Driver Mmio Device
mmio_driver = record {
  own = record (new_mmio 0x20000000 43 0x200 before).own { regs = some window };
  link = record ready_link.link { chid = some 1 };
  world = before;
}

abbrev mmio_open : Open mmio_driver.link (0 ∷ 1 ∷ 2 ∷ 3 ∷ [])
mmio_open = record {
  q = ready_link-Open.q;
  idx = ready_link-Open.idx;
  req = ready_link-Open.req;
  resp = ready_link-Open.resp;
  has_queue = ready_link-Open.has_queue;
  ready = ready_link-Open.ready;
  caught_up = ready_link-Open.caught_up;
  has_req = ready_link-Open.has_req;
  has_resp = ready_link-Open.has_resp;
}

mmio_driver-Prepared : MmioReply.Prepared window 1 count_of mmio_driver (0 ∷ 1 ∷ 2 ∷ 3 ∷ [])
mmio_driver-Prepared = record {
  has_regs = refl;
  has_channel = refl;
  in_step = record { link_open = mmio_open; made = refl; seen = refl };
}

exchange-Serves_example :
    (d' : Driver Mmio Device) × (MmioTraffic.exchange machine posix 2 (1 ∷ 2 ∷ 3 ∷ []) mmio_driver
      ≡ ok ((0, 7 ∷ 1 ∷ 2 ∷ 3 ∷ []), d'))
    × MmioReply.Prepared window 1 count_of d' (1 ∷ 0 ∷ 2 ∷ 3 ∷ [])
exchange-Serves_example =
    exchange-Serves machine posix echo window 1 count_of bell_of (machine-Serves 32)
      machine-Interrupts 0 (1 ∷ 2 ∷ 3 ∷ []) mmio_driver 0 1 (2 ∷ 3 ∷ []) mmio_driver-Prepared
      (omega arith) (omega arith)

exchanges-Open_example :
    (d' : Driver Mmio Device) × Exchanged machine posix echo window 1 count_of bell_of
      (machine-Serves 32)
      machine-Interrupts
      2
      ((1 ∷ 2 ∷ []) ∷ (3 ∷ []) ∷ [])
      ((7 ∷ 1 ∷ 2 ∷ []) ∷ (7 ∷ 3 ∷ []) ∷ [])
      mmio_driver
      d'
    × ((MmioReply.Prepared window 1 count_of d' (0 ∷ 1 ∷ 2 ∷ 3 ∷ []))
        ⊎ (MmioReply.Prepared window 1 count_of d' (1 ∷ 0 ∷ 2 ∷ 3 ∷ [])))
exchanges-Open_example =
    exchanges-Open machine posix echo window 1 count_of bell_of (machine-Serves 32)
      machine-Interrupts 0 ((1 ∷ 2 ∷ []) ∷ (3 ∷ []) ∷ []) mmio_driver 0 1 (2 ∷ 3 ∷ [])
      mmio_driver-Prepared ((omega arith, omega arith), ((omega arith, omega arith), tt))

-- The notification of queue 0 is 0x14 units of 4 bytes behind the window's start.
abbrev pci_driver : Driver Pci Device
pci_driver = record {
  own = record (new_pci before).own {
    notify_base = some window;
    queue_notify_off = 0x14;
    notify_offset_multiplier = 4;
  };
  link = ready_link.link;
  world = before;
}

pci_driver-Prepared : PciReply.Prepared (window + 0x50) count_of pci_driver (0 ∷ 1 ∷ 2 ∷ 3 ∷ [])
pci_driver-Prepared = record {
  base = window;
  has_base = refl;
  bell_at = refl;
  in_step = record { link_open = ready_link-Open; made = refl; seen = refl };
}

pci_exchange-Serves_example :
    (d' : Driver Pci Device) × (PciTraffic.exchange machine posix 2 0 (1 ∷ 2 ∷ 3 ∷ []) pci_driver
      ≡ ok ((0, 7 ∷ 1 ∷ 2 ∷ 3 ∷ []), d'))
    × PciReply.Prepared (window + 0x50) count_of d' (1 ∷ 0 ∷ 2 ∷ 3 ∷ [])
pci_exchange-Serves_example =
    pci_exchange-Serves machine posix echo (window + 0x50) count_of bell_of (machine-Serves 16) 0 0
      (1 ∷ 2 ∷ 3 ∷ []) pci_driver 0 1 (2 ∷ 3 ∷ []) pci_driver-Prepared (omega arith) (omega arith)
