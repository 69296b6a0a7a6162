-- ===== src/Link.antt =====
-- What transport/mmio_transport.cpp and transport/pci_transport.cpp have in common, line for line: the
-- queue, the two bounce buffers and the interrupt of a transport. The buffers' bytes are lists; what
-- lies behind the end of a list is 0.
pub mod Exchange
pub mod Balance
pub mod Setup
pub mod Steps
pub mod Books
pub mod Reply
pub mod Serve
pub mod Traffic
pub mod Tag
use qnx_unit_tests.Base.{
  ℕ, zero, suc, ◌+◌, ◌%◌, ◌^◌, List, [], ◌∷◌, ◌++◌, Option, none, some, Bool, true, false, ltb, leb,
  drop, length, ◌==◌, ◌!=◌, if◌then◌else◌, Result, ok, fault, stuck,
}
use qnx_unit_tests.Base.Proc.{Proc, done, update, ◌>>=◌, ◌>>◌}
use qnx_unit_tests.Types.{max_message_size}
use qnx_unit_tests.Transport.{Errno, neg32}
use qnx_unit_tests.Virtqueue.{Virtqueue}
use qnx_unit_tests.Virtqueue.Initialize.{destroy}
use qnx_unit_tests.Machine.{Machine}

pub record Link : Type 0 where
  pub virtqueue : Option Virtqueue
  pub irq_id : Option ℕ
  pub chid : Option ℕ
  pub coid : Option ℕ
  pub dma_req_virt : Option ℕ
  pub dma_req_phys : ℕ
  pub dma_resp_virt : Option ℕ
  pub dma_resp_phys : ℕ
  pub dma_req : List ℕ
  pub dma_resp : List ℕ

abbrev pub no_link : Link
no_link = record {
  virtqueue = none;
  irq_id = none;
  chid = none;
  coid = none;
  dma_req_virt = none;
  dma_req_phys = 0;
  dma_resp_virt = none;
  dma_resp_phys = 0;
  dma_req = [];
  dma_resp = [];
}

-- A transport's own fields, its link, and the machine.
pub record Driver (T W : Type 0) : Type 0 where
  pub own : T
  pub link : Link
  pub world : W

-- Why a step of the set-up gives up: it returns a code, or -errno of the time of the return.
pub data Failure : Type 0 where
  code : ℕ → Failure
  by_errno : Failure

module _ {W : Type 0} (k : Machine W) where
  -- mem_offset64: the code, and the physical address.
  abbrev pub locate : ℕ → W → (ℕ × ℕ) × W
  locate virt w =
      let (rc, off, w') = k.platform.mem_offset64 virt max_message_size w in ((rc, off), w')

  abbrev pub drop_irq : Option ℕ → W → W
  drop_irq none w = w
  drop_irq (some id) w = k.interrupt_detach id w

  abbrev pub drop_connection : Option ℕ → W → W
  drop_connection none w = w
  drop_connection (some id) w = k.connect_detach id w

  abbrev pub drop_channel : Option ℕ → W → W
  drop_channel none w = w
  drop_channel (some id) w = k.channel_destroy id w

  abbrev pub drop_buffer : Option ℕ → W → W
  drop_buffer none w = w
  drop_buffer (some virt) w = k.platform.munmap virt max_message_size w

  -- virtqueue_.reset()
  abbrev pub drop_queue : Option Virtqueue → W → W
  drop_queue none w = w
  drop_queue (some q) w = destroy k.platform q w

module _ {T W : Type 0} where
  -- A call of the machine.
  abbrev pub call : {A : Type 0} → (W → A × W) → Proc (Driver T W) A
  call f d = ((f d.world).0, record d { world = (f d.world).1 })

  abbrev pub set_link : (Link → Link) → Proc (Driver T W) (Unit {0})
  set_link f = update λ d. record d { link = f d.link }

  -- A step of the set-up, if the ones before it went well.
  infixr 6 ◌andthen◌
  abbrev pub ◌andthen◌ :
      Proc (Driver T W) (Option Failure)
      → Proc (Driver T W) (Option Failure)
      → Proc (Driver T W) (Option Failure)
  m andthen n = m >>= λ failed. elim failed [ none ↦ n | some f ↦ done (some f) ]

module _ {T W : Type 0} (k : Machine W) where
  abbrev pub failure_code : Failure → Driver T W → ℕ
  failure_code (code rc) d = rc
  failure_code by_errno d = neg32 (k.errno d.world)

  unfoldable pub detach_irq : Proc (Driver T W) (Unit {0})
  detach_irq = update λ d. record d {
    world =
        drop_channel k d.link.chid
          (drop_connection k d.link.coid (drop_irq k d.link.irq_id d.world));
    link = record d.link { irq_id = none; coid = none; chid = none };
  }

  unfoldable pub free_buffers : Proc (Driver T W) (Unit {0})
  free_buffers = update λ d. record d {
    world = drop_buffer k d.link.dma_resp_virt (drop_buffer k d.link.dma_req_virt d.world);
    link = record d.link { dma_req_virt = none; dma_resp_virt = none; dma_req = []; dma_resp = [] };
  }

  unfoldable pub reset_queue : Proc (Driver T W) (Unit {0})
  unfolding destroy
  reset_queue = update λ d. record d {
    world = drop_queue k d.link.virtqueue d.world;
    link = record d.link { virtqueue = none };
  }

module _ {T W : Type 0} (k : Machine W) (e : Errno) where
  -- What is done with the mapping of the request buffer.
  abbrev pub request_mapped : Option ℕ → Proc (Driver T W) (Option Failure)
  request_mapped none = do
    set_link λ l. record l { dma_req_virt = none }
    done (some (code (neg32 e.enomem)))
  request_mapped (some virt) = do
    set_link λ l. record l { dma_req_virt = some virt; dma_req = [] }
    off ← call (locate k virt)
    if off.0 != 0
        then done (some by_errno)
        else (do set_link λ l. record l { dma_req_phys = off.1 }; done none)

  unfoldable pub alloc_request : Proc (Driver T W) (Option Failure)
  alloc_request = do mapped ← call (k.platform.mmap max_message_size); request_mapped mapped

  -- What is done with the mapping of the response buffer.
  abbrev pub response_mapped : Option ℕ → Proc (Driver T W) (Option Failure)
  response_mapped none = do
    set_link λ l. record l { dma_resp_virt = none }
    done (some (code (neg32 e.enomem)))
  response_mapped (some virt) = do
    set_link λ l. record l { dma_resp_virt = some virt; dma_resp = [] }
    off ← call (locate k virt)
    if off.0 != 0
        then done (some by_errno)
        else (do set_link λ l. record l { dma_resp_phys = off.1 }; done none)

  unfoldable pub alloc_response : Proc (Driver T W) (Option Failure)
  alloc_response = do mapped ← call (k.platform.mmap max_message_size); response_mapped mapped

  -- What is done with the interrupt, with the connection and with the channel.
  abbrev pub attached : Option ℕ → Proc (Driver T W) (Option Failure)
  attached none = done (some by_errno)
  attached (some id) = done none

  abbrev pub connected : ℕ → Option ℕ → Proc (Driver T W) (Option Failure)
  connected irq none = done (some by_errno)
  connected irq (some connection) = do
    irq_id ← call (k.interrupt_attach irq connection)
    set_link λ l. record l { irq_id = irq_id }
    attached irq_id

  abbrev pub created : ℕ → Option ℕ → Proc (Driver T W) (Option Failure)
  created irq none = done (some by_errno)
  created irq (some channel) = do
    coid ← call (k.connect_attach channel)
    set_link λ l. record l { coid = coid }
    connected irq coid

  -- The channel, the connection to it, and the interrupt that sends it pulses.
  unfoldable pub attach_irq : ℕ → Proc (Driver T W) (Option Failure)
  attach_irq irq = do
    chid ← call k.channel_create
    set_link λ l. record l { chid = chid }
    created irq chid
