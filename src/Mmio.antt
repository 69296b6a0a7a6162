-- ===== src/Mmio.antt =====
-- transport/mmio_transport.h and transport/mmio_transport.cpp: the virtio transport over memory-mapped
-- registers, as a driver of a machine. The logging is left out.
pub mod Start
pub mod Traffic
pub mod Balance
pub mod Stages
pub mod Reply
pub mod Life
pub mod Tag
use qnx_unit_tests.Base.{
  ℕ, zero, suc, ◌+◌, ◌*◌, ◌/◌, ◌%◌, ◌^◌, Option, none, some, Bool, ltb, bit_and, ◌==◌, ◌!=◌,
  if◌then◌else◌,
}
use qnx_unit_tests.Base.Proc.{Proc, done, update, ◌>>=◌, ◌>>◌}
use qnx_unit_tests.Registers.{
  version_reg, device_features_reg, device_features_sel_reg, driver_features_reg,
  driver_features_sel_reg, guest_page_size_reg, queue_sel_reg, queue_num_max_reg, queue_num_reg,
  queue_align_reg, queue_pfn_reg, queue_ready_reg, status_reg, queue_desc_low_reg,
  queue_desc_high_reg, queue_avail_low_reg, queue_avail_high_reg, queue_used_low_reg,
  queue_used_high_reg, status_acknowledge, status_driver, status_driver_ok, status_features_ok,
  status_failed, default_queue_size,
}
use qnx_unit_tests.Transport.{Errno, neg32}
use qnx_unit_tests.Virtqueue.{Virtqueue, new_queue, get_desc_addr, get_avail_addr, get_used_addr}
use qnx_unit_tests.Virtqueue.Initialize.{initialize_legacy, initialize_modern}
use qnx_unit_tests.Machine.{Machine}
use qnx_unit_tests.Link.Steps.{on_queue, get_addr, replace_queue}
use qnx_unit_tests.Link.{
  Link, no_link, Driver, drop_queue, call, set_link, detach_irq, free_buffers, reset_queue,
}

-- MmioConfig, and the fields of the class that are not the link's.
pub record Mmio : Type 0 where
  pub base_address : ℕ
  pub irq : ℕ
  pub region_size : ℕ
  pub regs : Option ℕ
  pub mmio_version : ℕ

-- MmioTransportImpl(config)
abbrev pub new_mmio : {W : Type 0} → ℕ → ℕ → ℕ → W → Driver Mmio W
new_mmio base_address irq region_size w = record {
  own = record {
    base_address = base_address;
    irq = irq;
    region_size = region_size;
    regs = none;
    mmio_version = 0;
  };
  link = no_link;
  world = w;
}

abbrev pub queue_size_of : ℕ → ℕ
queue_size_of max_size =
    if ltb max_size default_queue_size then max_size % 2 ^ 16 else default_queue_size

module _ {W : Type 0} (k : Machine W) where
  abbrev pub load_at : Option ℕ → ℕ → W → ℕ × W
  load_at none offset w = (0, w)
  load_at (some regs) offset w = k.load 32 (regs + offset) w

  abbrev pub store_at : Option ℕ → ℕ → ℕ → W → W
  store_at none offset value w = w
  store_at (some regs) offset value w = k.store 32 (regs + offset) value w

  abbrev pub unmap_regs : Option ℕ → ℕ → W → W
  unmap_regs none size w = w
  unmap_regs (some regs) size w = k.unmap_device regs size w

module _ {W : Type 0} (k : Machine W) (e : Errno) where
  unfoldable pub read_reg : ℕ → Proc (Driver Mmio W) ℕ
  read_reg offset d = call (load_at k d.own.regs offset) d

  unfoldable pub write_reg : ℕ → ℕ → Proc (Driver Mmio W) (Unit {0})
  write_reg offset value =
      update λ d. record d { world = store_at k d.own.regs offset value d.world }

  -- What NegotiateFeatures does with a device of version 1, and with a later one.
  unfoldable pub legacy_features : Proc (Driver Mmio W) ℕ
  unfolding read_reg write_reg
  legacy_features = do
    write_reg guest_page_size_reg 4096
    write_reg device_features_sel_reg 0
    device_features ← read_reg device_features_reg
    write_reg driver_features_sel_reg 0
    write_reg driver_features_reg (bit_and device_features 1)
    done 0

  unfoldable pub modern_features : Proc (Driver Mmio W) ℕ
  unfolding read_reg write_reg
  modern_features = do
    write_reg device_features_sel_reg 0
    device_features_lo ← read_reg device_features_reg
    write_reg device_features_sel_reg 1
    device_features_hi ← read_reg device_features_reg
    write_reg driver_features_sel_reg 0
    write_reg driver_features_reg (bit_and device_features_lo 1)
    write_reg driver_features_sel_reg 1
    write_reg driver_features_reg (bit_and device_features_hi 1)
    write_reg status_reg (status_acknowledge + status_driver + status_features_ok)
    s ← read_reg status_reg
    if bit_and s status_features_ok == 0
        then (do write_reg status_reg status_failed; done (neg32 e.eio))
        else done 0

  unfoldable pub negotiate_features : Proc (Driver Mmio W) ℕ
  unfolding read_reg write_reg legacy_features modern_features
  negotiate_features = do
    version ← read_reg version_reg
    update λ d. record d { own = record d.own { mmio_version = version } }
    write_reg status_reg 0
    write_reg status_reg status_acknowledge
    write_reg status_reg (status_acknowledge + status_driver)
    if version == 1 then legacy_features else modern_features

  abbrev pub get_version : Proc (Driver Mmio W) ℕ
  get_version d = (d.own.mmio_version, d)

  -- The queue of a device of version 1, in one piece.
  unfoldable pub start_legacy : ℕ → Proc (Driver Mmio W) ℕ
  unfolding read_reg write_reg initialize_legacy
  start_legacy queue_size = do
    rc ← (λ d. on_queue (initialize_legacy k.platform e 4096) d.link.virtqueue d)
    if rc != 0 then done rc else (do
      write_reg queue_num_reg queue_size
      write_reg queue_align_reg 4096
      base_phys ← get_addr get_desc_addr
      write_reg queue_pfn_reg ((base_phys / 4096) % 2 ^ 32)
      write_reg status_reg (status_acknowledge + status_driver + status_driver_ok)
      done 0)

  -- The queue of a later device, in three.
  unfoldable pub start_modern : ℕ → Proc (Driver Mmio W) ℕ
  unfolding read_reg write_reg initialize_modern
  start_modern queue_size = do
    rc ← (λ d. on_queue (initialize_modern k.platform e) d.link.virtqueue d)
    if rc != 0 then done rc else (do
      write_reg queue_num_reg queue_size
      desc_addr ← get_addr get_desc_addr
      avail_addr ← get_addr get_avail_addr
      used_addr ← get_addr get_used_addr
      write_reg queue_desc_low_reg (desc_addr % 2 ^ 32)
      write_reg queue_desc_high_reg ((desc_addr / 2 ^ 32) % 2 ^ 32)
      write_reg queue_avail_low_reg (avail_addr % 2 ^ 32)
      write_reg queue_avail_high_reg ((avail_addr / 2 ^ 32) % 2 ^ 32)
      write_reg queue_used_low_reg (used_addr % 2 ^ 32)
      write_reg queue_used_high_reg ((used_addr / 2 ^ 32) % 2 ^ 32)
      write_reg queue_ready_reg 1
      write_reg status_reg
          (status_acknowledge + status_driver + status_features_ok + status_driver_ok)
      done 0)

  unfoldable pub setup_virtqueue : Proc (Driver Mmio W) ℕ
  unfolding read_reg write_reg replace_queue start_legacy start_modern
  setup_virtqueue = do
    write_reg queue_sel_reg 0
    max_size ← read_reg queue_num_max_reg
    if max_size == 0 then done (neg32 e.eio) else (do
      replace_queue k (queue_size_of max_size)
      version ← get_version
      if version == 1
          then start_legacy (queue_size_of max_size)
          else start_modern (queue_size_of max_size))

  abbrev pub unmap : Proc (Driver Mmio W) (Unit {0})
  unmap d = (
    tt,
    record d {
      world = unmap_regs k d.own.regs d.own.region_size d.world;
      own = record d.own { regs = none };
    },
  )

  unfoldable pub shutdown : Proc (Driver Mmio W) (Unit {0})
  unfolding write_reg detach_irq free_buffers reset_queue
  shutdown = do detach_irq k; free_buffers k; write_reg status_reg 0; unmap; reset_queue k
