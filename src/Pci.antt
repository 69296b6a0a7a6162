-- ===== src/Pci.antt =====
-- transport/pci_transport.h and transport/pci_transport.cpp: the virtio transport over the PCI bus, as a
-- driver of a machine. Here are its fields and the set-up of the device through its common
-- configuration, whose address `cfg` is that of common_cfg_. The logging is left out.
pub mod Bus
pub mod Scan
pub mod Bars
pub mod Interrupts
pub mod Discover
pub mod Start
pub mod Traffic
pub mod Balance
pub mod Find
pub mod Obtain
pub mod Hold
pub mod Stages
pub mod Release
pub mod Life
pub mod Reply
pub mod Tag
pub mod Endless
pub mod Sane
pub mod Returns
pub mod Ranges
pub mod Completes
use qnx_unit_tests.Base.{
  ℕ, zero, suc, ◌+◌, ◌/◌, ◌%◌, ◌^◌, List, [], ◌∷◌, Option, none, some, Bool, true, false, ltb,
  bit_and, ◌==◌, ◌!=◌, if◌then◌else◌,
}
use qnx_unit_tests.Base.Proc.{Proc, done, update, ◌>>=◌, ◌>>◌}
use qnx_unit_tests.Registers.{
  status_acknowledge, status_driver, status_driver_ok, status_features_ok, status_failed,
  default_queue_size,
}
use qnx_unit_tests.Registers.Pci.{
  device_feature_select_off, device_feature_off, driver_feature_select_off, driver_feature_off,
  msix_config_off, device_status_off, queue_select_off, queue_size_off, queue_msix_vector_off,
  queue_enable_off, queue_notify_off_off, queue_desc_off, queue_avail_off, queue_used_off,
}
use qnx_unit_tests.Transport.{Errno, neg32}
use qnx_unit_tests.Virtqueue.{get_desc_addr, get_avail_addr, get_used_addr}
use qnx_unit_tests.Virtqueue.Initialize.{initialize_modern}
use qnx_unit_tests.Machine.{Machine}
use qnx_unit_tests.Link.{
  no_link, Driver, Failure, call, alloc_request, alloc_response, attach_irq, ◌andthen◌,
}
use qnx_unit_tests.Link.Steps.{must, reset_code, on_queue, get_addr, replace_queue}

-- The fields of the class that are not the link's. `bars` is bar_virt_ and bar_size_, entry by entry.
pub record Pci : Type 0 where
  pub common_cfg : Option ℕ
  pub notify_base : Option ℕ
  pub device_cfg : Option ℕ
  pub isr_cfg : Option ℕ
  pub notify_offset_multiplier : ℕ
  pub queue_notify_off : ℕ
  pub pci_handle : Option ℕ
  pub irq_num : ℕ
  pub use_msix : Bool
  pub msix_cap_offset : ℕ
  pub msix_table : Option ℕ
  pub msix_table_size : ℕ
  pub bars : List (Option ℕ × ℕ)

abbrev pub no_bar : Option ℕ × ℕ
no_bar = (none, 0)

-- PciTransportImpl()
abbrev pub new_pci : {W : Type 0} → W → Driver Pci W
new_pci w = record {
  own = record {
    common_cfg = none;
    notify_base = none;
    device_cfg = none;
    isr_cfg = none;
    notify_offset_multiplier = 0;
    queue_notify_off = 0;
    pci_handle = none;
    irq_num = 0;
    use_msix = false;
    msix_cap_offset = 0;
    msix_table = none;
    msix_table_size = 0;
    bars = no_bar ∷ no_bar ∷ no_bar ∷ no_bar ∷ no_bar ∷ no_bar ∷ [];
  };
  link = no_link;
  world = w;
}

module _ {W : Type 0} where
  abbrev pub get_own : {A : Type 0} → (Pci → A) → Proc (Driver Pci W) A
  get_own f d = (f d.own, d)

  abbrev pub set_own : (Pci → Pci) → Proc (Driver Pci W) (Unit {0})
  set_own f = update λ d. record d { own = f d.own }

module _ {W : Type 0} (k : Machine W) where
  -- ReadCommon8, ReadCommon16 and ReadCommon32, for so many bits.
  unfoldable pub read_common : ℕ → ℕ → ℕ → Proc (Driver Pci W) ℕ
  read_common cfg bits offset = call (k.load bits (cfg + offset))

  -- WriteCommon8, WriteCommon16 and WriteCommon32.
  unfoldable pub write_common : ℕ → ℕ → ℕ → ℕ → Proc (Driver Pci W) (Unit {0})
  write_common cfg bits offset value = call λ w. (tt, k.store bits (cfg + offset) value w)

  unfoldable pub write_common64 : ℕ → ℕ → ℕ → Proc (Driver Pci W) (Unit {0})
  unfolding write_common
  write_common64 cfg offset value = do
    write_common cfg 32 offset (value % 2 ^ 32)
    write_common cfg 32 (offset + 4) ((value / 2 ^ 32) % 2 ^ 32)

module _ {W : Type 0} (k : Machine W) (e : Errno) where
  unfoldable pub negotiate_at : ℕ → Proc (Driver Pci W) ℕ
  unfolding read_common write_common
  negotiate_at cfg = do
    write_common k cfg 8 device_status_off 0
    write_common k cfg 8 device_status_off status_acknowledge
    write_common k cfg 8 device_status_off (status_acknowledge + status_driver)
    write_common k cfg 32 device_feature_select_off 0
    device_features_lo ← read_common k cfg 32 device_feature_off
    write_common k cfg 32 driver_feature_select_off 0
    write_common k cfg 32 driver_feature_off (bit_and device_features_lo 1)
    write_common k cfg 32 device_feature_select_off 1
    device_features_hi ← read_common k cfg 32 device_feature_off
    write_common k cfg 32 driver_feature_select_off 1
    write_common k cfg 32 driver_feature_off (bit_and device_features_hi 1)
    write_common k cfg 8 device_status_off (status_acknowledge + status_driver + status_features_ok)
    s ← read_common k cfg 8 device_status_off
    if bit_and s status_features_ok == 0
        then (do write_common k cfg 8 device_status_off status_failed; done (neg32 e.eio))
        else done 0

  -- A step that needs the common configuration.
  abbrev pub with_common : (ℕ → Proc (Driver Pci W) ℕ) → Option ℕ → Proc (Driver Pci W) ℕ
  with_common f none = done (neg32 e.einval)
  with_common f (some cfg) = f cfg

  unfoldable pub negotiate_features : Proc (Driver Pci W) ℕ
  unfolding negotiate_at
  negotiate_features = do cfg ← get_own λ t. t.common_cfg; with_common negotiate_at cfg

  -- The device may reject the vector of the queue.
  abbrev pub choose_vector : ℕ → Bool → Proc (Driver Pci W) (Unit {0})
  choose_vector cfg false = done tt
  choose_vector cfg true = do
    write_common k cfg 16 queue_msix_vector_off 0
    vector ← read_common k cfg 16 queue_msix_vector_off
    if vector == 0xffff then set_own (λ t. record t { use_msix = false }) else done tt

  abbrev pub no_vector : ℕ → Bool → Proc (Driver Pci W) (Unit {0})
  no_vector cfg true = done tt
  no_vector cfg false = write_common k cfg 16 queue_msix_vector_off 0xffff

  unfoldable pub set_vector : ℕ → Proc (Driver Pci W) (Unit {0})
  unfolding read_common write_common
  set_vector cfg = do
    write_common k cfg 16 msix_config_off 0xffff
    wanted ← get_own λ t. t.use_msix
    choose_vector cfg wanted
    used ← get_own λ t. t.use_msix
    no_vector cfg used

  -- What follows the initialization of the queue.
  unfoldable pub enable_queue : ℕ → ℕ → Proc (Driver Pci W) ℕ
  unfolding read_common write_common write_common64 set_vector
  enable_queue cfg queue_size = do
    write_common k cfg 16 queue_size_off queue_size
    set_vector cfg
    desc_addr ← get_addr get_desc_addr
    avail_addr ← get_addr get_avail_addr
    used_addr ← get_addr get_used_addr
    write_common64 k cfg queue_desc_off desc_addr
    write_common64 k cfg queue_avail_off avail_addr
    write_common64 k cfg queue_used_off used_addr
    notify_off ← read_common k cfg 16 queue_notify_off_off
    set_own λ t. record t { queue_notify_off = notify_off }
    write_common k cfg 16 queue_enable_off 1
    write_common k cfg 8 device_status_off
        (status_acknowledge + status_driver + status_features_ok + status_driver_ok)
    done 0

  abbrev pub init_queue : Proc (Driver Pci W) ℕ
  init_queue d = on_queue (initialize_modern k.platform e) d.link.virtqueue d

  -- What follows the choice of a size.
  unfoldable pub start_queue : ℕ → ℕ → Proc (Driver Pci W) ℕ
  unfolding replace_queue initialize_modern enable_queue
  start_queue cfg queue_size = do
    replace_queue k queue_size
    rc ← init_queue
    if rc != 0 then done rc else enable_queue cfg queue_size

  abbrev pub size_of_queue : ℕ → ℕ
  size_of_queue max_size = if ltb max_size default_queue_size then max_size else default_queue_size

  unfoldable pub setup_at : ℕ → Proc (Driver Pci W) ℕ
  unfolding read_common write_common start_queue
  setup_at cfg = do
    write_common k cfg 16 queue_select_off 0
    max_size ← read_common k cfg 16 queue_size_off
    if max_size == 0 then done (neg32 e.eio) else start_queue cfg (size_of_queue max_size)

  unfoldable pub setup_virtqueue : Proc (Driver Pci W) ℕ
  unfolding setup_at
  setup_virtqueue = do cfg ← get_own λ t. t.common_cfg; with_common setup_at cfg

  abbrev pub attach_own : Proc (Driver Pci W) (Option Failure)
  attach_own d = attach_irq k e d.own.irq_num d

  -- InitializeDevice
  unfoldable pub initialize_device : Proc (Driver Pci W) ℕ
  unfolding negotiate_features setup_virtqueue alloc_request alloc_response attach_irq
  initialize_device = do
    failed ←
        (must negotiate_features
          andthen must setup_virtqueue
          andthen alloc_request k e
          andthen alloc_response k e
          andthen attach_own)
    reset_code k failed
