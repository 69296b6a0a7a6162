-- ===== src/Mmio/Start.antt =====
-- Initialize and ResetDevice of transport/mmio_transport.cpp.
use qnx_unit_tests.Base.{ℕ, Option, none, some, ◌!=◌, if◌then◌else◌}
use qnx_unit_tests.Base.Proc.{Proc, done, update, ◌>>=◌, ◌>>◌}
use qnx_unit_tests.Registers.{magic_value_reg, device_id_reg, status_reg, virtio_9p_device_id}
use qnx_unit_tests.Transport.{Errno, neg32}
use qnx_unit_tests.Machine.{Machine}
use qnx_unit_tests.Link.{
  Driver, Failure, code, by_errno, call, alloc_request, alloc_response, attach_irq, ◌andthen◌,
  detach_irq, free_buffers, reset_queue,
}
use qnx_unit_tests.Link.Steps.{must, reset_code, quiesce}
use qnx_unit_tests.Mmio.{Mmio, read_reg, write_reg, negotiate_features, setup_virtqueue, shutdown}

module _ {W : Type 0} (k : Machine W) (e : Errno) where
  -- A register that has to hold a value.
  unfoldable pub check_reg : ℕ → ℕ → Proc (Driver Mmio W) (Option Failure)
  unfolding read_reg
  check_reg offset expected = do
    value ← read_reg k e offset
    if value != expected then done (some (code (neg32 e.enodev))) else done none

  -- What Initialize and ResetDevice both do, up to the first failure.
  abbrev attach_own : Proc (Driver Mmio W) (Option Failure)
  attach_own d = attach_irq k e d.own.irq d

  unfoldable pub bring_up : Proc (Driver Mmio W) (Option Failure)
  unfolding negotiate_features setup_virtqueue alloc_request alloc_response attach_irq
  bring_up =
      must (negotiate_features k e)
      andthen must (setup_virtqueue k e)
      andthen alloc_request k e
      andthen alloc_response k e
      andthen attach_own

  -- What Initialize returns for a failure, after a Shutdown.
  abbrev pub give_up : Option Failure → Proc (Driver Mmio W) ℕ
  give_up none = done 0
  give_up (some failed) = do shutdown k e; reset_code k (some failed)

  -- The checks of the device, and what follows them.
  unfoldable pub verify : Proc (Driver Mmio W) (Option Failure)
  unfolding check_reg bring_up
  verify =
      check_reg magic_value_reg 0x74726976
      andthen check_reg device_id_reg virtio_9p_device_id
      andthen bring_up

  -- What Initialize does with the register window.
  abbrev pub after_map : Option ℕ → Proc (Driver Mmio W) ℕ
  after_map none = reset_code k (some by_errno)
  after_map (some virt) = verify >>= give_up

  abbrev pub map_regs : Proc (Driver Mmio W) (Option ℕ)
  map_regs d = call (k.map_device d.own.region_size d.own.base_address) d

  unfoldable pub initialize : Proc (Driver Mmio W) ℕ
  unfolding verify shutdown
  initialize = do
    regs ← map_regs
    update λ d. record d { own = record d.own { regs = regs } }
    after_map regs

  abbrev pub quiet_at : Option ℕ → Proc (Driver Mmio W) (Unit {0})
  quiet_at none = done tt
  quiet_at (some regs) = do write_reg k e status_reg 0; quiesce k (read_reg k e status_reg) 100

  abbrev pub quiet : Proc (Driver Mmio W) (Unit {0})
  quiet d = quiet_at d.own.regs d

  unfoldable pub reset_device : Proc (Driver Mmio W) ℕ
  unfolding write_reg quiesce reset_queue detach_irq free_buffers bring_up
  reset_device = do
    quiet
    reset_queue k
    detach_irq k
    free_buffers k
    failed ← bring_up
    reset_code k failed
