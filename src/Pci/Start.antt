-- ===== src/Pci/Start.antt =====
-- Initialize, ResetDevice and Shutdown of transport/pci_transport.cpp.
use qnx_unit_tests.Base.{
  ℕ, ◌+◌, List, [], ◌∷◌, Option, none, some, false, ◌!=◌, ◌&&◌, if◌then◌else◌,
}
use qnx_unit_tests.Base.Proc.{Proc, done, update, ◌>>=◌, ◌>>◌}
use qnx_unit_tests.Base.Run.{Run, continue, lift, give}
use qnx_unit_tests.Registers.Pci.{device_status_off}
use qnx_unit_tests.Transport.{Errno}
use qnx_unit_tests.Machine.{Machine}
use qnx_unit_tests.Link.{Driver, call, detach_irq, free_buffers, reset_queue}
use qnx_unit_tests.Link.Steps.{quiesce}
use qnx_unit_tests.Pci.{Pci, set_own, read_common, write_common, initialize_device}
use qnx_unit_tests.Pci.Bus.{Bus}
use qnx_unit_tests.Pci.Discover.{discover_device}

module _ {W : Type 0} (k : Machine W) where
  abbrev pub quiet_at : Option ℕ → Proc (Driver Pci W) (Unit {0})
  quiet_at none = done tt
  quiet_at (some cfg) = do
    write_common k cfg 8 device_status_off 0
    quiesce k (read_common k cfg 8 device_status_off) 100

  abbrev pub quiet : Proc (Driver Pci W) (Unit {0})
  quiet d = quiet_at d.own.common_cfg d

  unfoldable pub reset_device : Errno → Proc (Driver Pci W) ℕ
  unfolding read_common write_common quiesce reset_queue detach_irq free_buffers initialize_device
  reset_device e = do quiet; reset_queue k; detach_irq k; free_buffers k; initialize_device k e

  -- The reset before the registers are unmapped.
  abbrev pub stop_at : Option ℕ → Proc (Driver Pci W) (Unit {0})
  stop_at none = done tt
  stop_at (some cfg) = write_common k cfg 8 device_status_off 0

  abbrev pub stop : Proc (Driver Pci W) (Unit {0})
  stop d = stop_at d.own.common_cfg d

  -- The loop over bar_virt_ and bar_size_; a size stays as it was.
  unfoldable pub unmap_bars : List (Option ℕ × ℕ) → W → List (Option ℕ × ℕ) × W
  unmap_bars [] w = ([], w)
  unmap_bars ((none, size) ∷ bars) w =
      let (rest, w') = unmap_bars bars w in ((none, size) ∷ rest, w')
  unmap_bars ((some virt, size) ∷ bars) w =
      let (rest, w') = unmap_bars bars (k.unmap_device virt size w) in ((none, size) ∷ rest, w')

  abbrev pub release_bars : Proc (Driver Pci W) (Unit {0})
  release_bars = update λ d. record d {
    world = (unmap_bars d.own.bars d.world).1;
    own = record d.own {
      bars = (unmap_bars d.own.bars d.world).0;
      common_cfg = none;
      notify_base = none;
      device_cfg = none;
      isr_cfg = none;
    };
  }

module _ {W : Type 0} (bus : Bus W) where
  abbrev pub msix_off_at : Option ℕ → ℕ → Proc (Driver Pci W) (Unit {0})
  msix_off_at none cap = done tt
  msix_off_at (some hdl) cap =
      if cap != 0
      then (do
        call λ w. (tt, bus.cfg_wr16 hdl (cap + 2) 0 w)
        set_own λ t. record t { use_msix = false })
      else done tt

  abbrev pub msix_off : Proc (Driver Pci W) (Unit {0})
  msix_off d =
      (if d.own.use_msix then msix_off_at d.own.pci_handle d.own.msix_cap_offset else done tt) d

  -- The release of the interrupt to the resource database.
  abbrev pub release_irq : Proc (Driver Pci W) (Unit {0})
  release_irq d =
      (if (d.own.irq_num != 0) && (d.own.msix_cap_offset != 0)
          then call (λ w. (tt, bus.rsrc_detach d.own.irq_num w))
          else done tt)
        d

  abbrev pub detach_device : Option ℕ → W → W
  detach_device none w = w
  detach_device (some hdl) w = bus.device_detach hdl w

  abbrev pub release_device : Proc (Driver Pci W) (Unit {0})
  release_device = update λ d. record d {
    world = detach_device d.own.pci_handle d.world;
    own = record d.own { pci_handle = none };
  }

module _ {W : Type 0} (k : Machine W) (bus : Bus W) where
  unfoldable pub shutdown : Proc (Driver Pci W) (Unit {0})
  unfolding write_common detach_irq free_buffers unmap_bars reset_queue
  shutdown = do
    detach_irq k
    free_buffers k
    stop k
    msix_off bus
    release_irq bus
    set_own λ t. record t { msix_table = none }
    release_bars k
    release_device bus
    reset_queue k

  -- A Shutdown before a code that is not 0 is returned; MapBars returns 0.
  abbrev pub give_up : ℕ → Proc (Driver Pci W) ℕ
  give_up rc = if rc != 0 then (do shutdown; done rc) else done 0

  abbrev pub bring_up : Errno → Proc (Driver Pci W) ℕ
  bring_up e = do rc ← initialize_device k e; give_up rc

  unfoldable pub initialize : Errno → Run (Driver Pci W) ℕ
  unfolding discover_device initialize_device shutdown
  initialize e d =
      continue (discover_device k bus e d) (λ rc. if rc != 0 then give rc else lift (bring_up e))
