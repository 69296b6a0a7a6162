-- ===== src/Mmio/Traffic.antt =====
-- Exchange, WaitForCompletion and GetMountTag of transport/mmio_transport.cpp.
use qnx_unit_tests.Base.{ℕ, ◌+◌, List, [], Option, none, some, Bool, if◌then◌else◌}
use qnx_unit_tests.Base.Proc.{Proc}
use qnx_unit_tests.Base.Run.{Run, give, lift, ◌>>=◌, ◌>>◌}
use qnx_unit_tests.Registers.{interrupt_status_reg, interrupt_ack_reg, queue_notify_reg, config_reg}
use qnx_unit_tests.Transport.{Errno, neg32, is_negative}
use qnx_unit_tests.Machine.{Machine}
use qnx_unit_tests.Link.{Driver, call}
use qnx_unit_tests.Link.Exchange.{look, spin, exchange_with}
use qnx_unit_tests.Link.Tag.{read_tag}
use qnx_unit_tests.Mmio.{Mmio, read_reg, write_reg}
use qnx_unit_tests.Mmio.Start.{reset_device}

module _ {W : Type 0} (k : Machine W) (e : Errno) where
  -- The end of the wait.
  abbrev pub arrived : ℕ × ℕ → Run (Driver Mmio W) (ℕ × ℕ)
  arrived (rc, out_len) = if is_negative rc then give (neg32 e.eio, out_len) else give (0, out_len)

  abbrev pub unmask : Proc (Driver Mmio W) (Unit {0})
  unmask d = call (λ w. (tt, k.interrupt_unmask d.own.irq d.link.irq_id w)) d

  -- What follows the pulse.
  unfoldable pub after_pulse : ℕ → Run (Driver Mmio W) (ℕ × ℕ)
  unfolding read_reg write_reg look spin
  after_pulse fuel = do
    isr ← lift (read_reg k e interrupt_status_reg)
    lift (write_reg k e interrupt_ack_reg isr)
    lift unmask
    r ← look k fuel 0
    if is_negative r.0 then (do s ← spin k fuel 100 r.1; arrived s) else arrived r

  -- TimerTimeout and MsgReceivePulse, for 30 seconds, and the end of a wait in vain.
  abbrev pub await_pulse : Proc (Driver Mmio W) Bool
  await_pulse d = call (k.receive_pulse d.link.chid 30000000000) d

  abbrev pub timed_out : Run (Driver Mmio W) (ℕ × ℕ)
  timed_out d = give (neg32 (k.errno d.world), 0) d

  -- The code and `out_len`, with fuel for the chains that GetBuf returns.
  unfoldable pub wait_for_completion : ℕ → Run (Driver Mmio W) (ℕ × ℕ)
  unfolding after_pulse
  wait_for_completion fuel = do got ← lift await_pulse; if got then after_pulse fuel else timed_out

  -- The code and the response, which a failure leaves as it was.
  unfoldable pub exchange : ℕ → List ℕ → Run (Driver Mmio W) (ℕ × List ℕ)
  unfolding exchange_with wait_for_completion reset_device write_reg
  exchange fuel =
      exchange_with e (write_reg k e queue_notify_reg 0) (wait_for_completion fuel)
        (reset_device k e)

  abbrev pub tag_at : ℕ → Option ℕ → W → (ℕ × List ℕ) × W
  tag_at einval none w = ((neg32 einval, []), w)
  tag_at einval (some regs) w = read_tag k einval (regs + config_reg) w

  unfoldable pub get_mount_tag : Proc (Driver Mmio W) (ℕ × List ℕ)
  unfolding read_tag
  get_mount_tag d = call (tag_at e.einval d.own.regs) d
