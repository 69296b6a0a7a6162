-- ===== src/Pci/Traffic.antt =====
-- Exchange, WaitForCompletion and GetMountTag of transport/pci_transport.cpp.
use qnx_unit_tests.Base.{
  ℕ, zero, suc, ◌+◌, ◌*◌, ◌%◌, ◌^◌, List, [], Option, none, some, Bool, true, false, if◌then◌else◌,
  stuck,
}
use qnx_unit_tests.Base.Proc.{Proc, done}
use qnx_unit_tests.Base.Run.{Run, give, lift, ◌>>=◌, ◌>>◌}
use qnx_unit_tests.Transport.{Errno, neg32, is_negative}
use qnx_unit_tests.Machine.{Machine}
use qnx_unit_tests.Link.{Driver, call}
use qnx_unit_tests.Link.Exchange.{look, spin, exchange_with}
use qnx_unit_tests.Link.Tag.{read_tag}
use qnx_unit_tests.Pci.{Pci}
use qnx_unit_tests.Pci.Start.{reset_device}

module _ {W : Type 0} (k : Machine W) where
  abbrev pub notify_at : Option ℕ → ℕ → Proc (Driver Pci W) (Unit {0})
  notify_at none offset = done tt
  notify_at (some base) offset = call λ w. (tt, k.store 16 (base + offset % 2 ^ 32) 0 w)

  -- The notification of the device.
  unfoldable pub notify : Proc (Driver Pci W) (Unit {0})
  notify d = notify_at d.own.notify_base (d.own.queue_notify_off * d.own.notify_offset_multiplier) d

  abbrev pub unmask : Proc (Driver Pci W) (Unit {0})
  unmask d = call (λ w. (tt, k.interrupt_unmask d.own.irq_num d.link.irq_id w)) d

  -- The read of the ISR, which is only for INTx.
  abbrev pub read_isr_at : Option ℕ → Bool → Proc (Driver Pci W) (Unit {0})
  read_isr_at (some isr) false = call λ w. (tt, (k.load 8 isr w).1)
  read_isr_at (some isr) true = done tt
  read_isr_at none use_msix = done tt

  unfoldable pub read_isr : Proc (Driver Pci W) (Unit {0})
  read_isr d = read_isr_at d.own.isr_cfg d.own.use_msix d

  -- TimerTimeout and MsgReceivePulse, for so many nanoseconds.
  abbrev pub await_pulse : ℕ → Proc (Driver Pci W) Bool
  await_pulse ns d = call (k.receive_pulse d.link.chid ns) d

  abbrev pub unmask_if : Bool → Proc (Driver Pci W) (Unit {0})
  unmask_if got = if got then unmask else done tt

  -- The end of the fast path: a pulse that is there is taken.
  unfoldable pub drain : ℕ → Run (Driver Pci W) (ℕ × ℕ)
  unfolding read_isr
  drain out_len = do
    lift read_isr
    got ← lift (await_pulse 0)
    lift (unmask_if got)
    give (0, out_len)

  -- The last look after a timeout.
  abbrev pub gave_up : ℕ → Run (Driver Pci W) (ℕ × ℕ)
  gave_up out_len d = give (neg32 (k.errno d.world), out_len) d

  unfoldable pub timed_out : ℕ → ℕ → Run (Driver Pci W) (ℕ × ℕ)
  unfolding look
  timed_out fuel out_len = do
    r ← look k fuel out_len
    if is_negative r.0 then gave_up r.1 else give (0, r.1)

  -- What follows a pulse, and what follows a pulse in vain.
  unfoldable pub after_pulse : ℕ → ℕ → (ℕ → Run (Driver Pci W) (ℕ × ℕ)) → Run (Driver Pci W) (ℕ × ℕ)
  unfolding look spin
  after_pulse fuel out_len again = do
    lift unmask
    r ← look k fuel out_len
    if is_negative r.0
        then (do s ← spin k fuel 100 r.1; if is_negative s.0 then again s.1 else give (0, s.1))
        else give (0, r.1)

  -- The slow path, for at most so many pulses.
  unfoldable pub wait_loop : ℕ → ℕ → ℕ → Run (Driver Pci W) (ℕ × ℕ)
  unfolding read_isr after_pulse timed_out
  wait_loop fuel zero out_len = λ d. stuck
  wait_loop fuel (suc rounds) out_len =
      let again : ℕ → Run (Driver Pci W) (ℕ × ℕ) = wait_loop fuel rounds in
      (do
        got ← lift (await_pulse 30000000000)
        lift read_isr
        if got then after_pulse fuel out_len again else timed_out fuel out_len)

  -- The code and `out_len`, with fuel for the chains that GetBuf returns.
  unfoldable pub wait_for_completion : ℕ → ℕ → Run (Driver Pci W) (ℕ × ℕ)
  unfolding look drain wait_loop
  wait_for_completion fuel rounds = do
    r ← look k fuel 0
    if is_negative r.0 then wait_loop fuel rounds r.1 else drain r.1

  module _ (e : Errno) where
    -- The code and the response, which a failure leaves as it was.
    unfoldable pub exchange : ℕ → ℕ → List ℕ → Run (Driver Pci W) (ℕ × List ℕ)
    unfolding exchange_with wait_for_completion reset_device notify
    exchange fuel rounds =
        exchange_with e notify (wait_for_completion fuel rounds) (reset_device k e)

    abbrev pub tag_at : ℕ → Option ℕ → W → (ℕ × List ℕ) × W
    tag_at einval none w = ((neg32 einval, []), w)
    tag_at einval (some at) w = read_tag k einval at w

    unfoldable pub get_mount_tag : Proc (Driver Pci W) (ℕ × List ℕ)
    unfolding read_tag
    get_mount_tag d = call (tag_at e.einval d.own.device_cfg) d
