-- ===== src/Pci/Reply.antt =====
-- Exchange of transport/pci_transport.cpp with a device that answers before the driver looks: the fast
-- path of the wait.
use qnx_unit_tests.Base.{
  ℕ, suc, ◌+◌, ◌*◌, ◌%◌, ◌^◌, ◌≤◌, ◌<◌, List, ◌∷◌, Option, none, some, Bool, true, false, ◌≡◌, refl,
  ap, ◌∙◌, arith, length, lt→leb, ok,
}
use qnx_unit_tests.Types.{max_message_size}
use qnx_unit_tests.Transport.{Errno, is_negative}
use qnx_unit_tests.Virtqueue.{Virtqueue, get_buf}
use qnx_unit_tests.Virtqueue.Ready.{with_used_ring}
use qnx_unit_tests.Machine.{Machine}
use qnx_unit_tests.Link.{Driver}
use qnx_unit_tests.Link.Exchange.{memory}
use qnx_unit_tests.Link.Reply.{
  Serves, InStep, found, look-ok, exchange_with-submitted, after_submit-ok,
}
use qnx_unit_tests.Link.Serve.{sent, add_buf-Answered, InStep-quiet}
use qnx_unit_tests.Pci.{Pci}
use qnx_unit_tests.Pci.Start.{reset_device}
use qnx_unit_tests.Pci.Traffic.{
  notify_at, notify, read_isr_at, read_isr, unmask_if, drain, wait_for_completion, exchange,
}

module _ {W : Type 0} (k : Machine W) where
  -- Steps that change only the machine.
  pub notify_at-World :
      (o : Option ℕ) (offset : ℕ) (d : Driver Pci W)
      → (w : W) × (notify_at k o offset d ≡ (tt, record d { world = w }))
  notify_at-World none offset d = (d.world, refl)
  notify_at-World (some base) offset d = (k.store 16 (base + offset % 2 ^ 32) 0 d.world, refl)

  pub read_isr_at-World :
      (o : Option ℕ) (b : Bool) (d : Driver Pci W)
      → (w : W) × (read_isr_at k o b d ≡ (tt, record d { world = w }))
  read_isr_at-World (some isr) false d = ((k.load 8 isr d.world).1, refl)
  read_isr_at-World (some isr) true d = (d.world, refl)
  read_isr_at-World none b d = (d.world, refl)

-- A transport whose notifications go to `bell`, by the offset and the multiplier that the device has
-- given, and whose link is in step with the device.
pub record Prepared {W : Type 0} (bell : ℕ) (served : W → ℕ) (d : Driver Pci W) (free : List ℕ)
    : Type 0 where
  pub base : ℕ
  pub has_base : d.own.notify_base ≡ some base
  pub bell_at : base + d.own.queue_notify_off * d.own.notify_offset_multiplier % 2 ^ 32 ≡ bell
  pub in_step : InStep served d free

module _ {W : Type 0} (k : Machine W) (e : Errno) (answer : List ℕ → List ℕ) (bell : ℕ)
    (served : W → ℕ) (rung : W → Bool) (serves : Serves answer k 16 bell served rung) where
  -- A step that changes only the machine, and leaves the device's count.
  abbrev Calm : (Driver Pci W → Unit {0} × Driver Pci W) → Driver Pci W → Type 0
  Calm step d = (w : W) × (step d ≡ (tt, record d { world = w })) × (served w ≡ served d.world)

  read_isr_at-Calm : (o : Option ℕ) (b : Bool) (d : Driver Pci W) → Calm (read_isr_at k o b) d
  read_isr_at-Calm (some isr) false d =
      ((k.load 8 isr d.world).1, refl, (serves.load_quiet 8 isr d.world).0)
  read_isr_at-Calm (some isr) true d = (d.world, refl, refl)
  read_isr_at-Calm none b d = (d.world, refl, refl)

  unmask_if-Calm : (got : Bool) (d : Driver Pci W) → Calm (unmask_if k got) d
  unmask_if-Calm true d = (
    k.interrupt_unmask d.own.irq_num d.link.irq_id d.world,
    refl,
    (serves.unmask_quiet d.own.irq_num d.link.irq_id d.world).0,
  )
  unmask_if-Calm false d = (d.world, refl, refl)

  drain-Calm :
      (out : ℕ) (d : Driver Pci W)
      → (w : W) × (drain k out d ≡ ok ((0, out), record d { world = w }))
        × (served w ≡ served d.world)
  unfolding drain read_isr
  drain-Calm out d =
      let (w1, read, same1) = read_isr_at-Calm d.own.isr_cfg d.own.use_msix d in
      let pulse = k.receive_pulse d.link.chid 0 w1 in
      let (w2, unmasked, same2) = unmask_if-Calm pulse.0 (record d { world = pulse.1 }) in
      (w2, rw (read, unmasked) refl, same2 ∙ (serves.pulse_quiet d.link.chid 0 w1).0 ∙ same1)

  wait_for_completion-ok :
      (fuel rounds a len : ℕ) (d : Driver Pci W) (q q' : Virtqueue)
      → a < 2 ^ 16
      → d.link.virtqueue ≡ some q
      → get_buf fuel 0 (
          with_used_ring q
            (k.device (memory q d.link) d.world).0.0
            (k.device (memory q d.link) d.world).0.1)
        ≡ ok ((a, len), q')
      → (w : W) × (wait_for_completion k fuel rounds d
          ≡ ok ((0, len), record (found k d q q') { world = w }))
        × (served w ≡ served (found k d q q').world)
  unfolding wait_for_completion
  wait_for_completion-ok fuel rounds a len d q q' word h gets =
      let plus : is_negative a ≡ false = lt→leb (2 ^ 31) a (omega arith) in
      let (w, drained, same) = drain-Calm len (found k d q q') in
      (w, rw (look-ok k fuel 0 d q q' (a, len) h gets) (rw plus drained), same)

  -- The notification is a store of 0, of 16 bits, to the bell.
  notify-bell :
      (d : Driver Pci W) (base : ℕ)
      → d.own.notify_base ≡ some base
      → base + d.own.queue_notify_off * d.own.notify_offset_multiplier % 2 ^ 32 ≡ bell
      → notify k d ≡ (tt, record d { world = k.store 16 bell 0 d.world })
  unfolding notify
  notify-bell d base has_base at =
      ap (λ o. notify_at k o (d.own.queue_notify_off * d.own.notify_offset_multiplier) d) has_base
      ∙ ap (λ b. (tt, record d { world = k.store 16 b 0 d.world })) at

  -- Where the transport's link is in step with a device that answers, with the descriptors `a` and `b` at
  -- the front of the free list, its notifications go to the address where the device awaits them, and the
  -- request and the answer are at most a message: with any bound on the pulses, Exchange returns 0 and the
  -- answer to the request, and the link is in step again, with `b` and `a` at the front of the free list.
  pub pci_exchange-Serves :
      (fuel rounds : ℕ) (request : List ℕ) (d : Driver Pci W) (a b : ℕ) (free : List ℕ)
      → Prepared bell served d (a ∷ b ∷ free)
      → length request ≤ max_message_size
      → length (answer request) ≤ max_message_size
      → (d' : Driver Pci W) × (exchange k e (suc (suc fuel)) rounds request d
          ≡ ok ((0, answer request), d'))
        × Prepared bell served d' (b ∷ a ∷ free)
  unfolding exchange
  pci_exchange-Serves fuel rounds request d a b free s short small =
      let o = s.in_step.link_open in
      let (q1, adds, word, back) =
        add_buf-Answered k e answer 16 bell served rung serves fuel request d a b free s.in_step
          short small in
      let d2 = sent k e answer 16 bell served rung serves request q1 d.world d in
      let w3 = k.store 16 bell 0 d.world in
      let d3 : Driver Pci W = record d2 { world = w3 } in
      let (count, ring) = serves.rings d.world in
      let (q2, (gets, bytes, again)) = back w3 count ring in
      let len = length (answer request) in
      let (w4, waits, same) =
        wait_for_completion-ok (suc (suc fuel)) rounds a len d3 q1 q2 word refl gets in
      let d4 : Driver Pci W = record (found k d3 q1 q2) { world = w4 } in
      let wait = wait_for_completion k (suc (suc fuel)) rounds in
      (
        d4,
        exchange_with-submitted e request d o.q q1 o.req o.resp a (notify k) wait (reset_device k e)
              o.has_queue o.has_req o.has_resp short adds
            ∙ after_submit-ok e a len d2 d4 (notify k) wait (reset_device k e) word small
                (rw (notify-bell d2 s.base s.has_base s.bell_at) waits)
            ∙ ap (λ bs. ok ((0, bs), d4)) bytes,
        record {
          base = s.base;
          has_base = s.has_base;
          bell_at = s.bell_at;
          in_step = InStep-quiet served (found k d3 q1 q2) w4 (b ∷ a ∷ free) same again;
        },
      )
