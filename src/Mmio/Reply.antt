-- ===== src/Mmio/Reply.antt =====
-- Exchange of transport/mmio_transport.cpp with a device that answers.
use qnx_unit_tests.Base.{
  All, map, ◌⊎◌, inl, inr, ℕ, suc, ◌+◌, ◌^◌, ◌≤◌, ◌<◌, List, [], ◌∷◌, Option, some, Bool, true,
  false, ◌≡◌, refl, ap, ◌∙◌, arith, length, lt→leb, ok,
}
use qnx_unit_tests.Types.{max_message_size}
use qnx_unit_tests.Registers.{interrupt_status_reg, interrupt_ack_reg, queue_notify_reg}
use qnx_unit_tests.Transport.{Errno, is_negative}
use qnx_unit_tests.Virtqueue.{Virtqueue, get_buf}
use qnx_unit_tests.Virtqueue.Ready.{with_used_ring}
use qnx_unit_tests.Machine.{Machine}
use qnx_unit_tests.Link.{Driver}
use qnx_unit_tests.Link.Exchange.{memory}
use qnx_unit_tests.Link.Reply.{
  Quiet, Serves, InStep, found, look-ok, exchange_with-submitted, after_submit-ok,
}
use qnx_unit_tests.Link.Serve.{sent, add_buf-Answered}
use qnx_unit_tests.Mmio.{Mmio, load_at, store_at, read_reg, write_reg}
use qnx_unit_tests.Mmio.Start.{reset_device}
use qnx_unit_tests.Mmio.Traffic.{after_pulse, wait_for_completion, exchange}

-- The interrupts of a device whose registers are mapped at `base`: once it has been notified, a wait of
-- 30 seconds on the channel gets a pulse, and it takes an acknowledgement for no notification.
pub record Interrupts {W : Type 0} (k : Machine W) (base chid : ℕ) (served : W → ℕ)
    (rung : W → Bool) : Type 0 where
  pub pulses : (w : W) → rung w ≡ true → (k.receive_pulse (some chid) 30000000000 w).0 ≡ true
  pub ack_quiet : (v : ℕ) (w : W) → Quiet served rung w (k.store 32 (base + 0x64) v w)

swapped : {A B : Type 0} → A ⊎ B → B ⊎ A
swapped (inl x) = inr x
swapped (inr y) = inl y

-- A transport with its registers at `base` and its channel, whose link is in step with the device.
pub record Prepared {W : Type 0} (base chid : ℕ) (served : W → ℕ) (d : Driver Mmio W)
    (free : List ℕ) : Type 0 where
  pub has_regs : d.own.regs ≡ some base
  pub has_channel : d.link.chid ≡ some chid
  pub in_step : InStep served d free

module _ {W : Type 0} (k : Machine W) (e : Errno) (answer : List ℕ → List ℕ) (base chid : ℕ)
    (served : W → ℕ) (rung : W → Bool) (serves : Serves answer k 32 (base + 0x50) served rung)
    (interrupts : Interrupts k base chid served rung) where
  -- The driver after the acknowledgement of the interrupt.
  abbrev acknowledged : Driver Mmio W → Driver Mmio W
  acknowledged d =
      let r = read_reg k e interrupt_status_reg d in
      let d' = (write_reg k e interrupt_ack_reg r.0 r.1).1 in
      record d' { world = k.interrupt_unmask d'.own.irq d'.link.irq_id d'.world }

  after_pulse-ok :
      (fuel a len : ℕ) (d : Driver Mmio W) (q q' : Virtqueue)
      → a < 2 ^ 16
      → d.link.virtqueue ≡ some q
      → get_buf fuel 0 (
          with_used_ring q
            (k.device (memory q d.link) (acknowledged d).world).0.0
            (k.device (memory q d.link) (acknowledged d).world).0.1)
        ≡ ok ((a, len), q')
      → after_pulse k e fuel d ≡ ok ((0, len), found k (acknowledged d) q q')
  unfolding after_pulse read_reg write_reg
  after_pulse-ok fuel a len d q q' word h gets =
      let plus : is_negative a ≡ false = lt→leb (2 ^ 31) a (omega arith) in
      rw (look-ok k fuel 0 (acknowledged d) q q' (a, len) h gets) (rw plus refl)

  -- The driver after the pulse.
  abbrev pulsed : Driver Mmio W → Driver Mmio W
  pulsed d = record d { world = (k.receive_pulse d.link.chid 30000000000 d.world).1 }

  wait_for_completion-ok :
      (fuel a len : ℕ) (d : Driver Mmio W) (q q' : Virtqueue)
      → a < 2 ^ 16
      → (k.receive_pulse d.link.chid 30000000000 d.world).0 ≡ true
      → d.link.virtqueue ≡ some q
      → get_buf fuel 0 (
          with_used_ring q
            (k.device (memory q d.link) (acknowledged (pulsed d)).world).0.0
            (k.device (memory q d.link) (acknowledged (pulsed d)).world).0.1)
        ≡ ok ((a, len), q')
      → wait_for_completion k e fuel d ≡ ok ((0, len), found k (acknowledged (pulsed d)) q q')
  unfolding wait_for_completion read_reg write_reg
  wait_for_completion-ok fuel a len d q q' word got h gets =
      rw got (after_pulse-ok fuel a len (pulsed d) q q' word h gets)

  store_at-there :
      (o : Option ℕ) (offset v : ℕ) (w : W)
      → o ≡ some base
      → store_at k o offset v w ≡ k.store 32 (base + offset) v w
  store_at-there o offset v w h = rw h refl

  load_at-Quiet :
      (o : Option ℕ) (offset : ℕ) (w : W)
      → o ≡ some base
      → Quiet served rung w (load_at k o offset w).1
  load_at-Quiet o offset w h = rw h (serves.load_quiet 32 (base + offset) w)

  Quiet-trans : (u v w : W) → Quiet served rung u v → Quiet served rung v w → Quiet served rung u w
  Quiet-trans u v w p q = (q.0 ∙ p.0, q.1 ∙ p.1)

  acknowledged-Quiet :
      (d : Driver Mmio W)
      → d.own.regs ≡ some base
      → Quiet served rung d.world (acknowledged d).world
  unfolding read_reg write_reg
  acknowledged-Quiet d h =
      let r = load_at k d.own.regs interrupt_status_reg d.world in
      let w2 = k.store 32 (base + 0x64) r.0 r.1 in
      rw (store_at-there d.own.regs interrupt_ack_reg r.0 r.1 h) (
        Quiet-trans d.world r.1 (k.interrupt_unmask d.own.irq d.link.irq_id w2)
          (load_at-Quiet d.own.regs interrupt_status_reg d.world h)
          (Quiet-trans r.1 w2 (k.interrupt_unmask d.own.irq d.link.irq_id w2)
            (interrupts.ack_quiet r.0 r.1) (serves.unmask_quiet d.own.irq d.link.irq_id w2)))

  -- The driver after the notification.
  abbrev notified : Driver Mmio W → Driver Mmio W
  notified d = (write_reg k e queue_notify_reg 0 d).1

  notified-Rung :
      (d : Driver Mmio W)
      → d.own.regs ≡ some base
      → (served (notified d).world ≡ served d.world) × (rung (notified d).world ≡ true)
  unfolding write_reg
  notified-Rung d h =
      rw (store_at-there d.own.regs queue_notify_reg 0 d.world h) (serves.rings d.world)

  -- Where the transport's link is in step with a device that answers, with the descriptors `a` and `b` at
  -- the front of the free list, its registers are at `base`, a wait on its channel gets a pulse once the
  -- device has been notified at `base + 0x50`, and the request and the answer are at most a message:
  -- Exchange returns 0 and the answer to the request, and the link is in step again, with `b` and `a` at
  -- the front of the free list.
  pub exchange-Serves :
      (fuel : ℕ) (request : List ℕ) (d : Driver Mmio W) (a b : ℕ) (free : List ℕ)
      → Prepared base chid served d (a ∷ b ∷ free)
      → length request ≤ max_message_size
      → length (answer request) ≤ max_message_size
      → (d' : Driver Mmio W) × (exchange k e (suc (suc fuel)) request d
          ≡ ok ((0, answer request), d'))
        × Prepared base chid served d' (b ∷ a ∷ free)
  unfolding exchange write_reg read_reg
  exchange-Serves fuel request d a b free s short small =
      let o = s.in_step.link_open in
      let (q1, adds, word, back) =
        add_buf-Answered k e answer 32 (base + 0x50) served rung serves fuel request d a b free
          s.in_step short small in
      let d2 = sent k e answer 32 (base + 0x50) served rung serves request q1 d.world d in
      let (count, ring) = notified-Rung d2 s.has_regs in
      let pulse = serves.pulse_quiet d.link.chid 30000000000 (notified d2).world in
      let quiet = acknowledged-Quiet (pulsed (notified d2)) s.has_regs in
      let d3 = acknowledged (pulsed (notified d2)) in
      let (q2, (gets, bytes, again)) =
        back d3.world (quiet.0 ∙ pulse.0 ∙ count) (quiet.1 ∙ pulse.1 ∙ ring) in
      let d4 = found k d3 q1 q2 in
      let notify = write_reg k e queue_notify_reg 0 in
      let wait = wait_for_completion k e (suc (suc fuel)) in
      let got =
        ap (λ c. (k.receive_pulse c 30000000000 (notified d2).world).0) s.has_channel
        ∙ interrupts.pulses (notified d2).world ring in
      (
        d4,
        exchange_with-submitted e request d o.q q1 o.req o.resp a notify wait (reset_device k e)
              o.has_queue o.has_req o.has_resp short adds
            ∙ after_submit-ok e a (length (answer request)) d2 d4 notify wait (reset_device k e)
                word small
                (wait_for_completion-ok (suc (suc fuel)) a (length (answer request)) (notified d2)
                  q1 q2 word got refl gets)
            ∙ ap (λ bs. ok ((0, bs), d4)) bytes,
        record { has_regs = s.has_regs; has_channel = s.has_channel; in_step = again },
      )

  -- Exchanges one after the other: the answers, and the driver behind them.
  pub data Exchanged (fuel : ℕ)
      : List (List ℕ) → List (List ℕ) → Driver Mmio W → Driver Mmio W → Type 0 where
    none_left : (d : Driver Mmio W) → Exchanged fuel [] [] d d
    one_more :
        (request bytes : List ℕ) (requests answers : List (List ℕ)) (d d' d'' : Driver Mmio W)
        → exchange k e fuel request d ≡ ok ((0, bytes), d')
        → Exchanged fuel requests answers d' d''
        → Exchanged fuel (request ∷ requests) (bytes ∷ answers) d d''

  -- A request and its answer are at most a message.
  abbrev pub Small : List ℕ → Type 0
  Small request = (length request ≤ max_message_size) × (length (answer request) ≤ max_message_size)

  -- Where the transport's link is in step with a device that answers, its registers are at `base`, a wait
  -- on its channel gets a pulse once the device has been notified at `base + 0x50`, and each of the
  -- requests and its answer are at most a message: the exchanges of all the requests, one after the other,
  -- return 0 and the answers in their order, and the link is in step behind them, with the same two
  -- descriptors in front of the others.
  pub exchanges-Open :
      (fuel : ℕ) (requests : List (List ℕ)) (d : Driver Mmio W) (a b : ℕ) (free : List ℕ)
      → Prepared base chid served d (a ∷ b ∷ free)
      → All Small requests
      → (d' : Driver Mmio W) × Exchanged (suc (suc fuel)) requests (map answer requests) d d'
        × ((Prepared base chid served d' (a ∷ b ∷ free))
            ⊎ (Prepared base chid served d' (b ∷ a ∷ free)))
  exchanges-Open fuel [] d a b free o small = (d, none_left d, inl o)
  exchanges-Open fuel (request ∷ requests) d a b free o ((short, small), rest) =
      let (d1, ends, o1) = exchange-Serves fuel request d a b free o short small in
      let (d2, more, o2) = exchanges-Open fuel requests d1 b a free o1 rest in
      (
        d2,
        one_more request (answer request) requests (map answer requests) d d1 d2 ends more,
        swapped o2,
      )
