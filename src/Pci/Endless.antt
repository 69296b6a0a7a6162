-- ===== src/Pci/Endless.antt =====
-- The wait of transport/pci_transport.cpp where interrupts come and the used ring stays empty.
use qnx_unit_tests.Base.{
  ℕ, zero, suc, ◌*◌, ◌%◌, ◌^◌, ◌≤◌, List, ◌∷◌, Option, some, true, false, ◌≡◌, refl, ◌∙◌, arith,
  length, lt→leb, ◌==◌, ok, stuck,
}
use qnx_unit_tests.Base.Run.{Run}
use qnx_unit_tests.Types.{max_message_size}
use qnx_unit_tests.Transport.{Errno, neg32, is_negative}
use qnx_unit_tests.Virtqueue.{Virtqueue, VringUsedElem, get_buf}
use qnx_unit_tests.Virtqueue.Buffers.{added}
use qnx_unit_tests.Virtqueue.Ready.{with_used_ring, add_buf-get_buf}
use qnx_unit_tests.Machine.{Machine, Memory}
use qnx_unit_tests.Link.{Driver}
use qnx_unit_tests.Link.Exchange.{memory, look, spin}
use qnx_unit_tests.Link.Reply.{Open, loaded, found, look-ok, exchange_with-submitted}
use qnx_unit_tests.Pci.{Pci}
use qnx_unit_tests.Pci.Start.{reset_device}
use qnx_unit_tests.Pci.Traffic.{
  notify, unmask, await_pulse, read_isr, after_pulse, wait_loop, wait_for_completion, exchange,
}
use qnx_unit_tests.Pci.Reply.{notify_at-World, read_isr_at-World}

-- Every wait for a pulse gets one, and the device never puts anything into the used ring.
pub record Spurious {W : Type 0} (k : Machine W) : Type 0 where
  pub pulse : (chid : Option ℕ) (ns : ℕ) (w : W) → (k.receive_pulse chid ns w).0 ≡ true
  pub idle : (m : Memory) (w : W) → (k.device m w).0.0 ≡ m.used_idx

module _ {W : Type 0} (k : Machine W) (spurious : Spurious k) (fuel : ℕ) where
  -- A queue whose used ring has nothing new.
  abbrev HasQueue : Driver Pci W → Type 0
  HasQueue d = (q : Virtqueue) × (d.link.virtqueue ≡ some q) × (q.used_idx ≡ q.last_used_idx)

  -- Code that ends with -1 and the length as it was, and keeps a queue.
  abbrev InVain : Run (Driver Pci W) (ℕ × ℕ) → ℕ → Driver Pci W → Type 0
  InVain m out d = (d' : Driver Pci W) × (m d ≡ ok ((neg32 1, out), d')) × HasQueue d'

  get_buf-empty :
      (out idx : ℕ) (used : List VringUsedElem) (q : Virtqueue)
      → idx ≡ q.last_used_idx
      → get_buf fuel out (with_used_ring q idx used)
        ≡ ok ((neg32 1, out), with_used_ring q idx used)
  unfolding get_buf
  get_buf-empty out idx used q h =
      let same : (q.last_used_idx == idx) ≡ true = ground arith in rw same refl

  look-InVain : (out : ℕ) (d : Driver Pci W) → HasQueue d → InVain (look k fuel out) out d
  look-InVain out d (q, there, empty) =
      let ((idx, used, resp), w) = k.device (memory q d.link) d.world in
      let still : (k.device (memory q d.link) d.world).0.0 ≡ q.last_used_idx =
        spurious.idle (memory q d.link) d.world ∙ empty in
      (
        found k d q (with_used_ring q idx used),
        look-ok k fuel out d q (with_used_ring q idx used) (neg32 1, out) there
            (get_buf-empty out idx used q still),
        (with_used_ring q idx used, refl, still),
      )

  spin-InVain : (n out : ℕ) (d : Driver Pci W) → HasQueue d → InVain (spin k fuel n out) out d
  unfolding spin
  spin-InVain zero out d h = (d, refl, h)
  spin-InVain (suc n) out d h =
      let d1 : Driver Pci W = record d { world = k.nanosleep 100000 d.world } in
      let (d2, looked, h2) = look-InVain out d1 h in
      let (d3, spun, h3) = spin-InVain n out d2 h2 in (d3, rw looked spun, h3)

  after_pulse-again :
      (out : ℕ) (again : ℕ → Run (Driver Pci W) (ℕ × ℕ)) (d : Driver Pci W)
      → HasQueue d
      → (d' : Driver Pci W) × (after_pulse k fuel out again d ≡ again out d') × HasQueue d'
  unfolding after_pulse
  after_pulse-again out again d h =
      let d1 = (unmask k d).1 in
      let (d2, looked, h2) = look-InVain out d1 h in
      let (d3, spun, h3) = spin-InVain 100 out d2 h2 in (d3, rw looked (rw spun refl), h3)

  wait_loop-stuck :
      (rounds out : ℕ) (d : Driver Pci W) → HasQueue d → wait_loop k fuel rounds out d ≡ stuck
  unfolding wait_loop read_isr
  wait_loop-stuck zero out d h = refl
  wait_loop-stuck (suc rounds) out d h =
      let d1 = (await_pulse k 30000000000 d).1 in
      let (w, read) = read_isr_at-World k d1.own.isr_cfg d1.own.use_msix d1 in
      let d2 : Driver Pci W = record d1 { world = w } in
      let (d3, again, h3) = after_pulse-again out (wait_loop k fuel rounds) d2 h in
      rw (spurious.pulse d.link.chid 30000000000 d.world, read)
        (again ∙ wait_loop-stuck rounds out d3 h3)

  wait_for_completion-stuck :
      (rounds : ℕ) (d : Driver Pci W) → HasQueue d → wait_for_completion k fuel rounds d ≡ stuck
  unfolding wait_for_completion
  wait_for_completion-stuck rounds d h =
      let (d', looked, h') = look-InVain 0 d h in rw looked (wait_loop-stuck rounds 0 d' h')

module _ {W : Type 0} (k : Machine W) (e : Errno) (spurious : Spurious k) where
  -- Where the link is ready with two free descriptors, the request is at most a message, and every wait
  -- for a pulse gets one while the device never puts anything into the used ring: Exchange does not end
  -- within any number of pulses.
  pub exchange-endless :
      (fuel rounds : ℕ) (request : List ℕ) (d : Driver Pci W) (a b : ℕ) (free : List ℕ)
      → Open d.link (a ∷ b ∷ free)
      → length request ≤ max_message_size
      → exchange k e fuel rounds request d ≡ stuck
  unfolding exchange notify
  exchange-endless fuel rounds request d a b free o short =
      let l = d.link in
      let n = length request % 2 ^ 32 in
      let (next, adds, at_a, at_b, slot, idx, back) =
        add_buf-get_buf e 0 0 o.idx a b o.q free l.dma_req_phys n l.dma_resp_phys max_message_size
          o.ready in
      let q1 = added o.q a b next o.idx l.dma_req_phys n l.dma_resp_phys max_message_size in
      let d2 : Driver Pci W = record d {
        link = record (loaded l request) { virtqueue = some q1 };
      } in
      let (w3, notified) =
        notify_at-World k d.own.notify_base
          (d.own.queue_notify_off * d.own.notify_offset_multiplier) d2 in
      let plus : is_negative a ≡ false = lt→leb (2 ^ 31) a (omega (arith, o.ready.words.0)) in
      exchange_with-submitted e request d o.q q1 o.req o.resp a (notify k)
        (wait_for_completion k fuel rounds) (reset_device k e) o.has_queue o.has_req o.has_resp
        short adds
      ∙ rw (plus, notified)
          (rw
            (wait_for_completion-stuck k spurious fuel rounds (record d2 { world = w3 })
              (q1, refl, o.caught_up))
            refl)
