-- ===== src/Link/Reply.antt =====
-- A device that answers requests, and the exchange over a link that is ready.
use qnx_unit_tests.Base.{
  ℕ, zero, suc, ◌+◌, ◌%◌, ◌^◌, ◌≤◌, ◌<◌, List, [], ◌∷◌, ◌++◌, Option, some, Bool, ◌≡◌, refl, ap,
  ◌∙◌, arith, length, get_elem?, drop, ltb, le→ltb, lt→leb, Result, ok, true, false,
}
use qnx_unit_tests.Base.Run.{Run, continue}
use qnx_unit_tests.Base.Proc.{Proc}
use qnx_unit_tests.Types.{max_message_size}
use qnx_unit_tests.Transport.{Errno, is_negative}
use qnx_unit_tests.Virtqueue.{Virtqueue, add_buf, get_buf}
use qnx_unit_tests.Virtqueue.Ready.{Ready, with_used_ring}
use qnx_unit_tests.Machine.{Machine, Memory}
use qnx_unit_tests.Link.{Link, Driver}
use qnx_unit_tests.Link.Exchange.{
  first_bytes, memory, look, sync, with_queue, exchange_ready, exchange_if, exchange_with,
  after_submit,
}

-- A step that the device takes no notice of.
abbrev pub Quiet : {W : Type 0} → (W → ℕ) → (W → Bool) → W → W → Type 0
Quiet served rung w w' = (served w' ≡ served w) × (rung w' ≡ rung w)

-- A device that answers requests. It counts those that it has `served`, modulo 2^16, and `rung` says
-- whether it has been notified: by a store of 0, of so many bits, to the address `bell`. Then, where the
-- available ring has one entry more than it has served, whose descriptor names the request buffer with
-- a link to a descriptor of the response buffer that the device may write and that is long enough, it
-- has, when the driver looks, written the answer to as many bytes as the first descriptor says into the
-- response buffer, put the head and the answer's length into the used ring, and counted one more. No
-- load, no wait for a pulse and no unmasking of an interrupt notifies it.
pub record Serves {W : Type 0} (answer : List ℕ → List ℕ) (k : Machine W) (bits bell : ℕ)
    (served : W → ℕ) (rung : W → Bool) : Type 0 where
  pub rings :
      (w : W) → (served (k.store bits bell 0 w) ≡ served w) × (rung (k.store bits bell 0 w) ≡ true)
  pub load_quiet : (b at : ℕ) (w : W) → Quiet served rung w (k.load b at w).1
  pub pulse_quiet :
      (chid : Option ℕ) (ns : ℕ) (w : W) → Quiet served rung w (k.receive_pulse chid ns w).1
  pub unmask_quiet :
      (irq : ℕ) (id : Option ℕ) (w : W) → Quiet served rung w (k.interrupt_unmask irq id w)
  pub completes :
      (m : Memory) (w : W) (head len other room next : ℕ)
      → rung w ≡ true
      → 0 < m.queue_size
      → get_elem? m.avail 1 ≡ some ((served w + 1) % 2 ^ 16)
      → get_elem? m.avail (2 + served w % m.queue_size) ≡ some head
      → get_elem? m.desc head
        ≡ some (record { addr = m.req_phys; len = len; flags = 1; next = other })
      → get_elem? m.desc other
        ≡ some (record { addr = m.resp_phys; len = room; flags = 2; next = next })
      → length (answer (first_bytes len m.req)) ≤ room
      → ((k.device m w).0.0 ≡ (served w + 1) % 2 ^ 16)
        × (get_elem? (k.device m w).0.1 (served w % m.queue_size)
            ≡ some (record { id = head; len = length (answer (first_bytes len m.req)) }))
        × (first_bytes (length (answer (first_bytes len m.req))) (k.device m w).0.2
            ≡ answer (first_bytes len m.req))
        × (served (k.device m w).1 ≡ (served w + 1) % 2 ^ 16)

-- A link between two exchanges, with these descriptors free.
pub record Open (l : Link) (free : List ℕ) : Type 0 where
  pub q : Virtqueue
  pub idx : ℕ
  pub req : ℕ
  pub resp : ℕ
  pub has_queue : l.virtqueue ≡ some q
  pub ready : Ready q free idx
  pub caught_up : q.used_idx ≡ q.last_used_idx
  pub has_req : l.dma_req_virt ≡ some req
  pub has_resp : l.dma_resp_virt ≡ some resp

-- Such a link, whose driver has made and has seen as many requests as the device has served.
pub record InStep {T W : Type 0} (served : W → ℕ) (d : Driver T W) (free : List ℕ) : Type 0 where
  pub link_open : Open d.link free
  pub made : link_open.idx ≡ served d.world
  pub seen : link_open.q.last_used_idx ≡ served d.world

pub first_bytes-append : (n : ℕ) (xs ys : List ℕ) → n ≡ length xs → first_bytes n (xs ++ ys) ≡ xs
unfolding first_bytes
first_bytes-append zero [] ys h = refl
first_bytes-append (suc n) [] ys h = absurd (omega arith)
first_bytes-append zero (x ∷ xs) ys h = absurd (omega arith)
first_bytes-append (suc n) (x ∷ xs) ys h = ap (◌∷◌ x) (first_bytes-append n xs ys (omega arith))

-- The link after the request has been copied.
abbrev pub loaded : Link → List ℕ → Link
loaded l request = record l { dma_req = request ++ drop (length request) l.dma_req; dma_resp = [] }

module _ {T W : Type 0} where
  with_queue-ok :
      {A : Type 0} (f : Virtqueue → Result (A × Virtqueue)) (o : Option Virtqueue) (d : Driver T W)
      (q q' : Virtqueue) (r : A)
      → o ≡ some q
      → f q ≡ ok (r, q')
      → with_queue f o d ≡ ok (r, record d { link = record d.link { virtqueue = some q' } })
  with_queue-ok f o d q q' r h e = rw (h, e) refl

module _ {T W : Type 0} (k : Machine W) where
  -- The driver after a look at the queue `q`, which leaves `q'`.
  abbrev pub found : Driver T W → Virtqueue → Virtqueue → Driver T W
  found d q q' = record d {
    world = (k.device (memory q d.link) d.world).1;
    link = record d.link {
      virtqueue = some q';
      dma_resp = (k.device (memory q d.link) d.world).0.2;
    };
  }

  look_at-ok :
      (fuel out : ℕ) (o : Option Virtqueue) (d : Driver T W) (q q' : Virtqueue) (r : ℕ × ℕ)
      → o ≡ some q
      → get_buf fuel out (
          with_used_ring q
            (k.device (memory q d.link) d.world).0.0
            (k.device (memory q d.link) d.world).0.1)
        ≡ ok (r, q')
      → with_queue (get_buf fuel out) (sync k o d).1.link.virtqueue (sync k o d).1
        ≡ ok (r, found d q q')
  look_at-ok fuel out o d q q' r h gets = rw h (
      with_queue-ok (get_buf fuel out) (sync k (some q) d).1.link.virtqueue (sync k (some q) d).1 _
        q' r refl gets)

  pub look-ok :
      (fuel out : ℕ) (d : Driver T W) (q q' : Virtqueue) (r : ℕ × ℕ)
      → d.link.virtqueue ≡ some q
      → get_buf fuel out (
          with_used_ring q
            (k.device (memory q d.link) d.world).0.0
            (k.device (memory q d.link) d.world).0.1)
        ≡ ok (r, q')
      → look k fuel out d ≡ ok (r, found d q q')
  unfolding look
  look-ok fuel out d q q' r h gets = look_at-ok fuel out d.link.virtqueue d q q' r h gets

module _ {T W : Type 0} (e : Errno) where
  exchange_if-ready :
      (request : List ℕ) (d : Driver T W) (o : Option Virtqueue) (o_req o_resp : Option ℕ)
      (q : Virtqueue) (req resp : ℕ) (notify : Proc (Driver T W) (Unit {0}))
      (wait : Run (Driver T W) (ℕ × ℕ)) (reset : Proc (Driver T W) ℕ)
      → o ≡ some q
      → o_req ≡ some req
      → o_resp ≡ some resp
      → exchange_if e notify wait reset request o o_req o_resp d
        ≡ exchange_ready e notify wait reset request d
  exchange_if-ready request d o o_req o_resp q req resp notify wait reset hq hreq hresp =
      rw (hq, hreq, hresp) refl

  -- The guards, the copy of the request and AddBuf, from a link that is ready.
  pub exchange_with-submitted :
      (request : List ℕ) (d : Driver T W) (q q' : Virtqueue) (req resp head : ℕ)
      (notify : Proc (Driver T W) (Unit {0})) (wait : Run (Driver T W) (ℕ × ℕ))
      (reset : Proc (Driver T W) ℕ)
      → d.link.virtqueue ≡ some q
      → d.link.dma_req_virt ≡ some req
      → d.link.dma_resp_virt ≡ some resp
      → length request ≤ max_message_size
      → add_buf e d.link.dma_req_phys
          (length request % 2 ^ 32)
          d.link.dma_resp_phys
          max_message_size
          q
        ≡ ok (head, q')
      → exchange_with e notify wait reset request d
        ≡ after_submit e notify wait reset head
            (record d { link = record (loaded d.link request) { virtqueue = some q' } })
  unfolding exchange_with
  exchange_with-submitted request d q q' req resp head notify wait reset hq hreq hresp short adds =
      let d' : Driver T W = record d { link = loaded d.link request } in
      let fits : ltb max_message_size (length request) ≡ false = le→ltb _ _ short in
      exchange_if-ready request d d.link.virtqueue d.link.dma_req_virt d.link.dma_resp_virt q req
        resp notify wait reset hq hreq hresp
      ∙ (rw fits (
          ap (λ r. continue r (after_submit e notify wait reset))
            (with_queue-ok
              (add_buf e d.link.dma_req_phys (length request % 2 ^ 32) d.link.dma_resp_phys
                max_message_size)
              d.link.virtqueue d' q q' head hq adds)))

  -- The notification, a wait that finds `len` bytes, and the copy of the response.
  pub after_submit-ok :
      (head len : ℕ) (d d' : Driver T W) (notify : Proc (Driver T W) (Unit {0}))
      (wait : Run (Driver T W) (ℕ × ℕ)) (reset : Proc (Driver T W) ℕ)
      → head < 2 ^ 16
      → len ≤ max_message_size
      → wait (notify d).1 ≡ ok ((0, len), d')
      → after_submit e notify wait reset head d ≡ ok ((0, first_bytes len d'.link.dma_resp), d')
  after_submit-ok head len d d' notify wait reset word short waits =
      let plus : is_negative head ≡ false = lt→leb (2 ^ 31) head (omega arith) in
      rw (plus, waits) (rw (le→ltb max_message_size len short) refl)
