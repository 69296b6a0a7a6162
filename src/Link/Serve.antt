-- ===== src/Link/Serve.antt =====
-- An exchange over a link that is in step with a device that answers: AddBuf, the device, and GetBuf.
use qnx_unit_tests.Base.{
  ℕ, suc, ◌+◌, ◌%◌, ◌^◌, ◌≤◌, ◌<◌, List, ◌∷◌, ◌++◌, some, Bool, true, ◌≡◌, refl, sym, ap, ◌∙◌,
  arith, length, get_elem?, drop, ok, subst,
}
use qnx_unit_tests.Types.{max_message_size}
use qnx_unit_tests.Transport.{Errno}
use qnx_unit_tests.Virtqueue.{Virtqueue, add_buf, get_buf}
use qnx_unit_tests.Virtqueue.Buffers.{added}
use qnx_unit_tests.Virtqueue.Ready.{with_used_ring, add_buf-get_buf}
use qnx_unit_tests.Machine.{Machine}
use qnx_unit_tests.Link.{Driver}
use qnx_unit_tests.Link.Exchange.{first_bytes, memory}
use qnx_unit_tests.Link.Reply.{Serves, InStep, loaded, found, first_bytes-append}

module _ {T W : Type 0} (served : W → ℕ) where
  pub InStep-quiet :
      (d : Driver T W) (w : W) (free : List ℕ)
      → served w ≡ served d.world
      → InStep served d free
      → InStep served (record d { world = w }) free
  InStep-quiet d w free same s = record {
    link_open = s.link_open;
    made = s.made ∙ sym same;
    seen = s.seen ∙ sym same;
  }

module _ {T W : Type 0} (k : Machine W) (e : Errno) (answer : List ℕ → List ℕ) (bits bell : ℕ)
    (served : W → ℕ) (rung : W → Bool) (serves : Serves answer k bits bell served rung) where
  -- The driver with the request on its way, when the machine is `w`.
  abbrev pub sent : List ℕ → Virtqueue → W → Driver T W → Driver T W
  sent request q1 w d = record d {
    world = w;
    link = record (loaded d.link request) { virtqueue = some q1 };
  }

  -- What GetBuf finds once the device has been notified.
  abbrev pub Answered : ℕ → List ℕ → Driver T W → ℕ → List ℕ → Virtqueue → W → Virtqueue → Type 0
  Answered fuel request d a free q1 w q2 =
      let d3 = sent request q1 w d in
      (get_buf (suc (suc fuel)) 0 (
          with_used_ring q1 (k.device (memory q1 d3.link) d3.world).0.0
            (k.device (memory q1 d3.link) d3.world).0.1)
        ≡ ok ((a, length (answer request)), q2))
      × (first_bytes (length (answer request)) (k.device (memory q1 d3.link) d3.world).0.2
          ≡ answer request)
      × InStep served (found k d3 q1 q2) free

  pub add_buf-Answered :
      (fuel : ℕ) (request : List ℕ) (d : Driver T W) (a b : ℕ) (free : List ℕ)
      → (s : InStep served d (a ∷ b ∷ free)) → length request ≤ max_message_size
      → length (answer request) ≤ max_message_size
      → (q1 : Virtqueue) × (add_buf e d.link.dma_req_phys
            (length request % 2 ^ 32)
            d.link.dma_resp_phys
            max_message_size
            s.link_open.q
          ≡ ok (a, q1))
        × (a < 2 ^ 16)
        × ((w : W)
            → served w ≡ served d.world
            → rung w ≡ true
            → (q2 : Virtqueue) × Answered fuel request d a (b ∷ a ∷ free) q1 w q2)
  add_buf-Answered fuel request d a b free s short small =
      let o = s.link_open in
      let l = d.link in
      let n = length request % 2 ^ 32 in
      let (next, adds, at_a, at_b, slot, idx, back) =
        add_buf-get_buf e fuel 0 o.idx a b o.q free l.dma_req_phys n l.dma_resp_phys
          max_message_size o.ready in
      let q1 = added o.q a b next o.idx l.dma_req_phys n l.dma_resp_phys max_message_size in
      let buffer = request ++ drop (length request) l.dma_req in
      let whole : first_bytes n buffer ≡ request =
        first_bytes-append n request (drop (length request) l.dma_req) (omega arith) in
      (
        q1,
        adds,
        o.ready.words.0,
        λ w same notified.
            let count : o.idx ≡ served w = s.made ∙ sym same in
            let seen : o.q.last_used_idx ≡ served w = s.seen ∙ sym same in
            let m = memory q1 (sent request q1 w d).link in
            let (used_idx, elem, bytes, counted) =
              serves.completes m w a n b max_message_size next notified o.ready.some_size
                (subst (λ i. get_elem? q1.avail 1 ≡ some ((i + 1) % 2 ^ 16)) count idx)
                (subst (λ i. get_elem? q1.avail (2 + i % o.q.queue_size) ≡ some a) count slot) at_a
                at_b (omega (arith, small, ap (λ r. length (answer r)) whole)) in
            let word : served w < 2 ^ 16 = omega (arith, o.ready.idx_word) in
            let (q2, gets, ready, last, behind) =
              back (k.device m w).0.0 (length (answer (first_bytes n buffer))) (k.device m w).0.1
                (omega (arith, used_idx))
                (subst
                  (λ i.
                    get_elem? (k.device m w).0.1 (i % o.q.queue_size)
                    ≡ some (record { id = a; len = length (answer (first_bytes n buffer)) }))
                  (sym seen) elem) in
            (
              q2,
              (
                subst
                    (λ r.
                      get_buf (suc (suc fuel)) 0
                        (with_used_ring q1 (k.device m w).0.0 (k.device m w).0.1)
                      ≡ ok ((a, length (answer r)), q2))
                    whole gets,
                subst (λ r. first_bytes (length (answer r)) (k.device m w).0.2 ≡ answer r) whole
                    bytes,
                record {
                  link_open = record {
                    q = q2;
                    idx = (o.idx + 1) % 2 ^ 16;
                    req = o.req;
                    resp = o.resp;
                    has_queue = refl;
                    ready = ready;
                    caught_up = omega (arith, used_idx, last, behind, seen);
                    has_req = o.has_req;
                    has_resp = o.has_resp;
                  };
                  made = omega (arith, count, counted);
                  seen = omega (arith, seen, last, counted);
                },
              ),
            ),
      )
