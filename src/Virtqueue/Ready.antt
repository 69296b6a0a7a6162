-- ===== src/Virtqueue/Ready.antt =====
-- A queue between two exchanges, and its way through AddBuf and GetBuf.
use qnx_unit_tests.Base.{
  ℕ, suc, ◌+◌, ◌%◌, ◌^◌, ◌≤◌, ◌<◌, List, ◌∷◌, some, ◌≡◌, ◌≢◌, refl, sym, arith, length, set,
  get_elem?, length-set, All, ok,
}
use qnx_unit_tests.Transport.{Errno}
use qnx_unit_tests.Virtqueue.{Virtqueue, VringUsedElem, add_buf, get_buf}
use qnx_unit_tests.Virtqueue.Chain.{HasFree}
use qnx_unit_tests.Virtqueue.Buffers.{
  added, returned, add_buf-free, get_buf-free, request_desc, response_desc,
}

-- Besides the free descriptors, the available ring has an index and a place for every descriptor.
pub record Ready (q : Virtqueue) (free : List ℕ) (idx : ℕ) : Type 0 where
  pub has_free : HasFree q free
  pub words : All (λ i. i < 2 ^ 16) free
  pub some_size : 0 < q.queue_size
  pub idx_at : get_elem? q.avail 1 ≡ some idx
  pub idx_word : idx < 2 ^ 16
  pub room : q.queue_size + 2 ≤ length q.avail
  pub all_free : length free + 2 < 2 ^ 16

-- The index and the elements of the used ring, as a device leaves them.
abbrev pub with_used_ring : Virtqueue → ℕ → List VringUsedElem → Virtqueue
with_used_ring q used_idx used = record q { used_idx = used_idx; used = used }

-- AddBuf for a request and then, when the device has put its head and a length into the used ring,
-- GetBuf: the head and the length come back, the queue is ready again, and it waits for the next element.
pub add_buf-get_buf :
    (e : Errno) (fuel out q_idx a b : ℕ) (q : Virtqueue) (rest : List ℕ)
    (out_phys out_len in_phys in_len : ℕ)
    → Ready q (a ∷ b ∷ rest) q_idx
    → (next : ℕ) × (add_buf e out_phys out_len in_phys in_len q
        ≡ ok (a, added q a b next q_idx out_phys out_len in_phys in_len))
      × (get_elem? (added q a b next q_idx out_phys out_len in_phys in_len).desc a
          ≡ some (request_desc out_phys out_len b))
      × (get_elem? (added q a b next q_idx out_phys out_len in_phys in_len).desc b
          ≡ some (response_desc in_phys in_len next))
      × (get_elem?
            (added q a b next q_idx out_phys out_len in_phys in_len).avail
            (2 + q_idx % q.queue_size)
          ≡ some a)
      × (get_elem? (added q a b next q_idx out_phys out_len in_phys in_len).avail 1
          ≡ some ((q_idx + 1) % 2 ^ 16))
      × ((used_idx len : ℕ) (used : List VringUsedElem)
          → q.last_used_idx ≢ used_idx
          → get_elem? used (q.last_used_idx % q.queue_size) ≡ some (record { id = a; len = len })
          → (q' : Virtqueue) × (get_buf (suc (suc fuel)) out (
                with_used_ring
                  (added q a b next q_idx out_phys out_len in_phys in_len)
                  used_idx
                  used)
              ≡ ok ((a, len), q'))
            × Ready q' (b ∷ a ∷ rest) ((q_idx + 1) % 2 ^ 16)
            × (q'.last_used_idx ≡ (q.last_used_idx + 1) % 2 ^ 16)
            × (q'.used_idx ≡ used_idx))
add_buf-get_buf e fuel out q_idx a b q rest out_phys out_len in_phys in_len r =
    let (next, adds, has_free, at_a, at_b, slot, idx) =
      add_buf-free e q a b q_idx out_phys out_len in_phys in_len rest r.has_free r.some_size
        r.idx_at r.room in
    let ((ba, rest_a), (rest_b, distinct)) = r.has_free.distinct in
    (
      next,
      adds,
      at_a,
      at_b,
      slot,
      idx,
      λ used_idx len used news elem.
          let q1 =
            with_used_ring (added q a b next q_idx out_phys out_len in_phys in_len) used_idx used in
          let da = request_desc out_phys out_len b in
          let db = response_desc in_phys in_len next in
          let (gets, free_again) =
            get_buf-free fuel out q1 a b len da db rest
              (record {
                chain = has_free.chain;
                distinct = has_free.distinct;
                counted = has_free.counted;
                small = has_free.small;
              })
              ((λ h. ba (sym h), rest_b), (rest_a, distinct)) (omega (arith, r.all_free)) news elem
              r.words.0 at_a refl refl at_b refl in
          (
            returned q1 a b da db,
            gets,
            record {
              has_free = free_again;
              words = (r.words.1.0, (r.words.0, r.words.1.1));
              some_size = r.some_size;
              idx_at = idx;
              idx_word = omega arith;
              room = omega (
                arith,
                r.room,
                length-set q.avail (2 + q_idx % q.queue_size) a,
                length-set (set q.avail (2 + q_idx % q.queue_size) a) 1 ((q_idx + 1) % 2 ^ 16),
              );
              all_free = omega (arith, r.all_free);
            },
            refl,
            refl,
          ),
    )
