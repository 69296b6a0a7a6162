-- ===== src/Virtqueue/Buffers.antt =====
-- A buffer's way: AddBuf takes two descriptors off the free list, GetBuf puts them back.
use qnx_unit_tests.Base.{
  ℕ, zero, suc, ◌+◌, ◌-◌, ◌%◌, ◌^◌, ◌≤◌, ◌<◌, List, [], ◌∷◌, some, false, ◌≡◌, ◌≢◌, refl, ◌∙◌,
  arith, length, get_elem?, set, ltb, ◌==◌, ok, le→ltb,
}
use qnx_unit_tests.Transport.{Errno}
use qnx_unit_tests.Virtqueue.{VringDesc, Virtqueue, add_buf, get_buf, free_chain}
use qnx_unit_tests.Virtqueue.Chain.{
  get_elem?-set, get_elem?-set_other, Distinct, Chain-set, HasFree,
}

-- The chain that AddBuf writes for a request and a response.
abbrev pub request_desc : ℕ → ℕ → ℕ → VringDesc
request_desc addr len next = record { addr = addr; len = len; flags = 1; next = next }

abbrev pub response_desc : ℕ → ℕ → ℕ → VringDesc
response_desc addr len next = record { addr = addr; len = len; flags = 2; next = next }

pub get_elem?-Some :
    {A : Type 0} (xs : List A) (i : ℕ) → i < length xs → (x : A) × (get_elem? xs i ≡ some x)
get_elem?-Some [] i h = absurd (omega arith)
get_elem?-Some (x ∷ xs) zero h = (x, refl)
get_elem?-Some (x ∷ xs) (suc i) h = get_elem?-Some xs i (omega arith)

-- The queue after AddBuf, where the descriptors `a` and `b` were free and `next` is the free one behind
-- them, and the available ring's index was `k`.
abbrev pub added : Virtqueue → ℕ → ℕ → ℕ → ℕ → ℕ → ℕ → ℕ → ℕ → Virtqueue
added q a b next k out_phys out_len in_phys in_len = record q {
  desc =
      set
        (set (set q.desc a (request_desc out_phys out_len b)) b (response_desc in_phys in_len next))
        a (request_desc out_phys out_len b);
  free_head = next;
  num_free = q.num_free - 2;
  avail = set (set q.avail (2 + k % q.queue_size) a) 1 ((k + 1) % 2 ^ 16);
}

add_buf-added :
    (e : Errno) (q : Virtqueue) (a b k slot out_phys out_len in_phys in_len : ℕ) (da db : VringDesc)
    → q.free_head ≡ a
    → get_elem? q.desc a ≡ some da
    → da.next ≡ b
    → get_elem? q.desc b ≡ some db
    → a ≢ b
    → 2 ≤ q.num_free
    → q.num_free < 2 ^ 16
    → get_elem? q.avail 1 ≡ some k
    → get_elem? q.avail (2 + k % q.queue_size) ≡ some slot
    → add_buf e out_phys out_len in_phys in_len q
      ≡ ok (a, added q a b db.next k out_phys out_len in_phys in_len)
unfolding add_buf
add_buf-added e q a b k slot out_phys out_len in_phys in_len da db ha fa hb fb ab two small hk hs =
    let enough : ltb q.num_free 2 ≡ false = le→ltb q.num_free 2 two in
    let ds1 = set q.desc a (request_desc out_phys out_len b) in
    let ds2 = set ds1 b (response_desc in_phys in_len db.next) in
    let f1 = get_elem?-set q.desc a (request_desc out_phys out_len b) da fa in
    let f2 : get_elem? ds1 b ≡ some db =
      get_elem?-set_other q.desc b a (request_desc out_phys out_len b) (omega arith) ∙ fb in
    let f3 : get_elem? ds2 a ≡ some (request_desc out_phys out_len b) =
      get_elem?-set_other ds1 a b (response_desc in_phys in_len db.next) ab ∙ f1 in
    let f4 : get_elem? ds2 b ≡ some (response_desc in_phys in_len db.next) =
      get_elem?-set ds1 b (response_desc in_phys in_len db.next) db f2 in
    let f5 : get_elem? (set ds2 a (request_desc out_phys out_len b)) b
        ≡ some (response_desc in_phys in_len db.next) =
      get_elem?-set_other ds2 b a (request_desc out_phys out_len b) (omega arith) ∙ f4 in
    let count : ((q.num_free + (2 ^ 16 - 1)) % 2 ^ 16 + (2 ^ 16 - 1)) % 2 ^ 16 ≡ q.num_free - 2 =
      omega arith in
    rw (enough, ha, fa, hb, f1, f2, f3, f5, count, hk, hs) refl

-- AddBuf from such a queue, the queue that it leaves written out.
pub add_buf-free :
    (e : Errno) (q : Virtqueue) (a b k out_phys out_len in_phys in_len : ℕ) (rest : List ℕ)
    → HasFree q (a ∷ b ∷ rest)
    → 0 < q.queue_size
    → get_elem? q.avail 1 ≡ some k
    → q.queue_size + 2 ≤ length q.avail
    → (next : ℕ) × (add_buf e out_phys out_len in_phys in_len q
        ≡ ok (a, added q a b next k out_phys out_len in_phys in_len))
      × HasFree (added q a b next k out_phys out_len in_phys in_len) rest
      × (get_elem? (added q a b next k out_phys out_len in_phys in_len).desc a
          ≡ some (request_desc out_phys out_len b))
      × (get_elem? (added q a b next k out_phys out_len in_phys in_len).desc b
          ≡ some (response_desc in_phys in_len next))
      × (get_elem? (added q a b next k out_phys out_len in_phys in_len).avail (2 + k % q.queue_size)
          ≡ some a)
      × (get_elem? (added q a b next k out_phys out_len in_phys in_len).avail 1
          ≡ some ((k + 1) % 2 ^ 16))
add_buf-free e q a b k out_phys out_len in_phys in_len rest free some_size hk room =
    let (ha, da, fa, (hb, db, fb, tail)) = free.chain in
    let ((ba, rest_a), (rest_b, distinct)) = free.distinct in
    let ab : a ≢ b = omega arith in
    let request = request_desc out_phys out_len b in
    let response = response_desc in_phys in_len db.next in
    let ds1 = set q.desc a request in
    let ds2 = set ds1 b response in
    let (slot, hs) = get_elem?-Some q.avail (2 + k % q.queue_size) (omega arith) in
    let ring = set q.avail (2 + k % q.queue_size) a in
    let f1 = get_elem?-set q.desc a request da fa in
    let f2 : get_elem? ds1 b ≡ some db = get_elem?-set_other q.desc b a request ba ∙ fb in
    let f3 : get_elem? ds2 a ≡ some request = get_elem?-set_other ds1 a b response ab ∙ f1 in
    let f4 = get_elem?-set ds1 b response db f2 in
    (
      db.next,
      add_buf-added e q a b k slot out_phys out_len in_phys in_len da db ha fa hb fb ab
          (omega (arith, free.counted)) (omega (arith, free.counted, free.small)) hk hs,
      record {
        chain = Chain-set ds2 db.next a request rest rest_a (
            Chain-set ds1 db.next b response rest rest_b
              (Chain-set q.desc db.next a request rest rest_a tail));
        distinct = distinct;
        counted = omega (arith, free.counted);
        small = omega (arith, free.small);
      },
      get_elem?-set ds2 a request request f3,
      get_elem?-set_other ds2 b a request ba ∙ f4,
      get_elem?-set_other ring (2 + k % q.queue_size) 1 ((k + 1) % 2 ^ 16) (omega arith)
          ∙ get_elem?-set q.avail (2 + k % q.queue_size) a slot hs,
      get_elem?-set ring 1 ((k + 1) % 2 ^ 16) k
          (get_elem?-set_other q.avail 1 (2 + k % q.queue_size) a (omega arith) ∙ hk),
    )

-- Where the free list starts with `a` and `b` and the available ring holds `queue_size` entries: AddBuf
-- returns `a`, takes exactly `a` and `b` off the free list, and leaves at `a` the request with a link to
-- `b`, at `b` the response, in the ring's slot the head `a`, and the ring's index advanced.
pub add_buf-HasFree :
    (e : Errno) (q : Virtqueue) (a b k out_phys out_len in_phys in_len : ℕ) (rest : List ℕ)
    → HasFree q (a ∷ b ∷ rest)
    → 0 < q.queue_size
    → get_elem? q.avail 1 ≡ some k
    → q.queue_size + 2 ≤ length q.avail
    → (q' : Virtqueue) × (add_buf e out_phys out_len in_phys in_len q ≡ ok (a, q'))
      × HasFree q' rest
      × (get_elem? q'.desc a ≡ some (request_desc out_phys out_len b))
      × (get_elem? q'.desc b ≡ some (response_desc in_phys in_len q'.free_head))
      × (get_elem? q'.avail (2 + k % q.queue_size) ≡ some a)
      × (get_elem? q'.avail 1 ≡ some ((k + 1) % 2 ^ 16))
add_buf-HasFree e q a b k out_phys out_len in_phys in_len rest free some_size hk room =
    let (next, adds, has_free, at_a, at_b, slot, idx) =
      add_buf-free e q a b k out_phys out_len in_phys in_len rest free some_size hk room in
    (added q a b next k out_phys out_len in_phys in_len, adds, has_free, at_a, at_b, slot, idx)

-- The queue after GetBuf returned the descriptors `a` and `b`.
abbrev pub returned : Virtqueue → ℕ → ℕ → VringDesc → VringDesc → Virtqueue
returned q a b da db = record q {
  desc = set (set q.desc a (record da { next = q.free_head })) b (record db { next = a });
  free_head = b;
  num_free = q.num_free + 2;
  last_used_idx = (q.last_used_idx + 1) % 2 ^ 16;
}

get_buf-returned :
    (fuel out : ℕ) (q : Virtqueue) (a b len : ℕ) (da db : VringDesc)
    → q.last_used_idx ≢ q.used_idx
    → get_elem? q.used (q.last_used_idx % q.queue_size) ≡ some (record { id = a; len = len })
    → a < 2 ^ 16
    → get_elem? q.desc a ≡ some da
    → da.flags % 2 ≡ 1
    → da.next ≡ b
    → get_elem? q.desc b ≡ some db
    → db.flags % 2 ≡ 0
    → a ≢ b
    → q.num_free + 2 < 2 ^ 16
    → get_buf (suc (suc fuel)) out q ≡ ok ((a, len), returned q a b da db)
unfolding get_buf free_chain
get_buf-returned fuel out q a b len da db news elem ha fa more hb fb last ab small =
    let ready : (q.last_used_idx == q.used_idx) ≡ false = ground arith in
    let back = record da { next = q.free_head } in
    let word : a % 2 ^ 16 ≡ a = omega arith in
    let f2 : get_elem? (set q.desc a back) b ≡ some db =
      get_elem?-set_other q.desc b a back (omega arith) ∙ fb in
    let count : ((q.num_free + 1) % 2 ^ 16 + 1) % 2 ^ 16 ≡ q.num_free + 2 = omega arith in
    rw (ready, elem, word, fa, more, hb, fa, f2, last, f2, count) refl

-- GetBuf from such a queue, the queue that it leaves written out.
pub get_buf-free :
    (fuel out : ℕ) (q : Virtqueue) (a b len : ℕ) (da db : VringDesc) (free : List ℕ)
    → HasFree q free
    → Distinct (b ∷ a ∷ free)
    → length free + 2 < 2 ^ 16
    → q.last_used_idx ≢ q.used_idx
    → get_elem? q.used (q.last_used_idx % q.queue_size) ≡ some (record { id = a; len = len })
    → a < 2 ^ 16
    → get_elem? q.desc a ≡ some da
    → da.flags % 2 ≡ 1
    → da.next ≡ b
    → get_elem? q.desc b ≡ some db
    → db.flags % 2 ≡ 0
    → (get_buf (suc (suc fuel)) out q ≡ ok ((a, len), returned q a b da db))
      × HasFree (returned q a b da db) (b ∷ a ∷ free)
get_buf-free fuel out q a b len da db free h distinct small news elem ha fa more hb fb last =
    let ((ab, free_b), (free_a, _)) = distinct in
    let back = record da { next = q.free_head } in
    let ds1 = set q.desc a back in
    let f1 = get_elem?-set q.desc a back da fa in
    let f2 : get_elem? ds1 b ≡ some db = get_elem?-set_other q.desc b a back (omega arith) ∙ fb in
    (
      get_buf-returned fuel out q a b len da db news elem ha fa more hb fb last ab
          (omega (arith, h.counted)),
      record {
        chain = (
          refl,
          record db { next = a },
          get_elem?-set ds1 b (record db { next = a }) db f2,
          (
            refl,
            back,
            get_elem?-set_other ds1 a b (record db { next = a }) ab ∙ f1,
            Chain-set ds1 q.free_head b (record db { next = a }) free free_b
                (Chain-set q.desc q.free_head a back free free_a h.chain),
          ),
        );
        distinct = distinct;
        counted = omega (arith, h.counted);
        small = omega arith;
      },
    )

-- Where the device has put the head `a` of a chain of two descriptors into the used ring, whose first
-- has the next flag and whose second, `b`, has it not, and neither is free: GetBuf returns `a` and the
-- length that the device wrote, and `b` and `a` are at the front of the free list again.
pub get_buf-HasFree :
    (fuel out : ℕ) (q : Virtqueue) (a b len : ℕ) (da db : VringDesc) (free : List ℕ)
    → HasFree q free
    → Distinct (b ∷ a ∷ free)
    → length free + 2 < 2 ^ 16
    → q.last_used_idx ≢ q.used_idx
    → get_elem? q.used (q.last_used_idx % q.queue_size) ≡ some (record { id = a; len = len })
    → a < 2 ^ 16
    → get_elem? q.desc a ≡ some da
    → da.flags % 2 ≡ 1
    → da.next ≡ b
    → get_elem? q.desc b ≡ some db
    → db.flags % 2 ≡ 0
    → (q' : Virtqueue) × (get_buf (suc (suc fuel)) out q ≡ ok ((a, len), q'))
      × HasFree q' (b ∷ a ∷ free)
get_buf-HasFree fuel out q a b len da db free h distinct small news elem ha fa more hb fb last =
    let (gets, has_free) =
      get_buf-free fuel out q a b len da db free h distinct small news elem ha fa more hb fb last in
    (returned q a b da db, gets, has_free)
