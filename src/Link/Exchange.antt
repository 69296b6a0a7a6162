-- ===== src/Link/Exchange.antt =====
-- The core of Exchange, which the two transports share but for the notification, the wait and the reset.
use qnx_unit_tests.Base.{
  ℕ, zero, suc, ◌%◌, ◌^◌, List, [], ◌∷◌, ◌++◌, Option, none, some, ltb, drop, length, if◌then◌else◌,
  Result, ok, fault, stuck,
}
use qnx_unit_tests.Base.Proc.{Proc}
use qnx_unit_tests.Base.Run.{Run, give, lift, ◌>>=◌, ◌>>◌}
use qnx_unit_tests.Types.{max_message_size}
use qnx_unit_tests.Transport.{Errno, neg32, is_negative}
use qnx_unit_tests.Virtqueue.{Virtqueue, add_buf, get_buf}
use qnx_unit_tests.Machine.{Machine, Memory}
use qnx_unit_tests.Link.{Link, Driver, call, set_link}

-- The first `n` bytes of a buffer.
unfoldable pub first_bytes : ℕ → List ℕ → List ℕ
first_bytes zero bs = []
first_bytes (suc n) [] = 0 ∷ first_bytes n []
first_bytes (suc n) (b ∷ bs) = b ∷ first_bytes n bs

module _ {T W : Type 0} where
  -- A call of the queue, which is there where this is called, and what becomes of its result.
  abbrev pub keep_queue : {A : Type 0} → Result (A × Virtqueue) → Run (Driver T W) A
  keep_queue (ok (a, q)) d = ok (a, record d { link = record d.link { virtqueue = some q } })
  keep_queue fault d = fault
  keep_queue stuck d = stuck

  abbrev pub with_queue :
      {A : Type 0} → (Virtqueue → Result (A × Virtqueue)) → Option Virtqueue → Run (Driver T W) A
  with_queue f none d = fault
  with_queue f (some q) d = keep_queue (f q) d

  -- memcpy(dma_req_virt_, request.data(), request.size()) into a mapping of kMaxMessageSize bytes
  abbrev pub copy_request : List ℕ → Run (Driver T W) (Unit {0})
  copy_request request d =
      if ltb max_message_size (length request)
      then fault
      else ok (
        tt,
        record d {
          link = record d.link { dma_req = request ++ drop (length request) d.link.dma_req };
        },
      )

  -- memcpy(response.data(), dma_resp_virt_, out_len)
  abbrev pub copy_response : ℕ → Run (Driver T W) (List ℕ)
  copy_response out_len d =
      if ltb max_message_size out_len then fault else ok (first_bytes out_len d.link.dma_resp, d)

-- What a link shares with the device.
abbrev pub memory : Virtqueue → Link → Memory
memory q l = record {
  queue_size = q.queue_size;
  desc = q.desc;
  avail = q.avail;
  used_idx = q.used_idx;
  used = q.used;
  req_phys = l.dma_req_phys;
  req = l.dma_req;
  resp_phys = l.dma_resp_phys;
  resp = l.dma_resp;
}

module _ {T W : Type 0} (k : Machine W) where
  -- What the device has written since the last look.
  abbrev pub sync : Option Virtqueue → Proc (Driver T W) (Unit {0})
  sync none d = (tt, d)
  sync (some q) d =
      let ((used_idx, used, response), w) = k.device (memory q d.link) d.world in
      (
        tt,
        record d {
          world = w;
          link = record d.link {
            virtqueue = some (record q { used_idx = used_idx; used = used });
            dma_resp = response;
          };
        },
      )

  -- GetBuf, which reads what the device has written.
  unfoldable pub look : ℕ → ℕ → Run (Driver T W) (ℕ × ℕ)
  unfolding get_buf
  look fuel out_len = do
    lift (λ d. sync d.link.virtqueue d)
    λ d. with_queue (get_buf fuel out_len) d.link.virtqueue d

  -- The spin after an interrupt, for so many rounds: whether a buffer came, and `out_len`.
  unfoldable pub spin : ℕ → ℕ → ℕ → Run (Driver T W) (ℕ × ℕ)
  unfolding look
  spin fuel zero out_len = give (neg32 1, out_len)
  spin fuel (suc n) out_len = do
    lift (call λ w. (tt, k.nanosleep 100000 w))
    r ← look fuel out_len
    if is_negative r.0 then spin fuel n r.1 else give r

module _ {T W : Type 0} (e : Errno) where
  abbrev pub submit : List ℕ → Run (Driver T W) ℕ
  submit request d =
      with_queue
        (add_buf e d.link.dma_req_phys (length request % 2 ^ 32) d.link.dma_resp_phys
          max_message_size)
        d.link.virtqueue d

  module _ (notify : Proc (Driver T W) (Unit {0})) (wait : Run (Driver T W) (ℕ × ℕ))
      (reset : Proc (Driver T W) ℕ) where
    -- What follows the wait.
    abbrev pub after_wait : ℕ × ℕ → Run (Driver T W) (ℕ × List ℕ)
    after_wait (rc, out_len) =
        if is_negative rc
        then (do _ ← lift reset; give (rc, []))
        else (do response ← copy_response out_len; give (0, response))

    -- What follows AddBuf.
    abbrev pub after_submit : ℕ → Run (Driver T W) (ℕ × List ℕ)
    after_submit head =
        if is_negative head then give (head, []) else (do lift notify; r ← wait; after_wait r)

    abbrev pub exchange_ready : List ℕ → Run (Driver T W) (ℕ × List ℕ)
    exchange_ready request = do
      lift (set_link λ l. record l { dma_resp = [] })
      copy_request request
      head ← submit request
      after_submit head

    -- With the guard: the queue and both buffers are there.
    abbrev pub exchange_if :
        List ℕ → Option Virtqueue → Option ℕ → Option ℕ → Run (Driver T W) (ℕ × List ℕ)
    exchange_if request (some q) (some req) (some resp) = exchange_ready request
    exchange_if request (some q) (some req) none = give (neg32 e.einval, [])
    exchange_if request (some q) none resp = give (neg32 e.einval, [])
    exchange_if request none req resp = give (neg32 e.einval, [])

    unfoldable pub exchange_with : List ℕ → Run (Driver T W) (ℕ × List ℕ)
    unfolding look spin first_bytes
    exchange_with request d =
        exchange_if request d.link.virtqueue d.link.dma_req_virt d.link.dma_resp_virt d
