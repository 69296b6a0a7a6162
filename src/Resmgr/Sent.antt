-- ===== src/Resmgr/Sent.antt =====
-- What IoWrite has sent when it ends, and a client with which it does not end.
use qnx_unit_tests.Base.{
  ℕ, zero, suc, ◌+◌, ◌-◌, ◌%◌, ◌^◌, ◌≤◌, ◌<◌, List, [], ◌++◌, true, false, ◌≡◌, refl, arith, ltb,
  Bool-cases, inl, inr, ◌==◌, ok, stuck, length, leb, ◌⊎◌, if◌then◌else◌, sym, subst,
}
use qnx_unit_tests.Transport.{Transport, Errno}
use qnx_unit_tests.Session.Ops.{write}
use qnx_unit_tests.Resmgr.{Virtio9pOcb}
use qnx_unit_tests.Session.{Session, Act, pure, continue}
use qnx_unit_tests.Resmgr.Write.{
  WriteMsg, Sizes, brought, Xtype, header_size_of, inline_bytes, to_write, copied_inline, fetch,
  write_loop, WriteReply, chunk_size, offset_of, next_offset, less_signed, count, finish_write,
  write_by, write_action, plain, at_offset,
}
use qnx_unit_tests.Resmgr.Chunks.{Delivers, Accepts, Consecutive, sent, write_loop_lem}

-- The larger of two off_t as 64 bits, of which those from 2^63 are negative.
abbrev pub larger_signed : ℕ → ℕ → ℕ
larger_signed a b =
    if leb (2 ^ 63) a
    then (if leb (2 ^ 63) b then (if ltb a b then b else a) else b)
    else if leb (2 ^ 63) b
    then a
    else if ltb a b
    then b
    else a

less_signed_larger :
    (a b : ℕ) → a < 2 ^ 64 → b < 2 ^ 64 → (if less_signed a b then b else a) ≡ larger_signed a b
less_signed_larger a b ha hb = ground arith

-- The largest chunk: the OCB's I/O unit, or else 128 bytes less than a message of 128 KiB.
abbrev pub IsBound : Virtio9pOcb → ℕ → Type 0
IsBound ocb bound =
    ((0 < ocb.iounit) × (bound ≡ ocb.iounit)) ⊎ ((ocb.iounit ≡ 0) × (bound ≡ 130944))

-- Where `len` bytes go, and the OCB's offset behind them: a plain write starts at the OCB's offset and
-- moves it on by its bytes, and a pwrite starts where it says and leaves it.
abbrev pub Placed : Virtio9pOcb → Xtype → (len start next : ℕ) → Type 0
Placed ocb x len start next =
    ((x ≡ plain) × (start ≡ ocb.offset) × (next ≡ (ocb.offset + len) % 2 ^ 64))
    ⊎ ((x ≡ at_offset start) × (next ≡ ocb.offset))

chunk_size-IsBound :
    (ocb : Virtio9pOcb) (bound : ℕ) → IsBound ocb bound → (chunk_size ocb ≡ bound) × (0 < bound)
chunk_size-IsBound ocb bound (inl (some_unit, same)) = (ground arith, ground arith)
chunk_size-IsBound ocb bound (inr (no_unit, same)) = (ground arith, ground arith)

module _ {S : Type 0} (t : Transport S) (e : Errno) (sizes : Sizes) (msg : WriteMsg)
    (ocb : Virtio9pOcb) (content : List ℕ) (Ready : Session S → Type 0)
    (log : Session S → List (ℕ × List ℕ)) where
  -- What IoWrite has done when it reports all the bytes: the reply, the OCB and the writes.
  abbrev pub Written :
      (bound start next : ℕ) → Session S → Act S (WriteReply × Virtio9pOcb) → Type 0
  Written bound start next s m =
      (s' : Session S) × (ws : List (ℕ × List ℕ)) × (m s
        ≡ ok (
          (
            count (length content),
            record ocb {
              offset = next;
              file_nbytes = larger_signed ocb.file_nbytes ((start + length content) % 2 ^ 64);
            },
          ),
          s',
        ))
      × (log s' ≡ log s ++ ws)
      × (sent ws ≡ content)
      × Consecutive bound start ws

  -- The loop and the end of IoWrite, for the offset that it starts from.
  loop-Written :
      (x : Xtype) (fuel bound start next : ℕ) (s : Session S)
      → offset_of x ocb.offset ≡ start
      → next_offset x ocb.offset (length content) ≡ next
      → IsBound ocb bound
      → ocb.file_nbytes < 2 ^ 64
      → Delivers sizes msg content
      → Accepts bound (write t e ocb.fid) Ready log
      → Ready s
      → length content ≤ fuel
      → Written bound start next s (λ s.
        continue
          (write_loop sizes msg
            (chunk_size ocb)
            (write t e ocb.fid)
            (suc fuel)
            (offset_of x ocb.offset)
            0
            s)
          (λ ending. pure (finish_write x ocb ending)))
  loop-Written x fuel bound start next s starts ends bounded size d accepts ready enough =
      let (same, some_chunk) = chunk_size-IsBound ocb bound bounded in
      let (s', ws, run, logs, bytes, steps) =
        write_loop_lem sizes msg bound (write t e ocb.fid) content d some_chunk Ready log accepts
          fuel start s ready enough in
      let end = (start + length content) % 2 ^ 64 in
      (
        s',
        ws,
        rw (same, starts, run)
            (rw (starts, ends, less_signed_larger ocb.file_nbytes end size (omega arith)) refl),
        logs,
        bytes,
        subst (λ o. Consecutive bound o ws) (omega arith) steps,
      )

  write_by-Written :
      (x : Xtype) (fuel bound start next : ℕ) (s : Session S)
      → Placed ocb x (length content) start next
      → IsBound ocb bound
      → ocb.file_nbytes < 2 ^ 64
      → Delivers sizes msg content
      → Accepts bound (write t e ocb.fid) Ready log
      → Ready s
      → length content ≤ fuel
      → Written bound start next s (write_by t e sizes (suc fuel) msg ocb x)
  unfolding write_by
  write_by-Written x fuel bound start next s (inl (is, starts, ends)) =
      rw is (loop-Written plain fuel bound start next s (sym starts) (sym ends))
  write_by-Written x fuel bound start next s (inr (is, ends)) =
      rw is (loop-Written (at_offset start) fuel bound start next s refl (sym ends))

  -- Where the client's message holds `nbytes` bytes (at least one, below 2 GiB) and the session's Write
  -- takes every chunk whole that is at most the largest chunk (the I/O unit, or else 130944 bytes):
  -- IoWrite ends within `nbytes` rounds and reports all the bytes; what it has sent are exactly the
  -- client's bytes, in writes of one byte to the largest chunk each, every one at the offset where the one
  -- before ends. A plain write starts at the OCB's offset and moves it on by the bytes, modulo 2^64; a
  -- pwrite starts at the offset that it gives and leaves the OCB's. The OCB's file size becomes the end of
  -- the write if that is larger as a signed number, and no other field changes.
  pub write_action_lem :
      (fuel bound start next : ℕ) (s : Session S)
      → Placed ocb msg.xtype (length content) start next
      → IsBound ocb bound
      → ocb.file_nbytes < 2 ^ 64
      → 0 < length content
      → Delivers sizes msg content
      → Accepts bound (write t e ocb.fid) Ready log
      → Ready s
      → length content ≤ fuel
      → Written bound start next s (write_action t e sizes (suc fuel) 0 msg ocb)
  unfolding write_action
  write_action_lem fuel bound start next s placed bounded size nonempty d accepts ready enough =
      let some_bytes : (msg.nbytes == 0) ≡ false = ground (arith, d.whole) in
      rw some_bytes (
        write_by-Written msg.xtype fuel bound start next s placed bounded size d accepts ready
          enough)

-- Where the client's message is shorter than it says, so that from `total` on neither the receive buffer
-- nor resmgr_msgread has a byte left, and the server takes an empty write as one of 0 bytes: the loop of
-- IoWrite does not end within any number of rounds.
pub write_loop_endless :
    {S : Type 0} (sizes : Sizes) (msg : WriteMsg) (chunk : ℕ) (send : ℕ → List ℕ → Act S ℕ)
    (fuel offset total : ℕ) (s : Session S)
    → total < msg.nbytes
    → total < 2 ^ 32
    → inline_bytes sizes msg ≤ total
    → ((k : ℕ)
        → msg.msgread k (msg.ctp_offset + header_size_of sizes msg.xtype + total + 0) ≡ brought [])
    → ((at : ℕ) (s : Session S) → (s' : Session S) × (send at [] s ≡ ok (0, s')))
    → write_loop sizes msg chunk send fuel offset total s ≡ stuck
unfolding write_loop copied_inline
write_loop_endless sizes msg chunk send zero offset total s more small spent dry empty = refl
write_loop_endless sizes msg chunk send (suc fuel) offset total s more small spent dry empty =
    let goes_on : ltb total msg.nbytes ≡ true = ground arith in
    let none_inline : ltb total (inline_bytes sizes msg) ≡ false = ground arith in
    let (s', ran) = empty ((offset + total) % 2 ^ 64) s in
    let same : (total + 0) % 2 ^ 32 ≡ total = omega arith in
    let fetched : fetch sizes msg chunk send total 0 ≡ brought [] =
      elim (Bool-cases (ltb 0 (to_write sizes msg chunk send total))) [
        | inl some_left ↦ rw some_left (dry (to_write sizes msg chunk send total - 0))
        | inr none_left ↦ rw none_left refl
      ] in
    rw (goes_on, none_inline, fetched, ran, same)
      (write_loop_endless sizes msg chunk send fuel offset total s' more small spent dry empty)
