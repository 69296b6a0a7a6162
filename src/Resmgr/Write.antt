-- ===== src/Resmgr/Write.antt =====
-- IoWrite of resmgr/fs_virtio9p.cpp. The client's message is what the receive buffer holds of it behind
-- the header, and resmgr_msgread for the rest.
use qnx_unit_tests.Base.{
  ℕ, zero, suc, ◌+◌, ◌-◌, ◌%◌, ◌^◌, List, [], ◌++◌, Option, Bool, ltb, leb, ◌==◌, ◌!=◌,
  if◌then◌else◌, length, take, drop, Result, ok, fault, stuck,
}
use qnx_unit_tests.Types.{max_message_size}
use qnx_unit_tests.Transport.{Transport, Errno, neg32, is_negative}
use qnx_unit_tests.Session.{Session, Act, pure, ◌>>=◌}
use qnx_unit_tests.Session.Ops.{write}
use qnx_unit_tests.Resmgr.{Virtio9pOcb, with_session}

-- `msg->i.xtype & _IO_XTYPE_MASK`, with the offset of _IO_XTYPE_OFFSET.
pub data Xtype : Type 0 where
  plain other : Xtype
  at_offset : ℕ → Xtype

-- The bytes that resmgr_msgread brings, or the errno that it leaves.
pub data Msgread : Type 0 where
  failed : ℕ → Msgread
  brought : List ℕ → Msgread

pub record WriteMsg : Type 0 where
  pub nbytes : ℕ
  pub xtype : Xtype
  pub ctp_offset : ℕ
  pub msglen : ℕ
  pub received : List ℕ
  pub msgread : ℕ → ℕ → Msgread

-- sizeof(io_write_t) and sizeof(struct _xtype_offset)
pub record Sizes : Type 0 where
  pub io_write : ℕ
  pub xtype_offset : ℕ

-- The end of the loop: a return of a code, or `total_written`.
pub data Ending : Type 0 where
  failed_with : ℕ → Ending
  wrote : ℕ → Ending

abbrev pub header_size_of : Sizes → Xtype → ℕ
header_size_of sizes (at_offset o) = sizes.io_write + sizes.xtype_offset
header_size_of sizes plain = sizes.io_write
header_size_of sizes other = sizes.io_write

-- The bytes of the data that the receive buffer holds.
unfoldable pub inline_bytes : Sizes → WriteMsg → ℕ
inline_bytes sizes msg =
    let header_end = msg.ctp_offset + header_size_of sizes msg.xtype in
    let available = if ltb header_end msg.msglen then msg.msglen - header_end else 0 in
    if ltb available msg.nbytes then available else msg.nbytes

abbrev pub chunk_size : Virtio9pOcb → ℕ
chunk_size ocb = if ltb 0 ocb.iounit then ocb.iounit else max_message_size - 128

-- `a < b` of two off_t.
abbrev pub less_signed : ℕ → ℕ → Bool
less_signed a b = ltb ((a + 2 ^ 63) % 2 ^ 64) ((b + 2 ^ 63) % 2 ^ 64)

module _ {S : Type 0} (sizes : Sizes) (msg : WriteMsg) (chunk : ℕ)
    (send : ℕ → List ℕ → Act S ℕ) where
  unfoldable pub to_write : ℕ → ℕ
  to_write total = if ltb chunk (msg.nbytes - total) then chunk else msg.nbytes - total

  -- How much of a chunk is copied from the receive buffer.
  unfoldable pub copied_inline : ℕ → ℕ
  copied_inline total =
      let inline = inline_bytes sizes msg in
      if ltb total inline
      then (if ltb (to_write total) (inline - total) then to_write total else inline - total)
      else 0

  -- memcpy(buf.data(), inline_data + total_written, copied)
  abbrev pub copy_inline : ℕ → ℕ → Act S (List ℕ)
  copy_inline total zero s = ok ([], s)
  copy_inline total (suc n) s =
      if leb (total + suc n) (length msg.received)
      then ok (take (suc n) (drop total msg.received), s)
      else fault

  -- The second part of a chunk, from the client.
  abbrev pub fetch : ℕ → ℕ → Msgread
  fetch total copied =
      if ltb copied (to_write total)
      then msg.msgread (to_write total - copied)
          (msg.ctp_offset + header_size_of sizes msg.xtype + total + copied)
      else brought []

  -- What follows Write: the rest of the loop is `again`, for the new `total_written`.
  abbrev pub after_write : (ℕ → Act S Ending) → ℕ → ℕ → ℕ → Act S Ending
  after_write again total copied written =
      if is_negative written
      then pure (failed_with (neg32 written))
      else if ltb written copied
      then pure (wrote ((total + written) % 2 ^ 32))
      else again ((total + written) % 2 ^ 32)

  -- The chunk that Write is called with, after the copy of its first part.
  abbrev pub send_chunk : (ℕ → Act S Ending) → ℕ → ℕ → List ℕ → Msgread → Act S Ending
  send_chunk again offset total first (failed code) = pure (failed_with code)
  send_chunk again offset total first (brought second) = do
    written ← send ((offset + total) % 2 ^ 64) (first ++ second)
    after_write again total (length (first ++ second)) written

  -- One round of the loop.
  abbrev pub round : (ℕ → Act S Ending) → ℕ → ℕ → Act S Ending
  round again offset total = do
    first ← copy_inline total (copied_inline total)
    send_chunk again offset total first (fetch total (length first))

  -- The loop, for at most `fuel` rounds.
  unfoldable pub write_loop : ℕ → ℕ → ℕ → Act S Ending
  unfolding inline_bytes to_write copied_inline
  write_loop zero offset total s = stuck
  write_loop (suc fuel) offset total s =
      if ltb total msg.nbytes
      then round (write_loop fuel offset) offset total s
      else ok (wrote total, s)

-- What IoWrite returns: a code, or EOK with the number of bytes for the client.
pub data WriteReply : Type 0 where
  code : ℕ → WriteReply
  count : ℕ → WriteReply

abbrev pub offset_of : Xtype → ℕ → ℕ
offset_of (at_offset o) seq = o
offset_of plain seq = seq
offset_of other seq = seq

-- The sequential offset stays for a pwrite.
abbrev pub next_offset : Xtype → ℕ → ℕ → ℕ
next_offset (at_offset o) seq total = seq
next_offset plain seq total = (seq + total) % 2 ^ 64
next_offset other seq total = (seq + total) % 2 ^ 64

abbrev pub finish_write : Xtype → Virtio9pOcb → Ending → WriteReply × Virtio9pOcb
finish_write xtype ocb (failed_with c) = (code c, ocb)
finish_write xtype ocb (wrote total) =
    let end = (offset_of xtype ocb.offset + total) % 2 ^ 64 in
    (
      count total,
      record ocb {
        offset = next_offset xtype ocb.offset total;
        file_nbytes = if less_signed ocb.file_nbytes end then end else ocb.file_nbytes;
      },
    )

module _ {S : Type 0} (t : Transport S) (e : Errno) (sizes : Sizes) where
  -- The write of a message that has bytes, with the way its offset is given.
  unfoldable pub write_by : ℕ → WriteMsg → Virtio9pOcb → Xtype → Act S (WriteReply × Virtio9pOcb)
  unfolding write_loop
  write_by fuel msg ocb other = pure (code e.enosys, ocb)
  write_by fuel msg ocb xtype = do
    ending ←
        write_loop sizes msg (chunk_size ocb) (write t e ocb.fid) fuel (offset_of xtype ocb.offset)
          0
    pure (finish_write xtype ocb ending)

  -- `verified` is what iofunc_write_verify returns; EOK is 0.
  unfoldable pub write_action : ℕ → ℕ → WriteMsg → Virtio9pOcb → Act S (WriteReply × Virtio9pOcb)
  unfolding write_by
  write_action fuel verified msg ocb =
      if verified != 0
      then pure (code verified, ocb)
      else if msg.nbytes == 0
      then pure (count 0, ocb)
      else write_by fuel msg ocb msg.xtype

  abbrev pub io_write :
      ℕ
      → ℕ
      → WriteMsg
      → Virtio9pOcb
      → Option (Session S)
      → Result ((WriteReply × Virtio9pOcb) × Option (Session S))
  io_write fuel verified msg ocb =
      with_session t e (code e.enosys, ocb) (write_action fuel verified msg ocb)
