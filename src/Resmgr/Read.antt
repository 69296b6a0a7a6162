-- ===== src/Resmgr/Read.antt =====
-- IoRead of resmgr/fs_virtio9p.cpp. A `struct dirent` in the reply is a record of its fields, since the
-- layout is the platform's; what it takes of the reply is its `reclen`.
use qnx_unit_tests.Base.{
  ℕ, ◌+◌, ◌*◌, ◌/◌, ◌%◌, ◌^◌, List, [], ◌∷◌, ◌++◌, Option, ltb, ◌!=◌, if◌then◌else◌, length, Result,
}
use qnx_unit_tests.Types.{DirEntry}
use qnx_unit_tests.Transport.{Transport, Errno, neg32, is_negative}
use qnx_unit_tests.Session.{Session, Act, pure, ◌>>=◌}
use qnx_unit_tests.Session.Ops.{read, read_dir}
use qnx_unit_tests.Resmgr.{Virtio9pOcb, with_session}

pub record Dirent : Type 0 where
  pub d_ino : ℕ
  pub d_offset : ℕ
  pub d_reclen : ℕ
  pub d_namelen : ℕ
  pub d_name : List ℕ

-- What IoRead does for the client: it returns a code, sets the reply's size to 0 and returns EOK, or
-- sends the reply itself.
pub data ReadReply : Type 0 where
  code : ℕ → ReadReply
  nothing : ReadReply
  listing : List Dirent → ReadReply
  bytes : List ℕ → ReadReply

module _ (d_name : ℕ) where
  -- The size of an entry; `d_name` is offsetof(struct dirent, d_name).
  abbrev pub reclen : DirEntry → ℕ
  reclen entry = (d_name + length entry.name + 1 + 7) / 8 * 8

  abbrev pub dirent : DirEntry → Dirent
  dirent entry = record {
    d_ino = entry.qid.path;
    d_offset = entry.offset;
    d_reclen = reclen entry % 2 ^ 16;
    d_namelen = length entry.name % 2 ^ 16;
    d_name = entry.name;
  }

  -- The loop over the entries: the buffer, its size in bytes, and the OCB's offset.
  unfoldable pub format : ℕ → List Dirent → ℕ → ℕ → List DirEntry → List Dirent × ℕ × ℕ
  format nbytes buf size offset [] = (buf, size, offset)
  format nbytes buf size offset (entry ∷ entries) =
      let rest =
        format nbytes (buf ++ dirent entry ∷ []) (size + reclen entry) entry.offset entries in
      if ltb nbytes (size + reclen entry) then (buf, size, offset) else rest

  abbrev pub reply_listing : Virtio9pOcb → List Dirent × ℕ × ℕ → ReadReply × Virtio9pOcb
  reply_listing ocb ([], size, offset) = (nothing, record ocb { offset = offset })
  reply_listing ocb (d ∷ ds, size, offset) =
      (listing (d ∷ ds), record ocb { offset = offset; file_nbytes = size })

  abbrev pub reply_bytes : Virtio9pOcb → List ℕ → ReadReply × Virtio9pOcb
  reply_bytes ocb [] = (nothing, ocb)
  reply_bytes ocb (b ∷ bs) = (
    bytes (b ∷ bs),
    record ocb { offset = (ocb.offset + length (b ∷ bs)) % 2 ^ 64; file_nbytes = length (b ∷ bs) },
  )

  module _ {S : Type 0} (t : Transport S) (e : Errno) where
    -- The branch of a directory, and that of a regular file.
    unfoldable pub read_listing : ℕ → Virtio9pOcb → Act S (ReadReply × Virtio9pOcb)
    unfolding format
    read_listing nbytes ocb = do
      (result, entries) ← read_dir t e ocb.fid ocb.offset nbytes []
      pure (
          if result != 0
          then (code (neg32 result), ocb)
          else reply_listing ocb (format nbytes [] 0 ocb.offset entries))

    unfoldable pub read_bytes : ℕ → Virtio9pOcb → Act S (ReadReply × Virtio9pOcb)
    read_bytes nbytes ocb = do
      (result, bs) ← read t e ocb.fid ocb.offset nbytes []
      pure (if is_negative result then (code (neg32 result), ocb) else reply_bytes ocb bs)

    -- `verified` is what iofunc_read_verify returns; EOK is 0.
    abbrev pub read_action : ℕ → ℕ → Virtio9pOcb → Act S (ReadReply × Virtio9pOcb)
    read_action verified nbytes ocb =
        if verified != 0
        then pure (code verified, ocb)
        else if ocb.is_directory
        then read_listing nbytes ocb
        else read_bytes nbytes ocb

    abbrev pub io_read :
        ℕ
        → ℕ
        → Virtio9pOcb
        → Option (Session S)
        → Result ((ReadReply × Virtio9pOcb) × Option (Session S))
    io_read verified nbytes ocb =
        with_session t e (code e.enosys, ocb) (read_action verified nbytes ocb)
