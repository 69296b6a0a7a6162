-- ===== src/Resmgr.antt =====
-- resmgr/fs_virtio9p.h and the handlers of resmgr/fs_virtio9p.cpp; IoRead and IoWrite stand below. A handler returns an int, as a bit pattern; `g_session` is an optional session. What the
-- handlers take from the platform's headers and from iofunc is a parameter.
pub mod Answers
pub mod Flags
pub mod Read
pub mod Write
pub mod Listing
pub mod Chunks
pub mod Sent
use qnx_unit_tests.Base.{
  ℕ, ◌+◌, ◌-◌, ◌%◌, ◌^◌, List, [], ◌∷◌, Option, none, some, Bool, true, false, ◌&&◌, ◌==◌, ◌!=◌,
  if◌then◌else◌, bit_and, bit_or, Result, ok, fault, stuck,
}
use qnx_unit_tests.Types.{
  Qid, NinePStat, linux_o_wronly, linux_o_rdwr, linux_o_creat, linux_o_trunc, linux_o_append,
  linux_at_removedir,
}
use qnx_unit_tests.Transport.{Transport, Errno, neg32}
use qnx_unit_tests.Session.{Session, Act, pure, ◌>>=◌}
use qnx_unit_tests.Session.Ops.{
  walk, open_fid, get_attr, clunk, create, mkdir, unlink, rename, walk_parent,
}

-- Virtio9pOcb, and the mode and the size of `file_attr`.
pub record Virtio9pOcb : Type 0 where
  pub fid : ℕ
  pub offset : ℕ
  pub iounit : ℕ
  pub is_directory : Bool
  pub open_flags : ℕ
  pub file_mode : ℕ
  pub file_nbytes : ℕ

-- The platform: O_CREAT, O_EXCL and O_TRUNC, S_ISDIR, and what iofunc_open_default answers for the
-- mode of the open file and the flags of the request: a code, and whether it allocated an OCB.
pub record Qnx : Type 0 where
  pub o_creat : ℕ
  pub o_excl : ℕ
  pub o_trunc : ℕ
  pub s_isdir : ℕ → Bool
  pub open_default : ℕ → ℕ → ℕ × Bool

abbrev pub has : ℕ → ℕ → Bool
has flags bits = bit_and flags bits != 0

unfoldable pub translate_qnx_to_linux_flags : Qnx → ℕ → ℕ
translate_qnx_to_linux_flags qnx flags =
    let access =
      if has flags 0x1 && has flags 0x2
      then linux_o_rdwr
      else if has flags 0x2
      then linux_o_wronly
      else 0 in
    let truncated = if has flags qnx.o_trunc then bit_or access linux_o_trunc else access in
    if has flags 0x8 then bit_or truncated linux_o_append else truncated

-- `NinePStat stat{}`
abbrev pub no_stat : NinePStat
no_stat = record {
  valid = 0;
  qid = record { type = 0; version = 0; path = 0 };
  mode = 0;
  uid = 0;
  gid = 0;
  nlink = 0;
  rdev = 0;
  size = 0;
  blksize = 0;
  blocks = 0;
  atime_sec = 0;
  atime_nsec = 0;
  mtime_sec = 0;
  mtime_nsec = 0;
  ctime_sec = 0;
  ctime_nsec = 0;
  btime_sec = 0;
  btime_nsec = 0;
  gen = 0;
  data_version = 0;
}

-- The fields that IoStat sets, before the casts to the platform's types; the others are 0.
pub record StatReply : Type 0 where
  pub st_mode : ℕ
  pub st_uid : ℕ
  pub st_gid : ℕ
  pub st_nlink : ℕ
  pub st_size : ℕ
  pub st_ino : ℕ

-- (mode & 0040000U) != 0U
abbrev pub is_dir_mode : ℕ → Bool
is_dir_mode mode = has mode 0x4000

-- What the first half of ConnectOpen ends with: a return of a code, or an open file.
pub data Opening : Type 0 where
  refused : ℕ → Opening
  opened : (fid iounit : ℕ) → Bool → NinePStat → Opening

module _ {S : Type 0} (t : Transport S) (e : Errno) where
  -- Clunk, with its code ignored.
  abbrev pub clunk_then : {A : Type 0} → ℕ → A → Act S A
  clunk_then fid a = do _ ← clunk t e fid; pure a

  -- The two ends of a handler.
  abbrev pub reply : ℕ → ℕ
  reply rc = if rc != 0 then neg32 rc else 0

  unfoldable pub open_existing : ℕ → ℕ → Act S Opening
  open_existing fid linux_flags = do
    (rc, iounit) ← open_fid t e fid linux_flags 0
    if rc != 0 then clunk_then fid (refused (neg32 rc)) else (do
      (_, stat) ← get_attr t e fid no_stat
      pure (opened fid iounit (is_dir_mode stat.mode) stat))

  unfoldable pub create_missing : List ℕ → ℕ → Act S Opening
  create_missing path linux_flags = do
    (rc, parent_fid, basename) ← walk_parent t e path 0
    if rc != 0 then pure (refused (neg32 rc)) else (do
      (rc, (_, iounit)) ←
          create t e parent_fid basename (bit_or linux_flags linux_o_creat) 0x1a4 0
            (record { type = 0; version = 0; path = 0 }, 0)
      if rc != 0
          then clunk_then parent_fid (refused (neg32 rc))
          else pure (opened parent_fid iounit false (record no_stat { mode = 0x81a4; size = 0 })))

  unfoldable pub open_path : Qnx → List ℕ → ℕ → Act S Opening
  unfolding open_existing create_missing
  open_path qnx path ioflag =
      let linux_flags = translate_qnx_to_linux_flags qnx ioflag in
      (do
        (rc, fid) ← walk t e path
        if rc == 0
            then open_existing fid linux_flags
            else if rc == neg32 e.enoent && has ioflag qnx.o_creat
            then create_missing path linux_flags
            else pure (refused (neg32 rc)))

  -- ioflag & ~(O_CREAT | O_EXCL | O_TRUNC)
  abbrev pub stripped : Qnx → ℕ → ℕ
  stripped qnx ioflag =
      bit_and ioflag (2 ^ 32 - 1 - bit_or (bit_or qnx.o_creat qnx.o_excl) qnx.o_trunc % 2 ^ 32)

  -- What iofunc's answer and the new OCB make of the open file.
  unfoldable pub finish_open : Qnx → ℕ → Opening → Act S (ℕ × Option Virtio9pOcb)
  finish_open qnx ioflag (refused code) = pure (code, none)
  finish_open qnx ioflag (opened fid iounit is_dir stat) =
      let (result, allocated) = qnx.open_default stat.mode (stripped qnx ioflag) in
      let ocb : Virtio9pOcb = record {
        fid = fid;
        offset = 0;
        iounit = iounit;
        is_directory = is_dir;
        open_flags = translate_qnx_to_linux_flags qnx ioflag;
        file_mode = stat.mode;
        file_nbytes = stat.size;
      } in
      if result != 0
      then clunk_then fid (result, none)
      else pure (0, if allocated then some ocb else none)

  -- A handler whose session is there; a null path and an empty one are both [].
  abbrev pub with_session :
      {A : Type 0} → A → Act S A → Option (Session S) → Result (A × Option (Session S))
  with_session absent m none = ok (absent, none)
  with_session absent m (some s) = elim (m s) [
    | ok p ↦ ok (p.0, some p.1)
    | fault ↦ fault
    | stuck ↦ stuck
  ]

  abbrev pub path_or_root : List ℕ → List ℕ
  path_or_root [] = b'/' ∷ []
  path_or_root (c ∷ cs) = c ∷ cs

  unfoldable pub open_action : Qnx → List ℕ → ℕ → Act S (ℕ × Option Virtio9pOcb)
  unfolding open_path finish_open
  open_action qnx path ioflag = do
    o ← open_path qnx (path_or_root path) ioflag
    finish_open qnx ioflag o

  abbrev pub connect_open :
      Qnx → List ℕ → ℕ → Option (Session S) → Result ((ℕ × Option Virtio9pOcb) × Option (Session S))
  connect_open qnx path ioflag = with_session (e.enosys, none) (open_action qnx path ioflag)

  abbrev pub stat_reply : NinePStat → StatReply
  stat_reply stat = record {
    st_mode = stat.mode;
    st_uid = stat.uid;
    st_gid = stat.gid;
    st_nlink = stat.nlink;
    st_size = stat.size;
    st_ino = stat.qid.path;
  }

  -- The code, and the reply if there is one.
  unfoldable pub stat_action : Virtio9pOcb → Act S (ℕ × Option StatReply)
  stat_action ocb = do
    (rc, stat) ← get_attr t e ocb.fid no_stat
    pure (if rc != 0 then (neg32 rc, none) else (0, some (stat_reply stat)))

  abbrev pub io_stat :
      Virtio9pOcb → Option (Session S) → Result ((ℕ × Option StatReply) × Option (Session S))
  io_stat ocb = with_session (e.enosys, none) (stat_action ocb)

  unfoldable pub mknod_action : Qnx → List ℕ → ℕ → Act S ℕ
  mknod_action qnx [] mode = pure e.einval
  mknod_action qnx (c ∷ cs) mode =
      if qnx.s_isdir mode
      then (do
        (rc, parent_fid, basename) ← walk_parent t e (c ∷ cs) 0
        if rc != 0 then pure (neg32 rc) else (do
          rc ← mkdir t e parent_fid basename (bit_and mode 0x1ff) 0
          clunk_then parent_fid (reply rc)))
      else pure e.enotsup

  abbrev pub connect_mknod : Qnx → List ℕ → ℕ → Option (Session S) → Result (ℕ × Option (Session S))
  connect_mknod qnx path mode = with_session e.enosys (mknod_action qnx path mode)

  -- The flags for Tunlinkat, from the attributes of the target if it can be walked to.
  unfoldable pub unlink_flags : List ℕ → Act S ℕ
  unlink_flags path = do
    (rc, target_fid) ← walk t e path
    if rc == 0
        then (do
          (rc, stat) ← get_attr t e target_fid no_stat
          clunk_then target_fid
              (if rc == 0 then (if is_dir_mode stat.mode then linux_at_removedir else 0) else 0))
        else pure 0

  unfoldable pub unlink_action : List ℕ → Act S ℕ
  unfolding unlink_flags
  unlink_action [] = pure e.einval
  unlink_action (c ∷ cs) = do
    (rc, parent_fid, basename) ← walk_parent t e (c ∷ cs) 0
    if rc != 0 then pure (neg32 rc) else (do
      flags ← unlink_flags (c ∷ cs)
      rc ← unlink t e parent_fid basename flags
      clunk_then parent_fid (reply rc))

  abbrev pub connect_unlink : List ℕ → Option (Session S) → Result (ℕ × Option (Session S))
  connect_unlink path = with_session e.enosys (unlink_action path)

  -- The new path is what follows the old one in the message.
  unfoldable pub rename_action : List ℕ → List ℕ → Act S ℕ
  rename_action [] new_path = pure e.einval
  rename_action (c ∷ cs) new_path = do
    (rc, old_parent_fid, old_basename) ← walk_parent t e (c ∷ cs) 0
    if rc != 0 then pure (neg32 rc) else (do
      (rc, new_parent_fid, new_basename) ← walk_parent t e new_path 0
      if rc != 0 then clunk_then old_parent_fid (neg32 rc) else (do
        rc ← rename t e old_parent_fid old_basename new_parent_fid new_basename
        _ ← clunk t e old_parent_fid
        clunk_then new_parent_fid (reply rc)))

  abbrev pub connect_rename : List ℕ → List ℕ → Option (Session S) → Result (ℕ × Option (Session S))
  connect_rename path new_path = with_session e.enosys (rename_action path new_path)

  -- `close_default` is what iofunc_close_ocb_default returns.
  abbrev pub io_close_ocb : ℕ → Virtio9pOcb → Option (Session S) → Result (ℕ × Option (Session S))
  io_close_ocb close_default ocb = with_session close_default (clunk_then ocb.fid close_default)
