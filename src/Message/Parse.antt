-- ===== src/Message/Parse.antt =====
-- The parsers of responses of protocol/nine_p_message.cpp. `none` is the answer `false`, which leaves
-- the out parameters as they were; `some` holds what `true` leaves in them.
use qnx_unit_tests.Base.{
  ℕ, zero, suc, ◌+◌, ◌%◌, ◌^◌, List, [], ◌∷◌, ◌++◌, Option, none, some, Bool, length, ltb, ◌==◌,
  ◌!=◌, if◌then◌else◌, Result, ok, fault, stuck,
}
use qnx_unit_tests.Types.{Qid, NinePStat, DirEntry}
use qnx_unit_tests.MessageType.{
  rlerror, rversion, rattach, rwalk, rlopen, rread, rclunk, rgetattr, rreaddir, rwrite, rlcreate,
  rmkdir, runlinkat, rrenameat,
}
use qnx_unit_tests.Message.{
  Message, Get, pure, ◌>>=◌, ◌>>◌, from_bytes, get_type, get_u8, get_u16, get_u32, get_u64,
  get_bytes, get_string, get_qid, reset_read_offset,
}

-- if (msg.GetType() != type) return false;
abbrev pub expect : {A : Type 0} → ℕ → Get (Option A) → Get (Option A)
expect type body m = if get_type m != type then ok (none, m) else body m

abbrev error_code : Result (ℕ × Message) → Result (Option ℕ)
error_code (ok (code, copy)) = ok (some code)
error_code fault = fault
error_code stuck = stuck

-- The message is const: its buffer is copied.
unfoldable pub is_rlerror : Message → Result (Option ℕ)
unfolding get_type get_u32
is_rlerror m = if get_type m != rlerror then ok none else error_code (get_u32 (from_bytes m.bytes))

unfoldable pub parse_rversion : Get (Option (ℕ × List ℕ))
parse_rversion =
    expect rversion do
      reset_read_offset
      max_size ← get_u32
      version ← get_string
      pure (some (max_size, version))

unfoldable pub parse_rattach : Get (Option Qid)
parse_rattach = expect rattach do reset_read_offset; qid ← get_qid; pure (some qid)

-- for (i = 0; i < nwqid; ++i) qids.push_back(msg.GetQid())
unfoldable pub get_qids : ℕ → List Qid → Get (List Qid)
get_qids zero qids = pure qids
get_qids (suc n) qids = get_qid >>= λ qid. get_qids n (qids ++ qid ∷ [])

unfoldable pub parse_rwalk : List Qid → Get (Option (List Qid))
unfolding get_qids
parse_rwalk qids =
    expect rwalk
      do reset_read_offset; nwqid ← get_u16; qids' ← get_qids nwqid qids; pure (some qids')

unfoldable pub parse_rlopen : Get (Option (Qid × ℕ))
parse_rlopen =
    expect rlopen do reset_read_offset; qid ← get_qid; iounit ← get_u32; pure (some (qid, iounit))

unfoldable pub parse_rread : Get (Option (List ℕ))
parse_rread =
    expect rread do reset_read_offset; count ← get_u32; bs ← get_bytes count; pure (some bs)

unfoldable pub parse_rclunk : Message → Bool
parse_rclunk m = get_type m == rclunk

unfoldable pub get_stat : Get NinePStat
get_stat = do
  valid ← get_u64
  qid ← get_qid
  mode ← get_u32
  uid ← get_u32
  gid ← get_u32
  nlink ← get_u64
  rdev ← get_u64
  size ← get_u64
  blksize ← get_u64
  blocks ← get_u64
  atime_sec ← get_u64
  atime_nsec ← get_u64
  mtime_sec ← get_u64
  mtime_nsec ← get_u64
  ctime_sec ← get_u64
  ctime_nsec ← get_u64
  btime_sec ← get_u64
  btime_nsec ← get_u64
  gen ← get_u64
  data_version ← get_u64
  pure (record {
    valid = valid;
    qid = qid;
    mode = mode;
    uid = uid;
    gid = gid;
    nlink = nlink;
    rdev = rdev;
    size = size;
    blksize = blksize;
    blocks = blocks;
    atime_sec = atime_sec;
    atime_nsec = atime_nsec;
    mtime_sec = mtime_sec;
    mtime_nsec = mtime_nsec;
    ctime_sec = ctime_sec;
    ctime_nsec = ctime_nsec;
    btime_sec = btime_sec;
    btime_nsec = btime_nsec;
    gen = gen;
    data_version = data_version;
  })

unfoldable pub parse_rgetattr : Get (Option NinePStat)
unfolding get_stat
parse_rgetattr = expect rgetattr do reset_read_offset; stat ← get_stat; pure (some stat)

unfoldable pub get_entry : Get DirEntry
get_entry = do
  qid ← get_qid
  offset ← get_u64
  type ← get_u8
  name ← get_string
  pure (record { qid = qid; offset = offset; type = type; name = name })

-- bytes_consumed += 13U + 8U + 1U + 2U + static_cast<std::uint32_t>(entry.name.size())
abbrev pub consumed_after : ℕ → DirEntry → ℕ
consumed_after consumed entry = (consumed + (24 + length entry.name % 2 ^ 32)) % 2 ^ 32

-- while (bytes_consumed < count), with fuel: `stuck` where the fuel ran out and the test holds.
unfoldable pub get_entries : ℕ → ℕ → ℕ → List DirEntry → Get (List DirEntry)
get_entries zero count consumed entries m = if ltb consumed count then stuck else ok (entries, m)
get_entries (suc fuel) count consumed entries m =
    let more : Result (List DirEntry × Message) =
      (get_entry >>= λ entry.
      get_entries fuel count (consumed_after consumed entry) (entries ++ entry ∷ []))
        m in
    if ltb consumed count then more else ok (entries, m)

-- A round adds 24 at least, so `count` rounds are enough where the sum does not wrap.
unfoldable pub parse_rreaddir : List DirEntry → Get (Option (List DirEntry))
unfolding get_entry get_entries
parse_rreaddir entries = expect rreaddir do
  reset_read_offset
  count ← get_u32
  entries' ← get_entries count count 0 entries
  pure (some entries')

unfoldable pub parse_rwrite : Get (Option ℕ)
parse_rwrite = expect rwrite do reset_read_offset; count ← get_u32; pure (some count)

unfoldable pub parse_rlcreate : Get (Option (Qid × ℕ))
parse_rlcreate =
    expect rlcreate do reset_read_offset; qid ← get_qid; iounit ← get_u32; pure (some (qid, iounit))

unfoldable pub parse_rmkdir : Get (Option Qid)
parse_rmkdir = expect rmkdir do reset_read_offset; qid ← get_qid; pure (some qid)

unfoldable pub parse_runlinkat : Message → Bool
parse_runlinkat m = get_type m == runlinkat

unfoldable pub parse_rrenameat : Message → Bool
parse_rrenameat m = get_type m == rrenameat
