-- ===== src/Message/Readers.antt =====
-- The readers that the parsers of Message/Parse.antt stand for: on every message a parser answers
-- what its reader takes from the bytes behind the header.
use qnx_unit_tests.Base.{
  ℕ, ◌≤◌, ◌^◌, List, Option, none, some, ◌≡◌, ◌==◌, if◌then◌else◌, arith, length, drop, ok,
}
use qnx_unit_tests.Types.{Qid, NinePStat, header_size}
use qnx_unit_tests.Message
use qnx_unit_tests.Message.{Message, get_type}
use qnx_unit_tests.Message.Take.{
  Take, done, ◌>>=◌, take_u16, take_u32, take_u64, take_string, take_qid,
}
use qnx_unit_tests.Message.Parse.{
  parse_rversion, parse_rattach, parse_rwalk, parse_rlopen, parse_rgetattr, parse_rwrite,
  parse_rlcreate, parse_rmkdir, get_stat,
}
use qnx_unit_tests.Message.Refines.{Refines, getters}
use qnx_unit_tests.Message.Expect.{answer, expect-take, take_qids, get_qids-Refines}

unfoldable pub take_rversion : Take (Option (ℕ × List ℕ))
take_rversion = do max_size ← take_u32; version ← take_string; done (some (max_size, version))

unfoldable pub take_some_qid : Take (Option Qid)
take_some_qid = do qid ← take_qid; done (some qid)

unfoldable pub take_rwalk : List Qid → Take (Option (List Qid))
take_rwalk qids = do n ← take_u16; qids' ← take_qids n qids; done (some qids')

unfoldable pub take_qid_iounit : Take (Option (Qid × ℕ))
take_qid_iounit = do qid ← take_qid; iounit ← take_u32; done (some (qid, iounit))

unfoldable pub take_count : Take (Option ℕ)
take_count = do count ← take_u32; done (some count)

unfoldable pub take_stat : Take NinePStat
take_stat = do
  valid ← take_u64
  qid ← take_qid
  mode ← take_u32
  uid ← take_u32
  gid ← take_u32
  nlink ← take_u64
  rdev ← take_u64
  size ← take_u64
  blksize ← take_u64
  blocks ← take_u64
  atime_sec ← take_u64
  atime_nsec ← take_u64
  mtime_sec ← take_u64
  mtime_nsec ← take_u64
  ctime_sec ← take_u64
  ctime_nsec ← take_u64
  btime_sec ← take_u64
  btime_nsec ← take_u64
  gen ← take_u64
  data_version ← take_u64
  done (record {
    valid = valid;
    qid = qid;
    mode = mode;
    uid = uid;
    gid = gid;
    nlink = nlink;
    rdev = rdev;
    size = size;
    blksize = blksize;
    blocks = blocks;
    atime_sec = atime_sec;
    atime_nsec = atime_nsec;
    mtime_sec = mtime_sec;
    mtime_nsec = mtime_nsec;
    ctime_sec = ctime_sec;
    ctime_nsec = ctime_nsec;
    btime_sec = btime_sec;
    btime_nsec = btime_nsec;
    gen = gen;
    data_version = data_version;
  })

unfoldable pub take_rgetattr : Take (Option NinePStat)
take_rgetattr = do stat ← take_stat; done (some stat)

get_stat-Refines : Refines get_stat take_stat
unfolding get_stat take_stat
get_stat-Refines = search getters depth 60

-- What `p` answers on `m`, where `s` reads the payload of the given type.
abbrev pub Reads : {A : Type 0} → ℕ → Message.Get (Option A) → Take (Option A) → Message → Type 0
Reads type p s m =
    answer (p m) ≡ ok (if get_type m == type then (s (drop header_size m.bytes)).0 else none)

-- On every message of at most 2 GiB, well formed or not, each of these parsers reads only inside of
-- the buffer and answers: `false` exactly where the type byte is another (or the header is cut), and
-- else what its reader takes from the payload.
pub parse-Reads :
    (m : Message) (qids : List Qid)
    → length m.bytes ≤ 2 ^ 31
    → Reads 101 parse_rversion take_rversion m
      × Reads 105 parse_rattach take_some_qid m
      × Reads 111 (parse_rwalk qids) (take_rwalk qids) m
      × Reads 13 parse_rlopen take_qid_iounit m
      × Reads 25 parse_rgetattr take_rgetattr m
      × Reads 119 parse_rwrite take_count m
      × Reads 15 parse_rlcreate take_qid_iounit m
      × Reads 73 parse_rmkdir take_some_qid m
unfolding parse_rversion parse_rattach parse_rwalk parse_rlopen parse_rgetattr parse_rwrite
    parse_rlcreate parse_rmkdir take_rversion take_some_qid take_rwalk take_qid_iounit take_count
    take_rgetattr
parse-Reads m qids h = (
  expect-take {s = take_rversion} 101 m (omega arith) (search getters) h,
  expect-take {s = take_some_qid} 105 m (omega arith) (search getters) h,
  expect-take {s = take_rwalk qids} 111 m (omega arith) (search (getters, get_qids-Refines)) h,
  expect-take {s = take_qid_iounit} 13 m (omega arith) (search getters) h,
  expect-take {s = take_rgetattr} 25 m (omega arith) (search (getters, get_stat-Refines)) h,
  expect-take {s = take_count} 119 m (omega arith) (search getters) h,
  expect-take {s = take_qid_iounit} 15 m (omega arith) (search getters) h,
  expect-take {s = take_some_qid} 73 m (omega arith) (search getters) h,
)
