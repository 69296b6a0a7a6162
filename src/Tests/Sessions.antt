-- ===== src/Tests/Sessions.antt =====
-- The session at concrete inputs.
use qnx_unit_tests.Base.{ℕ, ◌+◌, List, [], ◌∷◌, ◌++◌, false, ◌≡◌, ◌≢◌, refl, arith, ok, true, ◌<◌}
use qnx_unit_tests.Types.{NinePStat}
use qnx_unit_tests.FidPool.{allocate, is_allocated}
use qnx_unit_tests.Message.Build.{build_tversion, build_tattach, build_twalk, put_names}
use qnx_unit_tests.Message.{
  begin_message, end_message, put_u8, put_u16, put_u32, put_string, reset_read_offset, get_string,
  get_qid,
}
use qnx_unit_tests.Message.Frame.{frame}
use qnx_unit_tests.Message.Bytes.{le32, u16_of, u32_of}
use qnx_unit_tests.Message.Parse.{is_rlerror, parse_rversion, parse_rattach}
use qnx_unit_tests.Session.Path.{bytes_eq}
use qnx_unit_tests.Transport.{Transport, neg32, is_negative}
use qnx_unit_tests.Session.{Session, initialize, reinitialize}
use qnx_unit_tests.Session.Ops.{
  walk, split, open_fid, get_attr, clunk, write, create, mkdir, unlink, rename, walk_parent,
}
use qnx_unit_tests.Session.Answers.{Answers, session-Answers}
use qnx_unit_tests.Session.Outcomes.{
  walking, walk_fid, walked, freed, walk_reply, walk_refused, walk_refused_positive,
}
use qnx_unit_tests.Session.Restart.{root_pool}
use qnx_unit_tests.Session.Resend.{walk_resent}
use qnx_unit_tests.Tests.Server.{flaky, flaky-IsBounded, posix, posix-IsErrno, file_qid}

-- An attached session, after `n` exchanges.
abbrev mounted : ℕ → Session ℕ
mounted n = record {
  device = n;
  fid_pool = root_pool;
  root_fid = 0;
  message_size = 65536;
  aname = [];
  reinitializing = false;
  next_tag = 1;
}

-- "/a"
abbrev path : List ℕ
path = b'/' ∷ b'a' ∷ []

walk_reply_example :
    walk flaky posix path (mounted 1)
    ≡ ok ((0, walk_fid flaky posix (mounted 1)), walked flaky posix 2 (mounted 1))
unfolding split build_twalk put_names begin_message end_message put_u8 put_u16 put_u32 put_string
walk_reply_example =
    walk_reply flaky posix path (mounted 1) 1 (file_qid ∷ []) [] 2 (omega arith) (omega arith)
      (omega arith) refl

-- A server that refuses every request with ENOENT.
abbrev refusing : Transport ℕ
refusing = record {
  initialize = λ n. (0, n);
  exchange = λ request n. (0, frame 7 1 (le32 2 ++ []), n + 1);
  get_mount_tag = λ n. (0, [], n);
  reset_device = λ n. (0, n);
  shutdown = λ n. n;
}

walk_refused_example :
    (walk refusing posix path (mounted 1)
      ≡ ok (
        (0xfffffffe, walk_fid refusing posix (mounted 1)),
        freed refusing posix
            (walk_fid refusing posix (mounted 1))
            (walked refusing posix 2 (mounted 1)),
      ))
    × (is_negative 0xfffffffe ≡ true)
walk_refused_example =
    walk_refused refusing posix path (mounted 1) 1 2 [] 2 (omega arith) (omega arith) (omega arith)
      refl

-- A server that answers every request by an Rlerror of the largest code.
abbrev hostile : Transport ℕ
hostile = record refusing { exchange = λ request n. (0, frame 7 1 (le32 0xffffffff ++ []), n + 1) }

walk_refused_positive_example :
    (walk hostile posix path (mounted 1)
      ≡ ok (
        (1, walk_fid hostile posix (mounted 1)),
        freed hostile posix
            (walk_fid hostile posix (mounted 1))
            (walked hostile posix 2 (mounted 1)),
      ))
    × (is_negative 1 ≡ false)
    × (0 < 1)
walk_refused_positive_example =
    walk_refused_positive hostile posix path (mounted 1) 1 0xffffffff [] 2 (omega arith)
      (omega arith) (omega arith) refl

-- The session after the re-initialization that the failed first exchange of a Walk makes.
abbrev restarted : Session ℕ
restarted = record (mounted 3) { next_tag = 1 }

restarted_runs :
    reinitialize flaky posix (record (walking flaky posix (mounted 0)) { device = 1 })
    ≡ ok (0, restarted)
unfolding reinitialize is_rlerror build_tversion end_message put_string put_u32 begin_message
    parse_rversion reset_read_offset get_string u16_of bytes_eq build_tattach parse_rattach get_qid
    u32_of
restarted_runs = refl

walk_resent_example :
    (walk flaky posix path (mounted 0)
      ≡ ok ((0, walk_fid flaky posix (mounted 0)), record restarted { device = 4 }))
    × (walk_fid flaky posix (mounted 0) ≢ 0
        → is_allocated restarted.fid_pool (walk_fid flaky posix (mounted 0)) ≡ false)
    × ((allocate restarted.fid_pool).0 ≡ 1)
unfolding split build_twalk put_names begin_message end_message put_u8 put_u16 put_u32 put_string
walk_resent_example =
    walk_resent flaky posix posix-IsErrno path (mounted 0) restarted (neg32 110) 1 (file_qid ∷ [])
      [] [] 1 4 refl (omega arith) (omega arith) refl (omega arith) refl (omega arith)
      restarted_runs refl

abbrev no_stat : NinePStat
no_stat = record {
  qid = file_qid;
  valid = 0;
  mode = 0;
  uid = 0;
  gid = 0;
  nlink = 0;
  rdev = 0;
  size = 0;
  blksize = 0;
  blocks = 0;
  atime_sec = 0;
  atime_nsec = 0;
  mtime_sec = 0;
  mtime_nsec = 0;
  ctime_sec = 0;
  ctime_nsec = 0;
  btime_sec = 0;
  btime_nsec = 0;
  gen = 0;
  data_version = 0;
}

session-Answers_example :
    Answers flaky posix flaky-IsBounded (initialize flaky posix [])
    × Answers flaky posix flaky-IsBounded (walk flaky posix path)
    × Answers flaky posix flaky-IsBounded (walk_parent flaky posix path 0)
    × Answers flaky posix flaky-IsBounded (open_fid flaky posix 1 2 0)
    × Answers flaky posix flaky-IsBounded (get_attr flaky posix 1 no_stat)
    × Answers flaky posix flaky-IsBounded (clunk flaky posix 1)
    × Answers flaky posix flaky-IsBounded (write flaky posix 1 4 [])
    × Answers flaky posix flaky-IsBounded (create flaky posix 1 [] 2 6 0 (file_qid, 0))
    × Answers flaky posix flaky-IsBounded (mkdir flaky posix 1 [] 6 0)
    × Answers flaky posix flaky-IsBounded (unlink flaky posix 1 [] 2)
    × Answers flaky posix flaky-IsBounded (rename flaky posix 1 [] 0 path)
session-Answers_example =
    session-Answers flaky posix flaky-IsBounded 1 0 2 6 4 0 [] path [] file_qid no_stat
