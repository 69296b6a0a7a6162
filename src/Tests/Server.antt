-- ===== src/Tests/Server.antt =====
-- A server of one file behind a transport whose first exchange fails; its state counts the exchanges.
use qnx_unit_tests.Base.{
  ℕ, ◌+◌, ◌^◌, ◌≤◌, List, [], ◌∷◌, arith, length, get_or, ◌==◌, if◌then◌else◌,
}
use qnx_unit_tests.Types.{Qid, protocol_version}
use qnx_unit_tests.Message.Frame.{frame}
use qnx_unit_tests.Message.Bytes.{le32}
use qnx_unit_tests.Message.Replies
use qnx_unit_tests.Transport.{Transport, Errno, IsErrno, neg32}
use qnx_unit_tests.Session.Keeps.{IsBounded}

abbrev pub root_qid : Qid
root_qid = record { type = 128; version = 0; path = 2 }

abbrev pub file_qid : Qid
file_qid = record { type = 0; version = 3; path = 77 }

-- The answer to a request of the given type.
abbrev pub serve : ℕ → List ℕ
serve type =
    if type == 100
    then frame 101 0xffff (Replies.payload (Replies.version 65536 protocol_version))
    else if type == 104
    then frame 105 0 (Replies.payload (Replies.attach root_qid))
    else if type == 110
    then frame 111 1 (Replies.payload (Replies.walk (file_qid ∷ [])))
    else frame 7 0 (le32 5)

abbrev pub flaky : Transport ℕ
flaky = record {
  initialize = λ n. (0, n);
  exchange = λ request n.
      (if n == 0 then neg32 110 else 0, if n == 0 then [] else serve (get_or request 4 0), n + 1);
  get_mount_tag = λ n. (0, [], n);
  reset_device = λ n. (0, n);
  shutdown = λ n. n;
}

flaky_small : (request : List ℕ) (n : ℕ) → length (flaky.exchange request n).1 ≤ 2 ^ 31
flaky_small request n = ground arith

pub flaky-IsBounded : IsBounded flaky
flaky-IsBounded = record { small = flaky_small }

abbrev pub posix : Errno
posix = record {
  enoent = 2;
  eio = 5;
  enomem = 12;
  einval = 22;
  enospc = 28;
  enotsup = 48;
  enosys = 89;
  enodev = 19;
}

pub posix-IsErrno : IsErrno posix
posix-IsErrno = omega arith
