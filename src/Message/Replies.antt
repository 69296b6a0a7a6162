-- ===== src/Message/Replies.antt =====
-- The responses of a server, field by field, and that the parsers read them back.
use qnx_unit_tests.Base.{
  ℕ, ◌≤◌, ◌<◌, ◌^◌, List, [], ◌∷◌, ◌++◌, Option, some, ◌≡◌, ◌∙◌, arith, ◌==◌, true, length, ok, All,
  append_assoc, append-nil,
}
use qnx_unit_tests.Types.{Qid, NinePStat}
use qnx_unit_tests.Message
use qnx_unit_tests.Message.{Message, from_bytes, get_type}
use qnx_unit_tests.Message.Bytes.{le16, le32}
use qnx_unit_tests.Message.Take.{Take, take_u8, take_qid}
use qnx_unit_tests.Message.Frame.{
  frame, le64, string, take_u16-le16, take_u32-le32, take_u64-le64, take_string_lem,
}
use qnx_unit_tests.Message.Parse.{
  parse_rversion, parse_rattach, parse_rwalk, parse_rlopen, parse_rgetattr, parse_rwrite,
  parse_rlcreate, parse_rmkdir,
}
use qnx_unit_tests.Message.Expect.{answer, get_type-frame, take_qids}
use qnx_unit_tests.Message.Readers.{
  Reads, parse-Reads, take_rversion, take_some_qid, take_rwalk, take_qid_iounit, take_count,
  take_stat, take_rgetattr,
}

abbrev pub qid_bytes : Qid → List ℕ
qid_bytes q = q.type ∷ (le32 q.version ++ le64 q.path)

abbrev pub qids_bytes : List Qid → List ℕ
qids_bytes [] = []
qids_bytes (q ∷ qs) = qid_bytes q ++ qids_bytes qs

-- The type of a Qid is a byte; it is not changed on the wire.
abbrev pub IsQid : Qid → Type 0
IsQid q = (q.version < 2 ^ 32) × (q.path < 2 ^ 64)

abbrev pub stat_bytes : NinePStat → List ℕ
stat_bytes s =
    le64 s.valid
    ++ (qid_bytes s.qid
        ++ (le32 s.mode
            ++ (le32 s.uid
                ++ (le32 s.gid
                    ++ (le64 s.nlink
                        ++ (le64 s.rdev
                            ++ (le64 s.size
                                ++ (le64 s.blksize
                                    ++ (le64 s.blocks
                                        ++ (le64 s.atime_sec
                                            ++ (le64 s.atime_nsec
                                                ++ (le64 s.mtime_sec
                                                    ++ (le64 s.mtime_nsec
                                                        ++ (le64 s.ctime_sec
                                                            ++ (le64 s.ctime_nsec
                                                            ++ (le64 s.btime_sec
                                                            ++ (le64 s.btime_nsec
                                                            ++ (le64 s.gen
                                                            ++ (le64
                                                            s.data_version)))))))))))))))))))

pub record IsStat (s : NinePStat) : Type 0 where
  pub valid_fits : s.valid < 2 ^ 64
  pub qid_fits : IsQid s.qid
  pub mode_fits : s.mode < 2 ^ 32
  pub uid_fits : s.uid < 2 ^ 32
  pub gid_fits : s.gid < 2 ^ 32
  pub nlink_fits : s.nlink < 2 ^ 64
  pub rdev_fits : s.rdev < 2 ^ 64
  pub size_fits : s.size < 2 ^ 64
  pub blksize_fits : s.blksize < 2 ^ 64
  pub blocks_fits : s.blocks < 2 ^ 64
  pub atime_sec_fits : s.atime_sec < 2 ^ 64
  pub atime_nsec_fits : s.atime_nsec < 2 ^ 64
  pub mtime_sec_fits : s.mtime_sec < 2 ^ 64
  pub mtime_nsec_fits : s.mtime_nsec < 2 ^ 64
  pub ctime_sec_fits : s.ctime_sec < 2 ^ 64
  pub ctime_nsec_fits : s.ctime_nsec < 2 ^ 64
  pub btime_sec_fits : s.btime_sec < 2 ^ 64
  pub btime_nsec_fits : s.btime_nsec < 2 ^ 64
  pub gen_fits : s.gen < 2 ^ 64
  pub data_version_fits : s.data_version < 2 ^ 64

pub take_qid_lem : (rest : List ℕ) (q : Qid) → IsQid q → take_qid (qid_bytes q ++ rest) ≡ (q, rest)
unfolding take_qid take_u8
take_qid_lem rest q h =
    rw (take_u32-le32 (le64 q.path ++ rest) q.version h.0, take_u64-le64 rest q.path h.1)

take_qids_lem :
    (rest : List ℕ) (qs acc : List Qid)
    → All IsQid qs
    → take_qids (length qs) acc (qids_bytes qs ++ rest) ≡ (acc ++ qs, rest)
unfolding take_qids
take_qids_lem rest [] acc h = rw append-nil
take_qids_lem rest (q ∷ qs) acc h = rw (
  take_qid_lem (qids_bytes qs ++ rest) q h.0,
  take_qids_lem rest qs (acc ++ q ∷ []) h.1,
  append_assoc acc (q ∷ []) qs,
)

take_stat_lem :
    (rest : List ℕ) (s : NinePStat) → IsStat s → take_stat (stat_bytes s ++ rest) ≡ (s, rest)
unfolding take_stat
take_stat_lem rest s h = rw (
  take_u64-le64 _ s.valid h.valid_fits,
  take_qid_lem _ s.qid h.qid_fits,
  take_u32-le32 _ s.mode h.mode_fits,
  take_u32-le32 _ s.uid h.uid_fits,
  take_u32-le32 _ s.gid h.gid_fits,
  take_u64-le64 _ s.nlink h.nlink_fits,
  take_u64-le64 _ s.rdev h.rdev_fits,
  take_u64-le64 _ s.size h.size_fits,
  take_u64-le64 _ s.blksize h.blksize_fits,
  take_u64-le64 _ s.blocks h.blocks_fits,
  take_u64-le64 _ s.atime_sec h.atime_sec_fits,
  take_u64-le64 _ s.atime_nsec h.atime_nsec_fits,
  take_u64-le64 _ s.mtime_sec h.mtime_sec_fits,
  take_u64-le64 _ s.mtime_nsec h.mtime_nsec_fits,
  take_u64-le64 _ s.ctime_sec h.ctime_sec_fits,
  take_u64-le64 _ s.ctime_nsec h.ctime_nsec_fits,
  take_u64-le64 _ s.btime_sec h.btime_sec_fits,
  take_u64-le64 _ s.btime_nsec h.btime_nsec_fits,
  take_u64-le64 _ s.gen h.gen_fits,
  take_u64-le64 _ s.data_version h.data_version_fits,
)

-- A response by its fields.
pub data Reply : Type 0 where
  version : ℕ → List ℕ → Reply
  attach mkdir : Qid → Reply
  walk : List Qid → Reply
  lopen lcreate : Qid → ℕ → Reply
  getattr : NinePStat → Reply
  write : ℕ → Reply

abbrev pub IsValid : Reply → Type 0
IsValid (version n v) = (n < 2 ^ 32) × (length v < 2 ^ 16)
IsValid (attach q) = IsQid q
IsValid (mkdir q) = IsQid q
IsValid (walk qs) = (length qs < 2 ^ 16) × All IsQid qs
IsValid (lopen q n) = IsQid q × (n < 2 ^ 32)
IsValid (lcreate q n) = IsQid q × (n < 2 ^ 32)
IsValid (getattr s) = IsStat s
IsValid (write n) = n < 2 ^ 32

abbrev pub payload : Reply → List ℕ
payload (version n v) = le32 n ++ string v
payload (attach q) = qid_bytes q
payload (mkdir q) = qid_bytes q
payload (walk qs) = le16 (length qs) ++ qids_bytes qs
payload (lopen q n) = qid_bytes q ++ le32 n
payload (lcreate q n) = qid_bytes q ++ le32 n
payload (getattr s) = stat_bytes s
payload (write n) = le32 n

abbrev pub type_of : Reply → ℕ
type_of (version n v) = 101
type_of (attach q) = 105
type_of (mkdir q) = 73
type_of (walk qs) = 111
type_of (lopen q n) = 13
type_of (lcreate q n) = 15
type_of (getattr s) = 25
type_of (write n) = 119

-- The parser of the response's type answers the response's fields on the message `m`.
abbrev pub Parses : Reply → Message → Type 0
Parses (version n v) m = answer (parse_rversion m) ≡ ok (some (n, v))
Parses (attach q) m = answer (parse_rattach m) ≡ ok (some q)
Parses (mkdir q) m = answer (parse_rmkdir m) ≡ ok (some q)
Parses (walk qs) m = (acc : List Qid) → answer (parse_rwalk acc m) ≡ ok (some (acc ++ qs))
Parses (lopen q n) m = answer (parse_rlopen m) ≡ ok (some (q, n))
Parses (lcreate q n) m = answer (parse_rlcreate m) ≡ ok (some (q, n))
Parses (getattr s) m = answer (parse_rgetattr m) ≡ ok (some s)
Parses (write n) m = answer (parse_rwrite m) ≡ ok (some n)

-- A response on the wire, with whatever follows its fields.
abbrev pub reply_message : ℕ → Reply → List ℕ → Message
reply_message tag r rest = from_bytes (frame (type_of r) tag (payload r ++ rest))

eq_self : (t : ℕ) → (t == t) ≡ true
eq_self t = ground arith

Reads-frame :
    {A : Type 0} (t tag : ℕ) (pl : List ℕ) (p : Message.Get (Option A)) (s : Take (Option A))
    (v : A)
    → Reads t p s (from_bytes (frame t tag pl))
    → (s pl).0 ≡ some v
    → answer (p (from_bytes (frame t tag pl))) ≡ ok (some v)
Reads-frame t tag pl p s v h e = h ∙ rw (get_type-frame t tag pl, eq_self t, e)

-- For every response with fields of the C++ types, and whatever bytes follow them in a message of at
-- most 2 GiB, the parser of its type answers `true` and exactly its fields; the parser of Rwalk
-- appends the qids to the vector that it is given.
pub parse-reply :
    (tag : ℕ) (r : Reply) (rest : List ℕ)
    → IsValid r
    → length (reply_message tag r rest).bytes ≤ 2 ^ 31
    → Parses r (reply_message tag r rest)
unfolding take_rversion take_some_qid take_rwalk take_qid_iounit take_count take_rgetattr
parse-reply tag (version n v) rest h b =
    Reads-frame 101 tag (payload (version n v) ++ rest) parse_rversion take_rversion (n, v)
      (parse-Reads _ [] b).0
      (rw (take_u32-le32 (string v ++ rest) n h.0, take_string_lem rest v h.1))
parse-reply tag (attach q) rest h b =
    Reads-frame 105 tag (payload (attach q) ++ rest) parse_rattach take_some_qid q
      (parse-Reads _ [] b).1 (rw (take_qid_lem rest q h))
parse-reply tag (mkdir q) rest h b =
    Reads-frame 73 tag (payload (mkdir q) ++ rest) parse_rmkdir take_some_qid q
      (parse-Reads _ [] b).7 (rw (take_qid_lem rest q h))
parse-reply tag (walk qs) rest h b = λ acc.
    Reads-frame 111 tag (payload (walk qs) ++ rest) (parse_rwalk acc) (take_rwalk acc) (acc ++ qs)
      (parse-Reads _ acc b).2
      (rw (take_u16-le16 (qids_bytes qs ++ rest) (length qs) h.0, take_qids_lem rest qs acc h.1))
parse-reply tag (lopen q n) rest h b =
    Reads-frame 13 tag (payload (lopen q n) ++ rest) parse_rlopen take_qid_iounit (q, n)
      (parse-Reads _ [] b).3 (rw (take_qid_lem (le32 n ++ rest) q h.0, take_u32-le32 rest n h.1))
parse-reply tag (lcreate q n) rest h b =
    Reads-frame 15 tag (payload (lcreate q n) ++ rest) parse_rlcreate take_qid_iounit (q, n)
      (parse-Reads _ [] b).6 (rw (take_qid_lem (le32 n ++ rest) q h.0, take_u32-le32 rest n h.1))
parse-reply tag (getattr s) rest h b =
    Reads-frame 25 tag (payload (getattr s) ++ rest) parse_rgetattr take_rgetattr s
      (parse-Reads _ [] b).4 (rw (take_stat_lem rest s h))
parse-reply tag (write n) rest h b =
    Reads-frame 119 tag (payload (write n) ++ rest) parse_rwrite take_count n (parse-Reads _ [] b).5
      (rw (take_u32-le32 rest n h))
