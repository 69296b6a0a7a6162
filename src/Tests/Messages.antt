-- ===== src/Tests/Messages.antt =====
-- The fid pool and the messages at concrete inputs.
use qnx_unit_tests.Base.{
  suc, ◌+◌, ◌^◌, ◌≤◌, ◌<◌, List, [], ◌∷◌, ◌++◌, some, true, false, ◌≡◌, ◌≢◌, refl, arith, length,
  ok, fault, stuck, ◌==◌, if◌then◌else◌,
}
use qnx_unit_tests.Types.{DirEntry, no_fid}
use qnx_unit_tests.FidPool.{
  empty_pool, allocate, release, reset, is_allocated, size, run, allocates, releases, resets,
}
use qnx_unit_tests.FidPool.Fresh.{allocate_fresh, is_allocated_after}
use qnx_unit_tests.Message.{Message, from_bytes, get_bytes}
use qnx_unit_tests.Message.Refines.{get_bytes_fault}
use qnx_unit_tests.Message.Take.{take_bytes}
use qnx_unit_tests.Message.Build.{build_twalk, put_names}
use qnx_unit_tests.Message.{begin_message, end_message, put_u8, put_u16, put_u32, put_string}
use qnx_unit_tests.Message.Request
use qnx_unit_tests.Message.Request.{build, type_of, tag_of}
use qnx_unit_tests.Message.Server.{receive, receive-build}
use qnx_unit_tests.Message.Replies
use qnx_unit_tests.Message.Replies.{Parses, reply_message, parse-reply}
use qnx_unit_tests.Message.Expect.{answer}
use qnx_unit_tests.Message.Readers.{
  Reads, parse-Reads, take_rversion, take_some_qid, take_rwalk, take_qid_iounit, take_count,
  take_rgetattr,
}
use qnx_unit_tests.Message.Parse.{
  parse_rversion, parse_rattach, parse_rwalk, parse_rlopen, parse_rgetattr, parse_rwrite,
  parse_rlcreate, parse_rmkdir, parse_rread, parse_rreaddir, get_entries,
}
use qnx_unit_tests.Message.ReadDir.{counted, parse_rread_lem, entries_bytes}
use qnx_unit_tests.Message.Entries.{
  parse_rreaddir_entries, parse_rreaddir-ends, get_entries_endless,
}
use qnx_unit_tests.Tests.Server.{file_qid}

abbrev walk_request : Request.Request
walk_request = Request.walk 0 1 ((b'a' ∷ []) ∷ (b'b' ∷ b'c' ∷ []) ∷ [])

walk_runs :
    (build 5 walk_request).bytes
    ≡ 24 ∷ 0 ∷ 0 ∷ 0 ∷ 110 ∷ 5 ∷ 0 ∷ 0 ∷ 0 ∷ 0 ∷ 0 ∷ 1 ∷ 0 ∷ 0 ∷ 0 ∷ 2 ∷ 0 ∷ 1 ∷ 0 ∷ b'a' ∷ 2 ∷ 0
      ∷ b'b' ∷ b'c' ∷ []
unfolding build_twalk put_names begin_message end_message put_u8 put_u16 put_u32 put_string
walk_runs = refl

receive-build_example :
    receive (build 5 walk_request).bytes
    ≡ ((length (build 5 walk_request).bytes, type_of walk_request, 5, some walk_request), [])
receive-build_example =
    receive-build 5 walk_request (omega arith) (omega arith) (rw walk_runs (omega arith))

parse-reply_example :
    Parses (Replies.walk (file_qid ∷ [])) (reply_message 5 (Replies.walk (file_qid ∷ [])) (9 ∷ []))
parse-reply_example =
    parse-reply 5 (Replies.walk (file_qid ∷ [])) (9 ∷ []) (omega arith) (omega arith)

-- An Rversion that is cut behind its type.
abbrev cut : Message
cut = from_bytes (9 ∷ 0 ∷ 0 ∷ 0 ∷ 101 ∷ 0 ∷ 0 ∷ 7 ∷ 7 ∷ [])

parse-Reads_example :
    Reads 101 parse_rversion take_rversion cut
    × Reads 105 parse_rattach take_some_qid cut
    × Reads 111 (parse_rwalk []) (take_rwalk []) cut
    × Reads 13 parse_rlopen take_qid_iounit cut
    × Reads 25 parse_rgetattr take_rgetattr cut
    × Reads 119 parse_rwrite take_count cut
    × Reads 15 parse_rlcreate take_qid_iounit cut
    × Reads 73 parse_rmkdir take_some_qid cut
parse-Reads_example = parse-Reads cut [] (omega arith)

parse_rread_lem_example :
    (4294967290 + 11 < 2 ^ 32
      → answer (parse_rread (counted 117 0 4294967290 (1 ∷ 2 ∷ [])))
        ≡ ok (some (take_bytes 4294967290 (1 ∷ 2 ∷ [])).0))
    × (2 ^ 32 ≤ 4294967290 + 11
        → answer (parse_rread (counted 117 0 4294967290 (1 ∷ 2 ∷ []))) ≡ fault)
parse_rread_lem_example = parse_rread_lem 0 4294967290 (1 ∷ 2 ∷ []) (omega arith) (omega arith)

get_bytes_fault_example :
    (2 ^ 32 ≤ 7 + 4294967290 → get_bytes 4294967290 cut ≡ fault)
    × (7 + 4294967290 < 2 ^ 32 → get_bytes 4294967290 cut ≢ fault)
get_bytes_fault_example = get_bytes_fault cut 4294967290 (omega arith) (omega arith)

abbrev entry : DirEntry
entry = record { qid = file_qid; offset = 1; type = 8; name = b'a' ∷ [] }

parse_rreaddir_entries_example :
    answer (parse_rreaddir [] (counted 41 0 25 (entries_bytes (entry ∷ []) ++ (0 ∷ []))))
    ≡ ok (some (entry ∷ []))
parse_rreaddir_entries_example =
    parse_rreaddir_entries 0 (entry ∷ []) [] (0 ∷ []) (omega arith) (omega arith)

parse_rreaddir-ends_example :
    (es : List DirEntry) × (answer (parse_rreaddir [] (counted 41 0 1000 (1 ∷ 2 ∷ [])))
      ≡ ok (some es))
parse_rreaddir-ends_example = parse_rreaddir-ends 0 1000 (1 ∷ 2 ∷ []) [] (omega arith) (omega arith)

get_entries_endless_example :
    get_entries 9 4294967295 0 [] (record { bytes = 1 ∷ []; read_offset = 1 }) ≡ stuck
get_entries_endless_example =
    get_entries_endless 9 4294967295 0 [] (record { bytes = 1 ∷ []; read_offset = 1 }) (omega arith)
      refl (omega arith) refl (omega arith)

allocate_fresh_example :
    (is_allocated
        (run empty_pool (allocates ∷ releases 0 ∷ resets ∷ allocates ∷ []))
        (allocate (run empty_pool (allocates ∷ releases 0 ∷ resets ∷ allocates ∷ []))).0
      ≡ false)
    × ((allocate (run empty_pool (allocates ∷ releases 0 ∷ resets ∷ allocates ∷ []))).0 ≢ no_fid)
    × (size (allocate (run empty_pool (allocates ∷ releases 0 ∷ resets ∷ allocates ∷ []))).1
        ≡ suc (size (run empty_pool (allocates ∷ releases 0 ∷ resets ∷ allocates ∷ []))))
allocate_fresh_example =
    allocate_fresh (allocates ∷ releases 0 ∷ resets ∷ allocates ∷ []) (omega arith)

is_allocated_after_example :
    (is_allocated (release 3 (allocate empty_pool).1) 0
      ≡ (if 3 == 0 then false else is_allocated (allocate empty_pool).1 0))
    × (is_allocated (allocate (allocate empty_pool).1).1 0 ≡ (
        if (allocate (allocate empty_pool).1).0 == 0
        then true
        else is_allocated (allocate empty_pool).1 0))
    × (is_allocated (reset (allocate empty_pool).1) 0 ≡ false)
is_allocated_after_example = is_allocated_after (allocate empty_pool).1 3 0
