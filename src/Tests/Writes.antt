-- ===== src/Tests/Writes.antt =====
-- Reads and writes at concrete inputs.
use qnx_unit_tests.Base.{
  ℕ, zero, suc, ◌+◌, ◌-◌, ◌%◌, ◌^◌, ◌≤◌, ◌<◌, List, [], ◌∷◌, ◌++◌, Option, some, true, false, ◌≡◌,
  refl, ap, arith, length, ok, stuck, take, drop, inl,
}
use qnx_unit_tests.Types.{DirEntry}
use qnx_unit_tests.Message.Build.{build_twrite}
use qnx_unit_tests.Message.Request.{Request, build-frame}
use qnx_unit_tests.Message.Server.{receive, receive-build}
use qnx_unit_tests.Message.Replies
use qnx_unit_tests.Message.Replies.{reply_message}
use qnx_unit_tests.Transport.{Transport}
use qnx_unit_tests.Session
use qnx_unit_tests.Session.{Session}
use qnx_unit_tests.Session.Ops.{write, read_dir}
use qnx_unit_tests.Session.Writes.{write_reply}
use qnx_unit_tests.Resmgr.{Virtio9pOcb}
use qnx_unit_tests.Resmgr.Write.{
  WriteMsg, Sizes, brought, plain, write_action, write_loop, inline_bytes,
}
use qnx_unit_tests.Resmgr.Chunks.{Delivers, Accepts}
use qnx_unit_tests.Resmgr.Sent.{Written, write_action_lem, write_loop_endless}
use qnx_unit_tests.Message.ReadDir.{counted, entries_bytes}
use qnx_unit_tests.Resmgr.Read.{nothing, read_listing}
use qnx_unit_tests.Resmgr.Listing.{Fits, listed, read_listing_lem, read_listing_hidden}
use qnx_unit_tests.Message.Bytes.{u16_of, u32_of, u64_of}
use qnx_unit_tests.Message.{reset_read_offset, get_qid, get_string}
use qnx_unit_tests.Message.Parse.{is_rlerror, parse_rreaddir}
use qnx_unit_tests.Tests.Server.{posix, file_qid}

-- What a server has been sent: the offset and the bytes of each Twrite.
abbrev Log : Type 0
Log = List (ℕ × List ℕ)

abbrev entry : Option Request → Log
entry (some (Request.write fid at bs)) = (at, bs) ∷ []
entry _ = []

abbrev size_of : Option Request → ℕ
size_of (some (Request.write fid at bs)) = length bs
size_of _ = 0

-- A server that takes every write whole.
abbrev recording : Transport Log
recording = record {
  initialize = λ log. (0, log);
  exchange = λ request log. (
    0,
    (reply_message 1 (Replies.write (size_of (receive request).0.3)) []).bytes,
    log ++ entry (receive request).0.3,
  );
  get_mount_tag = λ log. (0, [], log);
  reset_device = λ log. (0, log);
  shutdown = λ log. log;
}

abbrev Ready : Session Log → Type 0
Ready s = s.next_tag < 2 ^ 16

request_fits :
    (tag fid at : ℕ) (bs : List ℕ)
    → length bs < 2 ^ 31
    → length (build_twrite tag fid at bs).bytes < 2 ^ 32
request_fits tag fid at bs h = omega (arith, ap length (build-frame tag (Request.write fid at bs)))

recording-Accepts :
    (bound fid : ℕ)
    → bound < 2 ^ 31
    → fid < 2 ^ 32
    → Accepts bound (write recording posix fid) Ready (λ s. s.device)
recording-Accepts bound fid hb hf = record {
  run = λ at bs s ready ha hl.
      let seen =
        receive-build s.next_tag (Request.write fid at bs) ready (hf, ha, omega arith)
          (request_fits s.next_tag fid at bs (omega arith)) in
      let answered =
        ap (λ r. (0, (reply_message 1 (Replies.write (size_of r)) []).bytes, s.device ++ entry r))
          (ap (λ x. x.0.3) seen) in
      (
        record s { next_tag = (s.next_tag + 1) % 2 ^ 16; device = s.device ++ (at, bs) ∷ [] },
        write_reply recording posix fid at bs s 1 (length bs) [] (s.device ++ (at, bs) ∷ [])
            (omega arith) (omega arith) answered,
        refl,
        omega arith,
      );
}

-- A client's five bytes, of which two are in the receive buffer.
abbrev content : List ℕ
content = b'h' ∷ b'e' ∷ b'l' ∷ b'l' ∷ b'o' ∷ []

abbrev sizes : Sizes
sizes = record { io_write = 16; xtype_offset = 8 }

abbrev hello : WriteMsg
hello = record {
  nbytes = 5;
  xtype = plain;
  ctp_offset = 0;
  msglen = 18;
  received = b'h' ∷ b'e' ∷ [];
  msgread = λ k o. brought (take k (drop (o - 16) content));
}

-- A file opened with an I/O unit of three bytes.
abbrev open_file : Virtio9pOcb
open_file = record {
  fid = 1;
  offset = 100;
  iounit = 3;
  is_directory = false;
  open_flags = 1;
  file_mode = 0x81a4;
  file_nbytes = 100;
}

hello-front : (n k : ℕ) → n + k ≤ 2 → take k (drop n (b'h' ∷ b'e' ∷ [])) ≡ take k (drop n content)
hello-front zero zero h = refl
hello-front zero (suc zero) h = refl
hello-front zero (suc (suc zero)) h = refl
hello-front zero (suc (suc (suc k))) h = absurd (omega arith)
hello-front (suc zero) zero h = refl
hello-front (suc zero) (suc zero) h = refl
hello-front (suc zero) (suc (suc k)) h = absurd (omega arith)
hello-front (suc (suc n)) zero h = refl
hello-front (suc (suc n)) (suc k) h = absurd (omega arith)

hello-Delivers : Delivers sizes hello content
unfolding inline_bytes
hello-Delivers = record {
  whole = refl;
  small = omega arith;
  buffered = omega arith;
  front = hello-front;
  rest = λ n k h. ap (λ m. brought (take k (drop m content))) (omega arith);
}

abbrev started : Session Log
started = Session.init []

write_action_lem_example :
    Written recording posix sizes hello open_file content Ready
      (λ s. s.device)
      3
      100
      105
      started
      (write_action recording posix sizes 6 0 hello open_file)
write_action_lem_example =
    write_action_lem recording posix sizes hello open_file content Ready (λ s. s.device) 5 3 100 105
      started (inl (refl, refl, refl)) (inl (omega arith, refl)) (omega arith) (omega arith)
      hello-Delivers (recording-Accepts 3 1 (omega arith) (omega arith)) (omega arith) (omega arith)

-- A client that announces nine bytes and sends the two in the buffer.
abbrev short : WriteMsg
short = record hello { nbytes = 9; msgread = λ k o. brought [] }

write_loop_endless_example :
    write_loop sizes short 3 (λ at bs s. ok (length bs, s)) 50 0 2 started ≡ stuck
unfolding inline_bytes
write_loop_endless_example =
    write_loop_endless sizes short 3 (λ at bs s. ok (length bs, s)) 50 0 2 started (omega arith)
      (omega arith) (omega arith) (λ k. refl) (λ at s. (s, refl))

-- A directory of two entries, whose reads always bring both.
abbrev file_a : DirEntry
file_a = record { qid = file_qid; offset = 1; type = 8; name = b'a' ∷ [] }

abbrev file_b : DirEntry
file_b = record { qid = file_qid; offset = 2; type = 8; name = b'b' ∷ b'c' ∷ [] }

abbrev directory : Transport ℕ
directory = record {
  initialize = λ n. (0, n);
  exchange =
      λ request n. (0, (counted 41 1 51 (entries_bytes (file_a ∷ file_b ∷ []))).bytes, n + 1);
  get_mount_tag = λ n. (0, [], n);
  reset_device = λ n. (0, n);
  shutdown = λ n. n;
}

abbrev open_directory : Virtio9pOcb
open_directory = record open_file { offset = 0; is_directory = true }

directory_runs :
    (nbytes : ℕ)
    → read_dir directory posix 1 0 nbytes [] (Session.init 0)
      ≡ ok ((0, file_a ∷ file_b ∷ []), record (Session.init 0) { device = 1; next_tag = 1 })
unfolding read_dir is_rlerror parse_rreaddir reset_read_offset u32_of get_qid get_string u16_of
    u64_of
directory_runs nbytes = refl

read_listing_lem_example :
    (kept : List DirEntry) × Fits 24 40 0 (file_a ∷ file_b ∷ []) kept
    × (read_listing 24 directory posix 40 open_directory (Session.init 0)
        ≡ ok (listed 24 open_directory kept, record (Session.init 0) { device = 1; next_tag = 1 }))
read_listing_lem_example =
    read_listing_lem 24 directory posix 40 open_directory (Session.init 0)
      (record (Session.init 0) { device = 1; next_tag = 1 }) (file_a ∷ file_b ∷ [])
      (directory_runs 40)

read_listing_hidden_example :
    read_listing 24 directory posix 31 open_directory (Session.init 0)
    ≡ ok ((nothing, open_directory), record (Session.init 0) { device = 1; next_tag = 1 })
read_listing_hidden_example =
    read_listing_hidden 24 directory posix 31 open_directory (Session.init 0)
      (record (Session.init 0) { device = 1; next_tag = 1 }) file_a (file_b ∷ [])
      (directory_runs 31) (omega arith)
