-- ===== src/Session/Writes.antt =====
-- A Write whose exchange succeeds.
use qnx_unit_tests.Base.{
  ℕ, ◌+◌, ◌%◌, ◌^◌, ◌≤◌, ◌<◌, List, ◌++◌, some, ◌≡◌, refl, ap, ◌∙◌, arith, length, ok,
}
use qnx_unit_tests.Message.{Message, new}
use qnx_unit_tests.Message.Build.{build_twrite}
use qnx_unit_tests.Message.Parse.{parse_rwrite}
use qnx_unit_tests.Message.Replies
use qnx_unit_tests.Message.Replies.{parse-reply, reply_message}
use qnx_unit_tests.Transport.{Transport, Errno}
use qnx_unit_tests.Session.{Session, code_of, next_tag}
use qnx_unit_tests.Session.Keeps.{parsed-answer}
use qnx_unit_tests.Session.Ops.{write, request}
use qnx_unit_tests.Session.Outcomes.{transact_first, is_rlerror_no}

module _ {S : Type 0} (t : Transport S) (e : Errno) where
  -- Where the first exchange succeeds and the server answers Twrite with an Rwrite of a count: Write
  -- returns the count, whatever was sent, and leaves the fid pool.
  pub write_reply :
      (fid offset : ℕ) (bs : List ℕ) (s : Session S) (tag n : ℕ) (rest : List ℕ) (device : S)
      → n < 2 ^ 32
      → length (reply_message tag (Replies.write n) rest).bytes ≤ 2 ^ 31
      → t.exchange (build_twrite s.next_tag fid offset bs).bytes s.device
        ≡ (0, (reply_message tag (Replies.write n) rest).bytes, device)
      → write t e fid offset bs s
        ≡ ok (n, record s { next_tag = (s.next_tag + 1) % 2 ^ 16; device = device })
  unfolding write request next_tag
  write_reply fid offset bs s tag n rest device hn hl h =
      let m : Message = reply_message tag (Replies.write n) rest in
      let s' : Session S = record s { next_tag = (s.next_tag + 1) % 2 ^ 16 } in
      let sent =
        transact_first t e (build_twrite s.next_tag fid offset bs) new s' m.bytes device h
        ∙ ap (λ r. code_of m r (record s' { device = device }))
            (is_rlerror_no 119 tag (Replies.payload (Replies.write n) ++ rest) (omega arith)) in
      rw
        (
          sent,
          parsed-answer (parse_rwrite m) (record s' { device = device }) (some n)
              (parse-reply tag (Replies.write n) rest hn hl),
        )
        refl
