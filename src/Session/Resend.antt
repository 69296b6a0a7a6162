-- ===== src/Session/Resend.antt =====
-- A Walk whose request is sent a second time, after a re-initialization.
use qnx_unit_tests.Base.{
  ℕ, suc, ◌≤◌, ◌<◌, ◌^◌, List, [], ◌++◌, true, false, ◌≡◌, ◌≢◌, refl, ap, ◌∙◌, arith, length,
  Result, ok, All, ◌!=◌, if◌then◌else◌,
}
use qnx_unit_tests.Types.{Qid}
use qnx_unit_tests.FidPool.{allocate, is_allocated}
use qnx_unit_tests.Message.{Message, new, from_bytes}
use qnx_unit_tests.Message.Parse.{is_rlerror}
use qnx_unit_tests.Message.Replies
use qnx_unit_tests.Message.Replies.{IsQid, parse-reply, reply_message}
use qnx_unit_tests.Transport.{Transport, Errno, IsErrno, neg32}
use qnx_unit_tests.Session.{
  Session, Act, pure, ◌>>=◌, continue, code_of, transact, reinitialize, attempts, max_retries,
}
use qnx_unit_tests.Session.Ops.{walk, split}
use qnx_unit_tests.Session.Outcomes.{
  walking, walk_request, walk_fid, walk-transact, after_walk_qids, is_rlerror_no, freed,
}
use qnx_unit_tests.Session.Restart.{reinitialize-root, root_pool}

forgotten : (fid : ℕ) → fid ≢ 0 → is_allocated root_pool fid ≡ false
unfolding is_allocated
forgotten fid h = ground arith

module _ {S : Type 0} (t : Transport S) (e : Errno) where
  -- What an attempt does with the result of its exchange.
  abbrev settle :
      Act S ℕ
      → ℕ
      → Message
      → Message
      → Session S
      → ℕ × List ℕ × S
      → Result ((ℕ × Message) × Session S)
  settle reinit n request response s (rc, bs, device) =
      let s' : Session S = record s { device = device } in
      let again : Act S (ℕ × Message) = attempts t e reinit n request response in
      let recover : Act S (ℕ × Message) =
        reinit >>= λ reinit_rc. if reinit_rc != 0 then pure (rc, response) else again in
      if rc != 0
      then (if s.reinitializing then ok ((rc, response), s') else recover s')
      else code_of (from_bytes bs) (is_rlerror (from_bytes bs)) s'

  attempts-settle :
      (reinit : Act S ℕ) (n : ℕ) (request response : Message) (s : Session S)
      → attempts t e reinit (suc n) request response s
        ≡ settle reinit n request response s (t.exchange request.bytes s.device)
  unfolding attempts
  attempts-settle reinit n request response s = refl

  settle_failed :
      (reinit : Act S ℕ) (n : ℕ) (request response : Message) (s s2 : Session S) (rc : ℕ)
      (bs : List ℕ) (device : S)
      → s.reinitializing ≡ false
      → rc ≢ 0
      → reinit (record s { device = device }) ≡ ok (0, s2)
      → settle reinit n request response s (rc, bs, device)
        ≡ attempts t e reinit n request response s2
  settle_failed reinit n request response s s2 rc bs device flag failed again =
      let bad : (rc != 0) ≡ true = ground arith in
      let s' : Session S = record s { device = device } in
      let stop : Result ((ℕ × Message) × Session S) = ok ((rc, response), s') in
      let next : ℕ → Act S (ℕ × Message) = λ (reinit_rc : ℕ).
        if reinit_rc != 0 then pure (rc, response) else attempts t e reinit n request response in
      rw bad (
        ap (λ b. if b then stop else continue (reinit s') next) flag
        ∙ ap (λ x. continue x next) again)

  transact-attempts :
      (request response : Message) (s : Session S)
      → transact t e request response s
        ≡ attempts t e (reinitialize t e) max_retries request response s
  unfolding transact reinitialize
  transact-attempts request response s = refl

  -- The first exchange fails, the session is re-initialized, and the second exchange succeeds: the
  -- request that is sent again is the same.
  transact_second :
      (request response : Message) (s s2 : Session S) (rc : ℕ) (bs1 bs2 : List ℕ) (d1 d2 : S)
      → s.reinitializing ≡ false
      → t.exchange request.bytes s.device ≡ (rc, bs1, d1)
      → rc ≢ 0
      → reinitialize t e (record s { device = d1 }) ≡ ok (0, s2)
      → t.exchange request.bytes s2.device ≡ (0, bs2, d2)
      → transact t e request response s
        ≡ code_of (from_bytes bs2) (is_rlerror (from_bytes bs2)) (record s2 { device = d2 })
  transact_second request response s s2 rc bs1 bs2 d1 d2 flag first failed again second =
      let reinit : Act S ℕ = reinitialize t e in
      transact-attempts request response s
      ∙ attempts-settle reinit 2 request response s
      ∙ ap (settle reinit 2 request response s) first
      ∙ settle_failed reinit 2 request response s s2 rc bs1 d1 flag failed again
      ∙ attempts-settle reinit 1 request response s2
      ∙ ap (settle reinit 1 request response s2) second

  -- Where the first exchange of a Walk fails, the session is re-initialized, and the second exchange
  -- brings an Rwalk with one qid for each name: Walk returns 0 and a fid that the pool does not hold
  -- (unless it is the fid 0, that of the root), and the next fid that the pool hands out is 1, so that
  -- a Walk that held the fid 1 shares it with the file that is opened next.
  pub walk_resent :
      (known : IsErrno e) (path : List ℕ) (s s2 : Session S) (rc tag : ℕ) (qs : List Qid)
      (bs1 rest : List ℕ) (d1 d2 : S)
      → s.reinitializing ≡ false
      → All IsQid qs
      → length qs < 2 ^ 16
      → length qs ≡ length (split path)
      → length (reply_message tag (Replies.walk qs) rest).bytes ≤ 2 ^ 31
      → t.exchange (walk_request t e path s).bytes s.device ≡ (rc, bs1, d1)
      → rc ≢ 0
      → reinitialize t e (record (walking t e s) { device = d1 }) ≡ ok (0, s2)
      → t.exchange (walk_request t e path s).bytes s2.device
        ≡ (0, (reply_message tag (Replies.walk qs) rest).bytes, d2)
      → (walk t e path s ≡ ok ((0, walk_fid t e s), record s2 { device = d2 }))
        × (walk_fid t e s ≢ 0 → is_allocated s2.fid_pool (walk_fid t e s) ≡ false)
        × ((allocate s2.fid_pool).0 ≡ 1)
  walk_resent known path s s2 rc tag qs bs1 rest d1 d2 flag hq hn same hl first failed again
        second =
      let m : Message = reply_message tag (Replies.walk qs) rest in
      let s3 : Session S = record s2 { device = d2 } in
      let pool = reinitialize-root t e known (record (walking t e s) { device = d1 }) s2 again in
      let sent =
        transact_second (walk_request t e path s) new (walking t e s) s2 rc bs1 m.bytes d1 d2 flag
          first failed again second
        ∙ ap (λ r. code_of m r s3)
            (is_rlerror_no 111 tag (Replies.payload (Replies.walk qs) ++ rest) (omega arith)) in
      let matched : (length qs != length (split path)) ≡ false = ground arith in
      let wrong : Result ((ℕ × ℕ) × Session S) =
        ok ((neg32 e.enoent, walk_fid t e s), freed t e (walk_fid t e s) s3) in
      let right : Result ((ℕ × ℕ) × Session S) = ok ((0, walk_fid t e s), s3) in
      (
        walk-transact t e path s s3 0 m sent
            ∙ after_walk_qids t e (length (split path)) (walk_fid t e s) m qs s3
                (parse-reply tag (Replies.walk qs) rest (hn, hq) hl [])
            ∙ rw matched,
        λ other. ap (λ p. is_allocated p (walk_fid t e s)) pool ∙ forgotten (walk_fid t e s) other,
        ap (λ p. (allocate p).0) pool ∙ unfold allocate in refl,
      )
