-- ===== src/Session/Outcomes.antt =====
-- What Transact and Walk do with the answer of an exchange that succeeds.
use qnx_unit_tests.Base.{
  ℕ, ◌+◌, ◌-◌, ◌%◌, ◌^◌, ◌≤◌, ◌<◌, List, [], ◌++◌, none, some, true, false, ◌≡◌, ◌≢◌, ap, ◌∙◌,
  arith, length, ok, All, ◌!=◌, if◌then◌else◌,
}
use qnx_unit_tests.Types.{Qid}
use qnx_unit_tests.FidPool.{allocate, release}
use qnx_unit_tests.Message.{Message, new, from_bytes}
use qnx_unit_tests.Message.Bytes.{le32}
use qnx_unit_tests.Message.Frame.{frame, take_u32-le32}
use qnx_unit_tests.Message.Build.{build_twalk}
use qnx_unit_tests.Message.Parse.{is_rlerror, parse_rwalk}
use qnx_unit_tests.Message.Refines.{get_u32-Refines}
use qnx_unit_tests.Message.Expect.{answer, get_type-frame, frame-IsSafe}
use qnx_unit_tests.Message.Replies.{IsQid, parse-reply, reply_message}
use qnx_unit_tests.Message.Replies
use qnx_unit_tests.Transport.{Transport, Errno, neg32, is_negative}
use qnx_unit_tests.Session.{Session, continue, code_of, transact}
use qnx_unit_tests.Session.Keeps.{parsed-answer}
use qnx_unit_tests.Session.Ops.{walk, after_walk, split}

pub is_rlerror_no :
    (type tag : ℕ) (p : List ℕ) → type ≢ 7 → is_rlerror (from_bytes (frame type tag p)) ≡ ok none
unfolding is_rlerror
is_rlerror_no type tag p h = rw (get_type-frame type tag p) (ground arith)

is_rlerror_yes :
    (tag code : ℕ) (rest : List ℕ)
    → code < 2 ^ 32
    → length (frame 7 tag (le32 code ++ rest)) ≤ 2 ^ 31
    → is_rlerror (from_bytes (frame 7 tag (le32 code ++ rest))) ≡ ok (some code)
unfolding is_rlerror
is_rlerror_yes tag code rest h hl =
    let m : Message = from_bytes (frame 7 tag (le32 code ++ rest)) in
    let (r, run, _, _, _) = get_u32-Refines.run m (frame-IsSafe 7 tag (le32 code ++ rest) hl) in
    rw (get_type-frame 7 tag (le32 code ++ rest), run, take_u32-le32 rest code h)

module _ {S : Type 0} (t : Transport S) (e : Errno) where
  -- The first exchange succeeds: there is no second one.
  pub transact_first :
      (request response : Message) (s : Session S) (bs : List ℕ) (device : S)
      → t.exchange request.bytes s.device ≡ (0, bs, device)
      → transact t e request response s
        ≡ code_of (from_bytes bs) (is_rlerror (from_bytes bs)) (record s { device = device })
  unfolding transact
  transact_first request response s bs device h = rw h

  -- The session when Walk calls Transact, and the request.
  abbrev pub walking : Session S → Session S
  walking s = record s { fid_pool = (allocate s.fid_pool).1; next_tag = (s.next_tag + 1) % 2 ^ 16 }

  abbrev pub walk_fid : Session S → ℕ
  walk_fid s = (allocate s.fid_pool).0

  abbrev pub walk_request : List ℕ → Session S → Message
  walk_request path s = build_twalk s.next_tag s.root_fid (walk_fid s) (split path)

  -- The session `s` with the fid released.
  abbrev pub freed : ℕ → Session S → Session S
  freed fid s = record s { fid_pool = release fid s.fid_pool }

  pub walk-transact :
      (path : List ℕ) (s s' : Session S) (rc : ℕ) (m : Message)
      → transact t e (walk_request path s) new (walking s) ≡ ok ((rc, m), s')
      → walk t e path s ≡ after_walk t e (length (split path)) (walk_fid s) (rc, m) s'
  unfolding walk
  walk-transact path s s' rc m h =
      ap (λ x. continue x (after_walk t e (length (split path)) (walk_fid s))) h

  pub after_walk_qids :
      (names fid : ℕ) (m : Message) (qs : List Qid) (s : Session S)
      → answer (parse_rwalk [] m) ≡ ok (some qs)
      → after_walk t e names fid (0, m) s
        ≡ ok (if length qs != names then ((neg32 e.enoent, fid), freed fid s) else ((0, fid), s))
  unfolding after_walk
  after_walk_qids names fid m qs s h =
      rw (parsed-answer (parse_rwalk [] m) s (some qs) h) (ground arith)

  pub after_walk_failed :
      (names fid rc : ℕ) (m : Message) (s : Session S)
      → rc ≢ 0
      → after_walk t e names fid (rc, m) s ≡ ok ((rc, fid), freed fid s)
  unfolding after_walk
  after_walk_failed names fid rc m s h = let failed : (rc != 0) ≡ true = ground arith in rw failed

  -- The session after a Walk whose exchange left the transport in `device`.
  abbrev pub walked : S → Session S → Session S
  walked device s = record (walking s) { device = device }

  -- Where the first exchange succeeds and the server answers Twalk with an Rwalk of some qids: Walk
  -- returns 0 and keeps the new fid if there is one qid for each name of the path, and else returns
  -- -ENOENT and has released the fid. It sends one request.
  pub walk_reply :
      (path : List ℕ) (s : Session S) (tag : ℕ) (qs : List Qid) (rest : List ℕ) (device : S)
      → All IsQid qs
      → length qs < 2 ^ 16
      → length (reply_message tag (Replies.walk qs) rest).bytes ≤ 2 ^ 31
      → t.exchange (walk_request path s).bytes s.device
        ≡ (0, (reply_message tag (Replies.walk qs) rest).bytes, device)
      → walk t e path s
        ≡ ok (
            if length qs != length (split path)
            then ((neg32 e.enoent, walk_fid s), freed (walk_fid s) (walked device s))
            else ((0, walk_fid s), walked device s))
  walk_reply path s tag qs rest device hq hn hl h =
      let m : Message = reply_message tag (Replies.walk qs) rest in
      let sent =
        transact_first (walk_request path s) new (walking s) m.bytes device h
        ∙ ap (λ r. code_of m r (walked device s))
            (is_rlerror_no 111 tag (Replies.payload (Replies.walk qs) ++ rest) (omega arith)) in
      walk-transact path s (walked device s) 0 m sent
      ∙ after_walk_qids (length (split path)) (walk_fid s) m qs (walked device s)
          (parse-reply tag (Replies.walk qs) rest (hn, hq) hl [])

  -- An Rlerror of a code that is not 0, which Walk hands on with its sign changed.
  walk_error :
      (path : List ℕ) (s : Session S) (tag code : ℕ) (rest : List ℕ) (device : S)
      → 0 < code
      → code < 2 ^ 32
      → length (frame 7 tag (le32 code ++ rest)) ≤ 2 ^ 31
      → t.exchange (walk_request path s).bytes s.device
        ≡ (0, frame 7 tag (le32 code ++ rest), device)
      → walk t e path s ≡ ok ((2 ^ 32 - code, walk_fid s), freed (walk_fid s) (walked device s))
  walk_error path s tag code rest device hp hc hl h =
      let m : Message = from_bytes (frame 7 tag (le32 code ++ rest)) in
      let sent =
        transact_first (walk_request path s) new (walking s) m.bytes device h
        ∙ ap (λ r. code_of m r (walked device s)) (is_rlerror_yes tag code rest hc hl) in
      let changed : neg32 code ≡ 2 ^ 32 - code = omega arith in
      walk-transact path s (walked device s) (neg32 code) m sent
      ∙ after_walk_failed (length (split path)) (walk_fid s) (neg32 code) m (walked device s)
          (omega arith)
      ∙ ap (λ r. ok ((r, walk_fid s), freed (walk_fid s) (walked device s))) changed

  -- Where the first exchange succeeds and the server answers Twalk with an Rlerror of a code from 1 to
  -- 2^31 - 1, Walk returns the negated code as 32 bits, which is negative, and has released the fid.
  pub walk_refused :
      (path : List ℕ) (s : Session S) (tag code : ℕ) (rest : List ℕ) (device : S)
      → 0 < code
      → code < 2 ^ 31
      → length (frame 7 tag (le32 code ++ rest)) ≤ 2 ^ 31
      → t.exchange (walk_request path s).bytes s.device
        ≡ (0, frame 7 tag (le32 code ++ rest), device)
      → (walk t e path s ≡ ok ((2 ^ 32 - code, walk_fid s), freed (walk_fid s) (walked device s)))
        × (is_negative (2 ^ 32 - code) ≡ true)
  walk_refused path s tag code rest device hp hc hl h =
      (walk_error path s tag code rest device hp (omega arith) hl h, ground arith)

  -- Where the first exchange succeeds and the server answers Twalk with an Rlerror of a code above 2^31,
  -- Walk has released the fid, and yet returns a code that is positive.
  pub walk_refused_positive :
      (path : List ℕ) (s : Session S) (tag code : ℕ) (rest : List ℕ) (device : S)
      → 2 ^ 31 < code
      → code < 2 ^ 32
      → length (frame 7 tag (le32 code ++ rest)) ≤ 2 ^ 31
      → t.exchange (walk_request path s).bytes s.device
        ≡ (0, frame 7 tag (le32 code ++ rest), device)
      → (walk t e path s ≡ ok ((2 ^ 32 - code, walk_fid s), freed (walk_fid s) (walked device s)))
        × (is_negative (2 ^ 32 - code) ≡ false)
        × (0 < 2 ^ 32 - code)
  walk_refused_positive path s tag code rest device hp hc hl h =
      (walk_error path s tag code rest device (omega arith) hc hl h, ground arith, omega arith)
