-- ===== src/Session/Answers.antt =====
-- Every operation of the session but the reads answers from every valid session.
use qnx_unit_tests.Base.{ℕ, List, [], Option, false, refl, arith, length, ◌!=◌}
use qnx_unit_tests.Types.{Qid, NinePStat, getattr_basic}
use qnx_unit_tests.Message.Build.{
  build_twalk, build_tlopen, build_tclunk, build_tgetattr, build_twrite, build_tlcreate,
  build_tmkdir, build_tunlinkat, build_trenameat,
}
use qnx_unit_tests.Message.{Message, new}
use qnx_unit_tests.Message.Parse.{
  parse_rwalk, parse_rlopen, parse_rgetattr, parse_rwrite, parse_rlcreate, parse_rmkdir,
  parse_rclunk, parse_runlinkat, parse_rrenameat,
}
use qnx_unit_tests.Message.Readers.{parse-Reads}
use qnx_unit_tests.Transport.{Transport, Errno, neg32}
use qnx_unit_tests.Session.Path.{bytes_eq, split_last}
use qnx_unit_tests.Session.{Act, pure, ◌>>◌, parsed, release_fid, initialize}
use qnx_unit_tests.Session.Ops.{
  request, answer_of, done_if, after_walk, walk, open_fid, get_attr, clunk, write, create, mkdir,
  unlink, rename, walk_parent, split,
}
use qnx_unit_tests.Session.Keeps.{
  Keeps, Any, Small, IsValid, IsBounded, pure-Keeps, bind-Keeps, if-Keeps, option-Keeps,
  parsed-Keeps,
}
use qnx_unit_tests.Session.Valid.{
  next_tag-Keeps, allocate_fid-Keeps, release_fid-Keeps, transact-Keeps, initialize-Keeps,
}

module _ {S : Type 0} (t : Transport S) (e : Errno) (bound : IsBounded t) where
  -- An operation that answers from every valid session and leaves a valid one.
  abbrev pub Answers : {A : Type 0} → Act S A → Type 0
  Answers m = Keeps {S = S} (IsValid false) Any (IsValid false) m

  request-Keeps :
      (build : ℕ → Message)
      → Keeps {S = S} (IsValid false) Small (IsValid false) (request t e build)
  unfolding request
  request-Keeps build =
      bind-Keeps (next_tag-Keeps false)
        λ tag v. transact-Keeps t e bound (build tag) new (omega arith)

  answer_of-Keeps :
      {A B : Type 0} (out : B) (done : A → ℕ × B) (parse : Message → Act S (Option A))
      (reply : ℕ × Message)
      → Answers (parse reply.1)
      → Answers (answer_of t e out done parse reply)
  answer_of-Keeps out done parse (rc, m) k = if-Keeps (rc != 0) (pure-Keeps (rc, out) tt) (
      bind-Keeps k
        λ o v. option-Keeps o (pure-Keeps (neg32 e.eio, out) tt) (λ a. pure-Keeps (done a) tt))

  after_walk-Keeps :
      (names fid : ℕ) (reply : ℕ × Message) → Small reply → Answers (after_walk t e names fid reply)
  unfolding after_walk
  after_walk-Keeps names fid (rc, m) h =
      let free : (code : ℕ) → Answers {A = ℕ × ℕ} (release_fid fid >> pure (code, fid)) =
        λ code. bind-Keeps (release_fid-Keeps false fid) (λ u v. pure-Keeps (code, fid) tt) in
      if-Keeps (rc != 0) (free rc) (
        bind-Keeps (parsed-Keeps (parse_rwalk [] m) _ (parse-Reads m [] h).2) λ o v.
          option-Keeps o (free (neg32 e.eio)) λ qids.
            if-Keeps (length qids != names) (free (neg32 e.enoent)) (pure-Keeps (0, fid) tt))

  walk-Keeps : (path : List ℕ) → Answers (walk t e path)
  unfolding walk
  walk-Keeps path = bind-Keeps (allocate_fid-Keeps false) λ fid v.
      bind-Keeps (next_tag-Keeps false) λ tag v.
        bind-Keeps {V = Any} (record { run = λ s p. (s.root_fid, s, refl, tt, p) })
          λ root v.
            bind-Keeps
              (transact-Keeps t e bound (build_twalk tag root fid (split path)) new (omega arith))
              λ reply h. after_walk-Keeps (length (split path)) fid reply h

  walk_parent-Keeps : (path : List ℕ) (out : ℕ) → Answers (walk_parent t e path out)
  unfolding walk_parent
  walk_parent-Keeps path out = if-Keeps (bytes_eq (split_last path).1 []) (pure-Keeps _ tt) (
      bind-Keeps (walk-Keeps (split_last path).0)
        λ p v. pure-Keeps (p.0, p.1, (split_last path).1) tt)

  clunk-Keeps : (fid : ℕ) → Answers (clunk t e fid)
  unfolding clunk
  clunk-Keeps fid = bind-Keeps (request-Keeps λ tag. build_tclunk tag fid) λ reply h.
      bind-Keeps (release_fid-Keeps false fid) λ u v. pure-Keeps (done_if t e parse_rclunk reply) tt

  -- Over a transport whose responses are at most 2 GiB, from every session that is not being
  -- re-initialized and whose counters and message size are in range, and whatever the server answers
  -- and however often the exchanges fail: each of these operations returns (its retries and the
  -- nested re-initializations end, and no read is outside of a response), and leaves such a session.
  pub session-Answers :
      (fid gid flags mode offset out : ℕ) (name path bs : List ℕ) (qid : Qid) (stat : NinePStat)
      → Answers (initialize t e name)
        × Answers (walk t e path)
        × Answers (walk_parent t e path out)
        × Answers (open_fid t e fid flags out)
        × Answers (get_attr t e fid stat)
        × Answers (clunk t e fid)
        × Answers (write t e fid offset bs)
        × Answers (create t e fid name flags mode gid (qid, out))
        × Answers (mkdir t e fid name mode gid)
        × Answers (unlink t e fid name flags)
        × Answers (rename t e fid name gid path)
  unfolding open_fid get_attr write create mkdir unlink rename
  session-Answers fid gid flags mode offset out name path bs qid stat = (
    initialize-Keeps t e bound name,
    walk-Keeps path,
    walk_parent-Keeps path out,
    bind-Keeps (request-Keeps λ tag. build_tlopen tag fid flags) λ reply h.
        answer_of-Keeps out (λ (a : Qid × ℕ). (0, a.1)) (λ m. parsed (parse_rlopen m)) reply
          (parsed-Keeps (parse_rlopen reply.1) _ (parse-Reads reply.1 [] h).3),
    bind-Keeps (request-Keeps λ tag. build_tgetattr tag fid getattr_basic) λ reply h.
        answer_of-Keeps stat (λ (stat : NinePStat). (0, stat)) (λ m. parsed (parse_rgetattr m))
          reply (parsed-Keeps (parse_rgetattr reply.1) _ (parse-Reads reply.1 [] h).4),
    clunk-Keeps fid,
    bind-Keeps (request-Keeps λ tag. build_twrite tag fid offset bs) λ reply h.
        bind-Keeps
          (answer_of-Keeps tt (λ (n : ℕ). (n, tt)) (λ m. parsed (parse_rwrite m)) reply
            (parsed-Keeps (parse_rwrite reply.1) _ (parse-Reads reply.1 [] h).5))
          λ p v. pure-Keeps p.0 tt,
    bind-Keeps (request-Keeps λ tag. build_tlcreate tag fid name flags mode gid) λ reply h.
        answer_of-Keeps (qid, out) (λ (a : Qid × ℕ). (0, a)) (λ m. parsed (parse_rlcreate m)) reply
          (parsed-Keeps (parse_rlcreate reply.1) _ (parse-Reads reply.1 [] h).6),
    bind-Keeps (request-Keeps λ tag. build_tmkdir tag fid name mode gid) λ reply h.
        bind-Keeps
          (answer_of-Keeps tt (λ (q : Qid). (0, tt)) (λ m. parsed (parse_rmkdir m)) reply
            (parsed-Keeps (parse_rmkdir reply.1) _ (parse-Reads reply.1 [] h).7))
          λ p v. pure-Keeps p.0 tt,
    bind-Keeps (request-Keeps λ tag. build_tunlinkat tag fid name flags)
        λ reply h. pure-Keeps (done_if t e parse_runlinkat reply) tt,
    bind-Keeps (request-Keeps λ tag. build_trenameat tag fid name gid path)
        λ reply h. pure-Keeps (done_if t e parse_rrenameat reply) tt,
  )
