-- ===== src/Session/Ops.antt =====
-- The operations of NinePSession on files, each one request and its answer.
use qnx_unit_tests.Base.{
  ℕ, ◌%◌, ◌^◌, List, [], ◌∷◌, Option, none, some, Bool, ◌||◌, length, ◌!=◌, if◌then◌else◌,
}
use qnx_unit_tests.Types.{Qid, NinePStat, DirEntry, getattr_basic}
use qnx_unit_tests.Message.{Message, new}
use qnx_unit_tests.Message.Build.{
  build_twalk, build_tlopen, build_tread, build_tclunk, build_tgetattr, build_treaddir,
  build_twrite, build_tlcreate, build_tmkdir, build_tunlinkat, build_trenameat,
}
use qnx_unit_tests.Message.Parse.{
  parse_rwalk, parse_rlopen, parse_rread, parse_rclunk, parse_rgetattr, parse_rreaddir,
  parse_rwrite, parse_rlcreate, parse_rmkdir, parse_runlinkat, parse_rrenameat,
}
use qnx_unit_tests.Transport.{Transport, Errno, neg32}
use qnx_unit_tests.Session.{
  Act, pure, ◌>>=◌, ◌>>◌, parsed, next_tag, allocate_fid, release_fid, transact,
}
use qnx_unit_tests.Session.Path.{bytes_eq, components, split_last}

-- The names in a path.
unfoldable pub split : List ℕ → List (List ℕ)
unfolding bytes_eq components
split path = if bytes_eq path [] || bytes_eq path (b'/' ∷ []) then [] else components [] path

module _ {S : Type 0} (t : Transport S) (e : Errno) where
  -- NextTag, then Transact on the request with that tag.
  unfoldable pub request : (ℕ → Message) → Act S (ℕ × Message)
  unfolding next_tag transact
  request build = do tag ← next_tag; transact t e (build tag) new

  -- What Open, Read, GetAttr, ReadDir, Create and Write do with the answer: the code if it is not 0,
  -- `-EIO` if the parser says no, and else what `done` makes of the fields. `out` is what the out
  -- parameters hold where nothing is written to them.
  abbrev pub answer_of :
      {A B : Type 0} → B → (A → ℕ × B) → (Message → Act S (Option A)) → ℕ × Message → Act S (ℕ × B)
  answer_of out done parse (rc, response) = if rc != 0 then pure (rc, out) else (do
    answer ← parse response
    elim answer [ none ↦ pure (neg32 e.eio, out) | some a ↦ pure (done a) ])

  -- What Clunk, Unlink and Rename do with the answer.
  abbrev pub done_if : (Message → Bool) → ℕ × Message → ℕ
  done_if parse (rc, response) = if rc != 0 then rc else if parse response then 0 else neg32 e.eio

  unfoldable pub after_walk : ℕ → ℕ → ℕ × Message → Act S (ℕ × ℕ)
  unfolding release_fid
  after_walk names fid (rc, rwalk) = if rc != 0 then (do release_fid fid; pure (rc, fid)) else (do
    answer ← parsed (parse_rwalk [] rwalk)
    elim answer [
      | none ↦ (do release_fid fid; pure (neg32 e.eio, fid))
      | some qids ↦
          if length qids != names
          then (do release_fid fid; pure (neg32 e.enoent, fid))
          else pure (0, fid)
    ])

  -- The code and `out_fid`.
  unfoldable pub walk : List ℕ → Act S (ℕ × ℕ)
  unfolding split allocate_fid next_tag transact after_walk
  walk path = do
    fid ← allocate_fid
    tag ← next_tag
    root ← (λ s. pure s.root_fid s)
    reply ← transact t e (build_twalk tag root fid (split path)) new
    after_walk (length (split path)) fid reply

  -- The code and `out_iounit`.
  unfoldable pub open_fid : ℕ → ℕ → ℕ → Act S (ℕ × ℕ)
  unfolding request
  open_fid fid flags out = do
    reply ← request λ tag. build_tlopen tag fid flags
    answer_of out (λ (a : Qid × ℕ). (0, a.1)) (λ m. parsed (parse_rlopen m)) reply

  -- The size of the vector is cast to an int32_t.
  unfoldable pub read : ℕ → ℕ → ℕ → List ℕ → Act S (ℕ × List ℕ)
  unfolding request
  read fid offset count out = do
    reply ← request λ tag. build_tread tag fid offset count
    answer_of out (λ (bs : List ℕ). (length bs % 2 ^ 32, bs)) (λ m. parsed (parse_rread m)) reply

  unfoldable pub get_attr : ℕ → NinePStat → Act S (ℕ × NinePStat)
  unfolding request
  get_attr fid out = do
    reply ← request λ tag. build_tgetattr tag fid getattr_basic
    answer_of out (λ (stat : NinePStat). (0, stat)) (λ m. parsed (parse_rgetattr m)) reply

  unfoldable pub read_dir : ℕ → ℕ → ℕ → List DirEntry → Act S (ℕ × List DirEntry)
  unfolding request
  read_dir fid offset count out = do
    reply ← request λ tag. build_treaddir tag fid offset count
    answer_of out (λ (es : List DirEntry). (0, es)) (λ m. parsed (parse_rreaddir out m)) reply

  -- The fid is released whatever the answer is.
  unfoldable pub clunk : ℕ → Act S ℕ
  unfolding request release_fid
  clunk fid = do
    reply ← request λ tag. build_tclunk tag fid
    release_fid fid
    pure (done_if parse_rclunk reply)

  -- The count of an Rwrite is cast to an int32_t: its bit pattern stays.
  unfoldable pub write : ℕ → ℕ → List ℕ → Act S ℕ
  unfolding request
  write fid offset bs = do
    reply ← request λ tag. build_twrite tag fid offset bs
    (rc, _) ← answer_of tt (λ (n : ℕ). (n, tt)) (λ m. parsed (parse_rwrite m)) reply
    pure rc

  -- The code, `out_qid` and `out_iounit`.
  unfoldable pub create : ℕ → List ℕ → ℕ → ℕ → ℕ → Qid × ℕ → Act S (ℕ × (Qid × ℕ))
  unfolding request
  create parent_fid name flags mode gid out = do
    reply ← request λ tag. build_tlcreate tag parent_fid name flags mode gid
    answer_of out (λ (a : Qid × ℕ). (0, a)) (λ m. parsed (parse_rlcreate m)) reply

  unfoldable pub mkdir : ℕ → List ℕ → ℕ → ℕ → Act S ℕ
  unfolding request
  mkdir parent_fid name mode gid = do
    reply ← request λ tag. build_tmkdir tag parent_fid name mode gid
    (rc, _) ← answer_of tt (λ (q : Qid). (0, tt)) (λ m. parsed (parse_rmkdir m)) reply
    pure rc

  unfoldable pub unlink : ℕ → List ℕ → ℕ → Act S ℕ
  unfolding request
  unlink dirfid name flags = do
    reply ← request λ tag. build_tunlinkat tag dirfid name flags
    pure (done_if parse_runlinkat reply)

  unfoldable pub rename : ℕ → List ℕ → ℕ → List ℕ → Act S ℕ
  unfolding request
  rename olddirfid oldname newdirfid newname = do
    reply ← request λ tag. build_trenameat tag olddirfid oldname newdirfid newname
    pure (done_if parse_rrenameat reply)

  -- The code, `out_parent_fid` and `out_basename`.
  unfoldable pub walk_parent : List ℕ → ℕ → Act S (ℕ × ℕ × List ℕ)
  unfolding split_last walk
  walk_parent path out_parent_fid =
      let (parent_path, basename) = split_last path in
      if bytes_eq basename []
      then pure (neg32 e.einval, out_parent_fid, basename)
      else (do (rc, fid) ← walk parent_path; pure (rc, fid, basename))
