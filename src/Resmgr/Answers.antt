-- ===== src/Resmgr/Answers.antt =====
-- The handlers answer from every valid session, and leave one.
use qnx_unit_tests.Base.{ℕ, List, [], ◌∷◌, ◌&&◌, ◌==◌, ◌!=◌, bit_and}
use qnx_unit_tests.Types.{Qid}
use qnx_unit_tests.Transport.{Transport, Errno, neg32}
use qnx_unit_tests.Session.Ops.{walk, open_fid, get_attr, create, walk_parent}
use qnx_unit_tests.Session.Keeps.{IsBounded, pure-Keeps, bind-Keeps, if-Keeps}
use qnx_unit_tests.Session.Answers.{Answers, session-Answers}
use qnx_unit_tests.Resmgr.{
  Virtio9pOcb, Qnx, Opening, refused, opened, has, no_stat, clunk_then, open_existing,
  create_missing, open_path, finish_open, open_action, stat_action, mknod_action, unlink_flags,
  unlink_action, rename_action, path_or_root, stripped,
}

module _ {S : Type 0} (t : Transport S) (e : Errno) (bound : IsBounded t) where
  no_qid : Qid
  no_qid = no_stat.qid

  walks : (path : List ℕ) → Answers t e bound (walk t e path)
  walks path = (session-Answers t e bound 0 0 0 0 0 0 [] path [] no_qid no_stat).1

  parents : (path : List ℕ) → Answers t e bound (walk_parent t e path 0)
  parents path = (session-Answers t e bound 0 0 0 0 0 0 [] path [] no_qid no_stat).2

  opens : (fid flags : ℕ) → Answers t e bound (open_fid t e fid flags 0)
  opens fid flags = (session-Answers t e bound fid 0 flags 0 0 0 [] [] [] no_qid no_stat).3

  attrs : (fid : ℕ) → Answers t e bound (get_attr t e fid no_stat)
  attrs fid = (session-Answers t e bound fid 0 0 0 0 0 [] [] [] no_qid no_stat).4

  clunks : {A : Type 0} (fid : ℕ) (a : A) → Answers t e bound (clunk_then t e fid a)
  clunks fid a =
      bind-Keeps (session-Answers t e bound fid 0 0 0 0 0 [] [] [] no_qid no_stat).5
        λ rc v. pure-Keeps a tt

  creates :
      (fid flags mode gid : ℕ) (name : List ℕ) (out : Qid × ℕ)
      → Answers t e bound (create t e fid name flags mode gid out)
  creates fid flags mode gid name (qid, out) =
      (session-Answers t e bound fid gid flags mode 0 out name [] [] qid no_stat).7

  open_existing-Answers : (fid flags : ℕ) → Answers t e bound (open_existing t e fid flags)
  unfolding open_existing
  open_existing-Answers fid flags = bind-Keeps (opens fid flags) λ (rc, iounit) v.
      if-Keeps (rc != 0) (clunks fid _) (bind-Keeps (attrs fid) λ (rc', stat) v'. pure-Keeps _ tt)

  create_missing-Answers :
      (path : List ℕ) (flags : ℕ) → Answers t e bound (create_missing t e path flags)
  unfolding create_missing
  create_missing-Answers path flags = bind-Keeps (parents path) λ (rc, fid, name) v.
      if-Keeps (rc != 0) (pure-Keeps _ tt) (
        bind-Keeps (creates fid _ _ _ name _)
          λ (rc', (qid, iounit)) v'. if-Keeps (rc' != 0) (clunks fid _) (pure-Keeps _ tt))

  open_path-Answers :
      (qnx : Qnx) (path : List ℕ) (ioflag : ℕ) → Answers t e bound (open_path t e qnx path ioflag)
  unfolding open_path
  open_path-Answers qnx path ioflag = bind-Keeps (walks path) λ (rc, fid) v.
      if-Keeps (rc == 0) (open_existing-Answers fid _) (
        if-Keeps (rc == neg32 e.enoent && has ioflag qnx.o_creat) (create_missing-Answers path _)
          (pure-Keeps _ tt))

  finish_open-Answers :
      (qnx : Qnx) (ioflag : ℕ) (o : Opening) → Answers t e bound (finish_open t e qnx ioflag o)
  unfolding finish_open
  finish_open-Answers qnx ioflag (refused code) = pure-Keeps _ tt
  finish_open-Answers qnx ioflag (opened fid iounit is_dir stat) =
      if-Keeps ((qnx.open_default stat.mode (stripped t e qnx ioflag)).0 != 0) (clunks fid _)
        (pure-Keeps _ tt)

  mknod-Answers :
      (qnx : Qnx) (path : List ℕ) (mode : ℕ) → Answers t e bound (mknod_action t e qnx path mode)
  unfolding mknod_action
  mknod-Answers qnx [] mode = pure-Keeps _ tt
  mknod-Answers qnx (c ∷ cs) mode =
      if-Keeps (qnx.s_isdir mode)
        (bind-Keeps (parents (c ∷ cs)) λ (rc, fid, name) v. if-Keeps (rc != 0) (pure-Keeps _ tt) (
          bind-Keeps
            (session-Answers t e bound fid 0 0 (bit_and mode 0x1ff) 0 0 name [] [] no_qid no_stat).8
            λ rc' v'. clunks fid _))
        (pure-Keeps _ tt)

  unlink_flags-Answers : (path : List ℕ) → Answers t e bound (unlink_flags t e path)
  unfolding unlink_flags
  unlink_flags-Answers path = bind-Keeps (walks path) λ (rc, fid) v.
      if-Keeps (rc == 0) (bind-Keeps (attrs fid) λ (rc', stat) v'. clunks fid _) (pure-Keeps _ tt)

  unlink-Answers : (path : List ℕ) → Answers t e bound (unlink_action t e path)
  unfolding unlink_action
  unlink-Answers [] = pure-Keeps _ tt
  unlink-Answers (c ∷ cs) = bind-Keeps (parents (c ∷ cs)) λ (rc, fid, name) v.
      if-Keeps (rc != 0) (pure-Keeps _ tt) (
        bind-Keeps (unlink_flags-Answers (c ∷ cs)) λ flags v'.
          bind-Keeps (session-Answers t e bound fid 0 flags 0 0 0 name [] [] no_qid no_stat).9
            λ rc' v''. clunks fid _)

  rename-Answers : (path new_path : List ℕ) → Answers t e bound (rename_action t e path new_path)
  unfolding rename_action
  rename-Answers [] new_path = pure-Keeps _ tt
  rename-Answers (c ∷ cs) new_path = bind-Keeps (parents (c ∷ cs)) λ (rc, old, name) v.
      if-Keeps (rc != 0) (pure-Keeps _ tt) (
        bind-Keeps (parents new_path) λ (rc', new, name') v'. if-Keeps (rc' != 0) (clunks old _) (
          bind-Keeps (session-Answers t e bound old new 0 0 0 0 name name' [] no_qid no_stat).10
            λ rc'' v''.
              bind-Keeps (session-Answers t e bound old 0 0 0 0 0 [] [] [] no_qid no_stat).5
                λ rc3 v3. clunks new _))

  -- Over a transport whose responses are at most 2 GiB, from every session that is not being
  -- re-initialized and whose counters and message size are in range, and whatever the server and iofunc
  -- answer: the bodies of the handlers of open, stat, mknod, unlink, rename and close return, read
  -- nothing outside of a response, and leave such a session.
  pub handlers-Answers :
      (qnx : Qnx) (path new_path : List ℕ) (ioflag mode code : ℕ) (ocb : Virtio9pOcb)
      → Answers t e bound (open_action t e qnx path ioflag)
        × Answers t e bound (stat_action t e ocb)
        × Answers t e bound (mknod_action t e qnx path mode)
        × Answers t e bound (unlink_action t e path)
        × Answers t e bound (rename_action t e path new_path)
        × Answers t e bound (clunk_then t e ocb.fid code)
  unfolding open_action stat_action
  handlers-Answers qnx path new_path ioflag mode code ocb = (
    bind-Keeps (open_path-Answers qnx (path_or_root t e path) ioflag)
        λ o v. finish_open-Answers qnx ioflag o,
    bind-Keeps (attrs ocb.fid) λ (rc, stat) v. pure-Keeps _ tt,
    mknod-Answers qnx path mode,
    unlink-Answers path,
    rename-Answers path new_path,
    clunks ocb.fid code,
  )
