-- ===== src/Session/Valid.antt =====
-- Initialize, Reinitialize and Transact answer from every valid session and leave a valid one, with
-- the depth of calls that `transact` has: none is `stuck`, and none is a fault.
use qnx_unit_tests.Base.{
  ℕ, suc, ◌^◌, ◌≤◌, List, [], Bool, true, false, not, refl, arith, length, ltb, ◌!=◌, if◌then◌else◌,
}
use qnx_unit_tests.Types.{max_message_size, protocol_version, no_fid}
use qnx_unit_tests.Message.{Message, new}
use qnx_unit_tests.Message.Build.{build_tversion, build_tattach}
use qnx_unit_tests.Message.Parse.{parse_rversion, parse_rattach}
use qnx_unit_tests.Message.Readers.{parse-Reads}
use qnx_unit_tests.Transport.{Transport, Errno, neg32}
use qnx_unit_tests.Session.Path.{bytes_eq}
use qnx_unit_tests.Session.{
  Act, next_tag, allocate_fid, release_fid, allocate_root, release_root, set_aname,
  set_message_size, set_reinitializing, restart, after_attach, attach, after_version,
  initialize_with, reinitialize_with, transact_within, transact, initialize, reinitialize,
  max_retries,
}
use qnx_unit_tests.Session.Keeps.{
  Keeps, Any, Small, IsValid, IsBounded, pure-Keeps, bind-Keeps, if-Keeps, option-Keeps,
  parsed-Keeps, attempts-Keeps,
}

module _ {S : Type 0} (b : Bool) where
  pub next_tag-Keeps : Keeps {S = S} (IsValid b) Any (IsValid b) next_tag
  unfolding next_tag
  next_tag-Keeps = record {
    run = λ s p.
        (_, _, refl, tt, record { flag = p.flag; size = p.size; tag = omega arith; fid = p.fid });
  }

  pub allocate_fid-Keeps : Keeps {S = S} (IsValid b) Any (IsValid b) allocate_fid
  unfolding allocate_fid
  allocate_fid-Keeps = record {
    run = λ s p.
        (_, _, refl, tt, record { flag = p.flag; size = p.size; tag = p.tag; fid = omega arith });
  }

  pub release_fid-Keeps : (fid : ℕ) → Keeps {S = S} (IsValid b) Any (IsValid b) (release_fid fid)
  unfolding release_fid
  release_fid-Keeps fid = record {
    run =
        λ s p. (_, _, refl, tt, record { flag = p.flag; size = p.size; tag = p.tag; fid = p.fid });
  }

module _ {S : Type 0} (t : Transport S) (e : Errno) where
  allocate_root-Keeps : (b : Bool) → Keeps {S = S} (IsValid b) Any (IsValid b) (allocate_root t e)
  unfolding allocate_root
  allocate_root-Keeps b = record {
    run = λ s p.
        (_, _, refl, tt, record { flag = p.flag; size = p.size; tag = p.tag; fid = omega arith });
  }

  release_root-Keeps : (b : Bool) → Keeps {S = S} (IsValid b) Any (IsValid b) (release_root t e)
  unfolding release_root
  release_root-Keeps b = record {
    run =
        λ s p. (_, _, refl, tt, record { flag = p.flag; size = p.size; tag = p.tag; fid = p.fid });
  }

  set_aname-Keeps :
      (b : Bool) (aname : List ℕ) → Keeps {S = S} (IsValid b) Any (IsValid b) (set_aname t e aname)
  unfolding set_aname
  set_aname-Keeps b aname = record {
    run =
        λ s p. (_, _, refl, tt, record { flag = p.flag; size = p.size; tag = p.tag; fid = p.fid });
  }

  set_message_size-Keeps :
      (b : Bool) (n : ℕ)
      → n ≤ max_message_size
      → Keeps {S = S} (IsValid b) Any (IsValid b) (set_message_size t e n)
  unfolding set_message_size
  set_message_size-Keeps b n h = record {
    run = λ s p. (_, _, refl, tt, record { flag = p.flag; size = h; tag = p.tag; fid = p.fid });
  }

  restart-Keeps : Keeps {S = S} (IsValid false) Any (IsValid true) (restart t e)
  unfolding restart
  restart-Keeps = record {
    run = λ s p. (
      _,
      _,
      refl,
      tt,
      record { flag = refl; size = p.size; tag = omega arith; fid = omega arith },
    );
  }

  set_reinitializing-Keeps :
      (b : Bool) → Keeps {S = S} (IsValid b) Any (IsValid false) (set_reinitializing t e false)
  unfolding set_reinitializing
  set_reinitializing-Keeps b = record {
    run = λ s p. (_, _, refl, tt, record { flag = refl; size = p.size; tag = p.tag; fid = p.fid });
  }

  after_attach-Keeps :
      (b : Bool) (reply : ℕ × Message)
      → Small reply
      → Keeps {S = S} (IsValid b) Any (IsValid b) (after_attach t e reply)
  unfolding after_attach
  after_attach-Keeps b (rc, m) h =
      if-Keeps (rc != 0) (bind-Keeps (release_root-Keeps b) (λ u v. pure-Keeps rc tt)) (
        bind-Keeps (parsed-Keeps (parse_rattach m) _ (parse-Reads m [] h).1) λ o v.
          option-Keeps o (bind-Keeps (release_root-Keeps b) (λ u w. pure-Keeps (neg32 e.eio) tt))
            (λ qid. pure-Keeps 0 tt))

  negotiated-le :
      (n : ℕ) → (if ltb n max_message_size then n else max_message_size) ≤ max_message_size
  negotiated-le n = ground arith

  module _ (b : Bool) (send : Message → Message → Act S (ℕ × Message))
      (sends : (request response : Message)
        → length response.bytes ≤ 2 ^ 31
        → Keeps (IsValid b) Small (IsValid b) (send request response)) where
    attach-Keeps :
        (aname : List ℕ) (n : ℕ)
        → Keeps {S = S} (IsValid b) Any (IsValid b) (attach t e send aname n)
    unfolding attach
    attach-Keeps aname n = bind-Keeps (set_message_size-Keeps b _ (negotiated-le n)) λ u v.
        bind-Keeps (allocate_root-Keeps b) λ fid v. bind-Keeps (next_tag-Keeps b) λ tag v.
          bind-Keeps (sends (build_tattach tag fid no_fid [] aname 0) new (omega arith))
            λ reply h. after_attach-Keeps b reply h

    after_version-Keeps :
        (aname : List ℕ) (reply : ℕ × Message)
        → Small reply
        → Keeps {S = S} (IsValid b) Any (IsValid b) (after_version t e send aname reply)
    unfolding after_version
    after_version-Keeps aname (rc, m) h = if-Keeps (rc != 0) (pure-Keeps rc tt) (
        bind-Keeps (parsed-Keeps (parse_rversion m) _ (parse-Reads m [] h).0) λ o v.
          option-Keeps o (pure-Keeps (neg32 e.eio) tt) λ (size, version).
            if-Keeps (not (bytes_eq version protocol_version)) (pure-Keeps (neg32 e.enotsup) tt)
              (attach-Keeps aname size))

    initialize_with-Keeps :
        (aname : List ℕ)
        → Keeps {S = S} (IsValid b) Any (IsValid b) (initialize_with t e send aname)
    unfolding initialize_with
    initialize_with-Keeps aname = bind-Keeps (set_aname-Keeps b aname) λ u v.
        bind-Keeps (sends (build_tversion max_message_size protocol_version) new (omega arith))
          λ reply h. after_version-Keeps aname reply h

module _ {S : Type 0} (t : Transport S) (e : Errno) (bound : IsBounded t) where
  inner-Keeps :
      (nesting : ℕ) (request response : Message)
      → length response.bytes ≤ 2 ^ 31
      → Keeps {S = S}
          (IsValid true)
          Small
          (IsValid true)
          (transact_within t e (suc nesting) request response)
  unfolding transact_within
  inner-Keeps nesting request response h =
      attempts-Keeps t e bound true
        (reinitialize_with t e (initialize_with t e (transact_within t e nesting))) max_retries
        request response h (λ impossible. cc)

  pub reinitialize-Keeps : Keeps {S = S} (IsValid false) Any (IsValid false) (reinitialize t e)
  unfolding reinitialize reinitialize_with
  reinitialize-Keeps = bind-Keeps (restart-Keeps t e) λ aname v.
      bind-Keeps (initialize_with-Keeps t e true (transact_within t e 1) (inner-Keeps 0) aname)
        λ rc v. bind-Keeps (set_reinitializing-Keeps t e true) λ u v. pure-Keeps rc tt

  pub transact-Keeps :
      (request response : Message)
      → length response.bytes ≤ 2 ^ 31
      → Keeps {S = S} (IsValid false) Small (IsValid false) (transact t e request response)
  unfolding transact reinitialize
  transact-Keeps request response h =
      attempts-Keeps t e bound false (reinitialize t e) max_retries request response h
        (λ outer. reinitialize-Keeps)

  pub initialize-Keeps :
      (aname : List ℕ) → Keeps {S = S} (IsValid false) Any (IsValid false) (initialize t e aname)
  unfolding initialize
  initialize-Keeps aname = initialize_with-Keeps t e false (transact t e) transact-Keeps aname
