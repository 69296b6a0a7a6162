-- ===== src/Session.antt =====
-- The class NinePSession of protocol/nine_p_session.h and protocol/nine_p_session.cpp, over any
-- transport. A method is an action on the session; an out parameter is an argument, and what it holds
-- at the end is part of the result. Log calls are left out. A request runs with its mutex held or on
-- the one dispatch thread, so an action is not interleaved with another.
pub mod Path
pub mod Keeps
pub mod Valid
pub mod Ops
pub mod Answers
pub mod Outcomes
pub mod Restart
pub mod Resend
pub mod Writes
use Path.{bytes_eq}
use qnx_unit_tests.Base.{
  ℕ, zero, suc, ◌+◌, ◌-◌, ◌%◌, ◌^◌, List, [], ◌∷◌, Option, none, some, Bool, true, false, not, ◌||◌,
  length, take, drop, ltb, ◌==◌, ◌!=◌, if◌then◌else◌, Result, ok, fault, stuck,
}
use qnx_unit_tests.Types.{
  Qid, NinePStat, DirEntry, max_message_size, protocol_version, no_fid, getattr_basic,
}
use qnx_unit_tests.FidPool.{FidPool, allocate, release, reset}
use qnx_unit_tests.Message.{Message, new, from_bytes}
use qnx_unit_tests.Message.Build.{
  build_tversion, build_tattach, build_twalk, build_tlopen, build_tread, build_tclunk,
  build_tgetattr, build_treaddir, build_twrite, build_tlcreate, build_tmkdir, build_tunlinkat,
  build_trenameat,
}
use qnx_unit_tests.Message.Parse.{
  is_rlerror, parse_rversion, parse_rattach, parse_rwalk, parse_rlopen, parse_rread, parse_rclunk,
  parse_rgetattr, parse_rreaddir, parse_rwrite, parse_rlcreate, parse_rmkdir, parse_runlinkat,
  parse_rrenameat,
}
use qnx_unit_tests.Transport.{Transport, Errno, neg32}

pub record Session (S : Type 0) : Type 0 where
  pub device : S
  pub fid_pool : FidPool
  pub root_fid : ℕ
  pub message_size : ℕ
  pub aname : List ℕ
  pub reinitializing : Bool
  pub next_tag : ℕ

abbrev pub Act : Type 0 → Type 0 → Type 0
Act S A = Session S → Result (A × Session S)

-- kMaxRetries
abbrev pub max_retries : ℕ
max_retries = 3

module _ {S : Type 0} where
  abbrev pub pure : {A : Type 0} → A → Act S A
  pure a s = ok (a, s)

  abbrev pub continue :
      {A B : Type 0} → Result (A × Session S) → (A → Act S B) → Result (B × Session S)
  continue (ok (a, s)) f = f a s
  continue fault f = fault
  continue stuck f = stuck

  infixl 5 ◌>>=◌ ◌>>◌
  abbrev pub ◌>>=◌ : {A B : Type 0} → Act S A → (A → Act S B) → Act S B
  ◌>>=◌ m f s = continue (m s) f

  abbrev pub ◌>>◌ : {B : Type 0} → Act S (Unit {0}) → Act S B → Act S B
  m >> k = m >>= λ _. k

  -- The parser's answer; the response is a local of the caller.
  abbrev pub parsed : {A : Type 0} → Result (A × Message) → Act S A
  parsed (ok (a, m)) s = ok (a, s)
  parsed fault s = fault
  parsed stuck s = stuck

  -- NinePSession(Transport& transport)
  abbrev pub init : S → Session S
  init device = record {
    device = device;
    fid_pool = record { allocated = []; next_fid = 0 };
    root_fid = 0;
    message_size = max_message_size;
    aname = [];
    reinitializing = false;
    next_tag = 0;
  }

  unfoldable pub next_tag : Act S ℕ
  next_tag s = ok (s.next_tag, record s { next_tag = (s.next_tag + 1) % 2 ^ 16 })

  unfoldable pub allocate_fid : Act S ℕ
  unfolding allocate
  allocate_fid s = let (fid, pool) = allocate s.fid_pool in ok (fid, record s { fid_pool = pool })

  unfoldable pub release_fid : ℕ → Act S (Unit {0})
  unfolding release
  release_fid fid s = ok (tt, record s { fid_pool = release fid s.fid_pool })

  abbrev get_root_fid : Session S → ℕ
  get_root_fid s = s.root_fid

  abbrev get_message_size : Session S → ℕ
  get_message_size s = s.message_size

  -- The code of a response: that of an Rlerror is negated, as an int32_t that wraps. (For the code
  -- 2^31 the negation overflows, which C++ leaves undefined.)
  abbrev pub code_of : Message → Result (Option ℕ) → Act S (ℕ × Message)
  code_of response (ok none) s = ok ((0, response), s)
  code_of response (ok (some code)) s = ok ((neg32 code, response), s)
  code_of response fault s = fault
  code_of response stuck s = stuck

module _ {S : Type 0} (t : Transport S) (e : Errno) where
  -- The loop of Transact with the attempts that are left; `reinit` is Reinitialize.
  unfoldable pub attempts : Act S ℕ → ℕ → Message → Message → Act S (ℕ × Message)
  attempts reinit zero request response s = ok ((neg32 e.eio, response), s)
  attempts reinit (suc n) request response s =
      let (rc, bs, device) = t.exchange request.bytes s.device in
      let s' : Session S = record s { device = device } in
      let again : Act S (ℕ × Message) = attempts reinit n request response in
      let recover : Act S (ℕ × Message) =
        reinit >>= λ reinit_rc. if reinit_rc != 0 then pure (rc, response) else again in
      if rc != 0
      then (if s.reinitializing then ok ((rc, response), s') else recover s')
      else code_of (from_bytes bs) (is_rlerror (from_bytes bs)) s'

  -- root_fid_ = fid_pool_.Allocate()
  unfoldable pub allocate_root : Act S ℕ
  unfolding allocate
  allocate_root s =
      let (fid, pool) = allocate s.fid_pool in
      ok (fid, record s { fid_pool = pool; root_fid = fid })

  -- fid_pool_.Release(root_fid_), whatever the root fid is by now.
  unfoldable pub release_root : Act S (Unit {0})
  unfolding release
  release_root s = ok (tt, record s { fid_pool = release s.root_fid s.fid_pool })

  unfoldable pub set_aname : List ℕ → Act S (Unit {0})
  set_aname aname s = ok (tt, record s { aname = aname })

  unfoldable pub set_message_size : ℕ → Act S (Unit {0})
  set_message_size n s = ok (tt, record s { message_size = n })

  -- What follows Transact(tattach, rattach).
  unfoldable pub after_attach : ℕ × Message → Act S ℕ
  unfolding release_root
  after_attach (rc, rattach) = if rc != 0 then (do release_root; pure rc) else (do
    answer ← parsed (parse_rattach rattach)
    elim answer [ none ↦ (do release_root; pure (neg32 e.eio)) | some qid ↦ pure 0 ])

  -- What follows the check of the version.
  unfoldable pub attach : (Message → Message → Act S (ℕ × Message)) → List ℕ → ℕ → Act S ℕ
  unfolding after_attach allocate_root set_message_size next_tag
  attach transact aname negotiated = do
    set_message_size (if ltb negotiated max_message_size then negotiated else max_message_size)
    fid ← allocate_root
    tag ← next_tag
    reply ← transact (build_tattach tag fid no_fid [] aname 0) new
    after_attach reply

  -- What follows Transact(tversion, rversion).
  unfoldable pub after_version :
      (Message → Message → Act S (ℕ × Message)) → List ℕ → ℕ × Message → Act S ℕ
  unfolding attach
  after_version transact aname (rc, rversion) = if rc != 0 then pure rc else (do
    answer ← parsed (parse_rversion rversion)
    elim answer [
      | none ↦ pure (neg32 e.eio)
      | some (size, version) ↦
          if not (bytes_eq version protocol_version)
          then pure (neg32 e.enotsup)
          else attach transact aname size
    ])

  unfoldable pub initialize_with : (Message → Message → Act S (ℕ × Message)) → List ℕ → Act S ℕ
  unfolding after_version set_aname
  initialize_with transact aname = do
    set_aname aname
    reply ← transact (build_tversion max_message_size protocol_version) new
    after_version transact aname reply

  unfoldable pub set_reinitializing : Bool → Act S (Unit {0})
  set_reinitializing b s = ok (tt, record s { reinitializing = b })

  unfoldable pub restart : Act S (List ℕ)
  unfolding reset
  restart s =
      ok (s.aname, record s { fid_pool = reset s.fid_pool; next_tag = 0; reinitializing = true })

  -- Reinitialize, over the Initialize that it calls.
  unfoldable pub reinitialize_with : (List ℕ → Act S ℕ) → Act S ℕ
  unfolding restart set_reinitializing
  reinitialize_with initialize = do
    aname ← restart
    rc ← initialize aname
    set_reinitializing false
    pure rc

  -- Transact with a bound on how deep its calls nest, by way of Reinitialize and Initialize.
  unfoldable pub transact_within : ℕ → Message → Message → Act S (ℕ × Message)
  unfolding attempts initialize_with reinitialize_with
  transact_within zero request response = λ s. stuck
  transact_within (suc nesting) request response =
      attempts (reinitialize_with (initialize_with (transact_within nesting))) max_retries request
        response

  -- Two are enough: the inner calls run with `reinitializing_` set.
  unfoldable pub transact : Message → Message → Act S (ℕ × Message)
  unfolding transact_within
  transact = transact_within 2

  unfoldable pub initialize : List ℕ → Act S ℕ
  unfolding transact
  initialize = initialize_with transact

  unfoldable pub reinitialize : Act S ℕ
  unfolding transact_within
  reinitialize = reinitialize_with (initialize_with (transact_within 1))
