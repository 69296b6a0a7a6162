-- ===== src/Tests/Mains.antt =====
-- FsVirtio9pMain with a server that answers, as the child of a process that waits: two messages come.
use qnx_unit_tests.Base.{
  ℕ, ◌-◌, List, [], ◌∷◌, ◌++◌, some, true, false, ltb, ltb→lt, ◌≡◌, refl, arith, get_or, ok,
}
use qnx_unit_tests.Message.{
  end_message, put_string, put_u32, begin_message, reset_read_offset, get_string, get_qid,
}
use qnx_unit_tests.Message.Bytes.{u16_of}
use qnx_unit_tests.Message.Build.{build_tversion, build_tattach}
use qnx_unit_tests.Message.Parse.{is_rlerror, parse_rversion, parse_rattach}
use qnx_unit_tests.Session.Path.{bytes_eq}
use qnx_unit_tests.Transport.{Transport}
use qnx_unit_tests.Session.{Session, init, initialize}
use qnx_unit_tests.Args.{FsConfig}
use qnx_unit_tests.Main.{Server, child, System, Exit, run_with, default_config}
use qnx_unit_tests.Main.Beginning.{Orderly}
use qnx_unit_tests.Main.Handshake.{Outcome, run_with-Outcome}
use qnx_unit_tests.Tests.Server.{serve, posix}

-- The pipe, and the messages that are to come.
pub record Told : Type 0 where
  pub sent : List ℕ
  pub left : ℕ

abbrev steady : Transport ℕ
steady = record {
  initialize = λ n. (0, n);
  exchange = λ request n. (0, serve (get_or request 4 0), n);
  get_mount_tag = λ n. (0, [], n);
  reset_device = λ n. (0, n);
  shutdown = λ n. n;
}

abbrev desk : System ℕ Told
desk = record {
  pipe = λ p. (true, p);
  fork = λ p. (child, p);
  wait_for_child = λ p. (some 0, p);
  detach = λ p. p;
  notify = λ v p. record p { sent = p.sent ++ (v ∷ []) };
  thread_ctl = λ p. (true, p);
  dispatch_create = λ p. (true, p);
  resmgr_attach = λ path p. (true, p);
  dispatch_context_alloc = λ p. (true, p);
  dispatch_block = λ p. (ltb 0 p.left, record p { left = p.left - 1 });
  dispatch_handler = λ m. ok (tt, m);
}

desk-Orderly : Orderly (λ p. p.sent) (λ p. p.left) desk
desk-Orderly = record {
  notify_sends = λ v p. (refl, refl);
  pipe_quiet = λ p. (refl, refl);
  fork_quiet = λ p. (refl, refl);
  wait_quiet = λ p. (refl, refl);
  detach_quiet = λ p. (refl, refl);
  thread_ctl_quiet = λ p. (refl, refl);
  create_quiet = λ p. (refl, refl);
  attach_quiet = λ path p. (refl, refl);
  alloc_quiet = λ p. (refl, refl);
  block_sends = λ p. refl;
  block_takes = λ p more. omega (arith, ltb→lt 0 p.left more);
  handles = λ m. (m, refl, refl, omega arith);
}

abbrev daemon : FsConfig
daemon = record default_config { daemonize = true }

steady-ends :
    (tag : List ℕ) (device : ℕ)
    → (rc : ℕ) × (s : Session ℕ) × (initialize steady posix tag (init device) ≡ ok (rc, s))
unfolding initialize is_rlerror build_tversion end_message put_string put_u32 begin_message
    parse_rversion reset_read_offset get_string u16_of bytes_eq build_tattach parse_rattach get_qid
steady-ends tag device = (0, _, refl)

abbrev begin : Server ℕ Told
begin = record { session = init 0; g_session = false; process = record { sent = []; left = 2 } }

run_with-Outcome_example :
    (exit : Exit) × (m' : Server ℕ Told) × (run_with desk posix daemon (λ kind. steady) 3 begin
      ≡ ok (exit, m'))
    × Outcome (λ p. p.sent) (λ p. p.left) desk desk-Orderly posix daemon 2 exit m'
run_with-Outcome_example =
    run_with-Outcome (λ p. p.sent) (λ p. p.left) desk desk-Orderly posix daemon (λ kind. steady)
      steady-ends 2 3 begin (refl, omega arith) (omega arith)
