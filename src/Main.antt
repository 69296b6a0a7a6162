-- ===== src/Main.antt =====
-- FsVirtio9pMain of resmgr/fs_virtio9p.cpp: the start of the server, its loop and its end. The table of
-- handlers that it fills is what dispatch_handler calls; the logging is left out.
pub mod Beginning
pub mod Handshake
use qnx_unit_tests.Base.{
  ℕ, zero, suc, List, [], ◌∷◌, Option, none, some, Bool, true, false, ◌!=◌, if◌then◌else◌, Result,
  ok, fault, stuck,
}
use qnx_unit_tests.Base.Proc.{Proc, update}
use qnx_unit_tests.Base.Run.{Run, give, lift, ◌>>=◌, ◌>>◌, ◌before◌}
use qnx_unit_tests.Transport.{Transport, Errno}
use qnx_unit_tests.Session.{Session, init, initialize}
use qnx_unit_tests.Args.{FsConfig, TransportKind, create_transport, parse_args, default_mount}

-- The process, with the transport and the session, and whether g_session points to it. Before the
-- session is made, only its `device`, which is the transport's state, counts.
pub record Server (S P : Type 0) : Type 0 where
  pub session : Session S
  pub g_session : Bool
  pub process : P

-- What fork answers.
pub data Fork : Type 0 where
  failed : Fork
  parent : Fork
  child : Fork

-- The calls of the system, over the state of the process; `false` is a failure. The pipe is
-- notify_fds.
pub record System (S P : Type 0) : Type 0 where
  pub pipe : P → Bool × P
  pub fork : P → Fork × P
  -- close of the end for writing, the read of a byte, if one comes, and close of the other end
  pub wait_for_child : P → Option ℕ × P
  -- close of the end for reading, and setsid
  pub detach : P → P
  -- the write of a byte, and close of the end for writing
  pub notify : ℕ → P → P
  pub thread_ctl : P → Bool × P
  pub dispatch_create : P → Bool × P
  pub resmgr_attach : List ℕ → P → Bool × P
  pub dispatch_context_alloc : P → Bool × P
  pub dispatch_block : P → Bool × P
  -- dispatch_handler, which calls the handlers
  pub dispatch_handler : Server S P → Result (Unit {0} × Server S P)

-- How the process ends: main returns a code, or the parent exits with a status.
pub data Exit : Type 0 where
  returns : ℕ → Exit
  parent_exits : ℕ → Exit

-- FsConfig config{}
abbrev pub default_config : FsConfig
default_config = record {
  mount_point = default_mount;
  transport_type = [];
  mmio_base = 0;
  irq = 0;
  daemonize = false;
}

module _ {S P : Type 0} where
  abbrev pub on_process : {A : Type 0} → (P → A × P) → Proc (Server S P) A
  on_process f m = ((f m.process).0, record m { process = (f m.process).1 })

  abbrev pub with_process : (P → P) → Proc (Server S P) (Unit {0})
  with_process f = update λ m. record m { process = f m.process }

  -- A call of the session.
  abbrev pub kept : {A : Type 0} → Result (A × Session S) → Run (Server S P) A
  kept (ok (a, s)) m = ok (a, record m { session = s })
  kept fault m = fault
  kept stuck m = stuck

module _ {S P : Type 0} (sys : System S P) (e : Errno) where
  module _ (config : FsConfig) where
    -- The answer of the child.
    abbrev pub status_of : Option ℕ → Exit
    status_of none = parent_exits 1
    status_of (some status) = parent_exits status

    abbrev pub forked : Fork → Run (Server S P) (Option Exit)
    forked failed = give (some (returns 1))
    forked parent = do status ← lift (on_process sys.wait_for_child); give (some (status_of status))
    forked child = do lift (with_process sys.detach); give none

    abbrev pub piped : Bool → Run (Server S P) (Option Exit)
    piped false = give (some (returns 1))
    piped true = do pid ← lift (on_process sys.fork); forked pid

    unfoldable pub daemonize : Run (Server S P) (Option Exit)
    daemonize =
        if config.daemonize then (do made ← lift (on_process sys.pipe); piped made) else give none

    -- The byte for the parent, if there is one.
    unfoldable pub notify_parent : ℕ → Proc (Server S P) (Unit {0})
    notify_parent status =
        if config.daemonize then with_process (sys.notify status) else (λ m. (tt, m))

    -- A step of the start that has failed.
    unfoldable pub start_failed : Run (Server S P) (Option Exit)
    unfolding notify_parent
    start_failed = do lift (notify_parent 1); give (some (returns 1))

    abbrev pub need : (P → Bool × P) → Run (Server S P) (Option Exit)
    need f = do done ← lift (on_process f); if done then give none else start_failed

    module _ (t : Transport S) where
      abbrev pub initialize_transport : Proc (Server S P) ℕ
      initialize_transport m =
          let (rc, device) = t.initialize m.session.device in
          (rc, record m { session = init device })

      -- The mount tag, which is empty where it cannot be read.
      abbrev pub read_mount_tag : Proc (Server S P) (List ℕ)
      read_mount_tag m =
          let (rc, tag, device) = t.get_mount_tag m.session.device in
          (if rc != 0 then [] else tag, record m { session = init device })

      abbrev pub initialize_session : List ℕ → Run (Server S P) ℕ
      initialize_session tag m = kept (initialize t e tag m.session) m

      abbrev pub set_session : Bool → Proc (Server S P) (Unit {0})
      set_session b = update λ m. record m { g_session = b }

      unfoldable pub start_transport : Run (Server S P) (Option Exit)
      unfolding start_failed
      start_transport = do
        rc ← lift initialize_transport
        if rc != 0 then start_failed else give none

      unfoldable pub start_session : Run (Server S P) (Option Exit)
      unfolding start_failed initialize
      start_session = do
        tag ← lift read_mount_tag
        rc ← initialize_session tag
        if rc != 0 then start_failed else (do lift (set_session true); give none)

      -- The start of the server, up to the first failure.
      unfoldable pub start : Run (Server S P) (Option Exit)
      unfolding start_transport start_session start_failed
      start =
          start_transport
          before start_session
          before need sys.dispatch_create
          before need (sys.resmgr_attach config.mount_point)
          before need sys.dispatch_context_alloc

      -- The loop, for at most so many messages.
      unfoldable pub dispatch_loop : ℕ → Run (Server S P) (Unit {0})
      dispatch_loop zero = λ m. stuck
      dispatch_loop (suc rounds) =
          let again : Run (Server S P) (Unit {0}) = dispatch_loop rounds in
          (do
            more ← lift (on_process sys.dispatch_block)
            if more then (do sys.dispatch_handler; again) else give tt)

      -- Shutdown, which the destructor of the transport calls too.
      abbrev pub shut_down : Proc (Server S P) (Unit {0})
      shut_down =
          update
            λ m. record m { session = record m.session { device = t.shutdown m.session.device } }

      unfoldable pub serve : ℕ → Run (Server S P) Exit
      unfolding notify_parent dispatch_loop
      serve rounds = do
        lift (notify_parent 0)
        dispatch_loop rounds
        lift (set_session false)
        lift shut_down
        give (returns 0)

      abbrev pub serve_unless : ℕ → Option Exit → Run (Server S P) Exit
      serve_unless rounds (some exit) = give exit
      serve_unless rounds none = serve rounds

      -- What follows CreateTransport, with the end of its scope.
      unfoldable pub with_transport : ℕ → Run (Server S P) Exit
      unfolding start serve
      with_transport rounds = do
        early ← start
        exit ← serve_unless rounds early
        lift shut_down
        give exit

    abbrev pub continue_unless : Run (Server S P) Exit → Option Exit → Run (Server S P) Exit
    continue_unless rest (some exit) = give exit
    continue_unless rest none = rest

    -- What the process does with its arguments parsed.
    unfoldable pub run_with : (TransportKind → Transport S) → ℕ → Run (Server S P) Exit
    unfolding daemonize start_failed with_transport create_transport
    run_with transports rounds = do
      early ← daemonize before need sys.thread_ctl
      continue_unless (with_transport (transports (create_transport config)) rounds) early

  -- The transports, and a bound on the messages of the loop.
  unfoldable pub fs_virtio9p_main :
      (List ℕ → ℕ)
      → (List ℕ → ℕ)
      → (TransportKind → Transport S)
      → ℕ
      → List (List ℕ)
      → Run (Server S P) Exit
  unfolding run_with parse_args
  fs_virtio9p_main strtoull strtoul transports rounds args =
      let (rc, config) = parse_args strtoull strtoul args default_config in
      if rc != 0 then give (returns 1) else run_with config transports rounds
