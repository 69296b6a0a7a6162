-- ===== src/Main/Handshake.antt =====
-- What FsVirtio9pMain of resmgr/fs_virtio9p.cpp tells the process that has started it.
use qnx_unit_tests.Base.{
  ℕ, zero, suc, ◌≤◌, ◌<◌, List, [], Option, none, some, Bool, true, false, ◌≡◌, refl, ◌∙◌, ◌⊎◌, inl,
  inr, arith, ok,
}
use qnx_unit_tests.Base.Run.{Run, lift, ◌>>◌, ◌before◌}
use qnx_unit_tests.Base.Total.{
  Returns, give-Returns, lift-Returns, bind-Returns, cases-Returns, early-Returns, weaken-Returns,
  Returned-ok,
}
use qnx_unit_tests.Transport.{Transport, Errno}
use qnx_unit_tests.Session.{Session, init, initialize}
use qnx_unit_tests.Args.{FsConfig, TransportKind, create_transport}
use qnx_unit_tests.Main.{
  Server, Fork, failed, parent, child, System, Exit, returns, parent_exits, on_process, status_of,
  forked, piped, daemonize, need, set_session, dispatch_loop, shut_down, serve, serve_unless,
  with_transport, continue_unless, run_with,
}
use qnx_unit_tests.Main.Beginning.{
  Orderly, Told, word, Started, notify_parent-Told, on_process-Told, need-Started, start-Started,
}

-- What the process has written to the pipe, and how many messages are still to come.
module _ {S P : Type 0} (sent : P → List ℕ) (left : P → ℕ) where
  module _ (sys : System S P) (orderly : Orderly sent left sys) (e : Errno) (config : FsConfig)
      (n : ℕ) where
    -- The end of a process that serves.
    abbrev pub Finished : Exit → Server S P → Type 0
    Finished exit m =
        ((exit ≡ returns 1) × (sent m.process ≡ word sent left sys orderly e config n 1))
        ⊎ ((exit ≡ returns 0) × (sent m.process ≡ word sent left sys orderly e config n 0))

    module _ (t : Transport S)
        (session_ends : (tag : List ℕ) (device : S)
          → (rc : ℕ) × (s : Session S) × (initialize t e tag (init device) ≡ ok (rc, s))) where
      -- The state behind dispatch_block, when at most `l` messages were to come.
      abbrev Blocked : List ℕ → ℕ → Bool → Server S P → Type 0
      Blocked bs l more m = (sent m.process ≡ bs) × (more ≡ true → left m.process < l)

      block-Blocked :
          (bs : List ℕ) (l : ℕ)
          → Returns
              (λ m. (sent m.process ≡ bs) × (left m.process ≤ l))
              (Blocked bs l)
              (lift (on_process sys.dispatch_block))
      block-Blocked bs l = record {
        run = λ m p. (
          orderly.block_sends m.process ∙ p.0,
          λ more. omega (arith, orderly.block_takes m.process more, p.1),
        );
      }

      dispatch_loop-Said :
          (bs : List ℕ) (rounds l : ℕ)
          → l < rounds
          → Returns
              (λ m. (sent m.process ≡ bs) × (left m.process ≤ l))
              (λ _ m. sent m.process ≡ bs)
              (dispatch_loop sys e config t rounds)
      unfolding dispatch_loop
      dispatch_loop-Said bs zero l h = absurd (omega arith)
      dispatch_loop-Said bs (suc rounds) l h = bind-Returns (block-Blocked bs l) λ more.
          cases-Returns {m = sys.dispatch_handler >> dispatch_loop sys e config t rounds} more
            (λ is. record {
              run = λ m p.
                  let (m', ends, same, less) = orderly.handles m in
                  let fewer : left m.process < l = p.1 is in
                  rw ends (
                    (dispatch_loop-Said bs rounds (left m.process) (omega (arith, h, fewer))).run m'
                      (same ∙ p.0, less));
            })
            λ over. give-Returns tt λ m p. p.0

      serve-Finished :
          (rounds : ℕ)
          → n < rounds
          → Returns
              (Told sent left sys orderly e config n [])
              Finished
              (serve sys e config t rounds)
      unfolding serve
      serve-Finished rounds h =
          bind-Returns (lift-Returns (notify_parent-Told sent left sys orderly e config n 0)) λ _.
            bind-Returns (dispatch_loop-Said (word sent left sys orderly e config n 0) rounds n h)
              λ _.
                bind-Returns {Q = λ _ m. sent m.process ≡ word sent left sys orderly e config n 0}
                  {m = lift (set_session sys e config t false)} (record { run = λ m p. p })
                  λ _.
                    bind-Returns
                      {Q = λ _ m. sent m.process ≡ word sent left sys orderly e config n 0}
                      {m = lift (shut_down sys e config t)} (record { run = λ m p. p })
                      λ _. give-Returns (returns 0) λ m p. inr (refl, p)

      serve_unless-Finished :
          (rounds : ℕ) (early : Option Exit)
          → n < rounds
          → Returns
              (Started sent left sys orderly e config n early)
              Finished
              (serve_unless sys e config t rounds early)
      serve_unless-Finished rounds (some exit) h = give-Returns exit λ m p. inl (p.0, p.1.0)
      serve_unless-Finished rounds none h = serve-Finished rounds h

      pub with_transport-Finished :
          (rounds : ℕ)
          → n < rounds
          → Returns
              (Told sent left sys orderly e config n [])
              Finished
              (with_transport sys e config t rounds)
      unfolding with_transport
      with_transport-Finished rounds h =
          bind-Returns (start-Started sent left sys orderly e config n t session_ends) λ early.
            bind-Returns (serve_unless-Finished rounds early h) λ exit.
              bind-Returns {Q = λ _. Finished exit} {m = lift (shut_down sys e config t)}
                (record { run = λ m p. p }) λ _. give-Returns exit λ m p. p

    -- The end of a process that does not serve: no child was made, or this is the parent.
    abbrev pub Aside : Exit → Server S P → Type 0
    Aside exit m =
        (sent m.process ≡ []) × ((exit ≡ returns 1) ⊎ ((status : ℕ) × (exit ≡ parent_exits status)))

    -- How main may end.
    abbrev pub Outcome : Exit → Server S P → Type 0
    Outcome exit m = Finished exit m ⊎ ((config.daemonize ≡ true) × Aside exit m)

    -- After a step before the transport is made.
    abbrev Prepared : Option Exit → Server S P → Type 0
    Prepared none m = Told sent left sys orderly e config n [] m
    Prepared (some exit) m = Outcome exit m

    status_of-Aside :
        (o : Option ℕ) (m : Server S P)
        → Told sent left sys orderly e config n [] m
        → Aside (status_of sys e config o) m
    status_of-Aside none m p = (p.0, inr (1, refl))
    status_of-Aside (some status) m p = (p.0, inr (status, refl))

    forked-Prepared :
        config.daemonize ≡ true
        → (o : Fork)
        → Returns (Told sent left sys orderly e config n []) Prepared (forked sys e config o)
    forked-Prepared d failed = give-Returns (some (returns 1)) λ m p. inr (d, (p.0, inl refl))
    forked-Prepared d parent =
        bind-Returns
          (on_process-Told sent left sys orderly e config n [] sys.wait_for_child
            orderly.wait_quiet)
          λ status.
            give-Returns (some (status_of sys e config status))
              λ m p. inr (d, status_of-Aside status m p)
    forked-Prepared d child = record {
      run = λ m p.
          let (same, less) = orderly.detach_quiet m.process in
          (same ∙ p.0, omega (arith, less, p.1));
    }

    piped-Prepared :
        config.daemonize ≡ true
        → (made : Bool)
        → Returns (Told sent left sys orderly e config n []) Prepared (piped sys e config made)
    piped-Prepared d false = give-Returns (some (returns 1)) λ m p. inr (d, (p.0, inl refl))
    piped-Prepared d true =
        bind-Returns
          (on_process-Told sent left sys orderly e config n [] sys.fork orderly.fork_quiet)
          (forked-Prepared d)

    daemonize-Prepared :
        Returns (Told sent left sys orderly e config n []) Prepared (daemonize sys e config)
    unfolding daemonize
    daemonize-Prepared =
        cases-Returns config.daemonize
          (λ d.
            bind-Returns
              (on_process-Told sent left sys orderly e config n [] sys.pipe orderly.pipe_quiet)
              (piped-Prepared d))
          λ no. give-Returns none λ m p. p

    Started-Prepared :
        (o : Option Exit) (m : Server S P)
        → Started sent left sys orderly e config n o m
        → Prepared o m
    Started-Prepared none m p = p
    Started-Prepared (some exit) m p = inl (inl (p.0, p.1.0))

    prepare-Prepared :
        Returns
          (Told sent left sys orderly e config n [])
          Prepared
          (daemonize sys e config before need sys e config sys.thread_ctl)
    prepare-Prepared = early-Returns daemonize-Prepared (
        weaken-Returns Started-Prepared
          (need-Started sent left sys orderly e config n sys.thread_ctl orderly.thread_ctl_quiet))

    continue_unless-Outcome :
        (rest : Run (Server S P) Exit) (early : Option Exit)
        → Returns (Told sent left sys orderly e config n []) Finished rest
        → Returns (Prepared early) Outcome (continue_unless sys e config rest early)
    continue_unless-Outcome rest (some exit) h = give-Returns exit λ m p. p
    continue_unless-Outcome rest none h = weaken-Returns (λ exit m p. inl p) h

module _ {S P : Type 0} (sent : P → List ℕ) (left : P → ℕ) (sys : System S P)
    (orderly : Orderly sent left sys) (e : Errno) (config : FsConfig)
    (transports : TransportKind → Transport S)
    (session_ends : (tag : List ℕ) (device : S)
      → (rc : ℕ) × (s : Session S) × (initialize
            (transports (create_transport config))
            e
            tag
            (init device)
          ≡ ok (rc, s))) where
  -- Where only `notify` writes to the pipe, every handler and the session's Initialize come to their end,
  -- at most `n` messages are to come and nothing has been written: within more than `n` rounds of the loop
  -- main ends. A process that serves returns 1 after it has written the byte 1 once, or 0 after it has
  -- written the byte 0 once, where it is the child of one that waits, and writes nothing else. With the
  -- option -d it may also be that the pipe or the child could not be made, when 1 is returned, or that it
  -- is the parent, which exits; then nothing is written.
  pub run_with-Outcome :
      (n rounds : ℕ) (m : Server S P)
      → Told sent left sys orderly e config n [] m
      → n < rounds
      → (exit : Exit) × (m' : Server S P) × (run_with sys e config transports rounds m
          ≡ ok (exit, m'))
        × Outcome sent left sys orderly e config n exit m'
  unfolding run_with
  run_with-Outcome n rounds m p h =
      let t = transports (create_transport config) in
      Returned-ok (run_with sys e config transports rounds m) (
        (bind-Returns {f = continue_unless sys e config (with_transport sys e config t rounds)}
            (prepare-Prepared sent left sys orderly e config n)
            λ early.
              continue_unless-Outcome sent left sys orderly e config n
                (with_transport sys e config t rounds) early
                (with_transport-Finished sent left sys orderly e config n t session_ends rounds
                  h)).run
          m p)
