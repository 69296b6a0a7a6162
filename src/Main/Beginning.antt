-- ===== src/Main/Beginning.antt =====
-- The start of the server in FsVirtio9pMain of resmgr/fs_virtio9p.cpp, and what it writes to the pipe.
use qnx_unit_tests.Base.{
  ℕ, ◌≤◌, ◌<◌, List, [], ◌∷◌, ◌++◌, Option, none, some, Bool, true, false, ◌≡◌, refl, ap, ◌∙◌,
  arith, ◌!=◌, if◌then◌else◌, Result, ok, fault, stuck,
}
use qnx_unit_tests.Base.Proc.{Gives}
use qnx_unit_tests.Base.Run.{lift}
use qnx_unit_tests.Base.Total.{
  Returned, Returns, give-Returns, lift-Returns, bind-Returns, if-Returns, early-Returns,
}
use qnx_unit_tests.Transport.{Transport, Errno}
use qnx_unit_tests.Session.{Session, init, initialize}
use qnx_unit_tests.Args.{FsConfig}
use qnx_unit_tests.Main.{
  Server, System, Exit, returns, on_process, with_process, notify_parent, start_failed, need,
  initialize_transport, read_mount_tag, initialize_session, kept, set_session, start_transport,
  start_session, start,
}

-- A call that does not write to the pipe, and takes no message.
abbrev pub Quiet : {P : Type 0} → (P → List ℕ) → (P → ℕ) → {A : Type 0} → (P → A × P) → Type 0
Quiet {P} sent left f = (p : P) → (sent (f p).1 ≡ sent p) × (left (f p).1 ≡ left p)

-- What the process has written to the pipe, and how many messages are still to come.
module _ {S P : Type 0} (sent : P → List ℕ) (left : P → ℕ) where
  -- Only `notify` writes to the pipe, a message that is there makes dispatch_block go on and is one less
  -- to come, and every handler comes to its end.
  pub record Orderly (sys : System S P) : Type 0 where
    pub notify_sends :
        (v : ℕ) (p : P)
        → (sent (sys.notify v p) ≡ sent p ++ (v ∷ [])) × (left (sys.notify v p) ≡ left p)
    pub pipe_quiet : Quiet sent left sys.pipe
    pub fork_quiet : Quiet sent left sys.fork
    pub wait_quiet : Quiet sent left sys.wait_for_child
    pub detach_quiet : (p : P) → (sent (sys.detach p) ≡ sent p) × (left (sys.detach p) ≡ left p)
    pub thread_ctl_quiet : Quiet sent left sys.thread_ctl
    pub create_quiet : Quiet sent left sys.dispatch_create
    pub attach_quiet : (path : List ℕ) → Quiet sent left (sys.resmgr_attach path)
    pub alloc_quiet : Quiet sent left sys.dispatch_context_alloc
    pub block_sends : (p : P) → sent (sys.dispatch_block p).1 ≡ sent p
    pub block_takes :
        (p : P) → (sys.dispatch_block p).0 ≡ true → left (sys.dispatch_block p).1 < left p
    pub handles :
        (m : Server S P)
        → (m' : Server S P) × (sys.dispatch_handler m ≡ ok (tt, m'))
          × (sent m'.process ≡ sent m.process)
          × (left m'.process ≤ left m.process)

  module _ (sys : System S P) (orderly : Orderly sys) (e : Errno) (config : FsConfig) (n : ℕ) where
    -- What has been written, when at most `n` messages are to come.
    abbrev pub Told : List ℕ → Server S P → Type 0
    Told bs m = (sent m.process ≡ bs) × (left m.process ≤ n)

    -- What the parent is told: the status, if there is a parent.
    abbrev pub word : ℕ → List ℕ
    word status = if config.daemonize then status ∷ [] else []

    -- After a step of the start: nothing has been said, or main returns 1 and the parent knows.
    abbrev pub Started : Option Exit → Server S P → Type 0
    Started none m = Told [] m
    Started (some exit) m = (exit ≡ returns 1) × Told (word 1) m

    notify_if-Told :
        (b : Bool) (status : ℕ) (m : Server S P)
        → Told [] m
        → Told
            (if b then status ∷ [] else [])
            ((if b then with_process (sys.notify status) else (λ m'. (tt, m'))) m).1
    notify_if-Told true status m p =
        let (said, same) = orderly.notify_sends status m.process in
        (said ∙ ap (λ bs. bs ++ (status ∷ [])) p.0, omega (arith, same, p.1))
    notify_if-Told false status m p = p

    pub notify_parent-Told :
        (status : ℕ) → Gives (Told []) (λ _. Told (word status)) (notify_parent sys e config status)
    unfolding notify_parent
    notify_parent-Told status = record { run = λ m p. notify_if-Told config.daemonize status m p }

    pub start_failed-Started : Returns (Told []) Started (start_failed sys e config)
    unfolding start_failed
    start_failed-Started =
        bind-Returns (lift-Returns (notify_parent-Told 1))
          λ _. give-Returns (some (returns 1)) λ m p. (refl, p)

    pub on_process-Told :
        {A : Type 0} (bs : List ℕ) (f : P → A × P)
        → Quiet sent left f
        → Returns (Told bs) (λ _. Told bs) (lift (on_process f))
    on_process-Told bs f quiet = record {
      run = λ m p. let (same, less) = quiet m.process in (same ∙ p.0, omega (arith, less, p.1));
    }

    pub need-Started :
        (f : P → Bool × P) → Quiet sent left f → Returns (Told []) Started (need sys e config f)
    need-Started f quiet =
        bind-Returns (on_process-Told [] f quiet)
          λ done. if-Returns done (give-Returns none λ m p. p) start_failed-Started

    module _ (t : Transport S)
        (session_ends : (tag : List ℕ) (device : S)
          → (rc : ℕ) × (s : Session S) × (initialize t e tag (init device) ≡ ok (rc, s))) where
      start_transport-Started : Returns (Told []) Started (start_transport sys e config t)
      unfolding start_transport
      start_transport-Started =
          bind-Returns {Q = λ _. Told []} {m = lift (initialize_transport sys e config t)}
            (record { run = λ m p. p })
            λ rc. if-Returns (rc != 0) start_failed-Started (give-Returns none λ m p. p)

      kept-Returned :
          (r : Result (ℕ × Session S)) (m : Server S P) (rc : ℕ) (s : Session S)
          → r ≡ ok (rc, s)
          → Told [] m
          → Returned (λ _. Told []) (kept r m)
      kept-Returned (ok (rc', s')) m rc s h p = p
      kept-Returned fault m rc s h p = cc
      kept-Returned stuck m rc s h p = cc

      -- The session has just been made.
      abbrev Fresh : Server S P → Type 0
      Fresh m = Told [] m × (device : S) × (m.session ≡ init device)

      start_session-Started : Returns (Told []) Started (start_session sys e config t)
      unfolding start_session
      start_session-Started =
          bind-Returns {Q = λ _. Fresh} {m = lift (read_mount_tag sys e config t)}
            (record { run = λ m p. (p, (t.get_mount_tag m.session.device).2, refl) })
            λ tag.
              bind-Returns {Q = λ _. Told []} {m = initialize_session sys e config t tag}
                (record {
                  run = λ m p.
                      let (rc, s, ends) = session_ends tag p.1 in
                      kept-Returned (initialize t e tag m.session) m rc s
                        (ap (initialize t e tag) p.2 ∙ ends) p.0;
                })
                λ rc. if-Returns (rc != 0) start_failed-Started (
                  bind-Returns {Q = λ _. Told []} {m = lift (set_session sys e config t true)}
                    (record { run = λ m p. p }) λ _. give-Returns none λ m p. p)

      pub start-Started : Returns (Told []) Started (start sys e config t)
      unfolding start
      start-Started = early-Returns start_transport-Started (
          early-Returns start_session-Started (
            early-Returns (need-Started sys.dispatch_create orderly.create_quiet) (
              early-Returns
                (need-Started (sys.resmgr_attach config.mount_point)
                  (orderly.attach_quiet config.mount_point))
                (need-Started sys.dispatch_context_alloc orderly.alloc_quiet))))
