-- ===== src/Pci/Life.antt =====
-- The life of the transport of transport/pci_transport.cpp: Initialize, then exchanges, resets and
-- readings of the tag in any order and with any outcome, and Shutdown at the end.
use qnx_unit_tests.Base.{
  ℕ, zero, suc, ◌+◌, ◌*◌, ◌%◌, ◌^◌, List, Option, none, some, Bool, true, false, ◌≡◌, refl, ap,
  subst, ◌∙◌, arith, ◌!=◌, if◌then◌else◌, ok,
}
use qnx_unit_tests.Base.Proc.{done, Gives, done-Gives, bind-Gives, if-Gives}
use qnx_unit_tests.Base.Run.{Run, give, lift, After, give-Ends, lift-Ends, bind-Ends, if-Ends}
use qnx_unit_tests.Transport.{Errno, is_negative}
use qnx_unit_tests.Virtqueue.Mappings.{held}
use qnx_unit_tests.Machine.{Machine}
use qnx_unit_tests.Link.{Driver}
use qnx_unit_tests.Link.Balance.{Accounts, AnyLink, NoRequest, call-Keeps}
use qnx_unit_tests.Link.Books.{done-Keeps}
use qnx_unit_tests.Link.Tag.{read_tag-live}
use qnx_unit_tests.Link.Traffic.{Trip, look-Trip, spin-Trip, exchange_with-Trip}
use qnx_unit_tests.Pci.{Pci}
use qnx_unit_tests.Pci.Bus.{Bus}
use qnx_unit_tests.Pci.Discover.{discover_device}
use qnx_unit_tests.Pci.Start.{reset_device, shutdown, give_up, bring_up, initialize}
use qnx_unit_tests.Pci.Traffic.{
  notify_at, notify, unmask, read_isr_at, read_isr, await_pulse, drain, gave_up, timed_out,
  after_pulse, wait_loop, wait_for_completion, exchange, tag_at, get_mount_tag,
}
use qnx_unit_tests.Pci.Balance.{own_held, Books, Keeps, initialize_device-Books}
use qnx_unit_tests.Pci.Find.{BusAccounts}
use qnx_unit_tests.Pci.Stages.{idle-held, Idle, discover_device-Ends}
use qnx_unit_tests.Pci.Release.{reset_device-Books, shutdown-Idle}

module _ {W : Type 0} (live : W → ℕ) (k : Machine W) (accounts : Accounts live k) (n : ℕ) where
  abbrev PciTrip : {A : Type 0} → Run (Driver Pci W) A → Type 0
  PciTrip m = Trip live own_held n m

  give-Trip : {A : Type 0} (a : A) → PciTrip (give a)
  give-Trip a = give-Ends a λ s p. p

  read_isr_at-Keeps : (o : Option ℕ) (b : Bool) → Keeps live n AnyLink (read_isr_at k o b)
  read_isr_at-Keeps (some isr) false =
      call-Keeps live own_held n 0 AnyLink (λ w. (tt, (k.load 8 isr w).1))
        (accounts.load_counts 8 isr)
  read_isr_at-Keeps (some isr) true = done-Keeps live own_held n AnyLink tt
  read_isr_at-Keeps none b = done-Keeps live own_held n AnyLink tt

  read_isr-Trip : PciTrip (lift (read_isr k))
  unfolding read_isr
  read_isr-Trip = record { run = λ d p. (read_isr_at-Keeps d.own.isr_cfg d.own.use_msix).run d p }

  unmask-Keeps : Keeps live n AnyLink (unmask k)
  unmask-Keeps = record {
    run = λ d p. (accounts.unmask_counts d.own.irq_num d.link.irq_id d.world ∙ p.0, tt);
  }

  await_pulse-Keeps : (ns : ℕ) → Keeps live n AnyLink (await_pulse k ns)
  await_pulse-Keeps ns = record {
    run = λ d p. (accounts.pulse_counts d.link.chid ns d.world ∙ p.0, tt);
  }

  drain-Trip : (out : ℕ) → PciTrip (drain k out)
  unfolding drain
  drain-Trip out = bind-Ends read_isr-Trip λ _. bind-Ends (lift-Ends (await_pulse-Keeps 0)) λ got.
      bind-Ends (lift-Ends (if-Gives got unmask-Keeps (done-Keeps live own_held n AnyLink tt)))
        λ _. give-Trip (0, out)

  timed_out-Trip : (fuel out : ℕ) → PciTrip (timed_out k fuel out)
  unfolding timed_out
  timed_out-Trip fuel out = bind-Ends (look-Trip live own_held n k accounts fuel out) λ (r : ℕ × ℕ).
      if-Ends {m = gave_up k r.1} (is_negative r.0) (record { run = λ d p. p }) (give-Trip (0, r.1))

  after_pulse-Trip :
      (fuel out : ℕ) (again : ℕ → Run (Driver Pci W) (ℕ × ℕ))
      → ((out : ℕ) → PciTrip (again out))
      → PciTrip (after_pulse k fuel out again)
  unfolding after_pulse
  after_pulse-Trip fuel out again h = bind-Ends (lift-Ends unmask-Keeps) λ _.
      bind-Ends (look-Trip live own_held n k accounts fuel out) λ (r : ℕ × ℕ).
        if-Ends (is_negative r.0)
          (bind-Ends (spin-Trip live own_held n k accounts fuel 100 r.1)
            λ (s : ℕ × ℕ). if-Ends (is_negative s.0) (h s.1) (give-Trip (0, s.1)))
          (give-Trip (0, r.1))

  wait_loop-Trip : (fuel rounds out : ℕ) → PciTrip (wait_loop k fuel rounds out)
  unfolding wait_loop
  wait_loop-Trip fuel zero out = record { run = λ d p. tt }
  wait_loop-Trip fuel (suc rounds) out =
      bind-Ends (lift-Ends (await_pulse-Keeps 30000000000)) λ got. bind-Ends read_isr-Trip λ _.
        if-Ends got (after_pulse-Trip fuel out _ (wait_loop-Trip fuel rounds))
          (timed_out-Trip fuel out)

  wait_for_completion-Trip : (fuel rounds : ℕ) → PciTrip (wait_for_completion k fuel rounds)
  unfolding wait_for_completion
  wait_for_completion-Trip fuel rounds =
      bind-Ends (look-Trip live own_held n k accounts fuel 0)
        λ (r : ℕ × ℕ). if-Ends (is_negative r.0) (wait_loop-Trip fuel rounds r.1) (drain-Trip r.1)

  notify_at-Keeps : (o : Option ℕ) (offset : ℕ) → Keeps live n AnyLink (notify_at k o offset)
  notify_at-Keeps none offset = done-Keeps live own_held n AnyLink tt
  notify_at-Keeps (some base) offset =
      call-Keeps live own_held n 0 AnyLink (λ w. (tt, k.store 16 (base + offset % 2 ^ 32) 0 w))
        (accounts.store_counts 16 (base + offset % 2 ^ 32) 0)

  notify-Trip : PciTrip (lift (notify k))
  unfolding notify
  notify-Trip = record {
    run = λ d p.
        (notify_at-Keeps d.own.notify_base
            (d.own.queue_notify_off * d.own.notify_offset_multiplier)).run
          d p;
  }

  module _ (e : Errno) where
    exchange-Trip :
        (fuel rounds : ℕ) (request : List ℕ) → PciTrip (exchange k e fuel rounds request)
    unfolding exchange
    exchange-Trip fuel rounds request =
        exchange_with-Trip live own_held n e (notify k) (wait_for_completion k fuel rounds)
          (reset_device k e) notify-Trip (wait_for_completion-Trip fuel rounds)
          (lift-Ends (reset_device-Books live k accounts n e)) request

    tag_at-live : (einval : ℕ) (o : Option ℕ) (w : W) → live (tag_at k e einval o w).1 ≡ live w
    tag_at-live einval none w = refl
    tag_at-live einval (some at) w = read_tag-live live k accounts einval at w

    get_mount_tag-Books :
        (d : Driver Pci W) → Books live n AnyLink d → Books live n AnyLink (get_mount_tag k e d).1
    unfolding get_mount_tag
    get_mount_tag-Books d p = (tag_at-live e.einval d.own.device_cfg d.world ∙ p.0, tt)

    module _ (bus : Bus W) (bus_accounts : BusAccounts live bus) where
      Idle-Books : (d : Driver Pci W) → live d.world ≡ n → Idle d → Books live n AnyLink d
      Idle-Books d same idle =
          (omega (arith, same, idle.0, ap held idle.1, idle-held d.link idle.2 idle.3), tt)

      give_up-Books :
          (rc : ℕ) → Gives (Books live n AnyLink) (λ _. Books live n AnyLink) (give_up k bus rc)
      give_up-Books rc =
          if-Gives (rc != 0)
            (bind-Gives {f = λ _. done rc} (shutdown-Idle live k accounts n bus bus_accounts)
              λ _. done-Gives rc λ d p. Idle-Books d p.0 p.1)
            (done-Keeps live own_held n AnyLink 0)

      initialize-Books :
          (d : Driver Pci W)
          → Books live n NoRequest d
          → d.own.pci_handle ≡ none
          → After (λ _. Books live n AnyLink) (initialize k bus e d)
      unfolding initialize
      initialize-Books d p free =
          (bind-Ends {m = discover_device k bus e}
              {f = λ rc. if rc != 0 then give rc else lift (bring_up k bus e)}
              (discover_device-Ends live k accounts bus bus_accounts e n NoRequest)
              λ rc.
                if-Ends {Q = λ _. Books live n AnyLink} (rc != 0) (give-Ends rc λ s q. (q.0, tt)) (
                  lift-Ends
                    (bind-Gives (initialize_device-Books live k accounts n e) give_up-Books))).run
            d (p, free)

module _ {W : Type 0} (k : Machine W) (bus : Bus W) (e : Errno) where
  -- A state of the transport that was in the first state before Initialize, whatever that returned.
  pub data Life : Driver Pci W → Driver Pci W → Type 0 where
    begun : (rc : ℕ) (d d' : Driver Pci W) → initialize k bus e d ≡ ok (rc, d') → Life d d'
    was_reset : (d d' : Driver Pci W) → Life d d' → Life d (reset_device k e d').1
    tagged : (d d' : Driver Pci W) → Life d d' → Life d (get_mount_tag k e d').1
    exchanged :
        (fuel rounds : ℕ) (request : List ℕ) (r : ℕ × List ℕ) (d d' d'' : Driver Pci W)
        → Life d d'
        → exchange k e fuel rounds request d' ≡ ok (r, d'')
        → Life d d''

module _ {W : Type 0} (live : W → ℕ) (k : Machine W) (accounts : Accounts live k) (bus : Bus W)
    (bus_accounts : BusAccounts live bus) (e : Errno) where
  Life-Books :
      (d d' : Driver Pci W) → Idle d → Life k bus e d d' → Books live (live d.world) AnyLink d'
  Life-Books d d' idle (begun rc _ _ ends) =
      subst (After (λ _. Books live (live d.world) AnyLink)) ends (
        initialize-Books live k accounts (live d.world) e bus bus_accounts d
          (omega (arith, idle.0, ap held idle.1, idle-held d.link idle.2 idle.3), idle.3) idle.1)
  Life-Books d _ idle (was_reset _ d' life) =
      (reset_device-Books live k accounts (live d.world) e).run d' (Life-Books d d' idle life)
  Life-Books d _ idle (tagged _ d' life) =
      get_mount_tag-Books live k accounts (live d.world) e d' (Life-Books d d' idle life)
  Life-Books d _ idle (exchanged fuel rounds request r _ d' d'' life ends) =
      subst (After (λ _. Books live (live d.world) AnyLink)) ends (
        (exchange-Trip live k accounts (live d.world) e fuel rounds request).run d'
          (Life-Books d d' idle life))

  -- The transport starts with nothing. Whatever Initialize returned and however it lives then, Shutdown
  -- at the end leaves the kernel with as many mappings, channels, connections, interrupts and holds on a
  -- device as there were before Initialize, and the transport with none.
  pub pci_shutdown-Life :
      (d d' : Driver Pci W)
      → Idle d
      → Life k bus e d d'
      → (live (shutdown k bus d').1.world ≡ live d.world) × Idle (shutdown k bus d').1
  pci_shutdown-Life d d' idle life =
      (shutdown-Idle live k accounts (live d.world) bus bus_accounts).run d'
        (Life-Books d d' idle life)
