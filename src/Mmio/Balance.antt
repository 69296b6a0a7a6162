-- ===== src/Mmio/Balance.antt =====
-- The kernel's resources through the life of the transport of transport/mmio_transport.cpp.
use qnx_unit_tests.Base.{
  ℕ, ◌+◌, ◌-◌, ◌%◌, ◌/◌, ◌^◌, Option, none, some, ◌≡◌, refl, ap, ◌∙◌, ◌⊎◌, arith, ◌==◌, ◌!=◌,
  bit_and, if◌then◌else◌,
}
use qnx_unit_tests.Base.Proc.{Proc, ◌>>◌, Gives, bind-Gives, update-Gives, if-Gives}
use qnx_unit_tests.Registers.{
  version_reg, device_features_reg, device_features_sel_reg, driver_features_reg,
  driver_features_sel_reg, guest_page_size_reg, queue_sel_reg, queue_num_max_reg, queue_num_reg,
  queue_align_reg, queue_pfn_reg, queue_ready_reg, status_reg, queue_desc_low_reg,
  queue_desc_high_reg, queue_avail_low_reg, queue_avail_high_reg, queue_used_low_reg,
  queue_used_high_reg, status_acknowledge, status_driver, status_driver_ok, status_features_ok,
  status_failed,
}
use qnx_unit_tests.Transport.{Errno, neg32}
use qnx_unit_tests.Virtqueue.{get_desc_addr, get_avail_addr, get_used_addr}
use qnx_unit_tests.Virtqueue.Initialize.{initialize_legacy, initialize_modern}
use qnx_unit_tests.Virtqueue.Mappings.{held, initialize_legacy-Balanced, initialize_modern-Balanced}
use qnx_unit_tests.Machine.{Machine}
use qnx_unit_tests.Link.{Link, Driver}
use qnx_unit_tests.Link.Balance.{Accounts, AnyLink, NoRequest, Blind, Stage, queue_held, link_held}
use qnx_unit_tests.Link.Books.{
  Made, done-Keeps, get_addr-Keeps, set_own-Keeps, on_queue-Gives, replace_queue-Made,
}
use qnx_unit_tests.Mmio.{
  Mmio, load_at, store_at, unmap_regs, read_reg, write_reg, legacy_features, modern_features,
  negotiate_features, get_version, queue_size_of, start_legacy, start_modern, setup_virtqueue,
}

-- The register window that the transport holds.
abbrev pub regs_held : Mmio → ℕ
regs_held t = held t.regs

pub idle-held : (l : Link) → l.virtqueue ≡ none → NoRequest l → link_held l ≡ 0
idle-held l q (req, (resp, (chid, (coid, irq)))) =
    omega
      (arith, ap queue_held q, ap held req, ap held resp, ap held chid, ap held coid, ap held irq)

-- The transport holds nothing.
abbrev pub Idle : {W : Type 0} → Driver Mmio W → Type 0
Idle d = (d.own.regs ≡ none) × (d.link.virtqueue ≡ none) × NoRequest d.link

module _ {W : Type 0} (live : W → ℕ) where
  -- The books of a transport: `n` things of others and what it holds.
  abbrev pub Books : ℕ → (Link → Type 0) → Driver Mmio W → Type 0
  Books n I = Stage live regs_held n I

  abbrev pub Keeps : {A : Type 0} → ℕ → (Link → Type 0) → Proc (Driver Mmio W) A → Type 0
  Keeps n I m = Gives (Books n I) (λ _. Books n I) m

  -- How Initialize ends from a state with nothing of its own and `n` things of others: it returns 0 and
  -- the books are right, or it holds nothing.
  abbrev pub Ended : ℕ → ℕ → Driver Mmio W → Type 0
  Ended n rc d = ((rc ≡ 0) × Books n AnyLink d) ⊎ ((live d.world ≡ n) × Idle d)

  module _ (k : Machine W) (accounts : Accounts live k) where
    load_at-live : (o : Option ℕ) (offset : ℕ) (w : W) → live (load_at k o offset w).1 ≡ live w
    load_at-live none offset w = refl
    load_at-live (some regs) offset w = accounts.load_counts 32 (regs + offset) w

    store_at-live : (o : Option ℕ) (offset v : ℕ) (w : W) → live (store_at k o offset v w) ≡ live w
    store_at-live none offset v w = refl
    store_at-live (some regs) offset v w = accounts.store_counts 32 (regs + offset) v w

    pub unmap_regs-live :
        (o : Option ℕ) (size : ℕ) (w : W) → live (unmap_regs k o size w) ≡ live w - held o
    unmap_regs-live none size w = omega arith
    unmap_regs-live (some regs) size w = accounts.unmap_counts regs size w

    module _ (e : Errno) (n : ℕ) where
      module _ (I : Link → Type 0) where
        pub read_reg-Keeps : (offset : ℕ) → Keeps n I (read_reg k e offset)
        unfolding read_reg
        read_reg-Keeps offset = record {
          run = λ d p. (load_at-live d.own.regs offset d.world ∙ p.0, p.1);
        }

        pub write_reg-Keeps : (offset value : ℕ) → Keeps n I (write_reg k e offset value)
        unfolding write_reg
        write_reg-Keeps offset value =
            update-Gives _ λ d p. (store_at-live d.own.regs offset value d.world ∙ p.0, p.1)

        -- Two steps that keep the books, and a step and what uses its result.
        infixr 5 ◌then◌
        ◌then◌ :
            {B : Type 0} {l : Proc (Driver Mmio W) (Unit {0})} {m : Proc (Driver Mmio W) B}
            → Keeps n I l
            → Keeps n I m
            → Keeps n I (l >> m)
        a then b = bind-Gives a λ _. b

        legacy_features-Keeps : Keeps n I (legacy_features k e)
        unfolding legacy_features
        legacy_features-Keeps =
            write_reg-Keeps guest_page_size_reg 4096
            then write_reg-Keeps device_features_sel_reg 0
            then bind-Gives (read_reg-Keeps device_features_reg) λ f.
              write_reg-Keeps driver_features_sel_reg 0
              then write_reg-Keeps driver_features_reg (bit_and f 1)
              then done-Keeps live regs_held n I 0

        modern_features-Keeps : Keeps n I (modern_features k e)
        unfolding modern_features
        modern_features-Keeps =
            write_reg-Keeps device_features_sel_reg 0
            then bind-Gives (read_reg-Keeps device_features_reg) λ lo.
              write_reg-Keeps device_features_sel_reg 1
              then bind-Gives (read_reg-Keeps device_features_reg) λ hi.
                write_reg-Keeps driver_features_sel_reg 0
                then write_reg-Keeps driver_features_reg (bit_and lo 1)
                then write_reg-Keeps driver_features_sel_reg 1
                then write_reg-Keeps driver_features_reg (bit_and hi 1)
                then write_reg-Keeps status_reg
                    (status_acknowledge + status_driver + status_features_ok)
                then bind-Gives (read_reg-Keeps status_reg) λ s.
                  if-Gives (bit_and s status_features_ok == 0)
                    (write_reg-Keeps status_reg status_failed
                      then done-Keeps live regs_held n I (neg32 e.eio))
                    (done-Keeps live regs_held n I 0)

        pub negotiate_features-Keeps : Keeps n I (negotiate_features k e)
        unfolding negotiate_features
        negotiate_features-Keeps = bind-Gives (read_reg-Keeps version_reg) λ version.
            set_own-Keeps live regs_held n I (λ t. record t { mmio_version = version }) (λ t. refl)
            then write_reg-Keeps status_reg 0
            then write_reg-Keeps status_reg status_acknowledge
            then write_reg-Keeps status_reg (status_acknowledge + status_driver)
            then if-Gives (version == 1) legacy_features-Keeps modern_features-Keeps

        module _ (blind : Blind I) where
          start_legacy-Keeps :
              (size : ℕ) → Gives (Books n (Made I size)) (λ _. Books n I) (start_legacy k e size)
          unfolding start_legacy
          start_legacy-Keeps size =
              bind-Gives
                (on_queue-Gives live regs_held n I blind size (initialize_legacy k.platform e 4096)
                  λ w.
                    initialize_legacy-Balanced live k.platform accounts.platform_counts e 4096 size
                      w)
                λ rc. if-Gives (rc != 0) (done-Keeps live regs_held n I rc) (
                  write_reg-Keeps queue_num_reg size
                  then write_reg-Keeps queue_align_reg 4096
                  then bind-Gives (get_addr-Keeps live regs_held n I get_desc_addr) λ base.
                    write_reg-Keeps queue_pfn_reg ((base / 4096) % 2 ^ 32)
                    then write_reg-Keeps status_reg
                        (status_acknowledge + status_driver + status_driver_ok)
                    then done-Keeps live regs_held n I 0)

          start_modern-Keeps :
              (size : ℕ) → Gives (Books n (Made I size)) (λ _. Books n I) (start_modern k e size)
          unfolding start_modern
          start_modern-Keeps size =
              bind-Gives
                (on_queue-Gives live regs_held n I blind size (initialize_modern k.platform e)
                  λ w. initialize_modern-Balanced live k.platform accounts.platform_counts e size w)
                λ rc. if-Gives (rc != 0) (done-Keeps live regs_held n I rc) (
                  write_reg-Keeps queue_num_reg size
                  then bind-Gives (get_addr-Keeps live regs_held n I get_desc_addr) λ desc.
                    bind-Gives (get_addr-Keeps live regs_held n I get_avail_addr) λ avail.
                      bind-Gives (get_addr-Keeps live regs_held n I get_used_addr) λ used.
                        write_reg-Keeps queue_desc_low_reg (desc % 2 ^ 32)
                        then write_reg-Keeps queue_desc_high_reg ((desc / 2 ^ 32) % 2 ^ 32)
                        then write_reg-Keeps queue_avail_low_reg (avail % 2 ^ 32)
                        then write_reg-Keeps queue_avail_high_reg ((avail / 2 ^ 32) % 2 ^ 32)
                        then write_reg-Keeps queue_used_low_reg (used % 2 ^ 32)
                        then write_reg-Keeps queue_used_high_reg ((used / 2 ^ 32) % 2 ^ 32)
                        then write_reg-Keeps queue_ready_reg 1
                        then write_reg-Keeps status_reg (
                            status_acknowledge + status_driver + status_features_ok
                            + status_driver_ok)
                        then done-Keeps live regs_held n I 0)

          pub setup_virtqueue-Keeps : Keeps n I (setup_virtqueue k e)
          unfolding setup_virtqueue
          setup_virtqueue-Keeps =
              write_reg-Keeps queue_sel_reg 0
              then bind-Gives (read_reg-Keeps queue_num_max_reg) λ max_size.
                if-Gives (max_size == 0) (done-Keeps live regs_held n I (neg32 e.eio)) (
                  bind-Gives
                    (replace_queue-Made live regs_held n k accounts I blind
                      (queue_size_of max_size))
                    λ _.
                      bind-Gives {Q = λ _. Books n (Made I (queue_size_of max_size))}
                        {m = get_version k e} (record { run = λ d p. p })
                        λ version.
                          if-Gives (version == 1) (start_legacy-Keeps (queue_size_of max_size))
                            (start_modern-Keeps (queue_size_of max_size)))
