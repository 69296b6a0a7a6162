-- ===== src/Pci/Balance.antt =====
-- The books of the kernel's resources through the set-up of the device in transport/pci_transport.cpp.
use qnx_unit_tests.Base.{
  ℕ, ◌+◌, ◌/◌, ◌%◌, ◌^◌, List, [], ◌∷◌, Option, none, some, Bool, true, false, refl, ◌==◌, ◌!=◌,
  bit_and, if◌then◌else◌,
}
use qnx_unit_tests.Base.Proc.{Proc, ◌>>◌, Gives, bind-Gives, if-Gives}
use qnx_unit_tests.Registers.{
  status_acknowledge, status_driver, status_driver_ok, status_features_ok, status_failed,
}
use qnx_unit_tests.Registers.Pci.{
  device_feature_select_off, device_feature_off, driver_feature_select_off, driver_feature_off,
  msix_config_off, device_status_off, queue_select_off, queue_size_off, queue_msix_vector_off,
  queue_enable_off, queue_notify_off_off, queue_desc_off, queue_avail_off, queue_used_off,
}
use qnx_unit_tests.Transport.{Errno, neg32}
use qnx_unit_tests.Virtqueue.{get_desc_addr, get_avail_addr, get_used_addr}
use qnx_unit_tests.Virtqueue.Initialize.{initialize_modern}
use qnx_unit_tests.Virtqueue.Mappings.{held, initialize_modern-Balanced}
use qnx_unit_tests.Machine.{Machine}
use qnx_unit_tests.Link.{Link, Driver}
use qnx_unit_tests.Link.Balance.{
  Accounts, AnyLink, NoRequest, Blind, Stage, andthen-Then, call-Keeps,
}
use qnx_unit_tests.Link.Setup.{alloc_request-Then, alloc_response-Then, attach_irq-Then}
use qnx_unit_tests.Link.Books.{
  done-Keeps, get_addr-Keeps, set_own-Keeps, on_queue-Gives, replace_queue-Made, must-Then,
  reset_code-Keeps,
}
use qnx_unit_tests.Pci.{
  Pci, get_own, read_common, write_common, write_common64, negotiate_at, with_common,
  negotiate_features, choose_vector, no_vector, set_vector, enable_queue, start_queue,
  size_of_queue, setup_at, setup_virtqueue, initialize_device,
}

-- The registers that the transport has mapped, and its hold on the device.
abbrev pub bars_held : List (Option ℕ × ℕ) → ℕ
bars_held [] = 0
bars_held ((virt, size) ∷ bars) = held virt + bars_held bars

abbrev pub own_held : Pci → ℕ
own_held t = bars_held t.bars + held t.pci_handle

module _ {W : Type 0} (live : W → ℕ) where
  abbrev pub Books : ℕ → (Link → Type 0) → Driver Pci W → Type 0
  Books n I = Stage live own_held n I

  abbrev pub Keeps : {A : Type 0} → ℕ → (Link → Type 0) → Proc (Driver Pci W) A → Type 0
  Keeps n I m = Gives (Books n I) (λ _. Books n I) m

  module _ (k : Machine W) (accounts : Accounts live k) (n : ℕ) where
    module _ (I : Link → Type 0) where
      pub read_common-Keeps : (cfg bits offset : ℕ) → Keeps n I (read_common k cfg bits offset)
      unfolding read_common
      read_common-Keeps cfg bits offset =
          call-Keeps live own_held n 0 I _ (accounts.load_counts bits (cfg + offset))

      pub write_common-Keeps :
          (cfg bits offset value : ℕ) → Keeps n I (write_common k cfg bits offset value)
      unfolding write_common
      write_common-Keeps cfg bits offset value =
          call-Keeps live own_held n 0 I _ (accounts.store_counts bits (cfg + offset) value)

      -- Two steps that keep the books.
      infixr 5 ◌then◌
      pub ◌then◌ :
          {B : Type 0} {l : Proc (Driver Pci W) (Unit {0})} {m : Proc (Driver Pci W) B}
          → Keeps n I l
          → Keeps n I m
          → Keeps n I (l >> m)
      a then b = bind-Gives a λ _. b

      pub get_own-Keeps : {A : Type 0} (f : Pci → A) → Keeps n I (get_own f)
      get_own-Keeps f = record { run = λ d p. p }

      with_common-Keeps :
          (e : Errno) (f : ℕ → Proc (Driver Pci W) ℕ) (o : Option ℕ)
          → ((cfg : ℕ) → Keeps n I (f cfg))
          → Keeps n I (with_common k e f o)
      with_common-Keeps e f none h = done-Keeps live own_held n I (neg32 e.einval)
      with_common-Keeps e f (some cfg) h = h cfg

      negotiate_at-Keeps : (e : Errno) (cfg : ℕ) → Keeps n I (negotiate_at k e cfg)
      unfolding negotiate_at
      negotiate_at-Keeps e cfg =
          write_common-Keeps cfg 8 device_status_off 0
          then write_common-Keeps cfg 8 device_status_off status_acknowledge
          then write_common-Keeps cfg 8 device_status_off (status_acknowledge + status_driver)
          then write_common-Keeps cfg 32 device_feature_select_off 0
          then bind-Gives (read_common-Keeps cfg 32 device_feature_off) λ lo.
            write_common-Keeps cfg 32 driver_feature_select_off 0
            then write_common-Keeps cfg 32 driver_feature_off (bit_and lo 1)
            then write_common-Keeps cfg 32 device_feature_select_off 1
            then bind-Gives (read_common-Keeps cfg 32 device_feature_off) λ hi.
              write_common-Keeps cfg 32 driver_feature_select_off 1
              then write_common-Keeps cfg 32 driver_feature_off (bit_and hi 1)
              then write_common-Keeps cfg 8 device_status_off
                  (status_acknowledge + status_driver + status_features_ok)
              then bind-Gives (read_common-Keeps cfg 8 device_status_off) λ s.
                if-Gives (bit_and s status_features_ok == 0)
                  (write_common-Keeps cfg 8 device_status_off status_failed
                    then done-Keeps live own_held n I (neg32 e.eio))
                  (done-Keeps live own_held n I 0)

      negotiate_features-Keeps : (e : Errno) → Keeps n I (negotiate_features k e)
      unfolding negotiate_features
      negotiate_features-Keeps e =
          bind-Gives (get_own-Keeps (λ t. t.common_cfg))
            λ cfg. with_common-Keeps e (negotiate_at k e) cfg (negotiate_at-Keeps e)

      choose_vector-Keeps : (e : Errno) (cfg : ℕ) (b : Bool) → Keeps n I (choose_vector k e cfg b)
      choose_vector-Keeps e cfg false = done-Keeps live own_held n I tt
      choose_vector-Keeps e cfg true =
          write_common-Keeps cfg 16 queue_msix_vector_off 0
          then bind-Gives (read_common-Keeps cfg 16 queue_msix_vector_off) λ vector.
            if-Gives (vector == 0xffff)
              (set_own-Keeps live own_held n I (λ t. record t { use_msix = false }) λ t. refl)
              (done-Keeps live own_held n I tt)

      no_vector-Keeps : (e : Errno) (cfg : ℕ) (b : Bool) → Keeps n I (no_vector k e cfg b)
      no_vector-Keeps e cfg true = done-Keeps live own_held n I tt
      no_vector-Keeps e cfg false = write_common-Keeps cfg 16 queue_msix_vector_off 0xffff

      set_vector-Keeps : (e : Errno) (cfg : ℕ) → Keeps n I (set_vector k e cfg)
      unfolding set_vector
      set_vector-Keeps e cfg =
          write_common-Keeps cfg 16 msix_config_off 0xffff
          then bind-Gives (get_own-Keeps (λ t. t.use_msix)) λ wanted.
            choose_vector-Keeps e cfg wanted
            then bind-Gives (get_own-Keeps (λ t. t.use_msix)) λ used. no_vector-Keeps e cfg used

      write_common64-Keeps : (cfg offset value : ℕ) → Keeps n I (write_common64 k cfg offset value)
      unfolding write_common64
      write_common64-Keeps cfg offset value =
          write_common-Keeps cfg 32 offset (value % 2 ^ 32)
          then write_common-Keeps cfg 32 (offset + 4) ((value / 2 ^ 32) % 2 ^ 32)

      enable_queue-Keeps : (e : Errno) (cfg size : ℕ) → Keeps n I (enable_queue k e cfg size)
      unfolding enable_queue
      enable_queue-Keeps e cfg size =
          write_common-Keeps cfg 16 queue_size_off size
          then set_vector-Keeps e cfg
          then bind-Gives (get_addr-Keeps live own_held n I get_desc_addr) λ desc.
            bind-Gives (get_addr-Keeps live own_held n I get_avail_addr) λ avail.
              bind-Gives (get_addr-Keeps live own_held n I get_used_addr) λ used.
                write_common64-Keeps cfg queue_desc_off desc
                then write_common64-Keeps cfg queue_avail_off avail
                then write_common64-Keeps cfg queue_used_off used
                then bind-Gives (read_common-Keeps cfg 16 queue_notify_off_off) λ off.
                  set_own-Keeps live own_held n I (λ t. record t { queue_notify_off = off })
                    (λ t. refl)
                  then write_common-Keeps cfg 16 queue_enable_off 1
                  then write_common-Keeps cfg 8 device_status_off
                      (status_acknowledge + status_driver + status_features_ok + status_driver_ok)
                  then done-Keeps live own_held n I 0

      module _ (blind : Blind I) where
        start_queue-Keeps : (e : Errno) (cfg size : ℕ) → Keeps n I (start_queue k e cfg size)
        unfolding start_queue
        start_queue-Keeps e cfg size =
            bind-Gives (replace_queue-Made live own_held n k accounts I blind size) λ _.
              bind-Gives
                (on_queue-Gives live own_held n I blind size (initialize_modern k.platform e)
                  λ w. initialize_modern-Balanced live k.platform accounts.platform_counts e size w)
                λ rc.
                  if-Gives (rc != 0) (done-Keeps live own_held n I rc)
                    (enable_queue-Keeps e cfg size)

        setup_at-Keeps : (e : Errno) (cfg : ℕ) → Keeps n I (setup_at k e cfg)
        unfolding setup_at
        setup_at-Keeps e cfg =
            write_common-Keeps cfg 16 queue_select_off 0
            then bind-Gives (read_common-Keeps cfg 16 queue_size_off) λ max_size.
              if-Gives (max_size == 0) (done-Keeps live own_held n I (neg32 e.eio))
                (start_queue-Keeps e cfg (size_of_queue k e max_size))

        setup_virtqueue-Keeps : (e : Errno) → Keeps n I (setup_virtqueue k e)
        unfolding setup_virtqueue
        setup_virtqueue-Keeps e =
            bind-Gives (get_own-Keeps (λ t. t.common_cfg))
              λ cfg. with_common-Keeps e (setup_at k e) cfg (setup_at-Keeps e)

    -- InitializeDevice keeps the books from a link without buffers and interrupt, however it ends.
    pub initialize_device-Books :
        (e : Errno) → Gives (Books n NoRequest) (λ _. Books n AnyLink) (initialize_device k e)
    unfolding initialize_device
    initialize_device-Books e =
        bind-Gives
          (andthen-Then live own_held n
            (must-Then live own_held n NoRequest (negotiate_features-Keeps NoRequest e))
            (andthen-Then live own_held n
              (must-Then live own_held n NoRequest (setup_virtqueue-Keeps NoRequest (λ l o h. h) e))
              (andthen-Then live own_held n (alloc_request-Then live own_held k accounts e n) (
                andthen-Then live own_held n (alloc_response-Then live own_held k accounts e n)
                  (record {
                    run = λ d. (attach_irq-Then live own_held k accounts e n d.own.irq_num).run d;
                  })))))
          λ failed. reset_code-Keeps live own_held n k accounts failed
