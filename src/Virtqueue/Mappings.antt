-- ===== src/Virtqueue/Mappings.antt =====
-- The mappings that a queue holds, through both initializations and the destructor.
use qnx_unit_tests.Base.{
  ℕ, ◌+◌, ◌-◌, ◌*◌, Option, none, some, Bool, true, false, ◌≡◌, refl, ◌∙◌, ◌⊎◌, inl, inr, arith,
  if◌then◌else◌,
}
use qnx_unit_tests.Transport.{Errno}
use qnx_unit_tests.Virtqueue.{Virtqueue, new_queue}
use qnx_unit_tests.Virtqueue.Initialize.{
  Platform, align_up, alloc_dma, free_dma, init_desc_chain, with_avail, with_desc, after_used,
  after_avail, after_desc, initialize_legacy, initialize_modern, destroy,
}
use qnx_unit_tests.Virtqueue.Start.{Mapped, Allocated, Counts, alloc_dma-Allocated}

-- What a field holds of the kernel's resources.
abbrev pub held : Option ℕ → ℕ
held none = 0
held (some id) = 1

abbrev pub maps : Virtqueue → ℕ
maps q =
    if q.legacy_mode
    then held q.base_virt
    else (held q.used_virt + held q.avail_virt + held q.desc_virt)

module _ {M : Type 0} (live : M → ℕ) where
  pub Mapped-held : (n : ℕ) (r : Option ℕ × M) → Mapped live n r → live r.1 ≡ n + held r.0
  Mapped-held n (none, m) h = omega (arith, h)
  Mapped-held n (some virt, m) h = omega (arith, h)

  Allocated-held : (n : ℕ) (r : (Option ℕ × ℕ) × M) → Allocated live n r → live r.1 ≡ n + held r.0.0
  Allocated-held n ((virt, phys), m) h = Mapped-held n (virt, m) h

  -- The mappings are those from before and the queue's.
  abbrev pub Balanced : ℕ → (ℕ × Virtqueue) × M → Type 0
  Balanced n r = live r.1 ≡ n + maps r.0.1

  module _ (p : Platform M) (counts : Counts live p) where
    free_dma-live : (o : Option ℕ) (size : ℕ) (m : M) → live (free_dma p o size m) ≡ live m - held o
    unfolding free_dma
    free_dma-live none size m = omega arith
    free_dma-live (some virt) size m = counts.munmap_counts virt size m

    alloc_dma-live :
        (e : Errno) (size : ℕ) (m : M)
        → live (alloc_dma p size m).1 ≡ live m + held (alloc_dma p size m).0.0
    alloc_dma-live e size m =
        Allocated-held (live m) (alloc_dma p size m) (alloc_dma-Allocated live p counts e size m)

    destroy_by-live :
        (q : Virtqueue) (m : M) (legacy : Bool)
        → q.legacy_mode ≡ legacy
        → live (destroy p q m) ≡ live m - maps q
    unfolding destroy
    destroy_by-live q m true h = rw h (free_dma-live q.base_virt q.base_alloc_size m)
    destroy_by-live q m false h =
        let m1 = free_dma p q.desc_virt q.desc_alloc_size m in
        let m2 = free_dma p q.avail_virt q.avail_alloc_size m1 in
        rw h (
          omega (
            arith,
            free_dma-live q.desc_virt q.desc_alloc_size m,
            free_dma-live q.avail_virt q.avail_alloc_size m1,
            free_dma-live q.used_virt q.used_alloc_size m2,
          ))

    pub destroy-live : (q : Virtqueue) (m : M) → live (destroy p q m) ≡ live m - maps q
    destroy-live q m = destroy_by-live q m q.legacy_mode refl

    after_used-Balanced :
        (e : Errno) (size n : ℕ) (q : Virtqueue) (r : (Option ℕ × ℕ) × M)
        → q.legacy_mode ≡ false
        → live r.1 ≡ n + held q.avail_virt + held q.desc_virt + held r.0.0
        → Balanced n (after_used p e size q r)
    unfolding after_used init_desc_chain
    after_used-Balanced e size n q ((none, phys), m) modern h =
        let m1 = free_dma p q.avail_virt q.avail_alloc_size m in
        rw modern (
          omega (
            arith,
            h,
            free_dma-live q.avail_virt q.avail_alloc_size m,
            free_dma-live q.desc_virt q.desc_alloc_size m1,
          ))
    after_used-Balanced e size n q ((some virt, phys), m) modern h = rw modern (omega (arith, h))

    after_avail-Balanced :
        (e : Errno) (size n : ℕ) (q : Virtqueue) (r : (Option ℕ × ℕ) × M)
        → q.legacy_mode ≡ false
        → q.used_virt ≡ none
        → live r.1 ≡ n + held q.desc_virt + held r.0.0
        → Balanced n (after_avail p e size q r)
    unfolding after_avail
    after_avail-Balanced e size n q ((none, phys), m) modern unused h =
        rw (modern, unused) (omega (arith, h, free_dma-live q.desc_virt q.desc_alloc_size m))
    after_avail-Balanced e size n q ((some virt, phys), m) modern unused h =
        after_used-Balanced e (4 + q.queue_size * 8) n (with_avail p size virt phys q)
          (alloc_dma p (4 + q.queue_size * 8) m) modern
          (omega (arith, h, alloc_dma-live e (4 + q.queue_size * 8) m))

    after_desc-Balanced :
        (e : Errno) (size n queue_size : ℕ) (r : (Option ℕ × ℕ) × M)
        → live r.1 ≡ n + held r.0.0
        → Balanced n (after_desc p e size (new_queue queue_size) r)
    unfolding after_desc
    after_desc-Balanced e size n queue_size ((none, phys), m) h = omega (arith, h)
    after_desc-Balanced e size n queue_size ((some virt, phys), m) h =
        after_avail-Balanced e (4 + queue_size * 2) n
          (with_desc p size virt phys (new_queue queue_size)) (alloc_dma p (4 + queue_size * 2) m)
          refl refl (omega (arith, h, alloc_dma-live e (4 + queue_size * 2) m))

    -- A new queue holds what its initialization has mapped, whether it goes well or not.
    pub initialize_modern-Balanced :
        (e : Errno) (n : ℕ) (m : M) → Balanced (live m) (initialize_modern p e (new_queue n) m)
    unfolding initialize_modern
    initialize_modern-Balanced e n m =
        after_desc-Balanced e (n * 16) (live m) n (alloc_dma p (n * 16) m)
          (alloc_dma-live e (n * 16) m)

    after_legacy : (r : (Option ℕ × ℕ) × M) → (r.0.0 ≡ none) ⊎ ((v : ℕ) × (r.0.0 ≡ some v))
    after_legacy ((none, phys), m) = inl refl
    after_legacy ((some v, phys), m) = inr (v, refl)

    pub initialize_legacy-Balanced :
        (e : Errno) (align n : ℕ) (m : M)
        → Balanced (live m) (initialize_legacy p e align (new_queue n) m)
    unfolding initialize_legacy init_desc_chain
    initialize_legacy-Balanced e align n m =
        let size = align_up (n * 16 + (4 + n * 2 + 2)) align + (4 + n * 8 + 2) in
        let more = alloc_dma-live e size m in
        elim (after_legacy (alloc_dma p size m)) [
          | inl gone ↦ rw (initialize_legacy, gone) (more ∙ rw gone refl)
          | inr (v, there) ↦ rw (initialize_legacy, there) (more ∙ rw there refl)
        ]
