-- ===== src/Virtqueue/Start.antt =====
-- The free list that initialization leaves: every descriptor, in order.
use qnx_unit_tests.Base.{
  ℕ, zero, suc, ◌+◌, ◌%◌, ◌^◌, ◌*◌, ◌≤◌, ◌<◌, List, [], ◌∷◌, Option, none, some, ◌≡◌, ◌≢◌, refl,
  sym, ap, ◌∙◌, ◌⊎◌, inl, inr, Bool-cases, subst, ◌-◌, ◌!=◌, arith, length, get_elem?, All,
}
use qnx_unit_tests.Transport.{Errno, neg32}
use qnx_unit_tests.Virtqueue.{VringDesc, Virtqueue}
use qnx_unit_tests.Virtqueue.Initialize.{
  Platform, link_all, init_desc_chain, with_used, with_avail, with_desc, replicate, no_desc,
  alloc_dma, free_dma, located, mapped, after_used, after_avail, after_desc, initialize_modern,
}
use qnx_unit_tests.Virtqueue.Chain.{Chain, Distinct, HasFree}

-- The numbers from `i`, `n` of them.
abbrev pub range : ℕ → ℕ → List ℕ
range i zero = []
range i (suc n) = i ∷ range (i + 1) n

length-range : (i n : ℕ) → length (range i n) ≡ n
length-range i zero = refl
length-range i (suc n) = ap suc (length-range (i + 1) n)

range-later : (k i n : ℕ) → k < i → All (λ j. j ≢ k) (range i n)
range-later k i zero h = tt
range-later k i (suc n) h = (omega arith, range-later k (i + 1) n (omega arith))

Distinct-range : (i n : ℕ) → Distinct (range i n)
Distinct-range i zero = tt
Distinct-range i (suc n) = (range-later i (i + 1) n (omega arith), Distinct-range (i + 1) n)

link_all_at :
    (i n j : ℕ) (ds : List VringDesc)
    → j < n
    → n ≤ length ds
    → (d : VringDesc) × (get_elem? (link_all i n ds) j ≡ some d) × (d.next ≡ (i + j + 1) % 2 ^ 16)
unfolding link_all
link_all_at i zero j ds h hl = absurd (omega arith)
link_all_at i (suc n) j [] h hl = absurd (omega arith)
link_all_at i (suc n) zero (d ∷ ds) h hl = (record d { next = (i + 1) % 2 ^ 16 }, refl, omega arith)
link_all_at i (suc n) (suc j) (d ∷ ds) h hl =
    let (x, found, next) = link_all_at (i + 1) n j ds (omega arith) (omega arith) in
    (x, found, next ∙ omega arith)

link_all-Chain :
    (n k m head : ℕ) (ds : List VringDesc)
    → n ≤ length ds
    → n < 2 ^ 16
    → k + m ≡ n
    → (0 < m → head ≡ k)
    → Chain (link_all 0 n ds) head (range k m)
link_all-Chain n k zero head ds hl small e start = tt
link_all-Chain n k (suc m) head ds hl small e start =
    let (d, found, next) = link_all_at 0 n k ds (omega arith) hl in
    (
      start (omega arith),
      d,
      found,
      link_all-Chain n (k + 1) m d.next ds hl small (omega arith) (λ more. omega (arith, next)),
    )

-- After InitDescChain on a table of `queue_size` descriptors every descriptor is free, in order.
init_desc_chain-HasFree :
    (q : Virtqueue)
    → q.queue_size < 2 ^ 16
    → q.queue_size ≤ length q.desc
    → HasFree (init_desc_chain q) (range 0 q.queue_size)
unfolding init_desc_chain
init_desc_chain-HasFree q small long =
    let n = q.queue_size in
    record {
      chain = link_all-Chain n 0 n 0 q.desc long small (omega arith) (λ more. refl);
      distinct = Distinct-range 0 n;
      counted = sym (length-range 0 n);
      small = omega (arith, length-range 0 n);
    }

length-replicate : {A : Type 0} (n : ℕ) (a : A) → length (replicate n a) ≡ n
length-replicate zero a = refl
length-replicate (suc n) a = ap suc (length-replicate n a)

module _ {M : Type 0} (live : M → ℕ) where
  -- The number of mappings is `n`, and one more where there is a result.
  abbrev pub Mapped : ℕ → Option ℕ × M → Type 0
  Mapped n (none, m) = live m ≡ n
  Mapped n (some virt, m) = live m ≡ suc n

  abbrev pub Allocated : ℕ → (Option ℕ × ℕ) × M → Type 0
  Allocated n ((virt, phys), m) = Mapped n (virt, m)

  -- `live` counts the mappings of the platform: mmap adds one where it succeeds, mem_offset64 changes
  -- nothing, and munmap takes one away.
  pub record Counts (p : Platform M) : Type 0 where
    pub mmap_counts : (size : ℕ) (m : M) → Mapped (live m) (p.mmap size m)
    pub offset_counts : (virt size : ℕ) (m : M) → live (p.mem_offset64 virt size m).2 ≡ live m
    pub munmap_counts : (virt size : ℕ) (m : M) → live (p.munmap virt size m) ≡ live m - 1

  -- How an initialization of `n` descriptors ends, from `before` mappings: with 0, every descriptor free
  -- in order and three mappings more, or with -ENOMEM and no mapping more.
  abbrev pub Ends : Errno → ℕ → ℕ → (ℕ × Virtqueue) × M → Type 0
  Ends e n before r =
      ((r.0.0 ≡ 0) × HasFree r.0.1 (range 0 n) × (live r.1 ≡ before + 3))
      ⊎ ((r.0.0 ≡ neg32 e.enomem) × (live r.1 ≡ before))

  module _ (p : Platform M) (counts : Counts p) (e : Errno) where
    located-Allocated :
        (virt size n : ℕ) (r : ℕ × ℕ × M) → live r.2 ≡ suc n → Allocated n (located p virt size r)
    located-Allocated virt size n (rc, offset, m) h = elim (Bool-cases (rc != 0)) [
      | inl bad ↦ rw bad (counts.munmap_counts virt size m ∙ omega (arith, h))
      | inr good ↦ rw good h
    ]

    mapped-Allocated : (size n : ℕ) (r : Option ℕ × M) → Mapped n r → Allocated n (mapped p size r)
    mapped-Allocated size n (none, m) h = h
    mapped-Allocated size n (some virt, m) h =
        located-Allocated virt size n (p.mem_offset64 virt size m)
          (counts.offset_counts virt size m ∙ h)

    pub alloc_dma-Allocated : (size : ℕ) (m : M) → Allocated (live m) (alloc_dma p size m)
    unfolding alloc_dma
    alloc_dma-Allocated size m =
        mapped-Allocated size (live m) (p.mmap size m) (counts.mmap_counts size m)

    after_used-Ends :
        (size before d a : ℕ) (q : Virtqueue) (r : (Option ℕ × ℕ) × M)
        → q.desc_virt ≡ some d
        → q.avail_virt ≡ some a
        → q.queue_size < 2 ^ 16
        → q.queue_size ≤ length q.desc
        → Allocated (before + 2) r
        → Ends e q.queue_size before (after_used p e size q r)
    unfolding after_used free_dma
    after_used-Ends size before d a q ((none, phys), m) hd ha small long h = inr (
      refl,
      rw (hd, ha)
          (counts.munmap_counts d q.desc_alloc_size (p.munmap a q.avail_alloc_size m)
            ∙ omega (arith, counts.munmap_counts a q.avail_alloc_size m, h)),
    )
    after_used-Ends size before d a q ((some v, phys), m) hd ha small long h =
        inl (refl, init_desc_chain-HasFree (with_used p size v phys q) small long, omega (arith, h))

    after_avail-Ends :
        (size before d : ℕ) (q : Virtqueue) (r : (Option ℕ × ℕ) × M)
        → q.desc_virt ≡ some d
        → q.queue_size < 2 ^ 16
        → q.queue_size ≤ length q.desc
        → Allocated (before + 1) r
        → Ends e q.queue_size before (after_avail p e size q r)
    unfolding after_avail free_dma
    after_avail-Ends size before d q ((none, phys), m) hd small long h =
        inr (refl, rw hd (counts.munmap_counts d q.desc_alloc_size m ∙ omega (arith, h)))
    after_avail-Ends size before d q ((some v, phys), m) hd small long h =
        let more : live m ≡ before + 2 = omega (arith, h) in
        after_used-Ends (4 + q.queue_size * 8) before d v (with_avail p size v phys q)
          (alloc_dma p (4 + q.queue_size * 8) m) hd refl small long
          (subst (λ n. Allocated n (alloc_dma p (4 + q.queue_size * 8) m)) more
            (alloc_dma-Allocated (4 + q.queue_size * 8) m))

    after_desc-Ends :
        (size before : ℕ) (q : Virtqueue) (r : (Option ℕ × ℕ) × M)
        → q.queue_size < 2 ^ 16
        → Allocated before r
        → Ends e q.queue_size before (after_desc p e size q r)
    unfolding after_desc
    after_desc-Ends size before q ((none, phys), m) small h = inr (refl, h)
    after_desc-Ends size before q ((some v, phys), m) small h =
        let more : live m ≡ before + 1 = omega (arith, h) in
        after_avail-Ends (4 + q.queue_size * 2) before v (with_desc p size v phys q)
          (alloc_dma p (4 + q.queue_size * 2) m) refl small
          (omega (arith, length-replicate q.queue_size no_desc))
          (subst (λ n. Allocated n (alloc_dma p (4 + q.queue_size * 2) m)) more
            (alloc_dma-Allocated (4 + q.queue_size * 2) m))

    -- On a queue of fewer than 2^16 descriptors, over a platform whose mappings `live` counts: Initialize
    -- returns 0, with every descriptor free in order and three mappings more, or it returns -ENOMEM and
    -- has given back every mapping that it made.
    pub initialize_modern-Ends :
        (q : Virtqueue) (m : M)
        → q.queue_size < 2 ^ 16
        → Ends e q.queue_size (live m) (initialize_modern p e q m)
    unfolding initialize_modern
    initialize_modern-Ends q m small =
        after_desc-Ends (q.queue_size * 16) (live m) q (alloc_dma p (q.queue_size * 16) m) small
          (alloc_dma-Allocated (q.queue_size * 16) m)
