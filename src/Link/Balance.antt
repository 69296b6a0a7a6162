-- ===== src/Link/Balance.antt =====
-- The kernel's resources that a link holds: every step keeps the books.
use qnx_unit_tests.Base.{ℕ, ◌+◌, ◌-◌, Option, none, some, ◌≡◌, refl, ◌∙◌, arith}
use qnx_unit_tests.Base.Proc.{Proc, done, Gives, done-Gives, bind-Gives, update-Gives}
use qnx_unit_tests.Types.{max_message_size}
use qnx_unit_tests.Virtqueue.{Virtqueue}
use qnx_unit_tests.Virtqueue.Start.{Mapped, Counts}
use qnx_unit_tests.Virtqueue.Mappings.{held, maps, Mapped-held, destroy-live}
use qnx_unit_tests.Machine.{Machine, Memory}
use qnx_unit_tests.Link.{
  Link, Driver, Failure, call, set_link, ◌andthen◌, drop_irq, drop_connection, drop_channel,
  drop_buffer, drop_queue, detach_irq, free_buffers, reset_queue,
}

-- `live` counts what the kernel holds for the process: mappings, channels, connections and attached
-- interrupts. A call that makes one adds one where it succeeds, one that ends one takes one away, and
-- the others change nothing.
pub record Accounts {W : Type 0} (live : W → ℕ) (k : Machine W) : Type 0 where
  pub platform_counts : Counts live k.platform
  pub map_counts : (size base : ℕ) (w : W) → Mapped live (live w) (k.map_device size base w)
  pub unmap_counts : (virt size : ℕ) (w : W) → live (k.unmap_device virt size w) ≡ live w - 1
  pub load_counts : (bits at : ℕ) (w : W) → live (k.load bits at w).1 ≡ live w
  pub store_counts : (bits at v : ℕ) (w : W) → live (k.store bits at v w) ≡ live w
  pub channel_counts : (w : W) → Mapped live (live w) (k.channel_create w)
  pub connect_counts : (chid : ℕ) (w : W) → Mapped live (live w) (k.connect_attach chid w)
  pub interrupt_counts :
      (irq coid : ℕ) (w : W) → Mapped live (live w) (k.interrupt_attach irq coid w)
  pub channel_destroy_counts : (chid : ℕ) (w : W) → live (k.channel_destroy chid w) ≡ live w - 1
  pub detach_counts : (coid : ℕ) (w : W) → live (k.connect_detach coid w) ≡ live w - 1
  pub interrupt_detach_counts : (id : ℕ) (w : W) → live (k.interrupt_detach id w) ≡ live w - 1
  pub nanosleep_counts : (ns : ℕ) (w : W) → live (k.nanosleep ns w) ≡ live w
  pub pulse_counts :
      (chid : Option ℕ) (ns : ℕ) (w : W) → live (k.receive_pulse chid ns w).1 ≡ live w
  pub unmask_counts :
      (irq : ℕ) (id : Option ℕ) (w : W) → live (k.interrupt_unmask irq id w) ≡ live w
  pub device_counts : (m : Memory) (w : W) → live (k.device m w).1 ≡ live w

-- What a link holds.
abbrev pub queue_held : Option Virtqueue → ℕ
queue_held none = 0
queue_held (some q) = maps q

abbrev pub link_held : Link → ℕ
link_held l =
    queue_held l.virtqueue
    + held l.irq_id
    + held l.chid
    + held l.coid
    + held l.dma_req_virt
    + held l.dma_resp_virt

-- What is not there yet before a step of the set-up.
abbrev pub NoInterrupt : Link → Type 0
NoInterrupt l = l.irq_id ≡ none

abbrev pub NoConnection : Link → Type 0
NoConnection l = (l.coid ≡ none) × NoInterrupt l

abbrev pub NoIrq : Link → Type 0
NoIrq l = (l.chid ≡ none) × NoConnection l

abbrev pub NoResponse : Link → Type 0
NoResponse l = (l.dma_resp_virt ≡ none) × NoIrq l

abbrev pub NoRequest : Link → Type 0
NoRequest l = (l.dma_req_virt ≡ none) × NoResponse l

abbrev pub AnyLink : Link → Type 0
AnyLink l = Unit {0}

-- A condition that does not look at the queue.
abbrev pub Blind : (Link → Type 0) → Type 0
Blind I = (l : Link) (o : Option Virtqueue) → I l → I (record l { virtqueue = o })

module _ {T W : Type 0} (live : W → ℕ) (own_held : T → ℕ) where
  -- The kernel holds `n` things of others, `x` that no field names yet, and what the driver holds.
  abbrev pub Owes : ℕ → (Link → Type 0) → ℕ → Driver T W → Type 0
  Owes n I x d = (live d.world ≡ n + (own_held d.own + link_held d.link) + x) × I d.link

  abbrev pub Stage : ℕ → (Link → Type 0) → Driver T W → Type 0
  Stage n I = Owes n I 0

  -- After a step: it went well and `Q` holds, or it failed and the books are right.
  abbrev pub Then : ℕ → (Driver T W → Type 0) → Option Failure → Driver T W → Type 0
  Then n Q none d = Q d
  Then n Q (some f) d = Stage n AnyLink d

  -- Code that keeps the books, and a call that may add something to them.
  pub call-Keeps :
      {A : Type 0} (n x : ℕ) (I : Link → Type 0) (f : W → A × W)
      → ((w : W) → live (f w).1 ≡ live w)
      → Gives (Owes n I x) (λ _. Owes n I x) (call f)
  call-Keeps n x I f h = record { run = λ d p. (h d.world ∙ p.0, p.1) }

  pub call-Owes :
      (n : ℕ) (I : Link → Type 0) (f : W → Option ℕ × W)
      → ((w : W) → Mapped live (live w) (f w))
      → Gives (Stage n I) (λ a. Owes n I (held a)) (call f)
  call-Owes n I f h = record {
    run = λ d p. (omega (arith, Mapped-held live (live d.world) (f d.world) (h d.world), p.0), p.1);
  }

  pub set_link-Gives :
      {P : Driver T W → Type 0} {Q : Unit {0} → Driver T W → Type 0} (f : Link → Link)
      → ((d : Driver T W) → P d → Q tt (record d { link = f d.link }))
      → Gives P Q (set_link f)
  set_link-Gives f h = record { run = h }

  pub andthen-Then :
      (n : ℕ) {P Q R : Driver T W → Type 0} {l m : Proc (Driver T W) (Option Failure)}
      → Gives P (Then n Q) l
      → Gives Q (Then n R) m
      → Gives P (Then n R) (l andthen m)
  andthen-Then n {Q = Q} {R = R} {m = m} a b = bind-Gives a λ failed.
      elim failed
        as (λ o. Gives (Then n Q o) (Then n R) (elim o [ none ↦ m | some f ↦ done (some f) ])) [
          | none ↦ b
          | some f ↦ done-Gives (some f) λ s p. p
        ]

  module _ (k : Machine W) (accounts : Accounts live k) where
    drop_irq-live : (o : Option ℕ) (w : W) → live (drop_irq k o w) ≡ live w - held o
    drop_irq-live none w = omega arith
    drop_irq-live (some id) w = accounts.interrupt_detach_counts id w

    drop_connection-live : (o : Option ℕ) (w : W) → live (drop_connection k o w) ≡ live w - held o
    drop_connection-live none w = omega arith
    drop_connection-live (some id) w = accounts.detach_counts id w

    drop_channel-live : (o : Option ℕ) (w : W) → live (drop_channel k o w) ≡ live w - held o
    drop_channel-live none w = omega arith
    drop_channel-live (some id) w = accounts.channel_destroy_counts id w

    drop_buffer-live : (o : Option ℕ) (w : W) → live (drop_buffer k o w) ≡ live w - held o
    drop_buffer-live none w = omega arith
    drop_buffer-live (some virt) w = accounts.platform_counts.munmap_counts virt max_message_size w

    drop_queue-live :
        (o : Option Virtqueue) (w : W) → live (drop_queue k o w) ≡ live w - queue_held o
    drop_queue-live none w = omega arith
    drop_queue-live (some q) w = destroy-live live k.platform accounts.platform_counts q w

    pub detach_irq-Stage :
        (n : ℕ) → Gives (Stage n AnyLink) (λ _. Stage n NoIrq) (detach_irq {T = T} k)
    unfolding detach_irq
    detach_irq-Stage n = update-Gives _ λ d p.
        let w1 = drop_irq k d.link.irq_id d.world in
        let w2 = drop_connection k d.link.coid w1 in
        (
          omega (
            arith,
            p.0,
            drop_irq-live d.link.irq_id d.world,
            drop_connection-live d.link.coid w1,
            drop_channel-live d.link.chid w2,
          ),
          (refl, (refl, refl)),
        )

    pub free_buffers-Stage :
        (n : ℕ) → Gives (Stage n NoIrq) (λ _. Stage n NoRequest) (free_buffers {T = T} k)
    unfolding free_buffers
    free_buffers-Stage n = update-Gives _ λ d p.
        let w1 = drop_buffer k d.link.dma_req_virt d.world in
        (
          omega (
            arith,
            p.0,
            drop_buffer-live d.link.dma_req_virt d.world,
            drop_buffer-live d.link.dma_resp_virt w1,
          ),
          (refl, (refl, p.1)),
        )

    pub reset_queue-Stage :
        (n : ℕ) (I : Link → Type 0)
        → Blind I
        → Gives (Stage n I) (λ _. Stage n λ l. (l.virtqueue ≡ none) × I l) (reset_queue {T = T} k)
    unfolding reset_queue
    reset_queue-Stage n I blind = update-Gives _ λ d p. (
      omega (arith, p.0, drop_queue-live d.link.virtqueue d.world),
      (refl, blind d.link none p.1),
    )
