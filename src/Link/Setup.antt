-- ===== src/Link/Setup.antt =====
-- The books of the kernel's resources through the allocation of the buffers and the interrupt.
use qnx_unit_tests.Base.{[], ℕ, Option, none, some, ap, arith, ◌!=◌}
use qnx_unit_tests.Base.Proc.{Gives, done-Gives, bind-Gives, if-Gives}
use qnx_unit_tests.Types.{max_message_size}
use qnx_unit_tests.Transport.{Errno, neg32}
use qnx_unit_tests.Virtqueue.Mappings.{held}
use qnx_unit_tests.Machine.{Machine}
use qnx_unit_tests.Link.{
  code, by_errno, locate, request_mapped, response_mapped, attached, connected, created,
  alloc_request, alloc_response, attach_irq,
}
use qnx_unit_tests.Link.Balance.{
  Accounts, NoInterrupt, NoConnection, NoIrq, NoResponse, NoRequest, AnyLink, Owes, Stage, Then,
  call-Keeps, call-Owes, set_link-Gives,
}

module _ {T W : Type 0} (live : W → ℕ) (own_held : T → ℕ) (k : Machine W)
    (accounts : Accounts live k) (e : Errno) where
  request_mapped-Then :
      (n : ℕ) (o : Option ℕ)
      → Gives
          (Owes live own_held n NoRequest (held o))
          (Then live own_held n (Stage live own_held n NoResponse))
          (request_mapped {T = T} k e o)
  request_mapped-Then n none =
      bind-Gives {Q = λ _. Stage live own_held n NoResponse}
        (set_link-Gives live own_held (λ l. record l { dma_req_virt = none })
          λ d p. (omega (arith, p.0, ap held p.1.0), p.1.1))
        λ _. done-Gives (some (code (neg32 e.enomem))) λ s p. (p.0, tt)
  request_mapped-Then n (some virt) =
      bind-Gives {Q = λ _. Stage live own_held n NoResponse}
        (set_link-Gives live own_held (λ l. record l { dma_req_virt = some virt; dma_req = [] })
          λ d p. (omega (arith, p.0, ap held p.1.0), p.1.1))
        λ _.
          bind-Gives {A = ℕ × ℕ}
            (call-Keeps live own_held n 0 NoResponse (locate k virt)
              (accounts.platform_counts.offset_counts virt max_message_size))
            λ (off : ℕ × ℕ). if-Gives (off.0 != 0) (done-Gives (some by_errno) λ s p. (p.0, tt)) (
              bind-Gives {Q = λ _. Stage live own_held n NoResponse}
                (set_link-Gives live own_held (λ l. record l { dma_req_phys = off.1 }) λ d p. p)
                λ _. done-Gives none λ s p. p)

  pub alloc_request-Then :
      (n : ℕ)
      → Gives
          (Stage live own_held n NoRequest)
          (Then live own_held n (Stage live own_held n NoResponse))
          (alloc_request {T = T} k e)
  unfolding alloc_request
  alloc_request-Then n =
      bind-Gives
        (call-Owes live own_held n NoRequest _
          (accounts.platform_counts.mmap_counts max_message_size))
        (request_mapped-Then n)

  response_mapped-Then :
      (n : ℕ) (o : Option ℕ)
      → Gives
          (Owes live own_held n NoResponse (held o))
          (Then live own_held n (Stage live own_held n NoIrq))
          (response_mapped {T = T} k e o)
  response_mapped-Then n none =
      bind-Gives {Q = λ _. Stage live own_held n NoIrq}
        (set_link-Gives live own_held (λ l. record l { dma_resp_virt = none })
          λ d p. (omega (arith, p.0, ap held p.1.0), p.1.1))
        λ _. done-Gives (some (code (neg32 e.enomem))) λ s p. (p.0, tt)
  response_mapped-Then n (some virt) =
      bind-Gives {Q = λ _. Stage live own_held n NoIrq}
        (set_link-Gives live own_held (λ l. record l { dma_resp_virt = some virt; dma_resp = [] })
          λ d p. (omega (arith, p.0, ap held p.1.0), p.1.1))
        λ _.
          bind-Gives {A = ℕ × ℕ}
            (call-Keeps live own_held n 0 NoIrq (locate k virt)
              (accounts.platform_counts.offset_counts virt max_message_size))
            λ (off : ℕ × ℕ). if-Gives (off.0 != 0) (done-Gives (some by_errno) λ s p. (p.0, tt)) (
              bind-Gives {Q = λ _. Stage live own_held n NoIrq}
                (set_link-Gives live own_held (λ l. record l { dma_resp_phys = off.1 }) λ d p. p)
                λ _. done-Gives none λ s p. p)

  pub alloc_response-Then :
      (n : ℕ)
      → Gives
          (Stage live own_held n NoResponse)
          (Then live own_held n (Stage live own_held n NoIrq))
          (alloc_response {T = T} k e)
  unfolding alloc_response
  alloc_response-Then n =
      bind-Gives
        (call-Owes live own_held n NoResponse _
          (accounts.platform_counts.mmap_counts max_message_size))
        (response_mapped-Then n)

  attached-Then :
      (n : ℕ) (o : Option ℕ)
      → Gives
          (Stage live own_held n AnyLink)
          (Then live own_held n (Stage live own_held n AnyLink))
          (attached {T = T} k e o)
  attached-Then n none = done-Gives _ λ s p. p
  attached-Then n (some id) = done-Gives _ λ s p. p

  connected-Then :
      (n irq : ℕ) (o : Option ℕ)
      → Gives
          (Stage live own_held n NoInterrupt)
          (Then live own_held n (Stage live own_held n AnyLink))
          (connected {T = T} k e irq o)
  connected-Then n irq none = done-Gives _ λ s p. (p.0, tt)
  connected-Then n irq (some connection) =
      bind-Gives
        (call-Owes live own_held n NoInterrupt _ (accounts.interrupt_counts irq connection))
        λ id.
          bind-Gives {Q = λ _. Stage live own_held n AnyLink}
            (set_link-Gives live own_held (λ l. record l { irq_id = id })
              λ d p. (omega (arith, p.0, ap held p.1), tt))
            λ _. attached-Then n id

  created-Then :
      (n irq : ℕ) (o : Option ℕ)
      → Gives
          (Stage live own_held n NoConnection)
          (Then live own_held n (Stage live own_held n AnyLink))
          (created {T = T} k e irq o)
  created-Then n irq none = done-Gives _ λ s p. (p.0, tt)
  created-Then n irq (some channel) =
      bind-Gives (call-Owes live own_held n NoConnection _ (accounts.connect_counts channel))
        λ coid.
          bind-Gives {Q = λ _. Stage live own_held n NoInterrupt}
            (set_link-Gives live own_held (λ l. record l { coid = coid })
              λ d p. (omega (arith, p.0, ap held p.1.0), p.1.1))
            λ _. connected-Then n irq coid

  pub attach_irq-Then :
      (n irq : ℕ)
      → Gives
          (Stage live own_held n NoIrq)
          (Then live own_held n (Stage live own_held n AnyLink))
          (attach_irq {T = T} k e irq)
  unfolding attach_irq
  attach_irq-Then n irq =
      bind-Gives (call-Owes live own_held n NoIrq _ accounts.channel_counts) λ chid.
        bind-Gives {Q = λ _. Stage live own_held n NoConnection}
          (set_link-Gives live own_held (λ l. record l { chid = chid })
            λ d p. (omega (arith, p.0, ap held p.1.0), p.1.1))
          λ _. created-Then n irq chid
