-- ===== src/Virtqueue/Traffic.antt =====
-- AddBuf and GetBuf leave a queue's mappings alone.
use qnx_unit_tests.Base.{
  ℕ, zero, suc, ◌+◌, ◌%◌, ◌^◌, Option, none, some, ◌≡◌, Bool, true, false, ltb, ◌==◌, ◌!=◌,
  get_elem?, if◌then◌else◌, Result, ok, fault, stuck,
}
use qnx_unit_tests.Base.Run.{After}
use qnx_unit_tests.Transport.{Errno}
use qnx_unit_tests.Virtqueue.{
  Virtqueue, VringDesc, Step, continue, ◌>>=◌, pure, or_fault, desc_at, put_desc, fill, link, pop,
  head_of, publish, push, add_buf, free_chain, get_buf, vring_desc_flag_next, vring_desc_flag_write,
}
use qnx_unit_tests.Virtqueue.Mappings.{maps}

-- A step after which the queue has the mappings that it had.
pub record Steady {A : Type 0} (m : Step A) : Type 0 where
  pub run : (n : ℕ) (q : Virtqueue) → maps q ≡ n → After (λ _ q'. maps q' ≡ n) (m q)

continue-Steady :
    {A B : Type 0} (n : ℕ) (r : Result (A × Virtqueue)) (f : A → Step B)
    → After (λ _ q. maps q ≡ n) r
    → ((a : A) → Steady (f a))
    → After (λ _ q. maps q ≡ n) (continue r f)
continue-Steady n (ok (a, q)) f h g = (g a).run n q h
continue-Steady n fault f h g = tt
continue-Steady n stuck f h g = tt

bind-Steady :
    {A B : Type 0} {m : Step A} {f : A → Step B}
    → Steady m
    → ((a : A) → Steady (f a))
    → Steady (m >>= f)
bind-Steady {m = m} {f = f} h g = record {
  run = λ n q e. continue-Steady n (m q) f (h.run n q e) g;
}

pure-Steady : {A : Type 0} (a : A) → Steady (pure a)
pure-Steady a = record { run = λ n q e. e }

or_fault-After :
    {A : Type 0} (o : Option A) (n : ℕ) (q : Virtqueue)
    → maps q ≡ n
    → After (λ _ q'. maps q' ≡ n) (or_fault o q)
or_fault-After none n q e = tt
or_fault-After (some a) n q e = e

desc_at-Steady : (i : ℕ) → Steady (desc_at i)
desc_at-Steady i = record { run = λ n q e. or_fault-After (get_elem? q.desc i) n q e }

put_desc-Steady : (i : ℕ) (d : VringDesc) → Steady (put_desc i d)
put_desc-Steady i d = record { run = λ n q e. e }

head_of-Steady : Steady head_of
head_of-Steady = record { run = λ n q e. e }

fill-Steady : (i addr len flags : ℕ) → Steady (fill i addr len flags)
fill-Steady i addr len flags =
    bind-Steady (desc_at-Steady i)
      λ d. put_desc-Steady i (record d { addr = addr; len = len; flags = flags })

link-Steady : (i n : ℕ) → Steady (link i n)
link-Steady i n = bind-Steady (desc_at-Steady i) λ d. put_desc-Steady i (record d { next = n })

pop-Steady : (i : ℕ) → Steady (pop i)
pop-Steady i = bind-Steady (desc_at-Steady i) λ d. record { run = λ n q e. e }

push-Steady : (i : ℕ) → Steady (push i)
push-Steady i = record { run = λ n q e. e }

publish-Steady : (head : ℕ) → Steady (publish head)
publish-Steady head = record {
  run = λ n q e.
      continue-Steady n (or_fault (get_elem? q.avail 1) q) _
        (or_fault-After (get_elem? q.avail 1) n q e)
        λ avail_idx. record {
          run = λ n q e.
              continue-Steady n (or_fault (get_elem? q.avail (2 + avail_idx % q.queue_size)) q) _
                (or_fault-After (get_elem? q.avail (2 + avail_idx % q.queue_size)) n q e)
                λ _. record { run = λ n q e. e };
        };
}

if_run :
    {A : Type 0} (b : Bool) (n : ℕ) (q : Virtqueue) (x y : Result (A × Virtqueue))
    → After (λ _ q'. maps q' ≡ n) x
    → After (λ _ q'. maps q' ≡ n) y
    → After (λ _ q'. maps q' ≡ n) (if b then x else y)
if_run true n q x y h g = h
if_run false n q x y h g = g

if-Steady :
    {A : Type 0} {l m : Step A} (b : Bool) → Steady l → Steady m → Steady (if b then l else m)
if-Steady true h g = h
if-Steady false h g = g

pub add_buf-Steady :
    (e : Errno) (out_phys out_len in_phys in_len : ℕ)
    → Steady (add_buf e out_phys out_len in_phys in_len)
unfolding add_buf
add_buf-Steady e out_phys out_len in_phys in_len = record {
  run = λ n q h. if_run (ltb q.num_free 2) n q _ _ h (
      (bind-Steady head_of-Steady λ head.
          bind-Steady (fill-Steady head out_phys out_len vring_desc_flag_next) λ _.
            bind-Steady (pop-Steady head) λ _. bind-Steady head_of-Steady λ idx.
              bind-Steady (fill-Steady idx in_phys in_len vring_desc_flag_write) λ _.
                bind-Steady (link-Steady head idx) λ _.
                  bind-Steady (pop-Steady idx)
                    λ _. bind-Steady (publish-Steady head) λ _. pure-Steady head).run
        n q h);
}

free_chain-Steady : (fuel i : ℕ) → Steady (free_chain fuel i)
unfolding free_chain
free_chain-Steady zero i = record { run = λ n q e. tt }
free_chain-Steady (suc fuel) i = bind-Steady (desc_at-Steady i) λ d.
    bind-Steady head_of-Steady λ head. bind-Steady (link-Steady i head) λ _.
      bind-Steady (push-Steady i)
        λ _. if-Steady (d.flags % 2 != 0) (free_chain-Steady fuel d.next) (pure-Steady tt)

pub get_buf-Steady : (fuel out : ℕ) → Steady (get_buf fuel out)
unfolding get_buf
get_buf-Steady fuel out = record {
  run = λ n q h. if_run (q.last_used_idx == q.used_idx) n q _ _ h (
      (bind-Steady {m = λ q. or_fault (get_elem? q.used (q.last_used_idx % q.queue_size)) q}
          (record {
            run = λ n q e. or_fault-After (get_elem? q.used (q.last_used_idx % q.queue_size)) n q e;
          })
          λ elem.
            bind-Steady (free_chain-Steady fuel (elem.id % 2 ^ 16))
              λ _. record { run = λ n q e. e }).run
        n q h);
}
