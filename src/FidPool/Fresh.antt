-- ===== src/FidPool/Fresh.antt =====
-- What the pool holds after each call, and when the fid that it hands out is new.
use qnx_unit_tests.Base.{
  ℕ, suc, ◌+◌, ◌-◌, ◌%◌, ◌^◌, ◌≤◌, ◌<◌, List, [], ◌∷◌, true, false, ◌==◌, if◌then◌else◌, ◌≡◌, ◌≢◌,
  refl, arith, All, length, Bool-cases, inl, inr,
}
use qnx_unit_tests.Types.{no_fid}
use qnx_unit_tests.FidPool.{
  FidPool, contains, insert, erase, allocate, release, is_allocated, size, reset, Call, allocates,
  resets, releases, run, empty_pool,
}

contains-erase :
    (xs : List ℕ) (fid j : ℕ)
    → contains (erase fid xs) j ≡ (if fid == j then false else contains xs j)
unfolding contains erase
contains-erase [] fid j = ground arith
contains-erase (x ∷ xs) fid j = ground (arith, contains-erase xs fid j)

contains-insert :
    (xs : List ℕ) (fid j : ℕ)
    → contains (insert fid xs) j ≡ (if fid == j then true else contains xs j)
unfolding insert
contains-insert xs fid j = elim (Bool-cases (contains xs fid)) [
  | inl e ↦ rw e (known xs fid j e)
  | inr e ↦ rw e (unfold contains in ground arith)
]
  where
    known :
        (xs : List ℕ) (fid j : ℕ)
        → contains xs fid ≡ true
        → contains xs j ≡ (if fid == j then true else contains xs j)
    known xs fid j e = ground arith

-- A fid that `release` is given is free afterwards, the one that `allocate` returns is taken, and
-- neither call changes the state of any other fid.
pub is_allocated_after :
    (p : FidPool) (fid j : ℕ)
    → (is_allocated (release fid p) j ≡ (if fid == j then false else is_allocated p j))
      × (is_allocated (allocate p).1 j ≡ (if (allocate p).0 == j then true else is_allocated p j))
      × (is_allocated (reset p) j ≡ false)
unfolding is_allocated release allocate reset
is_allocated_after p fid j =
    (contains-erase p.allocated fid j, contains-insert p.allocated p.next_fid j, refl)

-- Every fid in use is below the next one.
abbrev pub Below : ℕ → List ℕ → Type 0
Below n = All (λ x. x < n)

Below-mono : (m n : ℕ) (xs : List ℕ) → m ≤ n → Below m xs → Below n xs
Below-mono m n [] h b = tt
Below-mono m n (x ∷ xs) h b = (omega arith, Below-mono m n xs h b.1)

contains_above : (n j : ℕ) (xs : List ℕ) → Below n xs → n ≤ j → contains xs j ≡ false
unfolding contains
contains_above n j [] b h = refl
contains_above n j (x ∷ xs) b h = ground (arith, contains_above n j xs b.1)

erase-Below : (n fid : ℕ) (xs : List ℕ) → Below n xs → Below n (erase fid xs)
unfolding erase
erase-Below n fid [] b = tt
erase-Below n fid (x ∷ xs) b = ground (arith, erase-Below n fid xs b.1)

insert-Below : (n : ℕ) (xs : List ℕ) → Below n xs → Below (n + 1) (insert n xs)
unfolding insert
insert-Below n xs b = elim (Bool-cases (contains xs n)) [
  | inl e ↦ rw e (Below-mono n (n + 1) xs (omega arith) b)
  | inr e ↦ rw e (omega arith, Below-mono n (n + 1) xs (omega arith) b)
]

length-insert :
    (n : ℕ) (xs : List ℕ) → contains xs n ≡ false → length (insert n xs) ≡ suc (length xs)
unfolding insert
length-insert n xs e = rw e

-- The calls that allocate.
abbrev pub allocations : List Call → ℕ
allocations [] = 0
allocations (allocates ∷ cs) = suc (allocations cs)
allocations (resets ∷ cs) = allocations cs
allocations (releases fid ∷ cs) = allocations cs

run-Below :
    (p : FidPool) (cs : List Call) (k : ℕ)
    → Below p.next_fid p.allocated
    → p.next_fid ≤ k
    → k + allocations cs < 2 ^ 32
    → Below (run p cs).next_fid (run p cs).allocated × ((run p cs).next_fid ≤ k + allocations cs)
unfolding run
run-Below p [] k b h lt = (b, omega arith)
run-Below p (allocates ∷ cs) k b h lt =
    let (b', low) =
      run-Below (allocate p).1 cs (k + 1) grown (unfold allocate in omega arith) (omega arith) in
    (b', omega arith)
  where
    grown : Below (allocate p).1.next_fid (allocate p).1.allocated
    grown =
        let e : (p.next_fid + 1) % 2 ^ 32 ≡ p.next_fid + 1 = omega arith in
        unfold allocate in rw e (insert-Below p.next_fid p.allocated b)
run-Below p (resets ∷ cs) k b h lt =
    run-Below (reset p) cs k (unfold reset in tt) (unfold reset in omega arith) lt
run-Below p (releases fid ∷ cs) k b h lt =
    run-Below (release fid p) cs k (unfold release in erase-Below p.next_fid fid p.allocated b)
      (unfold release in h) lt

-- Until 2^32 - 1 fids have been handed out, whatever was released or reset in between, the fid
-- that the pool hands out next is not in use, is not the no-fid mark, and adds one to the size.
pub allocate_fresh :
    (cs : List Call)
    → allocations cs + 1 < 2 ^ 32
    → (is_allocated (run empty_pool cs) (allocate (run empty_pool cs)).0 ≡ false)
      × ((allocate (run empty_pool cs)).0 ≢ no_fid)
      × (size (allocate (run empty_pool cs)).1 ≡ suc (size (run empty_pool cs)))
unfolding allocate is_allocated size
allocate_fresh cs h =
    let (b, low) = run-Below empty_pool cs 0 tt (omega arith) (omega arith) in
    let free =
      contains_above (run empty_pool cs).next_fid (run empty_pool cs).next_fid
        (run empty_pool cs).allocated b (omega arith) in
    (free, omega arith, length-insert _ _ free)

-- After 2^32 - 1 calls of `allocate` on the pool at its initial state the next fid is the no-fid
-- mark, and after one more it is 0 again: `allocate` looks at no entry of the pool.
pub allocate_wraps :
    (p : FidPool)
    → p.next_fid ≡ 2 ^ 32 - 1
    → ((allocate p).0 ≡ no_fid) × ((allocate (allocate p).1).0 ≡ 0)
unfolding allocate
allocate_wraps p h = (h, rw h)
