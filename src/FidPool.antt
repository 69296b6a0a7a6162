-- ===== src/FidPool.antt =====
-- protocol/fid_pool.h and protocol/fid_pool.cpp. The hash set is a list without duplicates; each
-- method holds the mutex from its first line to its end, so a call is one step.
pub mod Fresh
use qnx_unit_tests.Base.{
  ℕ, ◌+◌, ◌%◌, ◌^◌, List, [], ◌∷◌, Bool, true, false, ◌||◌, ◌==◌, if◌then◌else◌, length,
}

pub record FidPool : Type 0 where
  pub allocated : List ℕ
  pub next_fid : ℕ

-- count(fid) > 0
unfoldable pub contains : List ℕ → ℕ → Bool
contains [] fid = false
contains (x ∷ xs) fid = x == fid || contains xs fid

insert : ℕ → List ℕ → List ℕ
unfolding contains
insert fid xs = if contains xs fid then xs else fid ∷ xs

erase : ℕ → List ℕ → List ℕ
erase fid [] = []
erase fid (x ∷ xs) = let rest = erase fid xs in if x == fid then rest else x ∷ rest

abbrev pub empty_pool : FidPool
empty_pool = record { allocated = []; next_fid = 0 }

unfoldable pub allocate : FidPool → ℕ × FidPool
unfolding insert
allocate p = (
  p.next_fid,
  record { allocated = insert p.next_fid p.allocated; next_fid = (p.next_fid + 1) % 2 ^ 32 },
)

unfoldable pub release : ℕ → FidPool → FidPool
unfolding erase
release fid p = record p { allocated = erase fid p.allocated }

unfoldable pub is_allocated : FidPool → ℕ → Bool
unfolding contains
is_allocated p fid = contains p.allocated fid

unfoldable pub size : FidPool → ℕ
size p = length p.allocated

unfoldable pub reset : FidPool → FidPool
reset p = record p { allocated = []; next_fid = 0 }

-- A call of the pool, and what a sequence of calls leaves.
pub data Call : Type 0 where
  allocates resets : Call
  releases : ℕ → Call

unfoldable pub step : FidPool → Call → FidPool
unfolding allocate release reset
step p allocates = (allocate p).1
step p resets = reset p
step p (releases fid) = release fid p

unfoldable pub run : FidPool → List Call → FidPool
unfolding step
run p [] = p
run p (c ∷ cs) = run (step p c) cs
