-- ===== src/Virtqueue/Chain.antt =====
-- The free list: the descriptors that are reached from the free head by their links.
use qnx_unit_tests.Base.{
  ℕ, zero, suc, ◌<◌, ◌^◌, List, [], ◌∷◌, some, ◌≡◌, ◌≢◌, refl, arith, length, get_elem?, set, All,
}
use qnx_unit_tests.Virtqueue.{VringDesc, Virtqueue}

module _ {A : Type 0} where
  pub get_elem?-set :
      (xs : List A) (i : ℕ) (v w : A) → get_elem? xs i ≡ some w → get_elem? (set xs i v) i ≡ some v
  get_elem?-set [] i v w h = cc
  get_elem?-set (x ∷ xs) zero v w h = refl
  get_elem?-set (x ∷ xs) (suc i) v w h = get_elem?-set xs i v w h

  pub get_elem?-set_other :
      (xs : List A) (i j : ℕ) (v : A) → i ≢ j → get_elem? (set xs j v) i ≡ get_elem? xs i
  get_elem?-set_other [] i j v h = refl
  get_elem?-set_other (x ∷ xs) zero zero v h = absurd (h refl)
  get_elem?-set_other (x ∷ xs) zero (suc j) v h = refl
  get_elem?-set_other (x ∷ xs) (suc i) zero v h = refl
  get_elem?-set_other (x ∷ xs) (suc i) (suc j) v h = get_elem?-set_other xs i j v (omega arith)

-- From `head` the links lead through exactly the indices `is`, whatever follows the last of them.
abbrev pub Chain : List VringDesc → ℕ → List ℕ → Type 0
Chain ds head [] = Unit {0}
Chain ds head (i ∷ is) =
    (head ≡ i) × (d : VringDesc) × (get_elem? ds i ≡ some d) × Chain ds d.next is

abbrev pub Distinct : List ℕ → Type 0
Distinct [] = Unit {0}
Distinct (i ∷ is) = All (λ j. j ≢ i) is × Distinct is

pub Chain-set :
    (ds : List VringDesc) (head k : ℕ) (v : VringDesc) (is : List ℕ)
    → All (λ j. j ≢ k) is
    → Chain ds head is
    → Chain (set ds k v) head is
Chain-set ds head k v [] away c = tt
Chain-set ds head k v (i ∷ is) away (at, d, found, c) =
    (at, d, rw (get_elem?-set_other ds i k v away.0) found, Chain-set ds d.next k v is away.1 c)

-- The free descriptors of the queue are those of `is`, in this order.
pub record HasFree (q : Virtqueue) (is : List ℕ) : Type 0 where
  pub chain : Chain q.desc q.free_head is
  pub distinct : Distinct is
  pub counted : q.num_free ≡ length is
  pub small : length is < 2 ^ 16
