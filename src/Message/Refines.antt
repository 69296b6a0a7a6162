-- ===== src/Message/Refines.antt =====
-- The Get methods, with their offset and their guards, do to the bytes that are left what the
-- readers of Message/Take.antt do, and they do not read outside of the vector.
use qnx_unit_tests.Base.{
  ℕ, ◌+◌, ◌-◌, ◌%◌, ◌^◌, ◌≤◌, ◌<◌, List, [], ◌∷◌, ◌≡◌, ◌≢◌, refl, arith, length, get_elem?, take,
  drop, some, length-drop, drop-drop, get_elem?-drop, Result, ok, fault, ltb, leb, Bool-cases, inl,
  inr, ap, ◌∙◌, sym, true, false, le→leb, lt→leb, lt→ltb, le→ltb, ltb→lt,
}
use qnx_unit_tests.Message.{
  Message, Get, load, advance, get_u8, get_u16, get_u32, get_u64, get_bytes, get_string, get_qid,
  reset_read_offset, pure, past_end,
}
use qnx_unit_tests.Message
use qnx_unit_tests.Message.Bytes.{u16_of, u32_of, u16_of-lt}
use qnx_unit_tests.Message.Take
use qnx_unit_tests.Message.Take.{
  Take, done, take_u8, take_u16, take_u32, take_u64, take_bytes, take_string, take_qid,
}

-- The bytes that are left to read.
abbrev pub view : Message → List ℕ
view m = drop m.read_offset m.bytes

-- The offset is within the buffer, and the buffer is within 2 GiB.
pub record IsSafe (m : Message) : Type 0 where
  pub within : m.read_offset ≤ length m.bytes
  pub small : length m.bytes ≤ 2 ^ 31

pub record Refines {A : Type 0} (g : Get A) (s : Take A) : Type 0 where
  pub run :
      (m : Message)
      → IsSafe m
      → (r : Message) × (g m ≡ ok ((s (view m)).0, r))
        × IsSafe r
        × (view r ≡ (s (view m)).1)
        × (r.bytes ≡ m.bytes)

-- The message after `n` bytes more.
abbrev forward : ℕ → Message → Message
forward n m = record m { read_offset = (m.read_offset + n) % 2 ^ 32 }

forward_lem :
    (n : ℕ) (m : Message)
    → IsSafe m
    → n ≤ length (view m)
    → (m.read_offset + n ≤ length m.bytes)
      × (m.read_offset + n < 2 ^ 32)
      × ((m.read_offset + n) % 2 ^ 32 ≡ m.read_offset + n)
forward_lem n m v h =
    let e = length-drop m.read_offset m.bytes in
    let le : m.read_offset + n ≤ length m.bytes = omega (arith, v.within) in
    (le, omega (arith, v.small), omega (arith, v.small))

forward-IsSafe :
    (n : ℕ) (m : Message)
    → IsSafe m
    → n ≤ length (view m)
    → IsSafe (forward n m) × (view (forward n m) ≡ drop n (view m))
forward-IsSafe n m v h =
    let (le, lt, e) = forward_lem n m v h in
    (record { within = rw e le; small = v.small }, rw e (sym (drop-drop m.read_offset n m.bytes)))

-- The byte at `n` behind the offset.
load_ahead :
    (n : ℕ) (m : Message) (b : ℕ) (r : List ℕ)
    → IsSafe m
    → drop n (view m) ≡ b ∷ r
    → get_elem? m.bytes ((m.read_offset + n) % 2 ^ 32) ≡ some b
load_ahead n m b r v e =
    let l = length-drop n (view m) in
    let (le, lt, wrap) = forward_lem n m v (omega (arith, ap length e)) in
    rw wrap
      (get_elem?-drop (m.read_offset + n) m.bytes b r (sym (drop-drop m.read_offset n m.bytes) ∙ e))

-- What `g` does at `m`, where a reader answers `p`.
abbrev pub Runs : {A : Type 0} → Get A → Message → A × List ℕ → Type 0
Runs g m p = (r : Message) × (g m ≡ ok (p.0, r)) × IsSafe r × (view r ≡ p.1) × (r.bytes ≡ m.bytes)

-- A read that takes `n` bytes.
moves :
    {A : Type 0} (g : Get A) (m : Message) (n : ℕ) (a : A)
    → IsSafe m
    → n ≤ length (view m)
    → g m ≡ ok (a, forward n m)
    → Runs g m (a, drop n (view m))
moves g m n a v h e =
    let (safe, left) = forward-IsSafe n m v h in (forward n m, e, safe, left, refl)

module _ (m : Message) (v : IsSafe m) where
  left_lem : length (view m) ≡ length m.bytes - m.read_offset
  left_lem = length-drop m.read_offset m.bytes

  get_u8-Runs : (xs : List ℕ) → view m ≡ xs → Runs get_u8 m (take_u8 xs)
  unfolding get_u8 take_u8
  get_u8-Runs [] e =
      let end : leb (length m.bytes) m.read_offset ≡ true =
        le→leb _ _ (omega (arith, left_lem, ap length e)) in
      (m, rw end, v, e, refl)
  get_u8-Runs (a ∷ rest) e =
      let inside : leb (length m.bytes) m.read_offset ≡ false =
        lt→leb _ _ (omega (arith, left_lem, ap length e, v.within)) in
      let hit = get_elem?-drop m.read_offset m.bytes a rest e in
      rw (← ap (drop 1) e) (moves get_u8 m 1 a v (omega (arith, ap length e)) (rw (inside, hit)))

  few : (n : ℕ) → n < 2 ^ 31 → m.read_offset + n < 2 ^ 32
  few n h = omega (arith, v.within, v.small)

  -- The guard of a read of `n` bytes.
  short : (n : ℕ) → length (view m) < n → m.read_offset + n < 2 ^ 32 → past_end n m ≡ true
  short n h b =
      let e : (m.read_offset + n) % 2 ^ 32 ≡ m.read_offset + n = omega arith in
      lt→ltb _ _ (rw e (omega (arith, left_lem)))

  enough : (n : ℕ) → n ≤ length (view m) → past_end n m ≡ false
  enough n h = let (le, lt, e) = forward_lem n m v h in le→ltb _ _ (rw e le)

  get_u16-Runs : (xs : List ℕ) → view m ≡ xs → Runs get_u16 m (take_u16 xs)
  unfolding get_u16 take_u16
  get_u16-Runs (a ∷ b ∷ rest) e =
      let hit = get_elem?-drop m.read_offset m.bytes a (b ∷ rest) e in
      let hit1 = load_ahead 1 m b rest v (ap (drop 1) e) in
      rw (← ap (drop 2) e) (
        moves get_u16 m 2 (u16_of a b) v (omega (arith, ap length e))
          (rw (enough 2 (omega (arith, ap length e)), hit, hit1)))
  get_u16-Runs [] e =
      (m, rw (short 2 (omega (arith, ap length e)) (few 2 (omega arith))), v, e, refl)
  get_u16-Runs (a ∷ []) e =
      (m, rw (short 2 (omega (arith, ap length e)) (few 2 (omega arith))), v, e, refl)

  get_u32-Runs : (xs : List ℕ) → view m ≡ xs → Runs get_u32 m (take_u32 xs)
  unfolding get_u32 take_u32
  get_u32-Runs (a ∷ b ∷ c ∷ d ∷ rest) e =
      let hit = get_elem?-drop m.read_offset m.bytes a (b ∷ c ∷ d ∷ rest) e in
      let hit1 = load_ahead 1 m b (c ∷ d ∷ rest) v (ap (drop 1) e) in
      let hit2 = load_ahead 2 m c (d ∷ rest) v (ap (drop 2) e) in
      let hit3 = load_ahead 3 m d rest v (ap (drop 3) e) in
      rw (← ap (drop 4) e) (
        moves get_u32 m 4 (u32_of a b c d) v (omega (arith, ap length e))
          (rw (enough 4 (omega (arith, ap length e)), hit, hit1, hit2, hit3)))
  get_u32-Runs [] e =
      (m, rw (short 4 (omega (arith, ap length e)) (few 4 (omega arith))), v, e, refl)
  get_u32-Runs (a ∷ []) e =
      (m, rw (short 4 (omega (arith, ap length e)) (few 4 (omega arith))), v, e, refl)
  get_u32-Runs (a ∷ b ∷ []) e =
      (m, rw (short 4 (omega (arith, ap length e)) (few 4 (omega arith))), v, e, refl)
  get_u32-Runs (a ∷ b ∷ c ∷ []) e =
      (m, rw (short 4 (omega (arith, ap length e)) (few 4 (omega arith))), v, e, refl)

  pub get_bytes-Runs :
      (n : ℕ) → m.read_offset + n < 2 ^ 32 → Runs (get_bytes n) m (take_bytes n (view m))
  unfolding get_bytes take_bytes
  get_bytes-Runs n b = elim (Bool-cases (ltb (length (view m)) n)) [
    | inl fewer ↦ rw fewer (m, rw (short n (ltb→lt _ _ fewer) b), v, refl, refl)
    | inr full ↦
        let h : n ≤ length (view m) = ground arith in
        let (le, lt, e) = forward_lem n m v h in
        rw full (moves (get_bytes n) m n (take n (view m)) v h (rw (enough n h, le→leb _ _ le)))
  ]

pub done-Refines : {A : Type 0} (a : A) → Refines (pure a) (done a)
done-Refines a = record { run = λ m v. (m, refl, v, refl, refl) }

-- The first reader's answer satisfies `P`.
bind-Refines_where :
    {A B : Type 0} (P : A → Type 0) {g : Get A} {s : Take A} {f : A → Get B} {t : A → Take B}
    → Refines g s
    → ((xs : List ℕ) → P (s xs).0)
    → ((a : A) → P a → Refines (f a) (t a))
    → Refines (Message.◌>>=◌ g f) (Take.◌>>=◌ s t)
bind-Refines_where {B = B} P {g = g} {s} {f} {t} p good q = record {
  run = λ m v.
      let (r, e, w, left, same) = p.run m v in
      let (r', e', w', left', same') = (q (s (view m)).0 (good (view m))).run r w in
      (
        r',
        ap (λ x. Message.continue x f) e
            ∙ e'
            ∙ ap (λ xs. let y : Result (B × Message) = ok ((t (s (view m)).0 xs).0, r') in y) left,
        w',
        left' ∙ ap (λ xs. (t (s (view m)).0 xs).1) left,
        same' ∙ same,
      );
}

pub bind-Refines :
    {A B : Type 0} {g : Get A} {s : Take A} {f : A → Get B} {t : A → Take B}
    → Refines g s
    → ((a : A) → Refines (f a) (t a))
    → Refines (Message.◌>>=◌ g f) (Take.◌>>=◌ s t)
bind-Refines p q = bind-Refines_where (λ a. Unit {0}) p (λ xs. tt) (λ a u. q a)

pub get_u8-Refines : Refines get_u8 take_u8
get_u8-Refines = record { run = λ m v. get_u8-Runs m v (view m) refl }

pub get_u16-Refines : Refines get_u16 take_u16
get_u16-Refines = record { run = λ m v. get_u16-Runs m v (view m) refl }

pub get_u32-Refines : Refines get_u32 take_u32
get_u32-Refines = record { run = λ m v. get_u32-Runs m v (view m) refl }

pub get_bytes-Refines : (n : ℕ) → n < 2 ^ 31 → Refines (get_bytes n) (take_bytes n)
get_bytes-Refines n b = record { run = λ m v. get_bytes-Runs m v n (few m v n b) }

pub get_u64-Refines : Refines get_u64 take_u64
unfolding get_u64 take_u64
get_u64-Refines = search (get_u32-Refines, bind-Refines, done-Refines)

pub take_u16-lt : (xs : List ℕ) → (take_u16 xs).0 < 2 ^ 16
unfolding take_u16
take_u16-lt (a ∷ b ∷ rest) = u16_of-lt a b
take_u16-lt [] = omega arith
take_u16-lt (a ∷ []) = omega arith

pub get_string-Refines : Refines get_string take_string
unfolding get_string take_string
get_string-Refines =
    bind-Refines_where (λ n. n < 2 ^ 16) get_u16-Refines take_u16-lt
      λ n h. get_bytes-Refines n (omega arith)

pub get_qid-Refines : Refines get_qid take_qid
unfolding get_qid take_qid
get_qid-Refines =
    search (get_u8-Refines, get_u32-Refines, get_u64-Refines, bind-Refines, done-Refines)

pub ruleset getters = (
  get_u8-Refines, get_u16-Refines, get_u32-Refines, get_u64-Refines, get_string-Refines,
  get_qid-Refines, bind-Refines, done-Refines,
)

-- GetBytes reads outside of the vector exactly when `read_offset_ + length` passes 2^32: the sum in
-- its guard is a uint32_t and wraps, and the range that is copied does not.
pub get_bytes_fault :
    (m : Message) (n : ℕ)
    → IsSafe m
    → n < 2 ^ 32
    → (2 ^ 32 ≤ m.read_offset + n → get_bytes n m ≡ fault)
      × (m.read_offset + n < 2 ^ 32 → get_bytes n m ≢ fault)
unfolding get_bytes
get_bytes_fault m n v h = (wraps, fits)
  where
    wraps : 2 ^ 32 ≤ m.read_offset + n → get_bytes n m ≡ fault
    wraps w = rw (
      le→ltb (length m.bytes) ((m.read_offset + n) % 2 ^ 32) (omega (arith, v.within)),
      lt→leb (m.read_offset + n) (length m.bytes) (omega (arith, v.small)),
    )

    fits : m.read_offset + n < 2 ^ 32 → get_bytes n m ≢ fault
    fits w = ground arith
