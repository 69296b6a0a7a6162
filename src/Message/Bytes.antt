-- ===== src/Message/Bytes.antt =====
-- Little-endian integers: the shifts and masks of the Put and Get methods, and their round trips.
use qnx_unit_tests.Base.{
  ℕ, ◌+◌, ◌*◌, ◌/◌, ◌%◌, ◌^◌, ◌<◌, List, [], ◌∷◌, bit_or, ◌≡◌, ap, ◌∙◌, arith,
}
use qnx_unit_tests.Base.Bits.{bit_or-shift}

-- The bytes that PutU16 and PutU32 append.
abbrev pub le16 : ℕ → List ℕ
le16 v = (v % 256) ∷ (v / 2 ^ 8 % 256) ∷ []

abbrev pub le32 : ℕ → List ℕ
le32 v = (v % 256) ∷ (v / 2 ^ 8 % 256) ∷ (v / 2 ^ 16 % 256) ∷ (v / 2 ^ 24 % 256) ∷ []

-- `lo | hi << 8`; both the shifted byte and the whole are cast to a uint16_t.
unfoldable pub u16_of : ℕ → ℕ → ℕ
u16_of a b = bit_or a (b * 2 ^ 8 % 2 ^ 16) % 2 ^ 16

pub u16_of-lt : (a b : ℕ) → u16_of a b < 2 ^ 16
unfolding u16_of
u16_of-lt a b = omega arith

-- `a | b << 8 | c << 16 | d << 24`, in a uint32_t
unfoldable pub u32_of : ℕ → ℕ → ℕ → ℕ → ℕ
u32_of a b c d =
    bit_or (bit_or (bit_or a (b * 2 ^ 8 % 2 ^ 32)) (c * 2 ^ 16 % 2 ^ 32)) (d * 2 ^ 24 % 2 ^ 32)

-- `lo | hi << 32`, in a uint64_t
unfoldable pub u64_of : ℕ → ℕ → ℕ
u64_of lo hi = bit_or lo (hi * 2 ^ 32 % 2 ^ 64)

pub u16_of-sum : (a b : ℕ) → a < 256 → b < 256 → u16_of a b ≡ a + b * 2 ^ 8
unfolding u16_of
u16_of-sum a b ha hb =
    let e : b * 2 ^ 8 % 2 ^ 16 ≡ b * 2 ^ 8 = omega arith in
    rw (e, bit_or-shift 8 a b ha) (omega arith)

pub u64_of-sum : (lo hi : ℕ) → lo < 2 ^ 32 → hi < 2 ^ 32 → u64_of lo hi ≡ lo + hi * 2 ^ 32
unfolding u64_of
u64_of-sum lo hi hl hh =
    let e : hi * 2 ^ 32 % 2 ^ 64 ≡ hi * 2 ^ 32 = omega arith in
    ap (bit_or lo) e ∙ bit_or-shift 32 lo hi hl

pub u32_of-sum :
    (a b c d : ℕ)
    → a < 256
    → b < 256
    → c < 256
    → d < 256
    → u32_of a b c d ≡ a + b * 2 ^ 8 + c * 2 ^ 16 + d * 2 ^ 24
unfolding u32_of
u32_of-sum a b c d ha hb hc hd =
    let eb : b * 2 ^ 8 % 2 ^ 32 ≡ b * 2 ^ 8 = omega arith in
    let ec : c * 2 ^ 16 % 2 ^ 32 ≡ c * 2 ^ 16 = omega arith in
    let ed : d * 2 ^ 24 % 2 ^ 32 ≡ d * 2 ^ 24 = omega arith in
    rw (eb, ec, ed, bit_or-shift 8 a b ha, bit_or-shift 16 (a + b * 2 ^ 8) c (omega arith))
      (bit_or-shift 24 (a + b * 2 ^ 8 + c * 2 ^ 16) d (omega arith))

-- Reading the bytes that were written.
pub u16_of-le16 : (v : ℕ) → v < 2 ^ 16 → u16_of (v % 256) (v / 2 ^ 8 % 256) ≡ v
u16_of-le16 v h = omega (arith, u16_of-sum (v % 256) (v / 2 ^ 8 % 256) (omega arith) (omega arith))

pub u32_of-le32 :
    (v : ℕ)
    → v < 2 ^ 32
    → u32_of (v % 256) (v / 2 ^ 8 % 256) (v / 2 ^ 16 % 256) (v / 2 ^ 24 % 256) ≡ v
u32_of-le32 v h = omega (
  arith,
  u32_of-sum (v % 256) (v / 2 ^ 8 % 256) (v / 2 ^ 16 % 256) (v / 2 ^ 24 % 256) (omega arith)
      (omega arith) (omega arith) (omega arith),
)

pub u64_of-halves : (v : ℕ) → v < 2 ^ 64 → u64_of (v % 2 ^ 32) (v / 2 ^ 32 % 2 ^ 32) ≡ v
u64_of-halves v h =
    omega (arith, u64_of-sum (v % 2 ^ 32) (v / 2 ^ 32 % 2 ^ 32) (omega arith) (omega arith))
