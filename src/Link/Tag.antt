-- ===== src/Link/Tag.antt =====
-- The core of GetMountTag, which the two transports share but for where the configuration is.
use qnx_unit_tests.Base.{
  ℕ, zero, suc, ◌+◌, ◌≤◌, ◌<◌, List, [], ◌∷◌, some, ◌≡◌, refl, ◌∙◌, ◌⊎◌, true, false, Bool, subst,
  arith, length, get_elem?, ltb, le→ltb, ◌==◌, ◌||◌, if◌then◌else◌,
}
use qnx_unit_tests.Transport.{neg32}
use qnx_unit_tests.Machine.{Machine}
use qnx_unit_tests.Link.Balance.{Accounts}

module _ {W : Type 0} (k : Machine W) where
  -- The bytes of the tag from an address.
  unfoldable pub tag_bytes : ℕ → ℕ → W → List ℕ × W
  tag_bytes zero at w = ([], w)
  tag_bytes (suc n) at w =
      let (b, w') = k.load 8 at w in let (bs, w'') = tag_bytes n (at + 1) w' in (b ∷ bs, w'')

  -- The length in 16 bits at an address, and the bytes behind it.
  unfoldable pub read_tag : ℕ → ℕ → W → (ℕ × List ℕ) × W
  unfolding tag_bytes
  read_tag einval at w =
      let (tag_len, w') = k.load 16 at w in
      if tag_len == 0 || ltb 256 tag_len
      then ((neg32 einval, []), w')
      else (let (tag, w'') = tag_bytes tag_len (at + 2) w' in ((0, tag), w''))

-- There is the length of the tag in 16 bits at the address, and then its bytes; reading it changes
-- nothing.
pub record HoldsTag {W : Type 0} (k : Machine W) (at : ℕ) (tag : List ℕ) (w : W) : Type 0 where
  pub length_at : k.load 16 at w ≡ (length tag, w)
  pub bytes_at : (i b : ℕ) → get_elem? tag i ≡ some b → k.load 8 (at + 2 + i) w ≡ (b, w)

module _ {W : Type 0} (k : Machine W) where
  tag_bytes_lem :
      (tag : List ℕ) (at : ℕ) (w : W)
      → ((i b : ℕ) → get_elem? tag i ≡ some b → k.load 8 (at + i) w ≡ (b, w))
      → tag_bytes k (length tag) at w ≡ (tag, w)
  unfolding tag_bytes
  tag_bytes_lem [] at w h = refl
  tag_bytes_lem (b ∷ tag) at w h =
      let first : k.load 8 at w ≡ (b, w) =
        subst (λ x. k.load 8 x w ≡ (b, w)) (omega arith) (h 0 b refl) in
      let rest =
        tag_bytes_lem tag (at + 1) w
          λ i c found. subst (λ x. k.load 8 x w ≡ (c, w)) (omega arith) (h (suc i) c found) in
      rw (first, rest) refl

  -- A tag of 1 to 256 bytes is read, and a length of 0 or more than 256 is refused.
  pub read_tag-held :
      (einval at : ℕ) (tag : List ℕ) (w : W)
      → HoldsTag k at tag w
      → ((0 < length tag) × (length tag ≤ 256) → read_tag k einval at w ≡ ((0, tag), w))
        × (((length tag ≡ 0) ⊎ (256 < length tag))
            → read_tag k einval at w ≡ ((neg32 einval, []), w))
  unfolding read_tag
  read_tag-held einval at tag w h = (
    λ (some_bytes, short).
        let bytes = tag_bytes_lem tag (at + 2) w h.bytes_at in
        let nonempty : (length tag == 0) ≡ false = ground arith in
        rw (h.length_at, nonempty, le→ltb 256 (length tag) short, bytes) refl,
    λ out.
        let refused : ((length tag == 0) || ltb 256 (length tag)) ≡ true = ground arith in
        rw (h.length_at, refused) refl,
  )

module _ {W : Type 0} (live : W → ℕ) (k : Machine W) (accounts : Accounts live k) where
  if-live :
      {A : Type 0} (b : Bool) (m : ℕ) (x y : A × W)
      → live x.1 ≡ m
      → live y.1 ≡ m
      → live (if b then x else y).1 ≡ m
  if-live true m x y h g = h
  if-live false m x y h g = g

  tag_bytes-live : (m at : ℕ) (w : W) → live (tag_bytes k m at w).1 ≡ live w
  unfolding tag_bytes
  tag_bytes-live zero at w = refl
  tag_bytes-live (suc m) at w =
      tag_bytes-live m (at + 1) (k.load 8 at w).1 ∙ accounts.load_counts 8 at w

  pub read_tag-live : (einval at : ℕ) (w : W) → live (read_tag k einval at w).1 ≡ live w
  unfolding read_tag
  read_tag-live einval at w =
      let (tag_len, w') = k.load 16 at w in
      let same : live w' ≡ live w = accounts.load_counts 16 at w in
      if-live (tag_len == 0 || ltb 256 tag_len) (live w) _ _ same
        (tag_bytes-live tag_len (at + 2) w' ∙ same)
