-- ===== src/Message/Take.antt =====
-- What a reader of the wire format does, on the bytes that are left: it takes a value off the front,
-- and where too few bytes are left it takes none and answers zero or the empty string.
use qnx_unit_tests.Base.{ℕ, List, [], ◌∷◌, length, take, drop, ltb, if◌then◌else◌}
use qnx_unit_tests.Types.{Qid}
use qnx_unit_tests.Message.Bytes.{u16_of, u32_of, u64_of}

abbrev pub Take : Type 0 → Type 0
Take A = List ℕ → A × List ℕ

abbrev pub done : {A : Type 0} → A → Take A
done a xs = (a, xs)

infixl 5 ◌>>=◌
abbrev pub ◌>>=◌ : {A B : Type 0} → Take A → (A → Take B) → Take B
◌>>=◌ m f xs = let (a, rest) = m xs in f a rest

unfoldable pub take_u8 : Take ℕ
take_u8 [] = (0, [])
take_u8 (a ∷ rest) = (a, rest)

unfoldable pub take_u16 : Take ℕ
take_u16 (a ∷ b ∷ rest) = (u16_of a b, rest)
take_u16 rest = (0, rest)

unfoldable pub take_u32 : Take ℕ
take_u32 (a ∷ b ∷ c ∷ d ∷ rest) = (u32_of a b c d, rest)
take_u32 rest = (0, rest)

unfoldable pub take_u64 : Take ℕ
take_u64 = do lo ← take_u32; hi ← take_u32; done (u64_of lo hi)

unfoldable pub take_bytes : ℕ → Take (List ℕ)
take_bytes n xs = if ltb (length xs) n then ([], xs) else (take n xs, drop n xs)

unfoldable pub take_string : Take (List ℕ)
take_string = do n ← take_u16; take_bytes n

unfoldable pub take_qid : Take Qid
take_qid = do
  type ← take_u8
  version ← take_u32
  path ← take_u64
  done (record { type = type; version = version; path = path })
