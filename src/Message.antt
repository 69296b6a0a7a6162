-- ===== src/Message.antt =====
-- The class NinePMessage of protocol/nine_p_message.h and protocol/nine_p_message.cpp: a buffer with
-- a read offset. A `Put` returns the new message. A `Get` is an action on the message: it is
-- `fault` where the code would read outside of the vector. The arguments are values of the C++ types,
-- `read_offset_` is a uint32_t and wraps, and a size is a std::size_t, which no vector fills.
pub mod Bytes
pub mod Take
pub mod Refines
pub mod Build
pub mod Parse
pub mod Frame
pub mod Request
pub mod Receive
pub mod Fields
pub mod Server
pub mod Expect
pub mod Readers
pub mod Replies
pub mod ReadDir
pub mod Entries
use Bytes.{u16_of, u32_of, u64_of, le16, le32}
use qnx_unit_tests.Base.{
  ℕ, ◌+◌, ◌%◌, ◌^◌, ◌/◌, List, [], ◌∷◌, ◌++◌, Option, none, some, length, get_elem?, get_or, set,
  take, drop, Bool, ltb, leb, if◌then◌else◌, Result, ok, fault, stuck,
}
use qnx_unit_tests.Types.{Qid, header_size}
use qnx_unit_tests.MessageType.{tlerror}

pub record Message : Type 0 where
  pub bytes : List ℕ
  pub read_offset : ℕ

-- NinePMessage()
abbrev pub new : Message
new = record { bytes = []; read_offset = header_size }

-- NinePMessage(std::vector<std::uint8_t> data)
abbrev pub from_bytes : List ℕ → Message
from_bytes bs = record { bytes = bs; read_offset = header_size }

unfoldable pub put_u8 : ℕ → Message → Message
put_u8 value m = record m { bytes = m.bytes ++ value ∷ [] }

unfoldable pub put_u16 : ℕ → Message → Message
put_u16 value m = record m { bytes = m.bytes ++ le16 value }

unfoldable pub put_u32 : ℕ → Message → Message
put_u32 value m = record m { bytes = m.bytes ++ le32 value }

-- The low half, then the high half.
unfoldable pub put_u64 : ℕ → Message → Message
unfolding put_u32
put_u64 value m = put_u32 (value / 2 ^ 32 % 2 ^ 32) (put_u32 (value % 2 ^ 32) m)

-- The length is cast to a uint16_t; the bytes are appended whole.
unfoldable pub put_string : List ℕ → Message → Message
unfolding put_u16
put_string value m =
    let n = put_u16 (length value % 2 ^ 16) m in record n { bytes = n.bytes ++ value }

-- The argument is the `length` bytes behind the pointer.
unfoldable pub put_bytes : List ℕ → Message → Message
put_bytes bs m = record m { bytes = m.bytes ++ bs }

unfoldable pub begin_message : ℕ → ℕ → Message → Message
unfolding put_u8 put_u16 put_u32
begin_message type tag m =
    put_u16 tag (put_u8 type (put_u32 0 (record m { bytes = []; read_offset = header_size })))

-- The four bytes are there: every caller has called `begin_message`.
unfoldable pub end_message : Message → Message
end_message m =
    let size = length m.bytes % 2 ^ 32 in
    record m {
      bytes =
          set
            (set (set (set m.bytes 0 (size % 256)) 1 (size / 2 ^ 8 % 256)) 2 (size / 2 ^ 16 % 256))
            3 (size / 2 ^ 24 % 256);
    }

-- Actions that read.
abbrev pub Get : Type 0 → Type 0
Get A = Message → Result (A × Message)

abbrev pub pure : {A : Type 0} → A → Get A
pure a m = ok (a, m)

abbrev pub continue : {A B : Type 0} → Result (A × Message) → (A → Get B) → Result (B × Message)
continue (ok (a, m)) f = f a m
continue fault f = fault
continue stuck f = stuck

infixl 5 ◌>>=◌ ◌>>◌
abbrev pub ◌>>=◌ : {A B : Type 0} → Get A → (A → Get B) → Get B
◌>>=◌ m f s = continue (m s) f

abbrev pub ◌>>◌ : {B : Type 0} → Get (Unit {0}) → Get B → Get B
m >> k = m >>= λ _. k

-- data_[i]
abbrev pub or_fault : Option ℕ → Get ℕ
or_fault none m = fault
or_fault (some b) m = ok (b, m)

unfoldable pub load : ℕ → Get ℕ
load i m = or_fault (get_elem? m.bytes i) m

-- read_offset_ += n
unfoldable pub advance : ℕ → Get (Unit {0})
advance n m = ok (tt, record m { read_offset = (m.read_offset + n) % 2 ^ 32 })

-- The guard of a read of `n` bytes: `read_offset_ + n > data_.size()`, with the sum of a uint32_t.
abbrev pub past_end : ℕ → Message → Bool
past_end n m = ltb (length m.bytes) ((m.read_offset + n) % 2 ^ 32)

load_u8 : ℕ → Get ℕ
unfolding load advance
load_u8 off = do b ← load off; advance 1; pure b

unfoldable pub get_u8 : Get ℕ
unfolding load_u8
get_u8 m = if leb (length m.bytes) m.read_offset then ok (0, m) else load_u8 m.read_offset m

load_u16 : ℕ → Get ℕ
unfolding load advance
load_u16 off = do a ← load off; b ← load ((off + 1) % 2 ^ 32); advance 2; pure (u16_of a b)

unfoldable pub get_u16 : Get ℕ
unfolding load_u16
get_u16 m = if past_end 2 m then ok (0, m) else load_u16 m.read_offset m

load_u32 : ℕ → Get ℕ
unfolding load advance
load_u32 off = do
  a ← load off
  b ← load ((off + 1) % 2 ^ 32)
  c ← load ((off + 2) % 2 ^ 32)
  d ← load ((off + 3) % 2 ^ 32)
  advance 4
  pure (u32_of a b c d)

unfoldable pub get_u32 : Get ℕ
unfolding load_u32
get_u32 m = if past_end 4 m then ok (0, m) else load_u32 m.read_offset m

unfoldable pub get_u64 : Get ℕ
unfolding get_u32
get_u64 = do lo ← get_u32; hi ← get_u32; pure (u64_of lo hi)

-- The copy of the range [begin + read_offset_, begin + read_offset_ + length): the pointers do not
-- wrap where the sum in the guard does.
copy : ℕ → Get (List ℕ)
unfolding advance
copy n m =
    if leb (m.read_offset + n) (length m.bytes)
    then (do advance n; pure (take n (drop m.read_offset m.bytes))) m
    else fault

unfoldable pub get_bytes : ℕ → Get (List ℕ)
unfolding copy
get_bytes n m = if past_end n m then ok ([], m) else copy n m

-- After the length has been read, the guard and the copy are those of `get_bytes`.
unfoldable pub get_string : Get (List ℕ)
unfolding get_u16 get_bytes
get_string = do len ← get_u16; get_bytes len

unfoldable pub get_qid : Get Qid
unfolding get_u8 get_u32 get_u64
get_qid = do
  type ← get_u8
  version ← get_u32
  path ← get_u64
  pure (record { type = type; version = version; path = path })

-- The indices stand behind their guards, so the default of `get_or` is not reached.
unfoldable pub get_type : Message → ℕ
get_type m = if ltb (length m.bytes) header_size then tlerror else get_or m.bytes 4 0

unfoldable pub get_tag : Message → ℕ
get_tag m =
    if ltb (length m.bytes) header_size then 0 else u16_of (get_or m.bytes 5 0) (get_or m.bytes 6 0)

unfoldable pub get_size : Message → ℕ
get_size m =
    if ltb (length m.bytes) 4
    then 0
    else u32_of (get_or m.bytes 0 0) (get_or m.bytes 1 0) (get_or m.bytes 2 0) (get_or m.bytes 3 0)

unfoldable pub reset_read_offset : Get (Unit {0})
reset_read_offset m = ok (tt, record m { read_offset = header_size })
