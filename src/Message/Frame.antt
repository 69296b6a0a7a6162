-- ===== src/Message/Frame.antt =====
-- What a builder leaves in the buffer: a header with the size, the type and the tag, and the fields
-- one after the other; and how a server reads the fields back.
use qnx_unit_tests.Base.{
  ℕ, ◌+◌, ◌/◌, ◌%◌, ◌^◌, ◌<◌, List, [], ◌∷◌, ◌++◌, ◌≡◌, refl, sym, ap, arith, append_assoc,
  append-nil, length, take_all, drop_all, length-append, le→ltb,
}
use qnx_unit_tests.Types.{header_size}
use qnx_unit_tests.Message.Bytes.{le16, le32, u16_of-le16, u32_of-le32, u64_of-halves}
use qnx_unit_tests.Message.Take.{take_u16, take_u32, take_u64, take_bytes, take_string}
use qnx_unit_tests.Message.{
  Message, begin_message, end_message, put_u16, put_u32, put_u64, put_string, put_bytes,
}
use qnx_unit_tests.Message.Build.{put_names}

abbrev pub le64 : ℕ → List ℕ
le64 v = le32 (v % 2 ^ 32) ++ le32 (v / 2 ^ 32 % 2 ^ 32)

abbrev pub string : List ℕ → List ℕ
string s = le16 (length s % 2 ^ 16) ++ s

abbrev pub strings : List (List ℕ) → List ℕ
strings [] = []
strings (s ∷ ss) = string s ++ strings ss

-- A message of the given type, tag and payload on the wire.
abbrev pub frame : ℕ → ℕ → List ℕ → List ℕ
frame type tag payload =
    le32 ((header_size + length payload) % 2 ^ 32) ++ (type ∷ (le16 tag ++ payload))

-- A message that has been begun, with what has been put since.
abbrev pub begun : ℕ → ℕ → List ℕ → Message
begun type tag payload = record {
  bytes = le32 0 ++ (type ∷ (le16 tag ++ payload));
  read_offset = header_size;
}

pub begin_message_lem : (type tag : ℕ) (m : Message) → begin_message type tag m ≡ begun type tag []
unfolding begin_message
begin_message_lem type tag m = refl

module _ (type tag : ℕ) (p : List ℕ) where
  pub put_u16_lem : (v : ℕ) → put_u16 v (begun type tag p) ≡ begun type tag (p ++ le16 v)
  unfolding put_u16
  put_u16_lem v = refl

  pub put_u32_lem : (v : ℕ) → put_u32 v (begun type tag p) ≡ begun type tag (p ++ le32 v)
  unfolding put_u32
  put_u32_lem v = refl

  pub put_u64_lem : (v : ℕ) → put_u64 v (begun type tag p) ≡ begun type tag (p ++ le64 v)
  unfolding put_u64
  put_u64_lem v =
      ap (begun type tag) (append_assoc p (le32 (v % 2 ^ 32)) (le32 (v / 2 ^ 32 % 2 ^ 32)))

  pub put_string_lem :
      (s : List ℕ) → put_string s (begun type tag p) ≡ begun type tag (p ++ string s)
  unfolding put_string
  put_string_lem s = ap (begun type tag) (append_assoc p (le16 (length s % 2 ^ 16)) s)

  pub put_bytes_lem : (bs : List ℕ) → put_bytes bs (begun type tag p) ≡ begun type tag (p ++ bs)
  unfolding put_bytes
  put_bytes_lem bs = refl

  pub end_message_lem : (end_message (begun type tag p)).bytes ≡ frame type tag p
  unfolding end_message
  end_message_lem =
      let e : length (begun type tag p).bytes % 2 ^ 32 ≡ (header_size + length p) % 2 ^ 32 =
        omega arith in
      ap (λ n. le32 n ++ (type ∷ (le16 tag ++ p))) e

pub put_names_lem :
    (type tag : ℕ) (p : List ℕ) (names : List (List ℕ))
    → put_names names (begun type tag p) ≡ begun type tag (p ++ strings names)
unfolding put_names
put_names_lem type tag p [] = ap (begun type tag) (sym (append-nil p))
put_names_lem type tag p (s ∷ ss) =
    rw (put_string_lem type tag p s, put_names_lem type tag (p ++ string s) ss)
      (ap (begun type tag) (append_assoc p (string s) (strings ss)))

pub ruleset puts = (
  begin_message_lem, put_u16_lem, put_u32_lem, put_u64_lem, put_string_lem, put_bytes_lem,
  put_names_lem, end_message_lem,
)

-- The readers undo the writers, and leave what follows.
module _ (rest : List ℕ) where
  pub take_u16-le16 : (v : ℕ) → v < 2 ^ 16 → take_u16 (le16 v ++ rest) ≡ (v, rest)
  unfolding take_u16
  take_u16-le16 v h = rw (u16_of-le16 v h)

  pub take_u32-le32 : (v : ℕ) → v < 2 ^ 32 → take_u32 (le32 v ++ rest) ≡ (v, rest)
  unfolding take_u32
  take_u32-le32 v h = rw (u32_of-le32 v h)

  pub take_bytes_lem : (bs : List ℕ) → take_bytes (length bs) (bs ++ rest) ≡ (bs, rest)
  unfolding take_bytes
  take_bytes_lem bs = rw (
    le→ltb (length (bs ++ rest)) (length bs) (omega (arith, length-append bs rest)),
    take_all bs rest (length bs) refl,
    drop_all bs rest (length bs) refl,
  )

pub take_u64-le64 : (rest : List ℕ) (v : ℕ) → v < 2 ^ 64 → take_u64 (le64 v ++ rest) ≡ (v, rest)
unfolding take_u64
take_u64-le64 rest v h = rw (
  take_u32-le32 (le32 (v / 2 ^ 32 % 2 ^ 32) ++ rest) (v % 2 ^ 32) (omega arith),
  take_u32-le32 rest (v / 2 ^ 32 % 2 ^ 32) (omega arith),
  u64_of-halves v h,
)

pub take_string_lem :
    (rest s : List ℕ) → length s < 2 ^ 16 → take_string (string s ++ rest) ≡ (s, rest)
unfolding take_string
take_string_lem rest s h =
    let e : length s % 2 ^ 16 ≡ length s = omega arith in
    rw (e, take_u16-le16 (s ++ rest) (length s) h) (take_bytes_lem rest s)
