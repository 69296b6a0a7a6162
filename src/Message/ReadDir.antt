-- ===== src/Message/ReadDir.antt =====
-- Rread and Rreaddir: the parsers whose reads depend on a count in the message.
use qnx_unit_tests.Base.{
  ℕ, ◌+◌, ◌≤◌, ◌<◌, ◌^◌, List, [], ◌∷◌, ◌++◌, some, ◌≡◌, ap, arith, length, ok, fault, length-drop,
  ◌!=◌, false,
}
use qnx_unit_tests.Types.{DirEntry}
use qnx_unit_tests.Message.{Message, from_bytes, get_u32, reset_read_offset}
use qnx_unit_tests.Message.Bytes.{le32}
use qnx_unit_tests.Message.Take.{
  Take, done, ◌>>=◌, take_u8, take_u64, take_string, take_qid, take_bytes,
}
use qnx_unit_tests.Message.Frame.{
  frame, le64, string, take_u32-le32, take_u64-le64, take_string_lem,
}
use qnx_unit_tests.Message.Parse.{parse_rread, get_entry}
use qnx_unit_tests.Message.Refines.{
  IsSafe, Refines, view, getters, get_u32-Refines, get_bytes-Runs, get_bytes_fault,
}
use qnx_unit_tests.Message.Expect.{answer, get_type-frame}
use qnx_unit_tests.Message.Replies.{qid_bytes, IsQid, take_qid_lem}

ne_self : (t : ℕ) → (t != t) ≡ false
ne_self t = ground arith

unfoldable pub take_entry : Take DirEntry
take_entry = do
  qid ← take_qid
  offset ← take_u64
  type ← take_u8
  name ← take_string
  done (record { qid = qid; offset = offset; type = type; name = name })

pub get_entry-Refines : Refines get_entry take_entry
unfolding get_entry take_entry
get_entry-Refines = search getters depth 12

-- A directory entry on the wire.
abbrev pub entry_bytes : DirEntry → List ℕ
entry_bytes e = qid_bytes e.qid ++ (le64 e.offset ++ (e.type ∷ string e.name))

abbrev pub entries_bytes : List DirEntry → List ℕ
entries_bytes [] = []
entries_bytes (e ∷ es) = entry_bytes e ++ entries_bytes es

abbrev pub IsEntry : DirEntry → Type 0
IsEntry e = IsQid e.qid × (e.offset < 2 ^ 64) × (length e.name < 2 ^ 16)

pub take_entry_lem :
    (rest : List ℕ) (e : DirEntry) → IsEntry e → take_entry (entry_bytes e ++ rest) ≡ (e, rest)
unfolding take_entry take_u8
take_entry_lem rest e h = rw (
  take_qid_lem (le64 e.offset ++ (e.type ∷ (string e.name ++ rest))) e.qid h.0,
  take_u64-le64 (e.type ∷ (string e.name ++ rest)) e.offset h.1,
  take_string_lem rest e.name h.2,
)

-- A message whose payload is a count and `p`.
abbrev pub counted : ℕ → ℕ → ℕ → List ℕ → Message
counted type tag c p = from_bytes (frame type tag (le32 c ++ p))

-- The message after its count has been read.
module _ (type tag c : ℕ) (p : List ℕ) (hc : c < 2 ^ 32)
    (hl : length (counted type tag c p).bytes ≤ 2 ^ 31) where
  pub after_count :
      (r : Message) × (get_u32 (counted type tag c p) ≡ ok (c, r))
      × IsSafe r
      × (view r ≡ p)
      × (r.read_offset ≡ 11)
  after_count =
      let m : Message = counted type tag c p in
      let safe : IsSafe m = record { within = omega arith; small = hl } in
      let (r, e, v, left, same) = get_u32-Refines.run m safe in
      (
        r,
        rw (take_u32-le32 p c hc) at e,
        v,
        rw (take_u32-le32 p c hc) at left,
        omega (
          arith,
          ap length (rw (take_u32-le32 p c hc) at left),
          ap length same,
          length-drop r.read_offset r.bytes,
          v.within,
        ),
      )

-- On an Rread whose count field is `c`, ParseRread answers the next `c` bytes (none, if there are
-- fewer) when `c` is below 2^32 - 11, and reads outside of the buffer for every larger count.
pub parse_rread_lem :
    (tag c : ℕ) (p : List ℕ)
    → c < 2 ^ 32
    → length (counted 117 tag c p).bytes ≤ 2 ^ 31
    → (c + 11 < 2 ^ 32 → answer (parse_rread (counted 117 tag c p)) ≡ ok (some (take_bytes c p).0))
      × (2 ^ 32 ≤ c + 11 → answer (parse_rread (counted 117 tag c p)) ≡ fault)
unfolding parse_rread reset_read_offset
parse_rread_lem tag c p hc hl =
    let (r, e, v, left, at) = after_count 117 tag c p hc hl in
    let typed = get_type-frame 117 tag (le32 c ++ p) in
    (
      λ fits. let (r', e', _, _, _) = get_bytes-Runs r v c (omega arith) in rw (typed, e, e', left),
      λ wraps. rw (typed, e, (get_bytes_fault r c v hc).0 (omega arith)),
    )
