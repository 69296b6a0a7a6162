-- ===== src/Message/Entries.antt =====
-- The loop of ParseRreaddir: what it reads, where it ends, and where it does not.
use qnx_unit_tests.Base.{
  ℕ, zero, suc, ◌+◌, ◌%◌, ◌≤◌, ◌<◌, ◌^◌, List, [], ◌∷◌, ◌++◌, some, ◌≡◌, ◌∙◌, arith, length, ok,
  stuck, All, append_assoc, append-nil, ltb, lt→ltb, le→ltb, Bool-cases, inl, inr, ltb→lt,
  length-append, take,
}
use qnx_unit_tests.Types.{DirEntry}
use qnx_unit_tests.Message.{Message, reset_read_offset}
use qnx_unit_tests.Message.Take.{
  take_u16, take_bytes, take_string, take_qid, take_u8, take_u32, take_u64,
}
use qnx_unit_tests.Message.Parse.{parse_rreaddir, get_entry, get_entries, consumed_after}
use qnx_unit_tests.Message.Refines.{IsSafe, view, take_u16-lt}
use qnx_unit_tests.Message.Expect.{answer, get_type-frame}
use qnx_unit_tests.Message.Bytes.{le32, u64_of}
use qnx_unit_tests.Message.ReadDir.{
  take_entry, get_entry-Refines, entry_bytes, entries_bytes, IsEntry, take_entry_lem, counted,
  after_count,
}

-- One round on a message that starts with an entry.
entry_step :
    (e : DirEntry) (m : Message) (rest : List ℕ)
    → IsSafe m
    → view m ≡ entry_bytes e ++ rest
    → IsEntry e
    → (r : Message) × (get_entry m ≡ ok (e, r)) × IsSafe r × (view r ≡ rest)
entry_step e m rest v at h =
    let (r, run, v', left, _) = get_entry-Refines.run m v in
    (r, rw (at, take_entry_lem rest e h) at run, v', rw (at, take_entry_lem rest e h) at left)

length-entry_bytes : (e : DirEntry) → length (entry_bytes e) ≡ 24 + length e.name
length-entry_bytes e = omega arith

get_entries_lem :
    (es : List DirEntry) (fuel count consumed : ℕ) (acc : List DirEntry) (m : Message)
    (rest : List ℕ)
    → IsSafe m
    → view m ≡ entries_bytes es ++ rest
    → All IsEntry es
    → consumed + length (entries_bytes es) ≡ count
    → count < 2 ^ 32
    → length es ≤ fuel
    → (r : Message) × (get_entries fuel count consumed acc m ≡ ok (acc ++ es, r))
unfolding get_entries
get_entries_lem [] zero count consumed acc m rest v at h sum lt le =
    (m, rw (le→ltb consumed count (omega arith), append-nil))
get_entries_lem [] (suc fuel) count consumed acc m rest v at h sum lt le =
    (m, rw (le→ltb consumed count (omega arith), append-nil))
get_entries_lem (e ∷ es) zero count consumed acc m rest v at h sum lt le = absurd (omega arith)
get_entries_lem (e ∷ es) (suc fuel) count consumed acc m rest v at h sum lt le =
    let tail : view m ≡ entry_bytes e ++ (entries_bytes es ++ rest) =
      at ∙ append_assoc (entry_bytes e) (entries_bytes es) rest in
    let (r, run, v', left) = entry_step e m (entries_bytes es ++ rest) v tail h.0 in
    let sizes = length-append (entry_bytes e) (entries_bytes es) in
    let (r', done) =
      get_entries_lem es fuel count (consumed_after consumed e) (acc ++ e ∷ []) r rest v' left h.1
        (omega (arith, sizes, length-entry_bytes e)) lt (omega arith) in
    (
      r',
      rw (
        lt→ltb consumed count (omega (arith, sizes, length-entry_bytes e)),
        run,
        done,
        append_assoc acc (e ∷ []) es,
      ),
    )

length-le-entries_bytes : (es : List DirEntry) → length es ≤ length (entries_bytes es)
length-le-entries_bytes [] = omega arith
length-le-entries_bytes (e ∷ es) = omega (
  arith,
  length-append (entry_bytes e) (entries_bytes es),
  length-entry_bytes e,
  length-le-entries_bytes es,
)

-- From an Rreaddir whose count is the size of its entries, ParseRreaddir appends exactly these
-- entries, whatever follows them in a message of at most 2 GiB.
pub parse_rreaddir_entries :
    (tag : ℕ) (es acc : List DirEntry) (rest : List ℕ)
    → All IsEntry es
    → length (counted 41 tag (length (entries_bytes es)) (entries_bytes es ++ rest)).bytes ≤ 2 ^ 31
    → answer
        (parse_rreaddir acc (counted 41 tag (length (entries_bytes es)) (entries_bytes es ++ rest)))
      ≡ ok (some (acc ++ es))
unfolding parse_rreaddir reset_read_offset
parse_rreaddir_entries tag es acc rest h hl =
    let c : ℕ = length (entries_bytes es) in
    let fits : c < 2 ^ 32 = omega (arith, length-append (entries_bytes es) rest) in
    let (r, e, v, left, at) = after_count 41 tag c (entries_bytes es ++ rest) fits hl in
    let (r', done) =
      get_entries_lem es c c 0 acc r rest v left h (omega arith) fits
        (length-le-entries_bytes es) in
    rw (get_type-frame 41 tag (le32 c ++ (entries_bytes es ++ rest)), e, done)

length-take-le : (n : ℕ) (xs : List ℕ) → length (take n xs) ≤ n
length-take-le zero xs = omega arith
length-take-le (suc n) [] = omega arith
length-take-le (suc n) (x ∷ xs) = omega (arith, length-take-le n xs)

length-take_bytes : (n : ℕ) (xs : List ℕ) → length (take_bytes n xs).0 ≤ n
unfolding take_bytes
length-take_bytes n xs = ground (arith, length-take-le n xs)

length-take_string : (xs : List ℕ) → length (take_string xs).0 < 2 ^ 16
unfolding take_string
length-take_string xs =
    omega (arith, length-take_bytes (take_u16 xs).0 (take_u16 xs).1, take_u16-lt xs)

-- One round on any message.
entry_step_any :
    (m : Message)
    → IsSafe m
    → (e : DirEntry) × (r : Message) × (get_entry m ≡ ok (e, r))
      × IsSafe r
      × (length e.name < 2 ^ 16)
unfolding take_entry
entry_step_any m v =
    let (r, run, v', left, _) = get_entry-Refines.run m v in
    ((take_entry (view m)).0, r, run, v', length-take_string _)

get_entries-ends :
    (fuel count consumed : ℕ) (acc : List DirEntry) (m : Message)
    → IsSafe m
    → count + 65560 ≤ 2 ^ 32
    → count ≤ consumed + fuel
    → (es : List DirEntry) × (r : Message) × (get_entries fuel count consumed acc m ≡ ok (es, r))
unfolding get_entries
get_entries-ends zero count consumed acc m v hc hf =
    (acc, m, rw (le→ltb consumed count (omega arith)))
get_entries-ends (suc fuel) count consumed acc m v hc hf = elim (Bool-cases (ltb consumed count)) [
  | inr over ↦ (acc, m, rw over)
  | inl more ↦
      let (e, r, run, v', named) = entry_step_any m v in
      let (es, r', done) =
        get_entries-ends fuel count (consumed_after consumed e) (acc ++ e ∷ []) r v' hc
          (omega (arith, ltb→lt consumed count more)) in
      (es, r', rw (more, run, done))
]

-- On every Rreaddir of at most 2 GiB, well formed or not, whose count is at most 2^32 - 65560,
-- ParseRreaddir ends and reads only inside of the buffer.
pub parse_rreaddir-ends :
    (tag c : ℕ) (p : List ℕ) (acc : List DirEntry)
    → c + 65560 ≤ 2 ^ 32
    → length (counted 41 tag c p).bytes ≤ 2 ^ 31
    → (es : List DirEntry) × (answer (parse_rreaddir acc (counted 41 tag c p)) ≡ ok (some es))
unfolding parse_rreaddir reset_read_offset
parse_rreaddir-ends tag c p acc hc hl =
    let (r, e, v, left, at) = after_count 41 tag c p (omega arith) hl in
    let (es, r', done) = get_entries-ends c c 0 acc r v hc (omega arith) in
    (es, rw (get_type-frame 41 tag (le32 c ++ p), e, done))

empty_entry : DirEntry
empty_entry = record {
  qid = record { type = 0; version = 0; path = 0 };
  offset = 0;
  type = 0;
  name = [];
}

entry_step_empty :
    (m : Message)
    → IsSafe m
    → view m ≡ []
    → (r : Message) × (get_entry m ≡ ok (empty_entry, r)) × IsSafe r × (view r ≡ [])
unfolding empty_entry u64_of take_entry take_qid take_u8 take_u32 take_u64 take_string take_u16
    take_bytes
entry_step_empty m v at =
    let (r, run, v', left, _) = get_entry-Refines.run m v in (r, rw at at run, v', rw at at left)

-- Past the end of the message a round adds 24 to the bytes consumed, so that their number stays a
-- multiple of 8: for a count above 2^32 - 8 the loop goes on after any number of rounds.
pub get_entries_endless :
    (fuel count consumed : ℕ) (acc : List DirEntry) (m : Message)
    → IsSafe m
    → view m ≡ []
    → 2 ^ 32 < count + 8
    → consumed % 8 ≡ 0
    → consumed < 2 ^ 32
    → get_entries fuel count consumed acc m ≡ stuck
unfolding get_entries
get_entries_endless zero count consumed acc m v at hc h8 hl =
    rw (lt→ltb consumed count (omega arith))
get_entries_endless (suc fuel) count consumed acc m v at hc h8 hl =
    let (r, run, v', left) = entry_step_empty m v at in
    rw (lt→ltb consumed count (omega arith), run)
      (get_entries_endless fuel count (consumed_after consumed empty_entry)
        (acc ++ empty_entry ∷ []) r v' left hc (unfold empty_entry in omega arith) (omega arith))
