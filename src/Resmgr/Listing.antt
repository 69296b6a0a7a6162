-- ===== src/Resmgr/Listing.antt =====
-- What a read of a directory puts into the reply.
use qnx_unit_tests.Base.{
  ℕ, ◌+◌, ◌≤◌, ◌<◌, List, [], ◌∷◌, ◌++◌, map, append_assoc, append-nil, true, ◌≡◌, refl, ap, ◌∙◌,
  arith, ltb, ltb→lt, Bool-cases, inl, inr, if◌then◌else◌, ok, ◌-◌, ◌%◌, ◌^◌, length,
}
use qnx_unit_tests.Types.{DirEntry}
use qnx_unit_tests.Transport.{Transport, Errno}
use qnx_unit_tests.Session.{Session}
use qnx_unit_tests.Session.Ops.{read_dir}
use qnx_unit_tests.Resmgr.{Virtio9pOcb}
use qnx_unit_tests.Resmgr.Read.{
  Dirent, ReadReply, nothing, listing, reclen, dirent, format, reply_listing, read_listing,
}

-- The bytes of an entry in the reply: its header, its name and a NUL, and the padding to a multiple of 8.
abbrev pub padding : ℕ → ℕ
padding n = (8 - n % 8) % 8

abbrev pub record_size : ℕ → DirEntry → ℕ
record_size d_name entry = d_name + length entry.name + 1 + padding (d_name + length entry.name + 1)

-- What the client finds of an entry. The two lengths are 16 bits wide.
abbrev pub entry_of : ℕ → DirEntry → Dirent
entry_of d_name entry = record {
  d_ino = entry.qid.path;
  d_offset = entry.offset;
  d_reclen = record_size d_name entry % 2 ^ 16;
  d_namelen = length entry.name % 2 ^ 16;
  d_name = entry.name;
}

-- The bytes of some entries in the reply.
abbrev pub total : ℕ → List DirEntry → ℕ
total d_name [] = 0
total d_name (entry ∷ entries) = record_size d_name entry + total d_name entries

-- The offset of the last of some entries.
abbrev pub last_offset : DirEntry → List DirEntry → ℕ
last_offset entry [] = entry.offset
last_offset entry (next ∷ entries) = last_offset next entries

-- The reply to a read that keeps these entries, and the OCB.
abbrev pub listed : ℕ → Virtio9pOcb → List DirEntry → ReadReply × Virtio9pOcb
listed d_name ocb [] = (nothing, ocb)
listed d_name ocb (entry ∷ entries) = (
  listing (map (entry_of d_name) (entry ∷ entries)),
  record ocb { offset = last_offset entry entries; file_nbytes = total d_name (entry ∷ entries) },
)

-- The offset behind some entries that were read from `offset`.
abbrev offset_after : ℕ → List DirEntry → ℕ
offset_after offset [] = offset
offset_after offset (entry ∷ entries) = offset_after entry.offset entries

reclen-size : (d_name : ℕ) (entry : DirEntry) → reclen d_name entry ≡ record_size d_name entry
reclen-size d_name entry = omega arith

dirent-entry : (d_name : ℕ) (entry : DirEntry) → dirent d_name entry ≡ entry_of d_name entry
dirent-entry d_name entry = rw (reclen-size d_name entry) refl

last-after :
    (entry : DirEntry) (entries : List DirEntry)
    → offset_after entry.offset entries ≡ last_offset entry entries
last-after entry [] = refl
last-after entry (next ∷ entries) = last-after next entries

-- With `used` bytes taken, `kept` is the longest front of `entries` that fits into `room` bytes.
pub record Fits (d_name room used : ℕ) (entries kept : List DirEntry) : Type 0 where
  pub left : List DirEntry
  pub split : entries ≡ kept ++ left
  pub within : used + total d_name kept ≤ room
  pub longest :
      (entry : DirEntry) (more : List DirEntry)
      → left ≡ entry ∷ more
      → room < used + total d_name kept + record_size d_name entry

head-cons : (e f : DirEntry) (es fs : List DirEntry) → e ∷ es ≡ f ∷ fs → e ≡ f
head-cons e f es fs h = cc

module _ (d_name : ℕ) where
  -- The front that fits, when `size` bytes are used.
  abbrev pub fitting : ℕ → ℕ → List DirEntry → List DirEntry
  fitting nbytes size [] = []
  fitting nbytes size (entry ∷ entries) =
      let rest = fitting nbytes (size + record_size d_name entry) entries in
      if ltb nbytes (size + record_size d_name entry) then [] else entry ∷ rest

  format-fitting :
      (nbytes : ℕ) (buf : List Dirent) (size offset : ℕ) (entries : List DirEntry)
      → format d_name nbytes buf size offset entries ≡ (
        buf ++ map (entry_of d_name) (fitting nbytes size entries),
        size + total d_name (fitting nbytes size entries),
        offset_after offset (fitting nbytes size entries),
      )
  unfolding format
  format-fitting nbytes buf size offset [] =
      rw (append-nil buf) (ap (λ n. (buf, n, offset)) (omega arith))
  format-fitting nbytes buf size offset (entry ∷ entries) =
      let used = size + record_size d_name entry in
      rw (dirent-entry d_name entry, reclen-size d_name entry)
        (elim (Bool-cases (ltb nbytes used)) [
          | inl too_much ↦ rw (too_much, append-nil buf) (ap (λ n. (buf, n, offset)) (omega arith))
          | inr fits ↦
              let rest = fitting nbytes used entries in
              let end = offset_after entry.offset rest in
              let whole = buf ++ entry_of d_name entry ∷ map (entry_of d_name) rest in
              rw fits (
                format-fitting nbytes (buf ++ entry_of d_name entry ∷ []) used entry.offset entries
                ∙ ap (λ b. (b, used + total d_name rest, end))
                    (append_assoc buf (entry_of d_name entry ∷ []) (map (entry_of d_name) rest))
                ∙ ap (λ n. (whole, n, end)) (omega arith))
        ])

  fitting-Fits :
      (nbytes used : ℕ) (entries : List DirEntry)
      → used ≤ nbytes
      → Fits d_name nbytes used entries (fitting nbytes used entries)
  fitting-Fits nbytes used [] h = record {
    left = [];
    split = refl;
    within = omega arith;
    longest = λ f fs k. cc;
  }
  fitting-Fits nbytes used (entry ∷ entries) h =
      elim (Bool-cases (ltb nbytes (used + record_size d_name entry))) [
        | inl too_much ↦ rw too_much (record {
          left = entry ∷ entries;
          split = refl;
          within = omega arith;
          longest = λ f fs k.
              rw (← head-cons entry f entries fs k)
                (omega (arith, ltb→lt nbytes (used + record_size d_name entry) too_much));
        })
        | inr room ↦
            let ih = fitting-Fits nbytes (used + record_size d_name entry) entries (ground arith) in
            rw room (record {
              left = ih.left;
              split = ap (◌∷◌ entry) ih.split;
              within = omega (arith, ih.within);
              longest = λ f fs k. omega (arith, ih.longest f fs k);
            })
      ]

  reply_listing-listed :
      (ocb : Virtio9pOcb) (kept : List DirEntry)
      → reply_listing d_name ocb
          (map (entry_of d_name) kept, total d_name kept, offset_after ocb.offset kept)
        ≡ listed d_name ocb kept
  reply_listing-listed ocb [] = refl
  reply_listing-listed ocb (entry ∷ entries) = rw (last-after entry entries) refl

  module _ {S : Type 0} (t : Transport S) (e : Errno) where
    -- Where ReadDir answers some entries, and `kept` is the longest front of them that fits into the
    -- client's buffer: if it is empty, IoRead reports the end of the directory and leaves the OCB; else it
    -- sends an entry for each of them, with its inode, its offset, its name, and its size padded to a
    -- multiple of 8, the OCB's offset becomes that of the last of them, and its size their bytes.
    pub read_listing_lem :
        (nbytes : ℕ) (ocb : Virtio9pOcb) (s s' : Session S) (entries : List DirEntry)
        → read_dir t e ocb.fid ocb.offset nbytes [] s ≡ ok ((0, entries), s')
        → (kept : List DirEntry) × Fits d_name nbytes 0 entries kept
          × (read_listing d_name t e nbytes ocb s ≡ ok (listed d_name ocb kept, s'))
    unfolding read_listing
    read_listing_lem nbytes ocb s s' entries h =
        let kept = fitting nbytes 0 entries in
        (
          kept,
          fitting-Fits nbytes 0 entries (omega arith),
          rw h (
              ap (λ r. ok (reply_listing d_name ocb r, s'))
                (format-fitting nbytes [] 0 ocb.offset entries)
              ∙ ap
                  (λ n. ok (
                    reply_listing d_name ocb
                        (map (entry_of d_name) kept, n, offset_after ocb.offset kept),
                    s',
                  ))
                  (omega arith)
              ∙ ap (λ r. ok (r, s')) (reply_listing-listed ocb kept)),
        )

    -- Where ReadDir answers entries of which the first is larger than the client's buffer, IoRead reports
    -- the end of the directory and leaves the offset.
    pub read_listing_hidden :
        (nbytes : ℕ) (ocb : Virtio9pOcb) (s s' : Session S) (entry : DirEntry)
        (entries : List DirEntry)
        → read_dir t e ocb.fid ocb.offset nbytes [] s ≡ ok ((0, entry ∷ entries), s')
        → nbytes < reclen d_name entry
        → read_listing d_name t e nbytes ocb s ≡ ok ((nothing, ocb), s')
    unfolding read_listing format
    read_listing_hidden nbytes ocb s s' entry entries h large =
        let too_much : ltb nbytes (0 + reclen d_name entry) ≡ true = ground arith in
        rw h (rw too_much refl)
