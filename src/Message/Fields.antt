-- ===== src/Message/Fields.antt =====
-- The reader of each request gets the fields back from their bytes.
use qnx_unit_tests.Base.{
  ℕ, ◌%◌, ◌^◌, ◌<◌, List, [], ◌∷◌, ◌++◌, some, ◌≡◌, refl, arith, append_assoc, append-nil, length,
  All,
}
use qnx_unit_tests.Message.Bytes.{le16, le32}
use qnx_unit_tests.Message.Frame.{
  le64, string, strings, take_u16-le16, take_u32-le32, take_u64-le64, take_bytes_lem,
  take_string_lem,
}
use qnx_unit_tests.Message.Request.{
  Request, version, attach, walk, lopen, read, clunk, getattr, readdir, write, lcreate, mkdir,
  unlinkat, renameat, type_of, payload,
}
use qnx_unit_tests.Message.Receive.{
  IsValid, take_body, take_strings, take_version, take_attach, take_walk, take_lopen, take_read,
  take_clunk, take_getattr, take_readdir, take_write, take_lcreate, take_mkdir, take_unlinkat,
  take_renameat,
}

take_strings_lem :
    (rest : List ℕ) (ss : List (List ℕ))
    → All (λ s. length s < 2 ^ 16) ss
    → take_strings (length ss) (strings ss ++ rest) ≡ (ss, rest)
unfolding take_strings
take_strings_lem rest [] h = refl
take_strings_lem rest (s ∷ ss) h = rw (
  append_assoc (string s) (strings ss) rest,
  take_string_lem (strings ss ++ rest) s h.0,
  take_strings_lem rest ss h.1,
)

take_version_lem :
    (s : ℕ) (v : List ℕ) (rest : List ℕ)
    → IsValid (version s v)
    → take_version (le32 s ++ (string v ++ rest)) ≡ (some (version s v), rest)
unfolding take_version
take_version_lem s v rest h =
    rw (take_u32-le32 (string v ++ rest) s h.0, take_string_lem rest v h.1)

take_attach_lem :
    (f : ℕ) (a : ℕ) (u : List ℕ) (n : List ℕ) (i : ℕ) (rest : List ℕ)
    → IsValid (attach f a u n i)
    → take_attach (le32 f ++ (le32 a ++ (string u ++ (string n ++ (le32 i ++ rest)))))
      ≡ (some (attach f a u n i), rest)
unfolding take_attach
take_attach_lem f a u n i rest h = rw (
  take_u32-le32 (le32 a ++ (string u ++ (string n ++ (le32 i ++ rest)))) f h.0,
  take_u32-le32 (string u ++ (string n ++ (le32 i ++ rest))) a h.1,
  take_string_lem (string n ++ (le32 i ++ rest)) u h.2,
  take_string_lem (le32 i ++ rest) n h.3,
  take_u32-le32 rest i h.4,
)

take_walk_lem :
    (f : ℕ) (n : ℕ) (names : List (List ℕ)) (rest : List ℕ)
    → IsValid (walk f n names)
    → take_walk (le32 f ++ (le32 n ++ (le16 (length names) ++ (strings names ++ rest))))
      ≡ (some (walk f n names), rest)
unfolding take_walk
take_walk_lem f n names rest h = rw (
  take_u32-le32 (le32 n ++ (le16 (length names) ++ (strings names ++ rest))) f h.0,
  take_u32-le32 (le16 (length names) ++ (strings names ++ rest)) n h.1,
  take_u16-le16 (strings names ++ rest) (length names) h.2,
  take_strings_lem rest names h.3,
)

take_lopen_lem :
    (f : ℕ) (l : ℕ) (rest : List ℕ)
    → IsValid (lopen f l)
    → take_lopen (le32 f ++ (le32 l ++ rest)) ≡ (some (lopen f l), rest)
unfolding take_lopen
take_lopen_lem f l rest h = rw (take_u32-le32 (le32 l ++ rest) f h.0, take_u32-le32 rest l h.1)

take_read_lem :
    (f : ℕ) (o : ℕ) (c : ℕ) (rest : List ℕ)
    → IsValid (read f o c)
    → take_read (le32 f ++ (le64 o ++ (le32 c ++ rest))) ≡ (some (read f o c), rest)
unfolding take_read
take_read_lem f o c rest h = rw (
  take_u32-le32 (le64 o ++ (le32 c ++ rest)) f h.0,
  take_u64-le64 (le32 c ++ rest) o h.1,
  take_u32-le32 rest c h.2,
)

take_clunk_lem :
    (f : ℕ) (rest : List ℕ)
    → IsValid (clunk f)
    → take_clunk (le32 f ++ rest) ≡ (some (clunk f), rest)
unfolding take_clunk
take_clunk_lem f rest h = rw (take_u32-le32 rest f h)

take_getattr_lem :
    (f : ℕ) (r : ℕ) (rest : List ℕ)
    → IsValid (getattr f r)
    → take_getattr (le32 f ++ (le64 r ++ rest)) ≡ (some (getattr f r), rest)
unfolding take_getattr
take_getattr_lem f r rest h = rw (take_u32-le32 (le64 r ++ rest) f h.0, take_u64-le64 rest r h.1)

take_readdir_lem :
    (f : ℕ) (o : ℕ) (c : ℕ) (rest : List ℕ)
    → IsValid (readdir f o c)
    → take_readdir (le32 f ++ (le64 o ++ (le32 c ++ rest))) ≡ (some (readdir f o c), rest)
unfolding take_readdir
take_readdir_lem f o c rest h = rw (
  take_u32-le32 (le64 o ++ (le32 c ++ rest)) f h.0,
  take_u64-le64 (le32 c ++ rest) o h.1,
  take_u32-le32 rest c h.2,
)

take_write_lem :
    (f : ℕ) (o : ℕ) (bs : List ℕ) (rest : List ℕ)
    → IsValid (write f o bs)
    → take_write (le32 f ++ (le64 o ++ (le32 (length bs) ++ (bs ++ rest))))
      ≡ (some (write f o bs), rest)
unfolding take_write
take_write_lem f o bs rest h = rw (
  take_u32-le32 (le64 o ++ (le32 (length bs) ++ (bs ++ rest))) f h.0,
  take_u64-le64 (le32 (length bs) ++ (bs ++ rest)) o h.1,
  take_u32-le32 (bs ++ rest) (length bs) h.2,
  take_bytes_lem rest bs,
)

take_lcreate_lem :
    (f : ℕ) (n : List ℕ) (l : ℕ) (m : ℕ) (g : ℕ) (rest : List ℕ)
    → IsValid (lcreate f n l m g)
    → take_lcreate (le32 f ++ (string n ++ (le32 l ++ (le32 m ++ (le32 g ++ rest)))))
      ≡ (some (lcreate f n l m g), rest)
unfolding take_lcreate
take_lcreate_lem f n l m g rest h = rw (
  take_u32-le32 (string n ++ (le32 l ++ (le32 m ++ (le32 g ++ rest)))) f h.0,
  take_string_lem (le32 l ++ (le32 m ++ (le32 g ++ rest))) n h.1,
  take_u32-le32 (le32 m ++ (le32 g ++ rest)) l h.2,
  take_u32-le32 (le32 g ++ rest) m h.3,
  take_u32-le32 rest g h.4,
)

take_mkdir_lem :
    (f : ℕ) (n : List ℕ) (m : ℕ) (g : ℕ) (rest : List ℕ)
    → IsValid (mkdir f n m g)
    → take_mkdir (le32 f ++ (string n ++ (le32 m ++ (le32 g ++ rest))))
      ≡ (some (mkdir f n m g), rest)
unfolding take_mkdir
take_mkdir_lem f n m g rest h = rw (
  take_u32-le32 (string n ++ (le32 m ++ (le32 g ++ rest))) f h.0,
  take_string_lem (le32 m ++ (le32 g ++ rest)) n h.1,
  take_u32-le32 (le32 g ++ rest) m h.2,
  take_u32-le32 rest g h.3,
)

take_unlinkat_lem :
    (f : ℕ) (n : List ℕ) (l : ℕ) (rest : List ℕ)
    → IsValid (unlinkat f n l)
    → take_unlinkat (le32 f ++ (string n ++ (le32 l ++ rest))) ≡ (some (unlinkat f n l), rest)
unfolding take_unlinkat
take_unlinkat_lem f n l rest h = rw (
  take_u32-le32 (string n ++ (le32 l ++ rest)) f h.0,
  take_string_lem (le32 l ++ rest) n h.1,
  take_u32-le32 rest l h.2,
)

take_renameat_lem :
    (f : ℕ) (n : List ℕ) (g : ℕ) (m : List ℕ) (rest : List ℕ)
    → IsValid (renameat f n g m)
    → take_renameat (le32 f ++ (string n ++ (le32 g ++ (string m ++ rest))))
      ≡ (some (renameat f n g m), rest)
unfolding take_renameat
take_renameat_lem f n g m rest h = rw (
  take_u32-le32 (string n ++ (le32 g ++ (string m ++ rest))) f h.0,
  take_string_lem (le32 g ++ (string m ++ rest)) n h.1,
  take_u32-le32 (string m ++ rest) g h.2,
  take_string_lem rest m h.3,
)

pub take_body_lem : (r : Request) → IsValid r → take_body (type_of r) (payload r) ≡ (some r, [])
take_body_lem (version s v) h = rw append-nil at (take_version_lem s v [] h)
take_body_lem (attach f a u n i) h = take_attach_lem f a u n i [] h
take_body_lem (walk f n names) h =
    let e : length names % 2 ^ 16 ≡ length names = omega (arith, h.2) in
    rw e (rw append-nil at (take_walk_lem f n names [] h))
take_body_lem (lopen f l) h = take_lopen_lem f l [] h
take_body_lem (read f o c) h = take_read_lem f o c [] h
take_body_lem (clunk f) h = take_clunk_lem f [] h
take_body_lem (getattr f r) h = take_getattr_lem f r [] h
take_body_lem (readdir f o c) h = take_readdir_lem f o c [] h
take_body_lem (write f o bs) h = rw append-nil at (take_write_lem f o bs [] h)
take_body_lem (lcreate f n l m g) h = take_lcreate_lem f n l m g [] h
take_body_lem (mkdir f n m g) h = take_mkdir_lem f n m g [] h
take_body_lem (unlinkat f n l) h = take_unlinkat_lem f n l [] h
take_body_lem (renameat f n g m) h = rw append-nil at (take_renameat_lem f n g m [] h)
