-- ===== src/Message/Request.antt =====
-- The requests that a client sends, one constructor for each builder, as the server sees them.
use qnx_unit_tests.Base.{ℕ, ◌%◌, ◌^◌, List, ◌++◌, ◌≡◌, append_assoc, length}
use qnx_unit_tests.Types.{no_tag}
use qnx_unit_tests.Message.{Message}
use qnx_unit_tests.Message.Bytes.{le16, le32}
use qnx_unit_tests.Message.Build.{
  build_tversion, build_tattach, build_twalk, build_tlopen, build_tread, build_tclunk,
  build_tgetattr, build_treaddir, build_twrite, build_tlcreate, build_tmkdir, build_tunlinkat,
  build_trenameat,
}
use qnx_unit_tests.Message.Frame.{frame, le64, string, strings, puts}

pub data Request : Type 0 where
  version : ℕ → List ℕ → Request
  attach : ℕ → ℕ → List ℕ → List ℕ → ℕ → Request
  walk : ℕ → ℕ → List (List ℕ) → Request
  lopen : ℕ → ℕ → Request
  read : ℕ → ℕ → ℕ → Request
  clunk : ℕ → Request
  getattr : ℕ → ℕ → Request
  readdir : ℕ → ℕ → ℕ → Request
  write : ℕ → ℕ → List ℕ → Request
  lcreate : ℕ → List ℕ → ℕ → ℕ → ℕ → Request
  mkdir : ℕ → List ℕ → ℕ → ℕ → Request
  unlinkat : ℕ → List ℕ → ℕ → Request
  renameat : ℕ → List ℕ → ℕ → List ℕ → Request

abbrev pub build : ℕ → Request → Message
build tag (version s v) = build_tversion s v
build tag (attach f a u n i) = build_tattach tag f a u n i
build tag (walk f n names) = build_twalk tag f n names
build tag (lopen f l) = build_tlopen tag f l
build tag (read f o c) = build_tread tag f o c
build tag (clunk f) = build_tclunk tag f
build tag (getattr f r) = build_tgetattr tag f r
build tag (readdir f o c) = build_treaddir tag f o c
build tag (write f o bs) = build_twrite tag f o bs
build tag (lcreate f n l m g) = build_tlcreate tag f n l m g
build tag (mkdir f n m g) = build_tmkdir tag f n m g
build tag (unlinkat f n l) = build_tunlinkat tag f n l
build tag (renameat f n g m) = build_trenameat tag f n g m

-- The type byte and the tag of the message.
abbrev pub type_of : Request → ℕ
type_of (version s v) = 100
type_of (attach f a u n i) = 104
type_of (walk f n names) = 110
type_of (lopen f l) = 12
type_of (read f o c) = 116
type_of (clunk f) = 120
type_of (getattr f r) = 24
type_of (readdir f o c) = 40
type_of (write f o bs) = 118
type_of (lcreate f n l m g) = 14
type_of (mkdir f n m g) = 72
type_of (unlinkat f n l) = 76
type_of (renameat f n g m) = 74

abbrev pub tag_of : ℕ → Request → ℕ
tag_of tag (version s v) = no_tag
tag_of tag r = tag

-- The fields in the order of the protocol.
abbrev pub payload : Request → List ℕ
payload (version s v) = le32 s ++ string v
payload (attach f a u n i) = le32 f ++ (le32 a ++ (string u ++ (string n ++ le32 i)))
payload (walk f n names) = le32 f ++ (le32 n ++ (le16 (length names % 2 ^ 16) ++ strings names))
payload (lopen f l) = le32 f ++ le32 l
payload (read f o c) = le32 f ++ (le64 o ++ le32 c)
payload (clunk f) = le32 f
payload (getattr f r) = le32 f ++ le64 r
payload (readdir f o c) = le32 f ++ (le64 o ++ le32 c)
payload (write f o bs) = le32 f ++ (le64 o ++ (le32 (length bs) ++ bs))
payload (lcreate f n l m g) = le32 f ++ (string n ++ (le32 l ++ (le32 m ++ le32 g)))
payload (mkdir f n m g) = le32 f ++ (string n ++ (le32 m ++ le32 g))
payload (unlinkat f n l) = le32 f ++ (string n ++ le32 l)
payload (renameat f n g m) = le32 f ++ (string n ++ (le32 g ++ string m))

-- What the builders write.
pub build-frame :
    (tag : ℕ) (r : Request) → (build tag r).bytes ≡ frame (type_of r) (tag_of tag r) (payload r)
unfolding build_tversion build_tattach build_twalk build_tlopen build_tread build_tclunk
    build_tgetattr build_treaddir build_twrite build_tlcreate build_tmkdir build_tunlinkat
    build_trenameat
build-frame tag (version s v) = simp (puts, append_assoc)
build-frame tag (attach f a u n i) = simp (puts, append_assoc)
build-frame tag (walk f n names) = simp (puts, append_assoc)
build-frame tag (lopen f l) = simp (puts, append_assoc)
build-frame tag (read f o c) = simp (puts, append_assoc)
build-frame tag (clunk f) = simp puts
build-frame tag (getattr f r) = simp (puts, append_assoc)
build-frame tag (readdir f o c) = simp (puts, append_assoc)
build-frame tag (write f o bs) = simp (puts, append_assoc)
build-frame tag (lcreate f n l m g) = simp (puts, append_assoc)
build-frame tag (mkdir f n m g) = simp (puts, append_assoc)
build-frame tag (unlinkat f n l) = simp (puts, append_assoc)
build-frame tag (renameat f n g m) = simp (puts, append_assoc)
