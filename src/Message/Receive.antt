-- ===== src/Message/Receive.antt =====
-- A reader of the fields of each request, written from the 9P2000.L field order.
use qnx_unit_tests.Base.{
  ℕ, zero, suc, ◌^◌, ◌<◌, List, [], ◌∷◌, Option, none, some, length, All, ◌==◌, if◌then◌else◌,
}
use qnx_unit_tests.Message.Take.{
  Take, done, ◌>>=◌, take_u16, take_u32, take_u64, take_bytes, take_string,
}
use qnx_unit_tests.Message.Request.{
  Request, version, attach, walk, lopen, read, clunk, getattr, readdir, write, lcreate, mkdir,
  unlinkat, renameat,
}

unfoldable pub take_strings : ℕ → Take (List (List ℕ))
take_strings zero = done []
take_strings (suc n) = do s ← take_string; ss ← take_strings n; done (s ∷ ss)

-- The field readers of the message types 100, 104, 110, 12, 116, 120, 24, 40, 118, 14, 72, 76, 74.
unfoldable pub take_version : Take (Option Request)
take_version = do s ← take_u32; v ← take_string; done (some (version s v))

unfoldable pub take_attach : Take (Option Request)
take_attach = do
  f ← take_u32
  a ← take_u32
  u ← take_string
  n ← take_string
  i ← take_u32
  done (some (attach f a u n i))

unfoldable pub take_walk : Take (Option Request)
unfolding take_strings
take_walk = do
  f ← take_u32
  n ← take_u32
  count ← take_u16
  names ← take_strings count
  done (some (walk f n names))

unfoldable pub take_lopen : Take (Option Request)
take_lopen = do f ← take_u32; l ← take_u32; done (some (lopen f l))

unfoldable pub take_read : Take (Option Request)
take_read = do f ← take_u32; o ← take_u64; c ← take_u32; done (some (read f o c))

unfoldable pub take_clunk : Take (Option Request)
take_clunk = do f ← take_u32; done (some (clunk f))

unfoldable pub take_getattr : Take (Option Request)
take_getattr = do f ← take_u32; r ← take_u64; done (some (getattr f r))

unfoldable pub take_readdir : Take (Option Request)
take_readdir = do f ← take_u32; o ← take_u64; c ← take_u32; done (some (readdir f o c))

unfoldable pub take_write : Take (Option Request)
take_write = do
  f ← take_u32
  o ← take_u64
  count ← take_u32
  bs ← take_bytes count
  done (some (write f o bs))

unfoldable pub take_lcreate : Take (Option Request)
take_lcreate = do
  f ← take_u32
  n ← take_string
  l ← take_u32
  m ← take_u32
  g ← take_u32
  done (some (lcreate f n l m g))

unfoldable pub take_mkdir : Take (Option Request)
take_mkdir = do
  f ← take_u32
  n ← take_string
  m ← take_u32
  g ← take_u32
  done (some (mkdir f n m g))

unfoldable pub take_unlinkat : Take (Option Request)
take_unlinkat = do f ← take_u32; n ← take_string; l ← take_u32; done (some (unlinkat f n l))

unfoldable pub take_renameat : Take (Option Request)
take_renameat = do
  f ← take_u32
  n ← take_string
  g ← take_u32
  m ← take_string
  done (some (renameat f n g m))

abbrev pub take_body : ℕ → Take (Option Request)
take_body type =
    if type == 100
    then take_version
    else if type == 104
    then take_attach
    else if type == 110
    then take_walk
    else if type == 12
    then take_lopen
    else if type == 116
    then take_read
    else if type == 120
    then take_clunk
    else if type == 24
    then take_getattr
    else if type == 40
    then take_readdir
    else if type == 118
    then take_write
    else if type == 14
    then take_lcreate
    else if type == 72
    then take_mkdir
    else if type == 76
    then take_unlinkat
    else if type == 74
    then take_renameat
    else done none

-- The fields are values of their C++ types, and a string or a list of names fits its 16-bit length.
abbrev pub IsValid : Request → Type 0
IsValid (version s v) = (s < 2 ^ 32) × (length v < 2 ^ 16)
IsValid (attach f a u n i) =
    (f < 2 ^ 32) × (a < 2 ^ 32) × (length u < 2 ^ 16) × (length n < 2 ^ 16) × (i < 2 ^ 32)
IsValid (walk f n names) =
    (f < 2 ^ 32) × (n < 2 ^ 32) × (length names < 2 ^ 16) × All (λ s. length s < 2 ^ 16) names
IsValid (lopen f l) = (f < 2 ^ 32) × (l < 2 ^ 32)
IsValid (read f o c) = (f < 2 ^ 32) × (o < 2 ^ 64) × (c < 2 ^ 32)
IsValid (clunk f) = (f < 2 ^ 32)
IsValid (getattr f r) = (f < 2 ^ 32) × (r < 2 ^ 64)
IsValid (readdir f o c) = (f < 2 ^ 32) × (o < 2 ^ 64) × (c < 2 ^ 32)
IsValid (write f o bs) = (f < 2 ^ 32) × (o < 2 ^ 64) × (length bs < 2 ^ 32)
IsValid (lcreate f n l m g) =
    (f < 2 ^ 32) × (length n < 2 ^ 16) × (l < 2 ^ 32) × (m < 2 ^ 32) × (g < 2 ^ 32)
IsValid (mkdir f n m g) = (f < 2 ^ 32) × (length n < 2 ^ 16) × (m < 2 ^ 32) × (g < 2 ^ 32)
IsValid (unlinkat f n l) = (f < 2 ^ 32) × (length n < 2 ^ 16) × (l < 2 ^ 32)
IsValid (renameat f n g m) = (f < 2 ^ 32) × (length n < 2 ^ 16) × (g < 2 ^ 32) × (length m < 2 ^ 16)
