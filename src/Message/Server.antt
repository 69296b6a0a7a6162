-- ===== src/Message/Server.antt =====
-- A server that reads a request, and what it gets from the message of any builder.
use qnx_unit_tests.Base.{
  ℕ, ◌+◌, ◌%◌, ◌^◌, ◌<◌, List, [], ◌∷◌, ◌++◌, Option, some, ◌≡◌, ap, arith, length,
}
use qnx_unit_tests.Types.{header_size}
use qnx_unit_tests.Message.Bytes.{le16}
use qnx_unit_tests.Message.Take.{Take, done, ◌>>=◌, take_u8, take_u16, take_u32}
use qnx_unit_tests.Message.Frame.{frame, take_u16-le16, take_u32-le32}
use qnx_unit_tests.Message.Request.{Request, version, build, type_of, tag_of, payload, build-frame}
use qnx_unit_tests.Message.Receive.{
  IsValid, take_body, take_version, take_attach, take_walk, take_lopen, take_read, take_clunk,
  take_getattr, take_readdir, take_write, take_lcreate, take_mkdir, take_unlinkat, take_renameat,
}
use qnx_unit_tests.Message.Fields.{take_body_lem}

-- The size, the type, the tag and the request of a message.
pub receive : Take (ℕ × ℕ × ℕ × Option Request)
unfolding take_version take_attach take_walk take_lopen take_read take_clunk take_getattr
    take_readdir take_write take_lcreate take_mkdir take_unlinkat take_renameat
receive = do
  size ← take_u32
  type ← take_u8
  tag ← take_u16
  body ← take_body type
  done (size, type, tag, body)

receive-frame :
    (type tag : ℕ) (p : List ℕ) (body : Option Request)
    → tag < 2 ^ 16
    → length (frame type tag p) < 2 ^ 32
    → take_body type p ≡ (body, [])
    → receive (frame type tag p) ≡ ((length (frame type tag p), type, tag, body), [])
unfolding receive take_u8
receive-frame type tag p body ht fits e =
    let n : ℕ = (header_size + length p) % 2 ^ 32 in
    let size : n ≡ length (frame type tag p) = omega arith in
    rw (take_u32-le32 (type ∷ (le16 tag ++ p)) n (omega arith), take_u16-le16 p tag ht, e, size)

tag_of-lt : (tag : ℕ) (r : Request) → tag < 2 ^ 16 → tag_of tag r < 2 ^ 16
tag_of-lt tag (version s v) h = omega arith
tag_of-lt tag _ h = h

-- A server that reads the message of any builder, for arguments of the C++ types whose strings fit
-- their length fields and a message below 4 GiB, gets the size of the message, the type, the tag
-- (the no-tag mark for Tversion) and exactly the fields that the builder was given, with no byte left.
pub receive-build :
    (tag : ℕ) (r : Request)
    → tag < 2 ^ 16
    → IsValid r
    → length (build tag r).bytes < 2 ^ 32
    → receive (build tag r).bytes
      ≡ ((length (build tag r).bytes, type_of r, tag_of tag r, some r), [])
unfolding receive
receive-build tag r ht h hl =
    let fits : length (frame (type_of r) (tag_of tag r) (payload r)) < 2 ^ 32 =
      omega (arith, ap length (build-frame tag r)) in
    rw (build-frame tag r) (
      receive-frame (type_of r) (tag_of tag r) (payload r) (some r) (tag_of-lt tag r ht) fits
        (take_body_lem r h))
