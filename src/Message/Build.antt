-- ===== src/Message/Build.antt =====
-- The builders of requests of protocol/nine_p_message.cpp, statement by statement: `m ▹ f` is the
-- message after the call `m.f`.
use qnx_unit_tests.Base.{ℕ, ◌%◌, ◌^◌, List, [], ◌∷◌, length}
use qnx_unit_tests.Types.{no_tag}
use qnx_unit_tests.MessageType.{
  tversion, tattach, twalk, tlopen, tlcreate, tread, twrite, tclunk, tgetattr, treaddir, tmkdir,
  tunlinkat, trenameat,
}
use qnx_unit_tests.Message.{
  Message, new, begin_message, end_message, put_u16, put_u32, put_u64, put_string, put_bytes,
}

infixl 20 ◌▹◌
abbrev pub ◌▹◌ : Message → (Message → Message) → Message
m ▹ f = f m

unfoldable pub build_tversion : ℕ → List ℕ → Message
build_tversion max_size version =
    new ▹ begin_message tversion no_tag ▹ put_u32 max_size ▹ put_string version ▹ end_message

unfoldable pub build_tattach : ℕ → ℕ → ℕ → List ℕ → List ℕ → ℕ → Message
build_tattach tag fid afid uname aname n_uname =
    new
    ▹ begin_message tattach tag
    ▹ put_u32 fid
    ▹ put_u32 afid
    ▹ put_string uname
    ▹ put_string aname
    ▹ put_u32 n_uname
    ▹ end_message

-- for (name : names) msg.PutString(name)
unfoldable pub put_names : List (List ℕ) → Message → Message
put_names [] m = m
put_names (name ∷ names) m = put_names names (m ▹ put_string name)

unfoldable pub build_twalk : ℕ → ℕ → ℕ → List (List ℕ) → Message
unfolding put_names
build_twalk tag fid newfid names =
    new
    ▹ begin_message twalk tag
    ▹ put_u32 fid
    ▹ put_u32 newfid
    ▹ put_u16 (length names % 2 ^ 16)
    ▹ put_names names
    ▹ end_message

unfoldable pub build_tlopen : ℕ → ℕ → ℕ → Message
build_tlopen tag fid flags =
    new ▹ begin_message tlopen tag ▹ put_u32 fid ▹ put_u32 flags ▹ end_message

unfoldable pub build_tread : ℕ → ℕ → ℕ → ℕ → Message
build_tread tag fid offset count =
    new ▹ begin_message tread tag ▹ put_u32 fid ▹ put_u64 offset ▹ put_u32 count ▹ end_message

unfoldable pub build_tclunk : ℕ → ℕ → Message
build_tclunk tag fid = new ▹ begin_message tclunk tag ▹ put_u32 fid ▹ end_message

unfoldable pub build_tgetattr : ℕ → ℕ → ℕ → Message
build_tgetattr tag fid request_mask =
    new ▹ begin_message tgetattr tag ▹ put_u32 fid ▹ put_u64 request_mask ▹ end_message

unfoldable pub build_treaddir : ℕ → ℕ → ℕ → ℕ → Message
build_treaddir tag fid offset count =
    new ▹ begin_message treaddir tag ▹ put_u32 fid ▹ put_u64 offset ▹ put_u32 count ▹ end_message

-- The pointer and the count are the list `bs` and its length.
unfoldable pub build_twrite : ℕ → ℕ → ℕ → List ℕ → Message
build_twrite tag fid offset bs =
    new
    ▹ begin_message twrite tag
    ▹ put_u32 fid
    ▹ put_u64 offset
    ▹ put_u32 (length bs)
    ▹ put_bytes bs
    ▹ end_message

unfoldable pub build_tlcreate : ℕ → ℕ → List ℕ → ℕ → ℕ → ℕ → Message
build_tlcreate tag fid name flags mode gid =
    new
    ▹ begin_message tlcreate tag
    ▹ put_u32 fid
    ▹ put_string name
    ▹ put_u32 flags
    ▹ put_u32 mode
    ▹ put_u32 gid
    ▹ end_message

unfoldable pub build_tmkdir : ℕ → ℕ → List ℕ → ℕ → ℕ → Message
build_tmkdir tag dfid name mode gid =
    new
    ▹ begin_message tmkdir tag
    ▹ put_u32 dfid
    ▹ put_string name
    ▹ put_u32 mode
    ▹ put_u32 gid
    ▹ end_message

unfoldable pub build_tunlinkat : ℕ → ℕ → List ℕ → ℕ → Message
build_tunlinkat tag dirfid name flags =
    new
    ▹ begin_message tunlinkat tag
    ▹ put_u32 dirfid
    ▹ put_string name
    ▹ put_u32 flags
    ▹ end_message

unfoldable pub build_trenameat : ℕ → ℕ → List ℕ → ℕ → List ℕ → Message
build_trenameat tag olddirfid oldname newdirfid newname =
    new
    ▹ begin_message trenameat tag
    ▹ put_u32 olddirfid
    ▹ put_string oldname
    ▹ put_u32 newdirfid
    ▹ put_string newname
    ▹ end_message
