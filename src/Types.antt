-- ===== src/Types.antt =====
-- protocol/nine_p_types.h: the constants and records of 9P2000.L. A `std::string` or a vector of
-- bytes is a list of byte values.
use qnx_unit_tests.Base.{ℕ, ◌-◌, ◌^◌, List, [], ◌∷◌}

-- kMaxMessageSize
abbrev pub max_message_size : ℕ
max_message_size = 131072

-- kProtocolVersion, the bytes of "9P2000.L"
abbrev pub protocol_version : List ℕ
protocol_version = b'9' ∷ b'P' ∷ b'2' ∷ b'0' ∷ b'0' ∷ b'0' ∷ b'.' ∷ b'L' ∷ []

-- kNoFid
abbrev pub no_fid : ℕ
no_fid = 2 ^ 32 - 1

-- kNoTag
abbrev pub no_tag : ℕ
no_tag = 2 ^ 16 - 1

-- kHeaderSize
abbrev pub header_size : ℕ
header_size = 7

pub record Qid : Type 0 where
  pub type : ℕ
  pub version : ℕ
  pub path : ℕ

pub record NinePStat : Type 0 where
  pub valid : ℕ
  pub qid : Qid
  pub mode : ℕ
  pub uid : ℕ
  pub gid : ℕ
  pub nlink : ℕ
  pub rdev : ℕ
  pub size : ℕ
  pub blksize : ℕ
  pub blocks : ℕ
  pub atime_sec : ℕ
  pub atime_nsec : ℕ
  pub mtime_sec : ℕ
  pub mtime_nsec : ℕ
  pub ctime_sec : ℕ
  pub ctime_nsec : ℕ
  pub btime_sec : ℕ
  pub btime_nsec : ℕ
  pub gen : ℕ
  pub data_version : ℕ

pub record DirEntry : Type 0 where
  pub qid : Qid
  pub offset : ℕ
  pub type : ℕ
  pub name : List ℕ

-- kGetattrBasic
abbrev pub getattr_basic : ℕ
getattr_basic = 0x7ff

-- kLinuxOWronly, kLinuxORdwr, kLinuxOCreat, kLinuxOTrunc, kLinuxOAppend
abbrev pub linux_o_wronly : ℕ
linux_o_wronly = 0x1

abbrev pub linux_o_rdwr : ℕ
linux_o_rdwr = 0x2

abbrev pub linux_o_creat : ℕ
linux_o_creat = 0x40

abbrev pub linux_o_trunc : ℕ
linux_o_trunc = 0x200

abbrev pub linux_o_append : ℕ
linux_o_append = 0x400

-- kLinuxAtRemovedir
abbrev pub linux_at_removedir : ℕ
linux_at_removedir = 0x200
