-- ===== src/Transport.antt =====
-- The interface Transport of transport/transport.h, over the state of an implementation. A return code
-- is the bit pattern of an int32_t: 0 is success, and -e is `neg32 e`. An exchange returns the code,
-- the response that it leaves in the vector, and the state.
use qnx_unit_tests.Base.{ℕ, ◌-◌, ◌%◌, ◌^◌, ◌<◌, List, leb, Bool}

-- static_cast<std::int32_t> of `e`, negated, as a bit pattern.
abbrev pub neg32 : ℕ → ℕ
neg32 e = (2 ^ 32 - e) % 2 ^ 32

-- rc < 0
abbrev pub is_negative : ℕ → Bool
is_negative rc = leb (2 ^ 31) rc

pub record Transport (S : Type 0) : Type 0 where
  pub initialize : S → ℕ × S
  pub exchange : List ℕ → S → ℕ × List ℕ × S
  pub get_mount_tag : S → ℕ × List ℕ × S
  pub reset_device : S → ℕ × S
  pub shutdown : S → S

-- The values of the errno macros that the code names, from the platform's <cerrno>.
pub record Errno : Type 0 where
  pub enoent : ℕ
  pub eio : ℕ
  pub enomem : ℕ
  pub einval : ℕ
  pub enospc : ℕ
  pub enotsup : ℕ
  pub enosys : ℕ
  pub enodev : ℕ

-- They are distinct where the code tells them apart, positive, and fit an int.
pub record IsErrno (e : Errno) : Type 0 where
  pub enoent_range : (0 < e.enoent) × (e.enoent < 2 ^ 31)
  pub eio_range : (0 < e.eio) × (e.eio < 2 ^ 31)
  pub enomem_range : (0 < e.enomem) × (e.enomem < 2 ^ 31)
  pub einval_range : (0 < e.einval) × (e.einval < 2 ^ 31)
  pub enospc_range : (0 < e.enospc) × (e.enospc < 2 ^ 31)
  pub enotsup_range : (0 < e.enotsup) × (e.enotsup < 2 ^ 31)
  pub enosys_range : (0 < e.enosys) × (e.enosys < 2 ^ 31)
  pub enodev_range : (0 < e.enodev) × (e.enodev < 2 ^ 31)
