-- ===== src/Resmgr/Flags.antt =====
-- The open flags on the wire, described without bit operations.
use qnx_unit_tests.Base.{ℕ, ◌+◌, Bool, true, false, ◌&&◌, ◌≡◌, refl, if◌then◌else◌, bit_or}
use qnx_unit_tests.Resmgr.{Qnx, has, translate_qnx_to_linux_flags}

abbrev linux_flags : Bool → Bool → Bool → Bool → ℕ
linux_flags reads writes truncates appends =
    (if writes then (if reads then 2 else 1) else 0)
    + ((if truncates then 512 else 0) + (if appends then 1024 else 0))

abbrev translated : Bool → Bool → Bool → Bool → ℕ
translated reads writes truncates appends =
    let access = if reads && writes then 2 else if writes then 1 else 0 in
    let truncated = if truncates then bit_or access 512 else access in
    if appends then bit_or truncated 1024 else truncated

translated-sum :
    (reads writes truncates appends : Bool)
    → translated reads writes truncates appends ≡ linux_flags reads writes truncates appends
translated-sum true true true true = refl
translated-sum true true true false = refl
translated-sum true true false true = refl
translated-sum true true false false = refl
translated-sum true false true true = refl
translated-sum true false true false = refl
translated-sum true false false true = refl
translated-sum true false false false = refl
translated-sum false true true true = refl
translated-sum false true true false = refl
translated-sum false true false true = refl
translated-sum false true false false = refl
translated-sum false false true true = refl
translated-sum false false true false = refl
translated-sum false false false true = refl
translated-sum false false false false = refl

-- For every ioflag and every O_TRUNC of the platform, the Linux flags are the access mode (2 to read and
-- write, 1 to write only, 0 otherwise) plus 0x200 where a bit of O_TRUNC is set and 0x400 where the
-- append bit 0x8 is set: no other flag is sent.
pub translate_qnx_to_linux_flags-sum :
    (qnx : Qnx) (flags : ℕ)
    → translate_qnx_to_linux_flags qnx flags
      ≡ (if has flags 0x2 then (if has flags 0x1 then 2 else 1) else 0)
        + ((if has flags qnx.o_trunc then 0x200 else 0) + (if has flags 0x8 then 0x400 else 0))
unfolding translate_qnx_to_linux_flags
translate_qnx_to_linux_flags-sum qnx flags =
    translated-sum (has flags 0x1) (has flags 0x2) (has flags qnx.o_trunc) (has flags 0x8)
