-- ===== src/Args.antt =====
-- resmgr/parse_args.cpp, and FsConfig and CreateTransport's choice. A string is the list of its bytes;
-- strtoull and strtoul, with base 0, are parameters that return their unsigned result.
pub mod Chosen
pub mod Options
use qnx_unit_tests.Base.{
  ℕ, suc, ◌+◌, ◌%◌, ◌^◌, List, [], ◌∷◌, ◌++◌, Option, none, some, Bool, true, false, ◌==◌,
  if◌then◌else◌, take, drop,
}
use qnx_unit_tests.Session.Path.{bytes_eq}

pub record FsConfig : Type 0 where
  pub mount_point : List ℕ
  pub transport_type : List ℕ
  pub mmio_base : ℕ
  pub irq : ℕ
  pub daemonize : Bool

abbrev pub later : Option ℕ → Option ℕ
later none = none
later (some i) = some (suc i)

-- The position of the first `c`; `none` is npos.
unfoldable pub find : ℕ → List ℕ → Option ℕ
find c [] = none
find c (x ∷ xs) = if x == c then some 0 else later (find c xs)

-- "smem", "irq", "transport", "mmio", "pci", "-d", "-o" and "/mnt/host"
abbrev pub smem_key : List ℕ
smem_key = b's' ∷ b'm' ∷ b'e' ∷ b'm' ∷ []

abbrev pub irq_key : List ℕ
irq_key = b'i' ∷ b'r' ∷ b'q' ∷ []

abbrev pub transport_key : List ℕ
transport_key = b't' ∷ b'r' ∷ b'a' ∷ b'n' ∷ b's' ∷ b'p' ∷ b'o' ∷ b'r' ∷ b't' ∷ []

abbrev pub mmio_name : List ℕ
mmio_name = b'm' ∷ b'm' ∷ b'i' ∷ b'o' ∷ []

abbrev pub pci_name : List ℕ
pci_name = b'p' ∷ b'c' ∷ b'i' ∷ []

abbrev pub daemon_flag : List ℕ
daemon_flag = b'-' ∷ b'd' ∷ []

abbrev pub option_flag : List ℕ
option_flag = b'-' ∷ b'o' ∷ []

abbrev pub default_mount : List ℕ
default_mount = b'/' ∷ b'm' ∷ b'n' ∷ b't' ∷ b'/' ∷ b'h' ∷ b'o' ∷ b's' ∷ b't' ∷ []

-- `if (s.empty()) s = d`
abbrev pub default_to : List ℕ → List ℕ → List ℕ
default_to d [] = d
default_to d (c ∷ cs) = c ∷ cs

-- `arg[0] != '-'`, where an empty string has a NUL at 0.
abbrev pub is_positional : List ℕ → Bool
is_positional [] = true
is_positional (c ∷ cs) = if c == b'-' then false else true

module _ (strtoull strtoul : List ℕ → ℕ) where
  -- What ApplyOption does with a key and its value.
  abbrev pub set_option : List ℕ → List ℕ → FsConfig → FsConfig
  set_option key value config =
      if bytes_eq key smem_key
      then record config {
        mmio_base = strtoull value;
        transport_type = default_to mmio_name config.transport_type;
      }
      else if bytes_eq key irq_key
      then record config { irq = strtoul value % 2 ^ 32 }
      else if bytes_eq key transport_key
      then record config { transport_type = value }
      else config

  -- With the position of the option's '='.
  abbrev pub apply_at : List ℕ → FsConfig → Option ℕ → FsConfig
  apply_at option config none = config
  apply_at option config (some eq_pos) =
      set_option (take eq_pos option) (drop (eq_pos + 1) option) config

  unfoldable pub apply_option : List ℕ → FsConfig → FsConfig
  unfolding find
  apply_option option config = apply_at option config (find b'=' option)

  -- The loop over the options, where `piece` has been read of the one at hand. A piece that is empty at
  -- the end of the string is not visited.
  unfoldable pub apply_options : List ℕ → List ℕ → FsConfig → FsConfig
  unfolding apply_option
  apply_options [] [] config = config
  apply_options (p ∷ piece) [] config = apply_option (p ∷ piece) config
  apply_options piece (c ∷ rest) config =
      if c == b','
      then apply_options [] rest (apply_option piece config)
      else apply_options (piece ++ c ∷ []) rest config

  -- An argument that is neither an option flag with its value nor -d.
  abbrev pub positional : List ℕ → FsConfig → FsConfig
  positional arg config = if is_positional arg then record config { mount_point = arg } else config

  -- The loop over the arguments behind the program's name.
  unfoldable pub parse_loop : List (List ℕ) → FsConfig → FsConfig
  unfolding apply_options
  parse_loop [] config = config
  parse_loop (arg ∷ []) config =
      if bytes_eq arg daemon_flag then record config { daemonize = true } else positional arg config
  parse_loop (arg ∷ next ∷ rest) config = elim (bytes_eq arg daemon_flag) [
    | true ↦ parse_loop (next ∷ rest) (record config { daemonize = true })
    | false ↦ elim (bytes_eq arg option_flag) [
      | true ↦ parse_loop rest (apply_options [] next config)
      | false ↦ parse_loop (next ∷ rest) (positional arg config)
    ]
  ]

  abbrev pub with_defaults : FsConfig → FsConfig
  with_defaults config = record config {
    mount_point = default_to default_mount config.mount_point;
    transport_type = default_to pci_name config.transport_type;
  }

  -- The code is 0 on every input.
  unfoldable pub parse_args : List (List ℕ) → FsConfig → ℕ × FsConfig
  unfolding parse_loop
  parse_args args config = (0, with_defaults (parse_loop args (record config { mount_point = [] })))

-- What CreateTransport constructs.
pub data TransportKind : Type 0 where
  mmio : (base_address irq : ℕ) → TransportKind
  pci : TransportKind

unfoldable pub create_transport : FsConfig → TransportKind
create_transport config =
    if bytes_eq config.transport_type mmio_name then mmio config.mmio_base config.irq else pci
