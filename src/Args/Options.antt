-- ===== src/Args/Options.antt =====
-- A comma-separated list of options, and the configuration that it makes.
use qnx_unit_tests.Base.{
  ℕ, suc, ◌+◌, ◌%◌, ◌^◌, List, [], ◌∷◌, ◌++◌, some, true, false, ◌≡◌, ◌≢◌, refl, sym, ap, ◌∙◌,
  arith, append-nil, append_assoc, All, ◌==◌, length, drop, take_all,
}
use qnx_unit_tests.Args.{
  FsConfig, find, later, apply_at, set_option, apply_option, apply_options, parse_args, parse_loop,
  with_defaults, is_positional, daemon_flag, default_to, default_mount, pci_name,
}
use qnx_unit_tests.Args.Chosen.{
  chosen, set-chosen, first_nonempty, host, transport_of, value_or, last_of, smem, irq,
}
use qnx_unit_tests.Session.Path.{bytes_eq}

abbrev pub Lacks : ℕ → List ℕ → Type 0
Lacks c xs = All (λ x. x ≢ c) xs

-- A key and its value as they are written.
abbrev pub print_option : List ℕ × List ℕ → List ℕ
print_option (key, value) = key ++ b'=' ∷ value

abbrev pub print_options : List (List ℕ × List ℕ) → List ℕ
print_options [] = []
print_options (o ∷ []) = print_option o
print_options (o ∷ p ∷ rest) = print_option o ++ b',' ∷ print_options (p ∷ rest)

-- The key has no '=' and no ',', and the value no ','.
abbrev pub IsOption : List ℕ × List ℕ → Type 0
IsOption (key, value) = Lacks b'=' key × Lacks b',' key × Lacks b',' value

find_at : (c : ℕ) (xs ys : List ℕ) → Lacks c xs → find c (xs ++ c ∷ ys) ≡ some (length xs)
unfolding find
find_at c [] ys h = let e : (c == c) ≡ true = ground arith in rw e refl
find_at c (x ∷ xs) ys h =
    let e : (x == c) ≡ false = ground (arith, h.0) in rw e (ap later (find_at c xs ys h.1))

drop-append : (xs : List ℕ) (c : ℕ) (ys : List ℕ) → drop (length xs + 1) (xs ++ c ∷ ys) ≡ ys
drop-append [] c ys = refl
drop-append (x ∷ xs) c ys =
    let e : suc (length xs) + 1 ≡ suc (length xs + 1) = omega arith in rw e (drop-append xs c ys)

Lacks-append : (c : ℕ) (xs ys : List ℕ) → Lacks c xs → Lacks c ys → Lacks c (xs ++ ys)
Lacks-append c [] ys hx hy = hy
Lacks-append c (x ∷ xs) ys hx hy = (hx.0, Lacks-append c xs ys hx.1 hy)

default_to-nonempty : (d g : List ℕ) → default_to d g ≡ first_nonempty g d
default_to-nonempty d [] = refl
default_to-nonempty d (c ∷ g) = refl

module _ (strtoull strtoul : List ℕ → ℕ) where
  apply_option_print :
      (key value : List ℕ) (config : FsConfig)
      → Lacks b'=' key
      → apply_option strtoull strtoul (print_option (key, value)) config
        ≡ set_option strtoull strtoul key value config
  unfolding apply_option
  apply_option_print key value config h =
      ap (apply_at strtoull strtoul (print_option (key, value)) config) (find_at b'=' key value h)
      ∙ ap
          (λ k.
            set_option strtoull strtoul k (drop (length key + 1) (print_option (key, value)))
              config)
          (take_all key (b'=' ∷ value) (length key) refl)
      ∙ ap (λ v. set_option strtoull strtoul key v config) (drop-append key b'=' value)

  -- The loop reads on to the end of a piece without commas.
  apply_options_piece :
      (piece xs rest : List ℕ) (config : FsConfig)
      → Lacks b',' xs
      → apply_options strtoull strtoul piece (xs ++ rest) config
        ≡ apply_options strtoull strtoul (piece ++ xs) rest config
  unfolding apply_options
  apply_options_piece piece [] rest config h = rw (append-nil piece) refl
  apply_options_piece piece (x ∷ xs) rest config h =
      let e : (x == b',') ≡ false = ground (arith, h.0) in
      rw e (
        apply_options_piece (piece ++ x ∷ []) xs rest config h.1
        ∙ ap (λ z. apply_options strtoull strtoul z rest config) (append_assoc piece (x ∷ []) xs))

  apply_options_end :
      (piece : List ℕ) (config : FsConfig)
      → apply_options strtoull strtoul piece [] config ≡ apply_option strtoull strtoul piece config
  unfolding apply_options apply_option find
  apply_options_end [] config = refl
  apply_options_end (x ∷ piece) config = refl

  -- The options, set one after the other.
  abbrev pub set_options : List (List ℕ × List ℕ) → FsConfig → FsConfig
  set_options [] config = config
  set_options ((key, value) ∷ rest) config =
      set_options rest (set_option strtoull strtoul key value config)

  print_option-Lacks : (o : List ℕ × List ℕ) → IsOption o → Lacks b',' (print_option o)
  print_option-Lacks (key, value) h = Lacks-append b',' key (b'=' ∷ value) h.1 (omega arith, h.2)

  apply_options_print :
      (os : List (List ℕ × List ℕ)) (config : FsConfig)
      → All IsOption os
      → apply_options strtoull strtoul [] (print_options os) config ≡ set_options os config
  unfolding apply_options
  apply_options_print [] config h = refl
  apply_options_print ((key, value) ∷ []) config h =
      ap (λ z. apply_options strtoull strtoul [] z config)
        (sym (append-nil (print_option (key, value))))
      ∙ apply_options_piece [] (print_option (key, value)) [] config
          (print_option-Lacks (key, value) h.0)
      ∙ apply_options_end (print_option (key, value)) config
      ∙ apply_option_print key value config h.0.0
  apply_options_print ((key, value) ∷ o ∷ rest) config h =
      apply_options_piece [] (print_option (key, value)) (b',' ∷ print_options (o ∷ rest)) config
        (print_option-Lacks (key, value) h.0)
      ∙ ap (λ c. apply_options strtoull strtoul [] (print_options (o ∷ rest)) c)
          (apply_option_print key value config h.0.0)
      ∙ apply_options_print (o ∷ rest) (set_option strtoull strtoul key value config) h.1

  positional_flag :
      (mount : List ℕ) → is_positional mount ≡ true → bytes_eq mount daemon_flag ≡ false
  unfolding bytes_eq
  positional_flag [] h = refl
  positional_flag (c ∷ cs) h = ground arith

  -- The options, and the default of the transport.
  abbrev defaulted : List (List ℕ × List ℕ) → FsConfig → FsConfig
  defaulted os config = record (set_options os config) {
    transport_type = default_to pci_name (set_options os config).transport_type;
  }

  -- All the options at once.
  set_options-chosen :
      (os : List (List ℕ × List ℕ)) (config : FsConfig)
      → defaulted os config ≡ chosen strtoull strtoul config os
  set_options-chosen [] config =
      ap (λ t. record config { transport_type = t })
        (default_to-nonempty pci_name config.transport_type)
  set_options-chosen ((key, value) ∷ os) config =
      set_options-chosen os (set_option strtoull strtoul key value config)
      ∙ set-chosen strtoull strtoul key value config os

  -- The arguments `-o k1=v1,k2=v2,... mount`, where a key has no '=' and no comma and a value no comma,
  -- and the mount point does not start with '-', make this configuration: the mount point is `mount`, or
  -- "/mnt/host" if that is empty; the base address is what strtoull makes of the last `smem`, and the
  -- interrupt what strtoul makes of the last `irq`, modulo 2^32, or else those that were there; the
  -- transport is the last `transport`, or else the one that was there, and if that is empty, "mmio" where
  -- an option behind it is `smem`, and else "pci". Other keys change nothing, nor does the daemon flag.
  pub parse_args_lem :
      (os : List (List ℕ × List ℕ)) (mount : List ℕ) (config : FsConfig)
      → All IsOption os
      → is_positional mount ≡ true
      → parse_args strtoull strtoul ((b'-' ∷ b'o' ∷ []) ∷ print_options os ∷ mount ∷ []) config ≡ (
        0,
        record {
          mount_point = first_nonempty mount host;
          transport_type = transport_of config.transport_type os;
          mmio_base = value_or strtoull config.mmio_base (last_of smem os);
          irq = value_or (λ v. strtoul v % 2 ^ 32) config.irq (last_of irq os);
          daemonize = config.daemonize;
        },
      )
  unfolding parse_args parse_loop bytes_eq
  parse_args_lem os mount config h first =
      let plain = positional_flag mount first in
      let bare : FsConfig = record config { mount_point = [] } in
      ap (λ c. (0, with_defaults strtoull strtoul (parse_loop strtoull strtoul (mount ∷ []) c)))
        (apply_options_print os bare h)
      ∙ rw (plain, first)
          (ap (λ m. (0, record (defaulted os bare) { mount_point = m }))
              (default_to-nonempty default_mount mount)
            ∙ ap (λ c. (0, record c { mount_point = first_nonempty mount host }))
                (set_options-chosen os bare))
