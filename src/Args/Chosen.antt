-- ===== src/Args/Chosen.antt =====
-- What resmgr/parse_args.cpp makes of a list of options, key by key: the last value of each counts.
use qnx_unit_tests.Base.{
  ℕ, ◌%◌, ◌^◌, List, [], ◌∷◌, Option, none, some, Bool, true, false, Bool-cases, Option-cases, inl,
  inr, ◌≡◌, refl, arith, if◌then◌else◌,
}
use qnx_unit_tests.Args.{FsConfig, set_option, default_to}
use qnx_unit_tests.Session.Path.{bytes_eq}

-- Options with their keys and values.
abbrev pub Options : Type 0
Options = List (List ℕ × List ℕ)

-- "smem", "irq", "transport", "mmio", "pci" and "/mnt/host" as the user writes them.
abbrev pub smem : List ℕ
smem = b's' ∷ b'm' ∷ b'e' ∷ b'm' ∷ []

abbrev pub irq : List ℕ
irq = b'i' ∷ b'r' ∷ b'q' ∷ []

abbrev pub transport : List ℕ
transport = b't' ∷ b'r' ∷ b'a' ∷ b'n' ∷ b's' ∷ b'p' ∷ b'o' ∷ b'r' ∷ b't' ∷ []

abbrev pub mmio : List ℕ
mmio = b'm' ∷ b'm' ∷ b'i' ∷ b'o' ∷ []

abbrev pub pci : List ℕ
pci = b'p' ∷ b'c' ∷ b'i' ∷ []

abbrev pub host : List ℕ
host = b'/' ∷ b'm' ∷ b'n' ∷ b't' ∷ b'/' ∷ b'h' ∷ b'o' ∷ b's' ∷ b't' ∷ []

abbrev pub first_some : Option (List ℕ) → Option (List ℕ) → Option (List ℕ)
first_some none o = o
first_some (some w) o = some w

abbrev pub first_nonempty : List ℕ → List ℕ → List ℕ
first_nonempty [] ys = ys
first_nonempty (x ∷ xs) ys = x ∷ xs

-- The value of the last option with this key.
abbrev pub last_of : List ℕ → Options → Option (List ℕ)
last_of key [] = none
last_of key ((k, v) ∷ os) = first_some (last_of key os) (if bytes_eq k key then some v else none)

-- The first options where there is such a value, and else the others.
abbrev pub if_set : Option (List ℕ) → Options → Options → Options
if_set (some w) os ps = os
if_set none os ps = ps

-- The options behind the last one that sets the transport, or all of them.
abbrev pub behind : Options → Options
behind [] = []
behind ((k, v) ∷ os) =
    if_set (last_of transport os) (behind os) (if bytes_eq k transport then os else (k, v) ∷ os)

-- A value by a function of it, or the one before.
abbrev pub value_or : {A : Type 0} → (List ℕ → A) → A → Option (List ℕ) → A
value_or f a none = a
value_or f a (some v) = f v

abbrev pub implied : Option (List ℕ) → List ℕ
implied none = pci
implied (some v) = mmio

-- The transport: the last one that is set, or the one before; if that is empty, MMIO where an option
-- behind it says `smem`, and else PCI.
abbrev pub transport_of : List ℕ → Options → List ℕ
transport_of given os =
    first_nonempty (value_or (λ v. v) given (last_of transport os))
      (implied (last_of smem (behind os)))

-- A configuration by all of its fields, after these options.
abbrev pub chosen : (List ℕ → ℕ) → (List ℕ → ℕ) → FsConfig → Options → FsConfig
chosen strtoull strtoul config os = record {
  mount_point = config.mount_point;
  transport_type = transport_of config.transport_type os;
  mmio_base = value_or strtoull config.mmio_base (last_of smem os);
  irq = value_or (λ v. strtoul v % 2 ^ 32) config.irq (last_of irq os);
  daemonize = config.daemonize;
}

bytes_eq-≡ : (xs ys : List ℕ) → bytes_eq xs ys ≡ true → xs ≡ ys
unfolding bytes_eq
bytes_eq-≡ [] [] h = refl
bytes_eq-≡ [] (y ∷ ys) h = cc
bytes_eq-≡ (x ∷ xs) [] h = cc
bytes_eq-≡ (x ∷ xs) (y ∷ ys) h =
    let head : x ≡ y = ground arith in let tail : xs ≡ ys = bytes_eq-≡ xs ys (ground arith) in cc

-- A key is one of the three, or none of them.
data Kind (key : List ℕ) : Type 0 where
  is_smem : key ≡ smem → Kind key
  is_irq : key ≡ irq → Kind key
  is_transport : key ≡ transport → Kind key
  is_other :
      bytes_eq key smem ≡ false
      → bytes_eq key irq ≡ false
      → bytes_eq key transport ≡ false
      → Kind key

Kind-cases : (key : List ℕ) → Kind key
Kind-cases key = elim (Bool-cases (bytes_eq key smem)) [
  | inl s ↦ is_smem (bytes_eq-≡ key smem s)
  | inr s ↦ elim (Bool-cases (bytes_eq key irq)) [
    | inl i ↦ is_irq (bytes_eq-≡ key irq i)
    | inr i ↦ elim (Bool-cases (bytes_eq key transport)) [
      | inl t ↦ is_transport (bytes_eq-≡ key transport t)
      | inr t ↦ is_other s i t
    ]
  ]
]

first_some-none : (o : Option (List ℕ)) → first_some o none ≡ o
first_some-none none = refl
first_some-none (some w) = refl

value_or-first :
    {A : Type 0} (f : List ℕ → A) (a : A) (v : List ℕ) (o : Option (List ℕ))
    → value_or f (f v) o ≡ value_or f a (first_some o (some v))
value_or-first f a v none = refl
value_or-first f a v (some w) = refl

none-set :
    (o : Option (List ℕ)) (b : Bool) (v : List ℕ)
    → first_some o (if b then some v else none) ≡ none
    → (o ≡ none) × (b ≡ false)
none-set none false v h = (refl, refl)
none-set none true v h = cc
none-set (some w) b v h = cc

behind-none : (os : Options) → last_of transport os ≡ none → behind os ≡ os
behind-none [] h = refl
behind-none ((k, v) ∷ os) h =
    let (later, here) = none-set (last_of transport os) (bytes_eq k transport) v h in
    rw (later, here) refl

implied-first :
    (g v : List ℕ) (o : Option (List ℕ))
    → first_nonempty (default_to mmio g) (implied o)
      ≡ first_nonempty g (implied (first_some o (some v)))
implied-first [] v none = refl
implied-first [] v (some w) = refl
implied-first (c ∷ g) v o = refl

-- An option in front of others.
transport_of-smem :
    (g v : List ℕ) (os : Options)
    → transport_of (default_to mmio g) os ≡ transport_of g ((smem, v) ∷ os)
unfolding bytes_eq
transport_of-smem g v os = elim (Option-cases (last_of transport os)) [
  | inl free ↦ rw (free, behind-none os free) (implied-first g v (last_of smem os))
  | inr (w, set) ↦ rw set refl
]

transport_of-set :
    (g v : List ℕ) (os : Options) → transport_of v os ≡ transport_of g ((transport, v) ∷ os)
unfolding bytes_eq
transport_of-set g v os = elim (Option-cases (last_of transport os)) [
  | inl free ↦ rw (free, behind-none os free) refl
  | inr (w, set) ↦ rw set refl
]

transport_of-other :
    (g k v : List ℕ) (os : Options)
    → bytes_eq k smem ≡ false
    → bytes_eq k transport ≡ false
    → transport_of g os ≡ transport_of g ((k, v) ∷ os)
transport_of-other g k v os no_smem no_set = elim (Option-cases (last_of transport os)) [
  | inl free ↦
      rw (free, no_set, behind-none os free, no_smem, first_some-none (last_of smem os)) refl
  | inr (w, set) ↦ rw set refl
]

module _ (strtoull strtoul : List ℕ → ℕ) where
  abbrev after : FsConfig → Options → FsConfig
  after = chosen strtoull strtoul

  set_option-Kind :
      (k v : List ℕ) (config : FsConfig) (os : Options)
      → Kind k
      → after (set_option strtoull strtoul k v config) os ≡ after config ((k, v) ∷ os)
  unfolding bytes_eq
  set_option-Kind k v config os (is_smem same) =
      rw (same, ← transport_of-smem config.transport_type v os)
        (rw
          (
            first_some-none (last_of irq os),
            value_or-first strtoull config.mmio_base v (last_of smem os),
          )
          refl)
  set_option-Kind k v config os (is_irq same) = rw same (
      rw (← transport_of-other config.transport_type irq v os refl refl) (
        rw
          (
            first_some-none (last_of smem os),
            value_or-first (λ v. strtoul v % 2 ^ 32) config.irq v (last_of irq os),
          )
          refl))
  set_option-Kind k v config os (is_transport same) =
      rw (same, ← transport_of-set config.transport_type v os)
        (rw (first_some-none (last_of irq os), first_some-none (last_of smem os)) refl)
  set_option-Kind k v config os (is_other s i t) =
      rw (← transport_of-other config.transport_type k v os s t, s, i, t)
        (rw (first_some-none (last_of irq os), first_some-none (last_of smem os)) refl)

  -- Setting an option and then others is setting them all.
  pub set-chosen :
      (k v : List ℕ) (config : FsConfig) (os : Options)
      → after (set_option strtoull strtoul k v config) os ≡ after config ((k, v) ∷ os)
  set-chosen k v config os = set_option-Kind k v config os (Kind-cases k)
