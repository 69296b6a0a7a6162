-- ===== src/Pci/Bars.antt =====
-- The base address registers in DiscoverDevice of transport/pci_transport.cpp: which are mapped, and the
-- pointers into them. A step gives the code with which DiscoverDevice returns at once, if it does.
use qnx_unit_tests.Base.{
  ℕ, zero, suc, ◌+◌, ◌%◌, ◌^◌, List, [], ◌∷◌, Option, none, some, Bool, false, leb, get_elem?, set,
  ◌==◌, ◌||◌, ◌&&◌, if◌then◌else◌, ok, fault,
}
use qnx_unit_tests.Base.Run.{Run, give, lift, ◌>>=◌, ◌>>◌, ◌before◌}
use qnx_unit_tests.Transport.{Errno, neg32}
use qnx_unit_tests.Machine.{Machine}
use qnx_unit_tests.Link.{Driver, call}
use qnx_unit_tests.Pci.{Pci, get_own, set_own}
use qnx_unit_tests.Pci.Bus.{Bar}
use qnx_unit_tests.Pci.Scan.{CapInfo, Found}

abbrev pub max_bars : ℕ
max_bars = 6

-- What a field of an entry that may not be there is.
abbrev pub in_bar : ℕ → Option CapInfo → Bool
in_bar bar_num none = false
in_bar bar_num (some info) = bar_num == info.bar

-- need_this_bar, for use_msix_ and the register of the MSI-X table; both required capabilities are there.
unfoldable pub need_bar : Found → Bool → ℕ → ℕ → Bool
need_bar found use_msix table_bar bar_num =
    in_bar bar_num found.common
    || in_bar bar_num found.notify
    || in_bar bar_num found.device
    || in_bar bar_num found.isr
    || (use_msix && (bar_num == table_bar))

-- A size of 0 stands for one page.
abbrev pub map_size : ℕ → ℕ
map_size zero = 4096
map_size (suc n) = suc n

module _ {W : Type 0} where
  -- bar_virt_ at an index; the array has six entries.
  unfoldable pub bar_virt : ℕ → Run (Driver Pci W) (Option ℕ)
  bar_virt i d = elim (get_elem? d.own.bars i) [ none ↦ fault | some b ↦ ok (b.0, d) ]

  abbrev pub set_bar : ℕ → ℕ → ℕ → Run (Driver Pci W) (Unit {0})
  set_bar i virt size = lift (set_own λ t. record t { bars = set t.bars i (some virt, size) })

module _ {W : Type 0} (k : Machine W) where
  -- What is done with the mapping of a register.
  abbrev pub bar_mapped : ℕ → ℕ → Option ℕ → Run (Driver Pci W) (Option ℕ)
  bar_mapped bar_num size none = λ d. ok (some (neg32 (k.errno d.world)), d)
  bar_mapped bar_num size (some virt) = do set_bar bar_num virt size; give none

  abbrev pub map_missing : Found → ℕ → Bar → Option ℕ → Run (Driver Pci W) (Option ℕ)
  map_missing found table_bar b (some virt) = give none
  map_missing found table_bar b none = do
    use_msix ← lift (get_own λ t. t.use_msix)
    if need_bar found use_msix table_bar (b.bar_num % 2 ^ 8)
        then (do
          mapped ← lift (call (k.map_device (map_size b.size) b.addr))
          bar_mapped (b.bar_num % 2 ^ 8) (map_size b.size) mapped)
        else give none

  -- A round of the loop.
  unfoldable pub map_bar : Found → ℕ → Bar → Run (Driver Pci W) (Option ℕ)
  unfolding need_bar bar_virt
  map_bar found table_bar b =
      if leb max_bars (b.bar_num % 2 ^ 8)
      then give none
      else (do v ← bar_virt (b.bar_num % 2 ^ 8); map_missing found table_bar b v)

  unfoldable pub map_bars : Found → ℕ → List Bar → Run (Driver Pci W) (Option ℕ)
  unfolding map_bar
  map_bars found table_bar [] = give none
  map_bars found table_bar (b ∷ bs) = map_bar found table_bar b before map_bars found table_bar bs

-- How a pointer is set.
abbrev pub Setter : Type 0
Setter = ℕ → Pci → Pci

abbrev pub to_common : Setter
to_common at t = record t { common_cfg = some at }

abbrev pub to_notify : Setter
to_notify at t = record t { notify_base = some at }

abbrev pub to_device : Setter
to_device at t = record t { device_cfg = some at }

abbrev pub to_isr : Setter
to_isr at t = record t { isr_cfg = some at }

module _ {W : Type 0} (e : Errno) where
  abbrev pub point_at : Setter → CapInfo → Option ℕ → Option ℕ → Run (Driver Pci W) (Option ℕ)
  point_at setter info missing none = give missing
  point_at setter info missing (some virt) = do
    lift (set_own (setter (virt + info.offset)))
    give none

  -- A pointer into a register, and what to return where it is not mapped.
  unfoldable pub point : Setter → CapInfo → Option ℕ → Run (Driver Pci W) (Option ℕ)
  unfolding bar_virt
  point setter info missing = do v ← bar_virt info.bar; point_at setter info missing v

  abbrev pub point_if : Setter → Option CapInfo → Run (Driver Pci W) (Option ℕ)
  point_if setter none = give none
  point_if setter (some info) = point setter info none

  -- The pointers to the four structures.
  unfoldable pub set_pointers : CapInfo → CapInfo → Found → Run (Driver Pci W) (Option ℕ)
  unfolding point
  set_pointers common notify found =
      point to_common common (some (neg32 e.enodev))
      before point to_notify notify (some (neg32 e.enodev))
      before point_if to_device found.device
      before point_if to_isr found.isr
