-- ===== src/Hal/Uio.antt =====
-- framework/hal/include/optronic/hal/uio.hpp and framework/hal/src/uio.cpp: the region of a UIO device.
-- The operating system is a parameter in the form of its answers, and of what an access to the mapped
-- window does (`bus`); the handles that it gives and takes back are recorded. An offset is that of a
-- register, of 32 bits, so `off + 4` does not wrap.
pub mod Owners
pub mod Window
mod Tests
use optronic.Common.{
  ℕ, ◌+◌, ◌%◌, ◌^◌, Bool, true, false, ◌&&◌, Option, none, some, List, [], ◌∷◌, ◌++◌, get_elem?,
  set, leb, ◌==◌, if◌then◌else◌,
}
use optronic.Core.Error.{hal_open, hal_map, hal_irq_timeout, io}
use optronic.Core.Expected.{Expected, ok, err, Status, done, fail}
use optronic.Hal.Mmio.{MmioBackend}

-- `none` stands for the descriptor -1, and for the null pointer.
pub record Region : Type 0 where
  pub fd : Option ℕ
  pub base : Option ℕ
  pub length : ℕ

-- The descriptors that open has given and that close was called with; the mappings, as an address and
-- a length, that mmap has given and that munmap was called with.
pub record Kernel : Type 0 where
  pub opened : List ℕ
  pub closed : List ℕ
  pub mapped : List (ℕ × ℕ)
  pub unmapped : List (ℕ × ℕ)

-- The answers are `none` for a negative descriptor and for MAP_FAILED.
unfoldable pub open_region : Option ℕ → Option ℕ → ℕ → Kernel → Expected Region × Kernel
open_region none at length k = (fail hal_open "UioRegion::open", k)
open_region (some fd) none length k =
    (fail hal_map "UioRegion::mmap", record k { opened = fd ∷ k.opened; closed = fd ∷ k.closed })
open_region (some fd) (some at) length k = (
  ok (record { fd = some fd; base = some at; length = length }),
  record k { opened = fd ∷ k.opened; mapped = (at, length) ∷ k.mapped },
)

-- What std::exchange leaves of the region that was moved from.
abbrev pub moved_from : Region
moved_from = record { fd = none; base = none; length = 0 }

abbrev pub unmap : Option ℕ → ℕ → Kernel → Kernel
unmap none length k = k
unmap (some at) length k = record k { unmapped = (at, length) ∷ k.unmapped }

abbrev pub close_fd : Option ℕ → Kernel → Kernel
close_fd none k = k
close_fd (some fd) k = record k { closed = fd ∷ k.closed }

-- The destructor; it leaves the length.
unfoldable pub destroy : Region → Kernel → Region × Kernel
destroy r k = (record r { base = none; fd = none }, close_fd r.fd (unmap r.base r.length k))

-- Move construction: the new region, and the other one.
abbrev pub move_construct : Region → Region × Region
move_construct other = (other, moved_from)

-- Move assignment between two regions that are not the same object.
unfoldable pub move_assign : Region → Region → Kernel → Region × Region × Kernel
unfolding destroy
move_assign this other k = let (gone, k') = destroy this k in (other, moved_from, k')

-- What a program does with its regions, which it names by their places.
pub data Op : Type 0 where
  opens : Option ℕ → Option ℕ → ℕ → Op
  moves : ℕ → Op
  assigns : ℕ → ℕ → Op
  destroys : ℕ → Op

abbrev pub keep : List Region → Expected Region → List Region
keep rs (ok r) = rs ++ r ∷ []
keep rs (err e) = rs

abbrev pub assign_places :
    ℕ → ℕ → Option Region → Option Region → List Region → Kernel → List Region × Kernel
assign_places i j (some this) (some other) rs k =
    let (this', other', k') = move_assign this other k in (set (set rs i this') j other', k')
assign_places i j _ _ rs k = (rs, k)

unfoldable pub perform : Op → List Region → Kernel → List Region × Kernel
unfolding open_region destroy move_assign
perform (opens fd at length) rs k = let (r, k') = open_region fd at length k in (keep rs r, k')
perform (moves i) rs k = elim (get_elem? rs i) [
  | none ↦ (rs, k)
  | some r ↦ let (new, other) = move_construct r in (set rs i other ++ new ∷ [], k)
]
perform (assigns i j) rs k =
    if i == j then (rs, k) else assign_places i j (get_elem? rs i) (get_elem? rs j) rs k
perform (destroys i) rs k = elim (get_elem? rs i) [
  | none ↦ (rs, k)
  | some r ↦ let (gone, k') = destroy r k in (set rs i gone, k')
]

abbrev pub is_mapped : Option ℕ → Bool
is_mapped none = false
is_mapped (some at) = true

-- The test before every access.
abbrev pub in_window : Region → ℕ → Bool
in_window r off = is_mapped r.base && off % 4 == 0 && leb (off + 4) r.length

module _ {S : Type 0} (bus : MmioBackend S) where
  unfoldable pub read32 : Region → ℕ → S → ℕ × S
  read32 r off s = if in_window r off then bus.read32 off s else (0, s)

  unfoldable pub write32 : Region → ℕ → ℕ → S → S
  write32 r off v s = if in_window r off then bus.write32 off v s else s

  abbrev pub uio_backend : Region → MmioBackend S
  uio_backend r = record { read32 = read32 r; write32 = write32 r }

-- What poll says.
pub data Polled : Type 0 where
  timed_out failed ready : Polled

-- `counted` is what the read gives, if it gives four bytes.
unfoldable pub wait_irq : Region → Polled → Option ℕ → Expected ℕ
wait_irq r polled counted = elim r.fd [
  | none ↦ fail hal_open "UioRegion::wait_irq"
  | some fd ↦ elim polled [
    | timed_out ↦ fail hal_irq_timeout "UioRegion::wait_irq"
    | failed ↦ fail io "UioRegion::poll"
    | ready ↦ elim counted [ none ↦ fail io "UioRegion::read" | some count ↦ ok count ]
  ]
]

-- `written` says whether the write took four bytes.
unfoldable pub enable_irq : Region → Bool → Status
enable_irq r written = elim r.fd [
  | none ↦ fail hal_open "UioRegion::enable_irq"
  | some fd ↦ if written then done else fail io "UioRegion::enable_irq"
]
