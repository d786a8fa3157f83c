-- ===== src/Hal/Uio/Window.antt =====
-- A program over a backend sees in an open region what it sees in the stand-in, but for the faults.
use optronic.Common.{ℕ, ◌+◌, ◌≡◌, if◌then◌else◌, List, [], ◌∷◌, some}
use optronic.Hal.Mmio.{
  FakeMmio, Hook, ReadHook, Hooks, MmioBackend, size, aligned_and_inside, fake_backend,
}
use optronic.Hal.Mmio
use optronic.Hal.Uio.{Region, read32, write32, uio_backend}

-- The region of `size` bytes that `open` makes.
abbrev pub window : ℕ → ℕ → Region
window fd at = record { fd = some fd; base = some at; length = size }

pub data Access : Type 0 where
  reads : ℕ → Access
  writes : ℕ → ℕ → Access

abbrev pub offset_of : Access → ℕ
offset_of (reads off) = off
offset_of (writes off v) = off

-- A program over a backend: what its reads give, and the device that it leaves.
pub serve : {S : Type 0} → MmioBackend S → List Access → S → List ℕ × S
serve b [] s = ([], s)
serve b (reads off ∷ rest) s =
    let (v, s') = b.read32 off s in let (vs, s'') = serve b rest s' in (v ∷ vs, s'')
serve b (writes off v ∷ rest) s = serve b rest (b.write32 off v s)

-- 1 for an access that is misaligned or outside, and how many there are.
abbrev pub cost : ℕ → ℕ
cost off = if aligned_and_inside off then 0 else 1

abbrev pub refused : List Access → ℕ
refused [] = 0
refused (a ∷ rest) = cost (offset_of a) + refused rest

-- A zero for each read.
abbrev pub zeros : List Access → List ℕ
zeros [] = []
zeros (reads off ∷ rest) = 0 ∷ zeros rest
zeros (writes off v ∷ rest) = zeros rest

module _ {C : Type 0} where
  -- The device with more faults counted.
  abbrev pub bump : ℕ → FakeMmio C → FakeMmio C
  bump k m = record m { faults = m.faults + k }

  -- No hook depends on the count of faults, or sets it.
  abbrev pub Blind : List (Hook C) → Type 0
  Blind [] = Unit
  Blind (h ∷ hs) =
      ((k : ℕ) (m : FakeMmio C) (v : ℕ) → h.fn (bump k m) v ≡ bump k (h.fn m v)) × Blind hs

  abbrev pub ReadBlind : List (ReadHook C) → Type 0
  ReadBlind [] = Unit
  ReadBlind (h ∷ hs) = ((k : ℕ) (m : FakeMmio C) → h.fn (bump k m) ≡ bump k (h.fn m)) × ReadBlind hs

module _ {C : Type 0} (hk : Hooks C) where
  abbrev bus : MmioBackend (FakeMmio C)
  bus = fake_backend hk

  abbrev open_bus : ℕ → ℕ → MmioBackend (FakeMmio C)
  open_bus fd at = uio_backend bus (window fd at)
