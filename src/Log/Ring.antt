-- ===== src/Log/Ring.antt =====
-- framework/log/include/optronic/log/ring.hpp: the single-producer single-consumer ring. `k` is the
-- logarithm of `Capacity`, which the source asserts to be a power of two; an index is a `size_t`.
pub mod Refine
pub mod Concurrent
mod Tests
use optronic.Common.{
  ℕ, ◌+◌, ◌-◌, ◌%◌, ◌^◌, Bool, true, false, Option, none, some, bit_and, ltb, ◌==◌, if◌then◌else◌,
}

-- One more than the largest `std::size_t`.
abbrev pub size_mod : ℕ
size_mod = 2 ^ 64

-- A write to one place of an array.
abbrev pub update {ℓ} : {A : Type ℓ} → (ℕ → A) → ℕ → A → ℕ → A
update f i v j = if j == i then v else f j

-- `write_`, `read_` and `slots_`.
pub record SpscRing {ℓ} (A : Type ℓ) : Type ℓ where
  pub write : ℕ
  pub read : ℕ
  pub slots : ℕ → A

abbrev pub capacity : ℕ → ℕ
capacity k = 2 ^ k

-- i & kMask
abbrev pub mask : ℕ → ℕ → ℕ
mask k i = bit_and i (capacity k - 1)

module _ {ℓ} {A : Type ℓ} where
  abbrev pub empty : A → SpscRing A
  empty a = record { write = 0; read = 0; slots = λ _. a }

  unfoldable pub try_push : ℕ → SpscRing A → A → Bool × SpscRing A
  try_push k r x =
      let next = (r.write + 1) % size_mod in
      if ltb (capacity k) ((next + size_mod - r.read) % size_mod)
      then (false, r)
      else (true, record r { slots = update r.slots (mask k r.write) x; write = next })

  -- The option is what goes through `out`, with the `true` that is returned then.
  unfoldable pub try_pop : ℕ → SpscRing A → Option A × SpscRing A
  try_pop k r =
      if r.read == r.write
      then (none, r)
      else (some (r.slots (mask k r.read)), record r { read = (r.read + 1) % size_mod })

  unfoldable pub size_approx : SpscRing A → ℕ
  size_approx r = (r.write + size_mod - r.read) % size_mod
