-- ===== src/Common/Bits.antt =====
-- The mask of a free-running index: `a & (2 ^ k - 1)`.
use Prim.Native.Nat.{digits, bit_and-bitwise}
use native.Mathlib.Nat.{pow-suc, div-add-mod, add-mul-mod_self_left, mod-eq_of_lt, mod-lt}
use optronic.Common.{
  ℕ, zero, suc, ◌+◌, ◌-◌, ◌*◌, ◌/◌, ◌%◌, ◌^◌, ◌≤◌, ◌<◌, min, bit_and, ◌≡◌, sym, ap, ◌∙◌, arith,
}

pub pow-pos : (k : ℕ) → 0 < 2 ^ k
pow-pos zero = omega arith
pow-pos (suc k) = rw pow-suc (omega (arith, pow-pos k))

-- The remainder by a power of two, from its lowest digit on.
mod-double : (m a : ℕ) → 0 < m → a % (m * 2) ≡ a / 2 % m * 2 + a % 2
mod-double m a h =
    let halves : a ≡ (a / 2 % m * 2 + a % 2) + m * 2 * (a / 2 / m) =
      omega (arith, div-add-mod (a / 2) m) in
    let below : a / 2 % m * 2 + a % 2 < m * 2 = omega (arith, mod-lt (a / 2) h) in
    ap (λ (n : ℕ). n % (m * 2)) halves
    ∙ add-mul-mod_self_left (a / 2 % m * 2 + a % 2) (m * 2) (a / 2 / m)
    ∙ mod-eq_of_lt below

-- What the native operation stands for, with any fuel that is enough for the first number.
masked : (k fuel a : ℕ) → a ≤ fuel → digits (λ b. zero) min fuel a (2 ^ k - 1) ≡ a % 2 ^ k
masked k zero zero h = sym (mod-eq_of_lt (pow-pos k))
masked k (suc fuel) zero h = sym (mod-eq_of_lt (pow-pos k))
masked k zero (suc a) h = absurd (omega arith)
masked zero (suc fuel) (suc a) h = omega (arith, masked zero fuel (suc a / 2) (omega arith))
masked (suc k) (suc fuel) (suc a) h =
    let rest = masked k fuel (suc a / 2) (omega arith) in
    let p : 0 < 2 ^ k = pow-pos k in
    let ones : (2 ^ k * 2 - 1) / 2 ≡ 2 ^ k - 1 = omega (arith, p) in
    let odd : (2 ^ k * 2 - 1) % 2 ≡ 1 = omega (arith, p) in
    rw (pow-suc, ones, odd, rest, mod-double (2 ^ k) (suc a) p) (omega arith)

-- Masking with `k` ones is the remainder by 2 ^ k.
pub bit_and-mask : (k a : ℕ) → bit_and a (2 ^ k - 1) ≡ a % 2 ^ k
bit_and-mask k a = bit_and-bitwise a (2 ^ k - 1) ∙ masked k a a (omega arith)

-- The lowest digit of `a & b`.
bit_and-parity : (a b : ℕ) → bit_and a b % 2 ≡ min (a % 2) (b % 2)
bit_and-parity zero b = rw (bit_and-bitwise 0 b) (omega arith)
bit_and-parity (suc a) b = rw (bit_and-bitwise (suc a) b) (omega arith)

-- Masking with an odd number keeps the lowest digit.
pub bit_and-odd : (a b : ℕ) → b % 2 ≡ 1 → bit_and (bit_and a b) 1 ≡ bit_and a 1
bit_and-odd a b h =
    omega (arith, bit_and-parity a b, bit_and-mask 1 (bit_and a b), bit_and-mask 1 a, h)
