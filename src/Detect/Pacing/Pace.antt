-- ===== src/Detect/Pacing/Pace.antt =====
-- The stride that `Impl::stride` works out of a measured time.
use native.Mathlib.Nat.{lt-div-mul-add, div-mul-le_self}
use optronic.Common.{
  suc-times, true, false, ℕ, zero, suc, ◌+◌, ◌-◌, ◌*◌, ◌/◌, ◌%◌, ◌^◌, ◌≤◌, ◌<◌, max, ◌≡◌, refl, sym,
  ap, ◌∙◌, some, ltb, ◌==◌, arith, subst,
}
use optronic.Common.Int.{ℤ, pos, negsuc, ◌≤ℤ◌}
use optronic.Detect.Load.{YoloConfig}
use optronic.Detect.Pacing.{measured_stride, stride_after, stride_with, stride}

-- The quotient rounded up.
pub ceiling :
    (us period q : ℕ)
    → 0 < us
    → 0 < period
    → q ≡ (us + period - 1) / period
    → (0 < q) × (us ≤ q * period) × ((q - 1) * period < us)
ceiling us period zero u p e =
    let n = us + period - 1 in
    let high : n < 0 * period + period =
      subst (λ (k : ℕ). n < k * period + period) (sym e) (lt-div-mul-add p) in
    absurd (omega (arith, high, u, p))
ceiling us period (suc q) u p e =
    let n = us + period - 1 in
    let low : suc q * period ≤ n =
      subst (λ (k : ℕ). k * period ≤ n) (sym e) (div-mul-le_self n period) in
    let high : n < suc q * period + period =
      subst (λ (k : ℕ). n < k * period + period) (sym e) (lt-div-mul-add p) in
    let split = suc-times q period in
    let back : (suc q - 1) * period ≡ q * period = ap (λ (k : ℕ). k * period) (omega arith) in
    (omega arith, omega (arith, high, u, p), omega (arith, low, split, back, u, p))

measured_quotient :
    (us period : ℕ)
    → 0 < period
    → (us + period - 1) / period < 2 ^ 31
    → 0 < (us + period - 1) / period
    → measured_stride period us ≡ some (pos ((us + period - 1) / period))
unfolding measured_stride
measured_quotient us period p small some_left =
    let q = (us + period - 1) / period in
    let there : (period == 0) ≡ false = ground arith in
    let one : max 1 q ≡ q = omega (arith, some_left) in
    let whole : q % 2 ^ 32 ≡ q = omega (arith, small) in
    let low : ltb q (2 ^ 31) ≡ true = ground (arith, small) in rw (there, one, whole, low) refl

after_quotient : (us period : ℕ) → 0 < us → stride_after period (pos us) ≡ measured_stride period us
unfolding stride_after
after_quotient zero period u = absurd (omega arith)
after_quotient (suc us) period u = refl

stride-off :
    (every : ℤ) (period : ℕ) (us : ℤ)
    → every ≤ℤ pos 0
    → stride_with every period us ≡ stride_after period us
unfolding stride_with
stride-off (pos zero) period us off = refl
stride-off (pos (suc n)) period us off = absurd (omega arith)
stride-off (negsuc n) period us off = refl

-- Whenever the stride is worked out (`detect_every` is not positive), for a measured time and a
-- period that are positive and whose quotient fits an `int`: the stride is a positive number n of
-- frames, the inference fits in n periods, and it does not fit in n - 1 of them.
pub stride-covers :
    (cfg : YoloConfig) (us : ℕ)
    → cfg.detect_every ≤ℤ pos 0
    → 0 < us
    → 0 < cfg.frame_period
    → (us + cfg.frame_period - 1) / cfg.frame_period < 2 ^ 31
    → (n : ℕ) × (stride cfg (pos us) ≡ some (pos n))
      × (0 < n)
      × (us ≤ n * cfg.frame_period)
      × ((n - 1) * cfg.frame_period < us)
stride-covers cfg us off u p small =
    let q = (us + cfg.frame_period - 1) / cfg.frame_period in
    let (some_left, fits, tight) = ceiling us cfg.frame_period q u p refl in
    (
      q,
      stride-off cfg.detect_every cfg.frame_period (pos us) off
          ∙ after_quotient us cfg.frame_period u
          ∙ measured_quotient us cfg.frame_period p small some_left,
      some_left,
      fits,
      tight,
    )
