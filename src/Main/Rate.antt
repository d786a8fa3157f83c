-- ===== src/Main/Rate.antt =====
-- What the frame rate that the command line accepts makes of the pace of the detection.
use native.Mathlib.Nat.{lt-div-mul-add, div-mul-le_self}
use optronic.Common.{
  ℕ, zero, suc, ◌+◌, ◌-◌, ◌*◌, ◌^◌, ◌/◌, ◌≤◌, ◌<◌, ◌≡◌, refl, none, some, true, false, ◌⊎◌, inl,
  inr, ◌==◌, arith, Bool-cases, sym, subst, suc-times,
}
use optronic.Common.Int.{pos}
use optronic.Detect.Pacing.Pace.{ceiling, stride-covers}
use optronic.Detect.Pacing.{stride, stride_after, stride_with, measured_stride}
use optronic.Options.{Options}
use optronic.Main.Video.{config_of}

-- A quotient is 0 where the divisor is the larger one.
small_quotient : (a d q : ℕ) → 0 < d → q ≡ a / d → (q == 0) ≡ true → a < d
small_quotient a d zero p e z =
    let high : a < 0 * d + d = subst (λ (k : ℕ). a < k * d + d) (sym e) (lt-div-mul-add p) in
    omega (arith, high)
small_quotient a d (suc q) p e z = absurd (ground (arith, z))

whole_quotient : (a d q : ℕ) → 0 < d → q ≡ a / d → (q == 0) ≡ false → d ≤ a
whole_quotient a d zero p e z = absurd (ground (arith, z))
whole_quotient a d (suc q) p e z =
    let low : suc q * d ≤ a = subst (λ (k : ℕ). k * d ≤ a) (sym e) (div-mul-le_self a d) in
    omega (arith, low, suc-times q d)

int_quotient : (us p q : ℕ) → (q - 1) * p < us → 0 < p → us < 2 ^ 31 → q < 2 ^ 31
int_quotient us p q tight there small = grind (arith, tight, there, small)

-- With the options of the command line and a measured time, in microseconds, that is positive and
-- below 2 ^ 31: above a million frames per second the pace divides by zero. Up to that it is a positive
-- number n of frames, such that the inference fits in n of the whole microseconds of a frame's period,
-- and not in n - 1 of them.
pub stride-fps :
    (opt : Options) (us : ℕ)
    → 0 < opt.fps
    → 0 < us
    → us < 2 ^ 31
    → ((1_000_000 < opt.fps) × (stride (config_of opt) (pos us) ≡ none))
      ⊎ ((opt.fps ≤ 1_000_000)
          × ((n : ℕ) × (stride (config_of opt) (pos us) ≡ some (pos n))
              × (0 < n)
              × (us ≤ n * (1_000_000 / opt.fps))
              × ((n - 1) * (1_000_000 / opt.fps) < us)))
unfolding stride_with stride_after measured_stride
stride-fps opt zero p u small = absurd (omega arith)
stride-fps opt (suc us) p u small = elim (Bool-cases (1_000_000 / opt.fps == 0)) [
  | inl e ↦ inl (small_quotient 1_000_000 opt.fps _ p refl e, rw e refl)
  | inr e ↦ inr (
    whole_quotient 1_000_000 opt.fps _ p refl e,
    stride-covers (config_of opt) (suc us) (omega arith) u (ground arith) (
        int_quotient (suc us) (1_000_000 / opt.fps) _
          (ceiling (suc us) (1_000_000 / opt.fps) _ u (ground arith) refl).2 (ground arith) small),
  )
]
