-- ===== src/Detect/Pacing.antt =====
-- `Impl::stride`, yolo.cpp: how many frames pass from one inference to the next. The last inference
-- time and the period of a frame are microseconds; their sum is exact, as it is in 64 bits where it fits.
pub mod Pace
use optronic.Common.{
  ℕ, zero, suc, ◌+◌, ◌-◌, ◌*◌, ◌/◌, ◌%◌, ◌^◌, ◌≤◌, ◌<◌, max, ◌≡◌, refl, ap, ◌∙◌, Option, none, some,
  ltb, ◌==◌, if◌then◌else◌, arith,
}
use optronic.Common.Int.{ℤ, pos, negsuc, signed32}
use optronic.Detect.Load.{YoloConfig}

-- Without a period the division is undefined: `none`.
unfoldable pub measured_stride : ℕ → ℕ → Option ℤ
measured_stride period us =
    if period == 0 then none else some (signed32 (max 1 ((us + period - 1) / period) % 2 ^ 32))

unfoldable pub stride_after : ℕ → ℤ → Option ℤ
unfolding measured_stride
stride_after period (pos (suc us)) = measured_stride period (suc us)
stride_after period us = some (pos 1)

unfoldable pub stride_with : ℤ → ℕ → ℤ → Option ℤ
stride_with (pos (suc every)) period us = some (pos (suc every))
stride_with (pos zero) period us = stride_after period us
stride_with (negsuc n) period us = stride_after period us

abbrev pub stride : YoloConfig → ℤ → Option ℤ
stride cfg inference_us = stride_with cfg.detect_every cfg.frame_period inference_us
