-- ===== src/Detect/Tests.antt =====
-- A box that is partly outside a small plane with one row of chroma below it.
use optronic.Common.Text.{codes}
use optronic.Detect.Load.{YoloConfig, default_config, load, ready, read_from_darknet}
use optronic.Detect.Load.Pair.{load-pair}
use optronic.Detect.Pacing.{measured_stride, stride_after, stride_with, stride}
use optronic.Detect.Pacing.Pace.{stride-covers}
use optronic.Common.{
  ℕ, ◌*◌, ◌-◌, ◌<◌, ◌≤◌, ◌++◌, none, some, ◌≡◌, refl, true, false, ◌&&◌, ltb, List, [], ◌∷◌,
  get_elem?, arith,
}
use optronic.Common.Int.{pos, negsuc}
use optronic.Detect.Draw.{draw_rect, put, put_column, put_row}

abbrev dark : List ℕ
dark = 1 ∷ 2 ∷ 3 ∷ 4 ∷ 5 ∷ 6 ∷ 7 ∷ 8 ∷ 9 ∷ 10 ∷ 11 ∷ 12 ∷ []

-- Stride 4, height 2: the third row is chroma.
corner_box :
    draw_rect 4 2 (pos 2) (negsuc 0) (pos 6) (pos 9) dark
    ≡ 1 ∷ 2 ∷ 235 ∷ 235 ∷ 5 ∷ 6 ∷ 235 ∷ 235 ∷ 9 ∷ 10 ∷ 11 ∷ 12 ∷ []
unfolding draw_rect put_column put_row put optronic.Common.Int.◌-ℤ◌ optronic.Common.Int.◌+ℤ◌
corner_box = refl

abbrev slow : YoloConfig
slow = record default_config { async = false }

-- 100 ms at 30 frames per second: every fourth frame.
every_fourth : stride slow (pos 100_000) ≡ some (pos 4)
unfolding stride_with stride_after measured_stride
every_fourth = refl

stride-covers_example :
    (n : ℕ) × (stride slow (pos 100_000) ≡ some (pos n))
    × (0 < n)
    × (100_000 ≤ n * slow.frame_period)
    × ((n - 1) * slow.frame_period < 100_000)
stride-covers_example =
    stride-covers slow 100_000 (omega arith) (omega arith) (omega arith) (omega arith)

load-pair_example :
    (load (record slow { weights = codes "models/tiny" ++ codes ".cfg" }) (some []) ready
      ≡ load (record slow { weights = codes "models/tiny" ++ codes ".weights" }) (some []) ready)
    × (load (record slow { weights = codes "models/tiny" ++ codes ".cfg" }) none ready
        ≡ load (record slow { weights = codes "models/tiny" ++ codes ".weights" }) none ready)
    × (get_elem?
          (load
            (record slow { weights = codes "models/tiny" ++ codes ".cfg" })
            (some [])
            ready).1.calls
          0
        ≡ some (
            read_from_darknet
              (codes "models/tiny" ++ codes ".cfg")
              (codes "models/tiny" ++ codes ".weights")))
load-pair_example = load-pair slow (codes "models/tiny") [] ready
