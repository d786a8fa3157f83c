-- ===== src/Detect/Stage/Tests.antt =====
-- Two rows, of which one is too uncertain. The floats are taken for whole numbers here.
use optronic.Common.{
  true, ℕ, ◌*◌, ◌-◌, ◌/◌, ◌≡◌, refl, false, some, replicate, List, [], ◌∷◌, map, ltb, arith,
}
use optronic.Common.Int.{ℤ, pos, negsuc}
use optronic.Common.Text.{codes}
use optronic.Detect.Load.{YoloConfig, default_config}
use optronic.Detect.Stage.{Floats, Row, Box, Detection, Stage, detection, by_rows, detect, process}
use optronic.Video.{nv12}
use optronic.Video.Frame.{FrameView, WritableFrame, no_frame}
use optronic.Detect.Stage.Overlay.{Drawn, process-Drawn}
use optronic.Detect.Stage.Reference.{
  Candidate, candidates, scores_of, boxes_of, chosen, detect-candidates,
}

abbrev whole : ℤ → ℕ
whole (pos n) = n
whole (negsuc n) = 0

abbrev first_best : List ℕ → ℕ × ℤ
first_best [] = (0, pos 0)
first_best (x ∷ xs) = (x, pos 0)

abbrev numbers : Floats
numbers = record {
  below = ltb;
  times = λ (a b : ℕ). a * b;
  minus = λ (a b : ℕ). a - b;
  over = λ (a b : ℕ). a / b;
  two = 2;
  of_int = whole;
  to_int = pos;
  best_of = first_best;
}

abbrev sure : Row
sure = record { p0 = 300; p1 = 200; p2 = 40; p3 = 20; objectness = 100; scores = 90 ∷ [] }

abbrev unsure : Row
unsure = record { p0 = 100; p1 = 100; p2 = 40; p3 = 20; objectness = 3; scores = 1 ∷ [] }

abbrev fifty : YoloConfig
fifty = record default_config { confidence_threshold = 50 }

abbrev stage : Stage
stage = record {
  cfg = fifty;
  classes = codes "person" ∷ [];
  last = [];
  inference_us = pos 0;
  frame = 0;
}

abbrev keep_first : List Box → List ℕ → List ℕ
keep_first boxes [] = []
keep_first boxes (s ∷ scores) = 0 ∷ []

one_person :
    detect numbers (pos 640) (pos 640) (by_rows (unsure ∷ sure ∷ []) keep_first) (pos 9000) stage
    ≡ some (record stage {
      last =
          record {
            class_id = pos 0;
            confidence = 9000;
            x = pos 280;
            y = pos 190;
            w = pos 40;
            h = pos 20;
            label = codes "person";
          }
          ∷ [];
      inference_us = pos 9000;
    })
unfolding detect optronic.Detect.Stage.pick optronic.Detect.Stage.decode_v5
    optronic.Detect.Stage.assemble
one_person = refl

detect-candidates_example :
    (ks : List Candidate) × (let cs =
        candidates numbers fifty (pos 640) (pos 640) (unsure ∷ sure ∷ []) in
      chosen cs (keep_first (boxes_of cs) (scores_of cs)) ≡ some ks)
    × (detect numbers (pos 640) (pos 640) (by_rows (unsure ∷ sure ∷ []) keep_first) (pos 9000) stage
        ≡ some (record stage {
          last = map (λ (c : Candidate). detection stage.classes c.id c.score c.box) ks;
          inference_us = pos 9000;
        }))
unfolding candidates
detect-candidates_example =
    detect-candidates numbers (pos 640) (pos 640) (unsure ∷ sure ∷ []) keep_first (pos 9000) stage
      (omega arith, tt)

-- A plane of 4 by 2 pixels and a box that the worker found.
abbrev dark : FrameView
dark = record no_frame { data_bytes = replicate 8 16; width = 4; height = 2; stride = 4 }

abbrev canvas : WritableFrame
canvas = record { data_bytes = replicate 8 16; width = 4; height = 2; stride = 4; fmt = nv12 }

abbrev boxed : Stage → Stage
boxed st = record st {
  last =
      record {
        class_id = pos 0;
        confidence = 9000;
        x = pos 2;
        y = pos 0;
        w = pos 1;
        h = pos 1;
        label = codes "person";
      }
      ∷ [];
}

process-Drawn_example :
    Drawn false true boxed dark canvas stage
      (some (record stage { frame = 1 }))
      2
      0
      (process (λ st. some st) true boxed dark canvas stage)
unfolding optronic.Detect.Pacing.stride_with optronic.Detect.Pacing.stride_after
process-Drawn_example = process-Drawn (λ st. some st) true boxed dark canvas stage 2 0 (omega arith)
