-- ===== src/Detect/Yolo.antt =====
-- The handle `Yolo`, yolo.hpp and yolo.cpp: its creation and what it says of the stage.
use optronic.Common.{ℕ, Option, List, []}
use optronic.Common.Int.{ℤ, pos}
use optronic.Common.Text.{Text}
use optronic.Core.Expected.{Expected, Status, ok, err}
use optronic.Detect.Load.{YoloConfig, NetAnswer, Loaded, load}
use optronic.Detect.Stage.{Detection, Stage}

-- The members after `load`.
abbrev pub new_stage : Loaded → Stage
new_stage l = record {
  cfg = l.cfg;
  classes = l.classes;
  last = [];
  inference_us = pos 0;
  frame = 0;
}

abbrev pub loaded : Status × Loaded → Expected Stage
loaded (err e, l) = err e
loaded (ok x, l) = ok (new_stage l)

unfoldable pub create : YoloConfig → Option (List Text) → NetAnswer → Expected Stage
create cfg names net = loaded (load cfg names net)

abbrev pub last : Stage → List Detection
last st = st.last

abbrev pub last_inference : Stage → ℤ
last_inference st = st.inference_us

abbrev pub model : Stage → Text
model st = st.cfg.weights

-- In microseconds.
abbrev pub budget : ℕ
budget = 40_000
