-- ===== src/Detect/Stage.antt =====
-- The work on one frame, yolo.cpp: `decode_v5`, `detect` and `process`. A float is its bit pattern and
-- its arithmetic a parameter, as are the answers of OpenCV. A read past the end of a vector or of a
-- frame, an `int` that overflows and a division by zero are undefined in the source: here the result is
-- `none`, also for a frame whose width or height is no `int`.
pub mod Overlay
pub mod Reference
mod Tests
use optronic.Common.{
  ℕ, zero, suc, ◌+◌, ◌-◌, ◌%◌, ◌^◌, Bool, true, false, not, ◌&&◌, ◌||◌, leb, ◌*◌, Option, none,
  some, List, [], ◌∷◌, ◌++◌, length, get_elem?, ltb, ◌==◌, if◌then◌else◌,
}
use optronic.Common.Int.{ℤ, pos, negsuc}
use optronic.Common.Text.{Text, codes}
use optronic.Video.Frame.{FrameView, WritableFrame, ProcessResult, kept, failed}
use optronic.Detect.Draw.{sums_fit, draw_rect}
use optronic.Detect.Load.{Format, YoloConfig}
use optronic.Detect.Pacing.{stride}

pub record Box : Type 0 where
  pub x : ℤ
  pub y : ℤ
  pub w : ℤ
  pub h : ℤ

pub record Detection : Type 0 where
  pub class_id : ℤ
  pub confidence : ℕ
  pub x : ℤ
  pub y : ℤ
  pub w : ℤ
  pub h : ℤ
  pub label : Text

-- What the code uses of `float`, and of `cv::minMaxLoc` (the best score, as a float, and its place).
pub record Floats : Type 0 where
  pub below : ℕ → ℕ → Bool
  pub times : ℕ → ℕ → ℕ
  pub minus : ℕ → ℕ → ℕ
  pub over : ℕ → ℕ → ℕ
  pub two : ℕ
  pub of_int : ℤ → ℕ
  pub to_int : ℕ → ℤ
  pub best_of : List ℕ → ℕ × ℤ

-- One row of the tensor.
pub record Row : Type 0 where
  pub p0 : ℕ
  pub p1 : ℕ
  pub p2 : ℕ
  pub p3 : ℕ
  pub objectness : ℕ
  pub scores : List ℕ

-- The three vectors that a network's output is collected in.
pub record Found : Type 0 where
  pub ids : List ℤ
  pub scores : List ℕ
  pub boxes : List Box

abbrev pub nothing_found : Found
nothing_found = record { ids = []; scores = []; boxes = [] }

abbrev pub push_back : Found → ℤ → ℕ → Box → Found
push_back f id score box = record {
  ids = f.ids ++ id ∷ [];
  scores = f.scores ++ score ∷ [];
  boxes = f.boxes ++ box ∷ [];
}

module _ (float : Floats) where
  abbrev pub decode_row : YoloConfig → ℤ → ℤ → Row → Found → Found
  decode_row cfg img_w img_h p f =
      let sx = float.over (float.of_int img_w) (float.of_int cfg.input_size) in
      let sy = float.over (float.of_int img_h) (float.of_int cfg.input_size) in
      if float.below p.objectness cfg.confidence_threshold
      then f
      else (let (best_score, best_x) = float.best_of p.scores in
          let confidence = float.times best_score p.objectness in
          if float.below confidence cfg.confidence_threshold
          then f
          else (let cx = float.times p.p0 sx in
              let cy = float.times p.p1 sy in
              let bw = float.times p.p2 sx in
              let bh = float.times p.p3 sy in
              push_back f best_x confidence (record {
                x = float.to_int (float.minus cx (float.over bw float.two));
                y = float.to_int (float.minus cy (float.over bh float.two));
                w = float.to_int bw;
                h = float.to_int bh;
              })))

  unfoldable pub decode_v5 : YoloConfig → ℤ → ℤ → List Row → Found → Found
  decode_v5 cfg img_w img_h [] f = f
  decode_v5 cfg img_w img_h (p ∷ rows) f =
      decode_v5 cfg img_w img_h rows (decode_row cfg img_w img_h p f)

abbrev pub chain {ℓ κ} : {A : Type ℓ} {B : Type κ} → Option A → (A → Option B) → Option B
chain none next = none
chain (some a) next = next a

-- The entries that survive the suppression.
unfoldable pub pick : List ℕ → Found → Found → Option Found
pick [] raw f = some f
pick (k ∷ keep) raw f = chain (get_elem? raw.ids k) (λ id.
    chain (get_elem? raw.scores k)
      (λ score. chain (get_elem? raw.boxes k) (λ box. pick keep raw (push_back f id score box))))

abbrev pub named : Option Text → Text
named (some name) = name
named none = codes "?"

abbrev pub label_of : List Text → ℤ → Text
label_of classes (pos id) = named (get_elem? classes id)
label_of classes (negsuc n) = codes "?"

abbrev pub detection : List Text → ℤ → ℕ → Box → Detection
detection classes id score box = record {
  class_id = id;
  confidence = score;
  x = box.x;
  y = box.y;
  w = box.w;
  h = box.h;
  label = label_of classes id;
}

-- The loop that fills `found`.
unfoldable pub assemble : List Text → List ℤ → List ℕ → List Box → Option (List Detection)
assemble classes [] scores boxes = some []
assemble classes (id ∷ ids) scores [] = some []
assemble classes (id ∷ ids) [] (box ∷ boxes) = none
assemble classes (id ∷ ids) (score ∷ scores) (box ∷ boxes) =
    elim (assemble classes ids scores boxes) [
      | none ↦ none
      | some rest ↦ some (detection classes id score box ∷ rest)
    ]

pub record Stage : Type 0 where
  pub cfg : YoloConfig
  pub classes : List Text
  pub last : List Detection
  pub inference_us : ℤ
  pub frame : ℕ

-- What OpenCV makes of a frame: an exception, what a darknet model found, or the rows of an ONNX
-- export with the suppression that `NMSBoxes` applies.
pub data Inference : Type 0 where
  threw : Inference
  by_model : Found → Inference
  by_rows : List Row → (List Box → List ℕ → List ℕ) → Inference

abbrev pub keep_found : Stage → ℤ → Option (List Detection) → Option Stage
keep_found st dt none = none
keep_found st dt (some found) = some (record st { last = found; inference_us = dt })

abbrev pub assembled : Stage → ℤ → Option Found → Option Stage
assembled st dt none = none
assembled st dt (some f) = keep_found st dt (assemble st.classes f.ids f.scores f.boxes)

-- `dt` is the time that the inference took.
unfoldable pub detect : Floats → ℤ → ℤ → Inference → ℤ → Stage → Option Stage
detect float w h threw dt st = some st
detect float w h (by_model f) dt st = assembled st dt (some f)
detect float w h (by_rows rows nms) dt st =
    let raw = decode_v5 float st.cfg w h rows nothing_found in
    assembled st dt (pick (nms raw.boxes raw.scores) raw nothing_found)

unfoldable pub draw_all : List Detection → ℕ → ℕ → List ℕ → List ℕ
draw_all [] stride height plane = plane
draw_all (d ∷ ds) stride height plane =
    draw_all ds stride height (draw_rect stride height d.x d.y d.w d.h plane)

abbrev pub overlay : FrameView → WritableFrame → Stage → WritableFrame
overlay in_view out st = record out {
  data_bytes =
      draw_all st.last (if out.stride == 0 then in_view.width else out.stride) in_view.height
        out.data_bytes;
}

-- No coordinate of a box that is drawn overflows.
abbrev pub all_fit : List Detection → Bool
all_fit [] = true
all_fit (d ∷ ds) = sums_fit d.x d.y d.w d.h && all_fit ds

-- The rows that `offer` copies are all there.
abbrev pub readable : FrameView → Bool
readable v =
    ltb v.width (2 ^ 31)
    && ltb v.height (2 ^ 31)
    && (v.height == 0
        || leb ((v.height - 1) * (if v.stride == 0 then v.width else v.stride) + v.width)
            (length v.data_bytes))

abbrev pub no_bytes : List ℕ → Bool
no_bytes [] = true
no_bytes (x ∷ xs) = false

-- A conversion to std::uint64_t.
abbrev pub to_u64 : ℤ → ℕ
to_u64 (pos n) = n
to_u64 (negsuc n) = 2 ^ 64 - n - 1

abbrev pub detect_if : Bool → (Stage → Option Stage) → Stage → Option Stage
detect_if true run st = run st
detect_if false run st = some st

-- Inference on the streaming thread, where the count of frames says so.
abbrev pub paced : Option ℤ → (Stage → Option Stage) → Stage → Option Stage
paced none run st = none
paced (some n) run st = if to_u64 n == 0 then none else detect_if (st.frame % to_u64 n == 0) run st

abbrev pub finish :
    FrameView → WritableFrame → Option Stage → Option (ProcessResult × WritableFrame × Stage)
finish in_view out none = none
finish in_view out (some st) =
    if all_fit st.last then some (kept, overlay in_view out st, st) else none

-- After `offer`, which copies the frame if it gets the mutex and the slot is free (`taken`).
abbrev pub offered : Bool → FrameView → Stage → Option Stage
offered taken in_view st = if taken && not (readable in_view) then none else some st

-- `infer` is `detect` on this frame; `meanwhile` is what the worker has done by the time that the
-- boxes are drawn, after `offer`.
unfoldable pub process :
    (Stage → Option Stage)
    → Bool
    → (Stage → Stage)
    → FrameView
    → WritableFrame
    → Stage
    → Option (ProcessResult × WritableFrame × Stage)
process infer taken meanwhile in_view out st =
    let counted : Stage = record st { frame = (st.frame + 1) % 2 ^ 64 } in
    if no_bytes in_view.data_bytes || no_bytes out.data_bytes
    then some (failed, out, st)
    else finish in_view out (
        if st.cfg.async
        then offered taken in_view (meanwhile counted)
        else paced (stride st.cfg st.inference_us) infer counted)
