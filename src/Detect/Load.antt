-- ===== src/Detect/Load.antt =====
-- The configuration of the detector and `Impl::load`, yolo.hpp and yolo.cpp. What the file system and
-- OpenCV answer are arguments; the calls that reach OpenCV are recorded. A float is its bit pattern.
pub mod Pair
use optronic.Common.{
  ℕ, zero, suc, ◌+◌, ◌-◌, Bool, true, false, not, ◌&&◌, Option, none, some, List, [], ◌∷◌, ◌++◌,
  length, take, drop, ltb, ◌==◌, if◌then◌else◌,
}
use optronic.Common.Int.{ℤ, pos}
use optronic.Common.Text.{Text, codes, same, is_empty}
use optronic.Core.Error.{io}
use optronic.Core.Expected.{Status, done, fail}

pub data Format : Type 0 where
  darknet onnx : Format

pub record YoloConfig : Type 0 where
  pub weights : Text
  pub config : Text
  pub names : Text
  pub input_size : ℤ
  pub confidence_threshold : ℕ
  pub nms_threshold : ℕ
  pub async : Bool
  pub detect_every : ℤ
  pub frame_period : ℕ
  pub threads : ℤ

abbrev pub default_config : YoloConfig
default_config = record {
  weights = codes "models/yolov5s.onnx";
  config = codes "models/yolov4-tiny.cfg";
  names = codes "models/coco.names";
  input_size = pos 640;
  confidence_threshold = 0x3ecccccd;
  nms_threshold = 0x3ecccccd;
  async = true;
  detect_every = pos 0;
  frame_period = 33333;
  threads = pos 1;
}

unfoldable pub format_of : Text → Format
format_of path =
    if ltb 5 (length path) && same (drop (length path - 5) path) (codes ".onnx")
    then onnx
    else darknet

-- `rfind`.
abbrev pub later : ℕ → Option ℕ → Option ℕ → Option ℕ
later i (some j) o = some j
later i none o = o

unfoldable pub rfind_from : ℕ → Text → ℕ → Option ℕ
rfind_from c [] i = none
rfind_from c (x ∷ xs) i = later i (rfind_from c xs (i + 1)) (if x == c then some i else none)

abbrev pub rfind : ℕ → Text → Option ℕ
rfind c s = rfind_from c s 0

-- The other file of a darknet model; the argument is the place of the last dot.
unfoldable pub complete : YoloConfig → Option ℕ → YoloConfig
complete cfg none = cfg
complete cfg (some ext) =
    if same (take 4 (drop ext cfg.weights)) (codes ".cfg")
    then record cfg { config = cfg.weights; weights = take ext cfg.weights ++ codes ".weights" }
    else record cfg { config = take ext cfg.weights ++ codes ".cfg" }

abbrev pub derive_pair : YoloConfig → YoloConfig
derive_pair cfg = complete cfg (rfind b'.' cfg.weights)

abbrev pub is_default_size : ℤ → Bool
is_default_size (pos n) = n == 640
is_default_size n = false

abbrev pub darknet_size : YoloConfig → YoloConfig
darknet_size cfg =
    if is_default_size cfg.input_size then record cfg { input_size = pos 416 } else cfg

abbrev pub resolve : Format → YoloConfig → YoloConfig
resolve darknet cfg = darknet_size (derive_pair cfg)
resolve onnx cfg = cfg

-- What OpenCV is asked.
pub data NetCall : Type 0 where
  read_from_onnx : Text → NetCall
  read_from_darknet : Text → Text → NetCall
  set_threads : ℤ → NetCall
  set_input_size : ℤ → NetCall

-- How it answers.
pub data NetAnswer : Type 0 where
  throws empty ready : NetAnswer

pub record Loaded : Type 0 where
  pub cfg : YoloConfig
  pub format : Format
  pub classes : List Text
  pub calls : List NetCall

unfoldable pub class_lines : List Text → List Text
class_lines [] = []
class_lines (line ∷ rest) = if is_empty line then class_lines rest else line ∷ class_lines rest

abbrev pub read_call : Format → YoloConfig → NetCall
read_call onnx cfg = read_from_onnx cfg.weights
read_call darknet cfg = read_from_darknet cfg.config cfg.weights

abbrev pub set_up : Format → YoloConfig → List NetCall
set_up onnx cfg = set_threads cfg.threads ∷ []
set_up darknet cfg = set_threads cfg.threads ∷ set_input_size cfg.input_size ∷ []

-- The rest of `load`, once the names of the files are settled. `lines` are the lines of the file of
-- names, if it opens.
unfoldable pub read_model : Format → YoloConfig → Option (List Text) → NetAnswer → Status × Loaded
unfolding class_lines
read_model format cfg none answer = (
  fail io "yolo: cannot read the class names",
  record { cfg = cfg; format = format; classes = []; calls = [] },
)
read_model format cfg (some lines) answer =
    let asked : Loaded = record {
      cfg = cfg;
      format = format;
      classes = class_lines lines;
      calls = read_call format cfg ∷ [];
    } in
    elim answer [
      | throws ↦ (fail io "yolo: cannot read the model", asked)
      | empty ↦ (fail io "yolo: model loaded empty", asked)
      | ready ↦ (done, record asked { calls = asked.calls ++ set_up format cfg })
    ]

unfoldable pub load : YoloConfig → Option (List Text) → NetAnswer → Status × Loaded
load cfg lines answer =
    let format = format_of cfg.weights in read_model format (resolve format cfg) lines answer
