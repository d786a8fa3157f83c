-- ===== src/Main/Video.antt =====
-- main.cpp: `VideoService`. What the file system, OpenCV and GStreamer answer is the record `Answers`;
-- a request that divides by zero is `none`.
use optronic.Common.{
  ℕ, ◌+◌, ◌/◌, ◌%◌, Bool, true, false, not, Option, none, some, List, [], ◌∷◌, map, length, ◌==◌,
  if◌then◌else◌,
}
use optronic.Common.Int.{ℤ, pos, negsuc, difference}
use optronic.Common.Text.{Text, codes, is_empty}
use optronic.Core.Expected.{Expected, ok, err, Status, done}
use optronic.App.{Component}
use optronic.Log.Record.{info, debug, error}
use optronic.Video.{
  PipelineSpec, test_pattern, v4l2, rtp_udp, no_output, nv12, h264_sw, launch_string,
}
use optronic.Video.Frame.{
  FrameView, FlowResult, flow_ok, BusEvent, bus_error, bus_warning, bus_eos, bus_state_changed,
  bus_qos_drop,
}
use optronic.Video.Pipeline
use optronic.Video.Pipeline.Lifecycle
use optronic.Detect.Load.{YoloConfig, default_config, NetAnswer}
use optronic.Detect.Yolo
use optronic.Detect.Pacing.{stride}
use optronic.Detect.Stage.{Detection, Stage}
use optronic.Telemetry.Payload.{DetectedObject}
use optronic.Telemetry.Client
use optronic.Options.{Options}
use optronic.Main.Node.{Node, say}

pub record Answers : Type 0 where
  pub names : Option (List Text)
  pub net : NetAnswer
  pub parse : Text → Lifecycle.Parsed
  pub changes : Bool
  pub reaches : Bool

-- With the defaults of spec.hpp.
abbrev pub spec_of : Options → PipelineSpec
spec_of opt = record {
  channel = 0;
  source = record {
    kind = if opt.camera then v4l2 else test_pattern;
    device = opt.device;
    width = opt.width;
    height = opt.height;
    fps = opt.fps;
    fmt = nv12;
    pattern = opt.pattern;
  };
  processor = codes "passthrough";
  encoder = record { kind = h264_sw; bitrate_kbps = 4000; gop = 30; low_latency = true };
  output = record {
    kind = if opt.stream then rtp_udp else no_output;
    host = opt.host;
    port = opt.port;
    path = [];
  };
  queues = record { leaky = true; max_buffers = 4 };
}

-- `opt_.fps` is not 0 for options that `parse_args` accepts.
abbrev pub config_of : Options → YoloConfig
config_of opt = record default_config {
  weights = if is_empty opt.model then default_config.weights else opt.model;
  frame_period = 1_000_000 / opt.fps;
  input_size = if opt.input_size == 0 then default_config.input_size else pos opt.input_size;
  async = not opt.detect_sync;
}

-- The bits of an unsigned counter as std::int64_t are kept as they are.
abbrev pub bit_of : Bool → ℤ
bit_of true = pos 1
bit_of false = pos 0

module _ (clock : ℕ → ℕ) (ans : Answers) (opt : Options) where
  -- What follows `Pipeline::create`, and `Yolo::create`.
  abbrev pub piped : Expected Pipeline.Impl → Node → Status × Node
  piped (err e) n = (err e, n)
  piped (ok p) n = (done, record n { pipeline = some p })

  unfoldable pub create_pipeline : Node → Status × Node
  create_pipeline n = piped (Lifecycle.create (spec_of opt) ans.parse) n

  abbrev pub staged : Expected Stage → Node → Status × Node
  staged (err e) n = (
    err e,
    say clock error (codes "detect") (codes "model not loaded - run tools/get_model.sh") [] n,
  )
  staged (ok st) n =
      (done, say clock info (codes "detect") (Yolo.model st) [] (record n { yolo = some st }))

  unfoldable pub create_yolo : Node → Status × Node
  unfolding optronic.Detect.Yolo.create
  create_yolo n = staged (Yolo.create (config_of opt) ans.names ans.net) n

  abbrev pub then_pipeline : Status × Node → Status × Node
  then_pipeline (err e, n) = (err e, n)
  then_pipeline (ok _, n) = create_pipeline n

  unfoldable pub init_video : Node → Status × Node
  init_video n =
      let n1 = say clock debug (codes "video") (launch_string (spec_of opt)) [] n in
      if opt.detect then then_pipeline (create_yolo n1) else create_pipeline n1

  abbrev pub started_video : Status × Pipeline.Impl → Node → Status × Node
  started_video (err e, p) n = (err e, record n { pipeline = some p })
  started_video (ok _, p) n = (
    done,
    say clock info (codes "video") (codes "pipeline PLAYING")
        ((codes "fps", pos opt.fps) ∷ (codes "stream", bit_of opt.stream) ∷ [])
        (record n { pipeline = some p }),
  )

  -- It is started after `init`, so there is a pipeline; with none the source has no meaning.
  unfoldable pub start_video : Node → Status × Node
  start_video n = elim n.pipeline [
    | none ↦ (done, n)
    | some p ↦ started_video (Lifecycle.play ans.changes ans.reaches p) n
  ]

  unfoldable pub stop_video : Node → Node
  stop_video n = elim n.pipeline [
    | none ↦ n
    | some p ↦
        let st = Pipeline.stats p in
        record (say clock info (codes "video") (codes "pipeline stopped")
          ((codes "frames", pos st.frames_in) ∷ (codes "drops", pos st.drops) ∷ []) n) {
            pipeline = none;
            stopped = Lifecycle.shutdown p ∷ n.stopped;
          }
  ]

  abbrev pub video_service : Component Node
  video_service = record { init = init_video; start = start_video; stop = stop_video }

abbrev pub frames : Node → ℕ
frames n = elim n.pipeline [ none ↦ 0 | some p ↦ p.frames_in ]

-- count() / 1000, which rounds towards 0.
abbrev pub milliseconds : ℤ → ℤ
milliseconds (pos us) = pos (us / 1000)
milliseconds (negsuc us) = difference 0 ((us + 1) / 1000)

abbrev pub object_of : Detection → DetectedObject
object_of d = record {
  label = d.label;
  confidence = d.confidence;
  x = d.x;
  y = d.y;
  w = d.w;
  h = d.h;
}

-- `detections_`: TelemetryService::publish_detections, where it was installed and has a publisher.
abbrev pub publish_found : (ℕ → Text) → Bool → ℤ → ℕ → Stage → Node → Node
publish_found fixed2 installed rc seq st n = elim n.publisher [
  | none ↦ n
  | some p ↦
      if installed
      then record n {
        publisher = some (Client.publish_detections fixed2 seq (map object_of st.last) rc p);
      }
      else n
]

module _ (clock : ℕ → ℕ) (opt : Options) (fixed2 : ℕ → Text) (installed : Bool) (rc : ℤ) where
  abbrev pub log_found : Stage → Option ℤ → Node → Option (FlowResult × Node)
  log_found st none n = none
  log_found st (some every) n = some (
    flow_ok,
    say clock info (codes "detect") (codes "frame")
        ((codes "objects", pos (length st.last))
          ∷ (codes "infer_ms", milliseconds st.inference_us)
          ∷ (codes "every", every)
          ∷ [])
        n,
  )

  -- Once a second.
  unfoldable pub report_frame : FrameView → Node → Option (FlowResult × Node)
  report_frame f n = elim n.yolo [
    | some st ↦
        log_found st (stride st.cfg st.inference_us) (publish_found fixed2 installed rc f.seq st n)
    | none ↦ some (
      flow_ok,
      say clock info (codes "video") (codes "frame")
          ((codes "seq", pos f.seq) ∷ (codes "bytes", pos (length f.data_bytes)) ∷ []) n,
    )
  ]

  unfoldable pub on_frame : FrameView → Node → Option (FlowResult × Node)
  on_frame f n = if f.seq % opt.fps == 0 then report_frame f n else some (flow_ok, n)

unfoldable pub on_bus : (ℕ → ℕ) → BusEvent → Node → Node
on_bus clock e n = elim e.kind [
  | bus_error ↦
      say clock error (codes "video") (codes "bus error") ((codes "code", pos e.code) ∷ []) n
  | bus_warning ↦ n
  | bus_eos ↦ n
  | bus_state_changed ↦ n
  | bus_qos_drop ↦ n
]
