-- ===== src/Video/Frame.antt =====
-- What passes between the video pipeline, its sinks and the stages: frame.hpp, and processor.hpp with
-- the identity stage. The memory of a frame is its bytes; a time is a number of microseconds.
use optronic.Common.{ℕ, List, [], ◌++◌, length, drop, ltb, if◌then◌else◌}
use optronic.Common.Text.{Text}
use optronic.Video.{PixelFormat, unknown}

pub record FrameView : Type 0 where
  pub data_bytes : List ℕ
  pub width : ℕ
  pub height : ℕ
  pub stride : ℕ
  pub fmt : PixelFormat
  pub hw_ts_ns : ℕ
  pub seq : ℕ
  pub ch : ℕ

abbrev pub no_frame : FrameView
no_frame = record {
  data_bytes = [];
  width = 0;
  height = 0;
  stride = 0;
  fmt = unknown;
  hw_ts_ns = 0;
  seq = 0;
  ch = 0;
}

pub data FlowResult : Type 0 where
  flow_ok flow_drop flow_stop : FlowResult

pub data BusEventKind : Type 0 where
  bus_error bus_warning bus_eos bus_state_changed bus_qos_drop : BusEventKind

pub record BusEvent : Type 0 where
  pub kind : BusEventKind
  pub element : Text
  pub code : ℕ
  pub text : Text

pub data ProcessResult : Type 0 where
  kept dropped failed : ProcessResult

pub record WritableFrame : Type 0 where
  pub data_bytes : List ℕ
  pub width : ℕ
  pub height : ℕ
  pub stride : ℕ
  pub fmt : PixelFormat

-- `Passthrough::process`.
unfoldable pub pass_through : FrameView → WritableFrame → ProcessResult × WritableFrame
pass_through in_view out =
    if ltb (length out.data_bytes) (length in_view.data_bytes) then (failed, out) else (
      kept,
      record {
        data_bytes = in_view.data_bytes ++ drop (length in_view.data_bytes) out.data_bytes;
        width = in_view.width;
        height = in_view.height;
        stride = in_view.stride;
        fmt = in_view.fmt;
      },
    )

-- `Passthrough::budget`.
abbrev pub pass_through_budget : ℕ
pass_through_budget = 2000
