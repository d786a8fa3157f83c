-- ===== src/Video.antt =====
-- modules/video: the description of a graph (spec.hpp) and its launch text (factory.cpp).
pub mod Frame
pub mod Handles
pub mod Pipeline
mod Tests
use optronic.Common.{ℕ, ◌*◌, ◌%◌, ◌^◌, Bool, true, false, List, [], ◌++◌, if◌then◌else◌}
use optronic.Common.Text.{Text, codes, decimal}

pub data PixelFormat : Type 0 where
  unknown nv12 i420 gray8 rgb : PixelFormat

pub data SourceKind : Type 0 where
  test_pattern v4l2 : SourceKind

pub data EncoderKind : Type 0 where
  h264_sw h264_omx h264_vcu : EncoderKind

pub data OutputKind : Type 0 where
  rtp_udp file no_output : OutputKind

pub record SourceSpec : Type 0 where
  pub kind : SourceKind
  pub device : Text
  pub width : ℕ
  pub height : ℕ
  pub fps : ℕ
  pub fmt : PixelFormat
  pub pattern : ℕ

pub record EncoderSpec : Type 0 where
  pub kind : EncoderKind
  pub bitrate_kbps : ℕ
  pub gop : ℕ
  pub low_latency : Bool

pub record OutputSpec : Type 0 where
  pub kind : OutputKind
  pub host : Text
  pub port : ℕ
  pub path : Text

pub record QueueSpec : Type 0 where
  pub leaky : Bool
  pub max_buffers : ℕ

pub record PipelineSpec : Type 0 where
  pub channel : ℕ
  pub source : SourceSpec
  pub processor : Text
  pub encoder : EncoderSpec
  pub output : OutputSpec
  pub queues : QueueSpec

unfoldable pub queue : QueueSpec → Text
queue q =
    codes "queue leaky="
    ++ (if q.leaky then codes "downstream" else codes "no")
    ++ codes " max-size-buffers="
    ++ decimal q.max_buffers
    ++ codes " max-size-bytes=0 max-size-time=0"

abbrev pub format_string : PixelFormat → Text
format_string nv12 = codes "NV12"
format_string i420 = codes "I420"
format_string gray8 = codes "GRAY8"
format_string rgb = codes "RGB"
format_string unknown = codes "NV12"

abbrev pub encoder_element : EncoderKind → Text
encoder_element h264_omx = codes "omxh264enc"
encoder_element h264_vcu = codes "vvas_xvcuenc"
encoder_element h264_sw = codes "x264enc"

unfoldable pub hardware_chain : EncoderSpec → Text
hardware_chain e =
    encoder_element e.kind
    ++ codes " target-bitrate="
    ++ decimal (e.bitrate_kbps * 1000 % 2 ^ 32)
    ++ codes " gop-length="
    ++ decimal e.gop
    ++ (if e.low_latency then codes " control-rate=low-latency" else [])

unfoldable pub software_chain : EncoderSpec → Text
software_chain e =
    encoder_element e.kind
    ++ codes " bitrate="
    ++ decimal e.bitrate_kbps
    ++ codes " key-int-max="
    ++ decimal e.gop
    ++ (if e.low_latency then codes " tune=zerolatency speed-preset=ultrafast" else [])

unfoldable pub encoder_chain : EncoderSpec → Text
unfolding hardware_chain software_chain
encoder_chain e = elim e.kind [
  | h264_sw ↦ software_chain e
  | h264_omx ↦ hardware_chain e
  | h264_vcu ↦ hardware_chain e
]

unfoldable pub output_chain : OutputSpec → Text
output_chain o = elim o.kind [
  | rtp_udp ↦
      codes "rtph264pay config-interval=1 pt=96 ! udpsink host="
      ++ o.host
      ++ codes " port="
      ++ decimal o.port
      ++ codes " sync=false async=false"
  | file ↦ codes "mp4mux ! filesink location=" ++ o.path ++ codes " async=false"
  | no_output ↦ codes "fakesink sync=false async=false"
]

unfoldable pub caps_text : SourceSpec → Text
caps_text s =
    codes "video/x-raw,format="
    ++ format_string s.fmt
    ++ codes ",width="
    ++ decimal s.width
    ++ codes ",height="
    ++ decimal s.height
    ++ codes ",framerate="
    ++ decimal s.fps
    ++ codes "/1"

unfoldable pub front_text : SourceSpec → Text
unfolding caps_text
front_text s = elim s.kind [
  | v4l2 ↦
      codes "v4l2src device="
      ++ s.device
      ++ codes " ! video/x-raw,width="
      ++ decimal s.width
      ++ codes ",height="
      ++ decimal s.height
      ++ codes ",framerate="
      ++ decimal s.fps
      ++ codes "/1 ! videoconvert ! "
      ++ caps_text s
  | test_pattern ↦
      codes "videotestsrc is-live=true pattern=" ++ decimal s.pattern ++ codes " ! " ++ caps_text s
]

unfoldable pub capture_text : PipelineSpec → Text
unfolding front_text queue
capture_text s =
    front_text s.source
    ++ codes " ! "
    ++ queue s.queues
    ++ codes " ! appsink name=out sync=false max-buffers=1 drop=true emit-signals=false"

unfoldable pub deliver_text : PipelineSpec → Text
unfolding caps_text queue encoder_chain output_chain
deliver_text s =
    codes "appsrc name=in is-live=true format=time block=false caps="
    ++ caps_text s.source
    ++ codes " ! "
    ++ queue s.queues
    ++ codes " ! "
    ++ encoder_chain s.encoder
    ++ codes " ! h264parse ! "
    ++ output_chain s.output

unfoldable pub launch_string : PipelineSpec → Text
unfolding capture_text deliver_text
launch_string s = capture_text s ++ codes "  " ++ deliver_text s
