-- ===== src/Video/Tests.antt =====
-- A test pattern sent by RTP from the software encoder.
use optronic.Common.{true, []}
use optronic.Common.Text.{codes}
use optronic.Video.{PipelineSpec, EncoderSpec, test_pattern, nv12, h264_omx, rtp_udp}

abbrev encoder : EncoderSpec
encoder = record { kind = h264_omx; bitrate_kbps = 4000; gop = 30; low_latency = true }

abbrev pub streamed : PipelineSpec
streamed = record {
  channel = 0;
  source = record {
    kind = test_pattern;
    device = codes "/dev/video0";
    width = 1280;
    height = 720;
    fps = 30;
    fmt = nv12;
    pattern = 18;
  };
  processor = codes "passthrough";
  encoder = encoder;
  output = record { kind = rtp_udp; host = codes "127.0.0.1"; port = 5600; path = [] };
  queues = record { leaky = true; max_buffers = 4 };
}
