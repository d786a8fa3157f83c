-- ===== src/Main/Assembly.antt =====
-- main.cpp: the services of `main` on one node, and the sampler that it gives to the telemetry.
use optronic.Common.{ℕ, [], ◌∷◌}
use optronic.Common.Int.{pos}
use optronic.Common.Text.{codes}
use optronic.Log.Logger
use optronic.Log.Record.{info}
use optronic.Hal.Isp.Model.{IspModel}
use optronic.Telemetry.Payload.{SensorSample}
use optronic.Main.{Services}
use optronic.Main.Node.{Node, say, log_service}
use optronic.Main.Sensor.{sensor_service, temperature_mc, gain_now}
use optronic.Main.Video
use optronic.Main.Telemetry

module _ (clock : ℕ → ℕ) (model : IspModel) (video : Video.Answers)
    (broker : Telemetry.Answers) where
  unfoldable pub service_up : Node → Node
  service_up n =
      let (t, dev) = temperature_mc clock model n.dev in
      say clock info (codes "main") (codes "service up") ((codes "temp_mc", t) ∷ [])
        (record n { dev = dev })

  abbrev pub node_services : Services Node
  node_services = record {
    log_service = λ opt. log_service clock;
    sensor = sensor_service clock model;
    video_service = Video.video_service clock video;
    telemetry_service = Telemetry.telemetry_service clock broker;
    prepare = λ opt n. record n { logger = Logger.set_level n.logger opt.level };
    service_up = service_up;
  }

-- With a video pipeline, the frames that it counts.
unfoldable pub sampler : (ℕ → ℕ) → IspModel → Node → SensorSample × Node
sampler clock model n =
    let (g, dev1) = gain_now clock model n.dev in
    let (t, dev2) = temperature_mc clock model dev1 in
    (
      record { gain = pos g; nuc = n.nuc; temp_mc = t; frame_cnt = Video.frames n },
      record n { dev = dev2 },
    )
