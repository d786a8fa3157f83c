-- ===== src/Telemetry/Tests.antt =====
-- A node with one sample of each kind; doubles print as `0.00` here.
use optronic.Common.{
  ℕ, ◌+◌, ◌%◌, ◌^◌, ◌≤◌, ◌≡◌, refl, true, false, some, List, [], ◌∷◌, length, replicate, arith,
}
use optronic.Common.Int.{pos, negsuc}
use optronic.Common.Text.{Text, codes}
use optronic.Telemetry.Payload.{
  View, HealthSample, SensorSample, LatencySample, DetectedObject, health_text, health_payload,
  sensor_text, sensor_payload, event_text, event_payload, latency_text, latency_payload,
  detections_payload,
}
use optronic.Telemetry.Client.{Impl, stats, literal, offline}
use optronic.Telemetry.Sizes.{Sends, samples-Sends, event_payload-Sends}
use optronic.Telemetry.Detections.{detections_payload-size}
use optronic.Telemetry.Lifetime
use optronic.Telemetry.Lifetime.{default_config, Act, creates, starts, destroys, no_publishers}
use optronic.Telemetry.Lifetime.Users.{Proper, run-Proper}
use optronic.Telemetry.Counts.{
  Event, published, connected, disconnected, run, attempts, reached, warnings, armed, stats-run,
}

abbrev zero_text : ℕ → Text
zero_text d = codes "0.00"

abbrev health : HealthSample
health = record { state = codes "OK"; uptime_s = 12; faults = 0 }

abbrev sensor : SensorSample
sensor = record { gain = pos 256; nuc = true; temp_mc = negsuc 4_999; frame_cnt = 99 }

abbrev latency : LatencySample
latency = record { cap_p95_us = 900; proc_p95_us = 80; enc_p95_us = 4_000; fps = 0; dropped = 1 }

abbrev car : DetectedObject
car = record {
  label = codes "car";
  confidence = 0;
  x = pos 1;
  y = negsuc 1;
  w = pos 20;
  h = pos 30;
}

abbrev node : Impl
node = record {
  name = codes "node1";
  host = codes "127.0.0.1";
  port = 1883;
  client = true;
  running = true;
  connected = false;
  warned = false;
  published = 0;
  failed = 0;
  calls = [];
  logged = [];
}

abbrev outage : List Event
outage =
    published (codes "health") (literal offline) 0 true (negsuc 0)
    ∷ published (codes "health") (literal offline) 0 true (pos 4)
    ∷ connected (pos 0)
    ∷ disconnected
    ∷ []

samples-Sends_example :
    Sends (health_payload health) (health_text health)
    × Sends (sensor_payload sensor) (sensor_text sensor)
    × Sends (latency_payload zero_text latency) (latency_text zero_text latency)
samples-Sends_example =
    samples-Sends zero_text health sensor latency (omega arith) (omega arith, omega arith)
      (omega arith, omega arith, omega arith) (omega arith, omega arith, omega arith, omega arith)
      (omega arith)

event_payload-Sends_example :
    Sends
      (event_payload (codes "E1") 769 (codes "no device"))
      (event_text (codes "E1") 769 (codes "no device"))
event_payload-Sends_example =
    event_payload-Sends (codes "E1") 769 (codes "no device") (omega arith) (omega arith)

abbrev long_id : Text
long_id = replicate 230 b'i'

detections_payload-size_example :
    (v : View) × (detections_payload zero_text 7 (car ∷ car ∷ []) ≡ some v)
    × (length v.buffer ≡ 2048)
    × (v.size ≤ length v.buffer + 3)
detections_payload-size_example =
    detections_payload-size zero_text 7 (car ∷ car ∷ []) (omega arith) (omega arith)

stats-run_example :
    let s = stats (run outage node) in
    ((s.published + s.failed) % 2 ^ 64 ≡ (0 + 0 + attempts outage) % 2 ^ 64)
    × (warnings (run outage node).logged ≤ warnings node.logged + armed node + reached outage)
stats-run_example = stats-run outage node refl

-- Two are made, a third is refused its last will, the first one is started and destroyed.
abbrev acts : List Act
acts =
    creates default_config true (pos 0) (pos 0)
    ∷ creates default_config true (pos 0) (pos 0)
    ∷ creates default_config true (pos 1) (pos 0)
    ∷ starts 1 (pos 0) (pos 0)
    ∷ destroys 1 (pos 0)
    ∷ []

run-Proper_example : Proper (Lifetime.run acts no_publishers)
run-Proper_example = run-Proper acts
