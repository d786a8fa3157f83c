-- ===== src/Main/Tests.antt =====
-- A node with every service, on a device as it powers on, and no client for the broker.
use optronic.Common.{
  ℕ, ◌-◌, ◌/◌, Bool, not, leb, ◌*◌, ◌^◌, ◌<◌, ◌≤◌, ◌⊎◌, ◌≡◌, refl, true, false, Option, none, some,
  List, [], ◌∷◌, arith,
}
use optronic.Common.Text.{Text, codes}
use optronic.Core.Expected.{Expected, done}
use optronic.Hal.Mmio.{blank}
use optronic.Hal.Isp.Model.{default_model, fresh_captured}
use optronic.Log.Logger
use optronic.Options.{Options, default_options}
use optronic.Common.Int.{pos}
use optronic.Detect.Load.{ready}
use optronic.Video.Pipeline.Lifecycle.{Parsed}
use optronic.Main.Assembly.{node_services}
use optronic.Main.Video
use optronic.Main.Telemetry
use optronic.Main.{Services, main}
use optronic.Main.Exit.{Exit, main-Exit}
use optronic.Detect.Pacing.{stride}
use optronic.Main.Video.{config_of}
use optronic.Main.Release.Whole.{Released, main-Released}
use optronic.Main.Timer.{nuc_timer, Stays, nuc_timer-runs}
use optronic.Main.Rate.{stride-fps}
use optronic.Main.Node.{Node}
use optronic.Main.Sensor.{init_sensor, start_sensor, stop_sensor}
use optronic.Main.Sensor.Correction.{closed}
use optronic.Main.Sensor.Program.{Programmed, Running, sensor_service-Programmed}

abbrev ticks : ℕ → ℕ
ticks n = n

abbrev unseen : ℕ → Option (ℕ × ℕ)
unseen t = none

abbrev powered : Node
powered = record {
  logger = Logger.construct 1 unseen;
  readings = 0;
  dev = blank fresh_captured;
  nuc = false;
  events = [];
  pipeline = none;
  yolo = none;
  publisher = none;
  stopped = [];
  closed = [];
}

abbrev small : Options
small = record default_options { width = 640; height = 480; gain = 0x1234 }

sensor_service-Programmed_example :
    let (s1, n1) = init_sensor ticks default_model small powered in
    let (s2, n2) = start_sensor ticks default_model small n1 in
    let n3 = stop_sensor ticks default_model small n2 in
    (s1 ≡ done)
    × (s2 ≡ done)
    × Programmed small n2.dev
    × Running 1 n2.dev
    × Programmed small n3.dev
    × Running 0 n3.dev
sensor_service-Programmed_example = sensor_service-Programmed ticks default_model small powered refl

abbrev parse_all : Text → Parsed
parse_all text = record { pipeline = true; error = false; sink = true; src = true }

abbrev working : Video.Answers
working = record { names = none; net = ready; parse = parse_all; changes = true; reaches = true }

abbrev no_broker : Telemetry.Answers
no_broker = record {
  made = false;
  will_rc = pos 0;
  connect_rc = pos 0;
  loop_rc = pos 0;
  publish_rc = pos 0;
}

abbrev services : Services Node
services = node_services ticks default_model working no_broker

abbrev arguments : List Text
arguments = codes "--width" ∷ codes "640" ∷ codes "--broker" ∷ codes "10.0.0.1" ∷ []

main-Exit_example :
    Exit services arguments powered (main services arguments (false ∷ true ∷ []) powered)
main-Exit_example = main-Exit services arguments (false ∷ true ∷ []) powered

abbrev usual : Options
usual = record default_options { fps = 25 }

stride-fps_example :
    ((1_000_000 < usual.fps) × (stride (config_of usual) (pos 90_000) ≡ none))
    ⊎ ((usual.fps ≤ 1_000_000)
        × ((n : ℕ) × (stride (config_of usual) (pos 90_000) ≡ some (pos n))
            × (0 < n)
            × (90_000 ≤ n * (1_000_000 / usual.fps))
            × ((n - 1) * (1_000_000 / usual.fps) < 90_000)))
stride-fps_example = stride-fps usual 90_000 (omega arith) (omega arith) (omega arith)

-- A stop that is requested after two seconds.
abbrev stopped_at : ℕ → Bool
stopped_at i = leb 20 i

stopped_at-Stays : Stays stopped_at
stopped_at-Stays i j h o = ground arith

nuc_timer-runs_example :
    ((3 * 10 < 2 ^ 31) × (nuc_timer (pos 3) stopped_at ≡ some (not (stopped_at (3 * 10)))))
    ⊎ ((2 ^ 31 ≤ 3 * 10) × (nuc_timer (pos 3) stopped_at ≡ none))
nuc_timer-runs_example = nuc_timer-runs 3 stopped_at (omega arith) stopped_at-Stays

-- A broker that takes everything.
abbrev reachable : Telemetry.Answers
reachable = record no_broker { made = true }

main-Released_example : Released (
    main
      (node_services ticks default_model working reachable)
      arguments
      (false ∷ true ∷ [])
      powered)
main-Released_example =
    main-Released ticks default_model working reachable arguments (false ∷ true ∷ []) powered refl
      refl refl
