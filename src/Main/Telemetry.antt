-- ===== src/Main/Telemetry.antt =====
-- main.cpp: `TelemetryService`, over the answers of libmosquitto.
use optronic.Common.{ℕ, Bool, none, some, List, [], ◌∷◌}
use optronic.Common.Int.{ℤ, pos}
use optronic.Common.Text.{Text, codes}
use optronic.Core.Expected.{ok, err, Status, done}
use optronic.App.{Component}
use optronic.Log.Record.{info}
use optronic.Telemetry.Payload.{SensorSample}
use optronic.Telemetry.Client
use optronic.Telemetry.Lifetime.{default_config, new_impl}
use optronic.Options.{Options}
use optronic.Main.Node.{Node, say}

pub record Answers : Type 0 where
  pub made : Bool
  pub will_rc : ℤ
  pub connect_rc : ℤ
  pub loop_rc : ℤ
  pub publish_rc : ℤ

-- With the defaults of `telemetry::Config`.
abbrev pub new_publisher : Options → Client.Impl
new_publisher opt = new_impl (record default_config { name = opt.node; host = opt.broker })

module _ (clock : ℕ → ℕ) (ans : Answers) (opt : Options) where
  abbrev pub created : Status × Client.Impl → Node → Status × Node
  created (err e, p) n = (err e, n)
  created (ok _, p) n = (done, record n { publisher = some p })

  unfoldable pub init_telemetry : Node → Status × Node
  init_telemetry n = created (Client.construct ans.made ans.will_rc (new_publisher opt)) n

  abbrev pub started_telemetry : Status × Client.Impl → Node → Status × Node
  started_telemetry (err e, p) n = (err e, record n { publisher = some p })
  started_telemetry (ok _, p) n = (
    done,
    say clock info (codes "telemetry") (codes "publishing") [] (record n { publisher = some p }),
  )

  -- It is started after `init`, so there is a publisher.
  unfoldable pub start_telemetry : Node → Status × Node
  start_telemetry n = elim n.publisher [
    | none ↦ (done, n)
    | some p ↦ started_telemetry (Client.start ans.connect_rc ans.loop_rc p) n
  ]

  -- One round of the worker's loop; `up` is the uptime in seconds, and `sampler` what main gives.
  unfoldable pub publish_round : (Node → SensorSample × Node) → ℕ → Node → Node
  publish_round sampler up n = elim n.publisher [
    | none ↦ n
    | some p ↦
        let health =
          Client.publish_health (record { state = codes "OK"; uptime_s = up; faults = 0 })
            ans.publish_rc p in
        let (sample, n') = sampler (record n { publisher = some health }) in
        record n' { publisher = some (Client.publish_sensor sample ans.publish_rc health) }
  ]

  -- The rounds up to the stop request.
  unfoldable pub publish_rounds : (Node → SensorSample × Node) → List ℕ → Node → Node
  unfolding publish_round
  publish_rounds sampler [] n = n
  publish_rounds sampler (up ∷ ups) n = publish_rounds sampler ups (publish_round sampler up n)

  unfoldable pub publish_event : Text → ℕ → Text → Node → Node
  publish_event id code text n = elim n.publisher [
    | none ↦ n
    | some p ↦ record n { publisher = some (Client.publish_event id code text ans.publish_rc p) }
  ]

  unfoldable pub stop_telemetry : Node → Node
  stop_telemetry n = elim n.publisher [
    | none ↦ n
    | some p ↦
        let s = Client.stats p in
        record (say clock info (codes "telemetry") (codes "stopped")
          ((codes "published", pos s.published) ∷ (codes "failed", pos s.failed) ∷ []) n) {
            publisher = none;
            closed = Client.stop ans.publish_rc p ∷ n.closed;
          }
  ]

  abbrev pub telemetry_service : Component Node
  telemetry_service = record {
    init = init_telemetry;
    start = start_telemetry;
    stop = stop_telemetry;
  }
