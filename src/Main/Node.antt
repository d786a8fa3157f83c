-- ===== src/Main/Node.antt =====
-- main.cpp: what the services of the node share, and `LogService`. The logger's clock, like that of
-- the modelled block, is the n-th reading of it; thread 0 logs.
use optronic.Common.{ℕ, ◌+◌, ◌-◌, ◌^◌, Bool, Option, List, [], ◌∷◌, map}
use optronic.Common.Int.{ℤ, pos, negsuc}
use optronic.Common.Text.{Text, codes}
use optronic.Core.Expected.{Status, done}
use optronic.App.{Component}
use optronic.Log.Record.{Level, info, of_integer, KeyValue}
use optronic.Log.Logger
use optronic.Hal.Isp.Model.{Device}
use optronic.Video.Pipeline
use optronic.Detect.Stage.{Stage}
use optronic.Telemetry.Client

-- An event as SensorService emits it.
pub record Event : Type 0 where
  pub id : Text
  pub code : ℕ
  pub text : Text

-- The members of the services that change, and what was emitted. The last two are the pipelines and
-- the publishers that were destroyed, as they were then.
pub record Node : Type 0 where
  pub logger : Logger.Logger
  pub readings : ℕ
  pub dev : Device
  pub nuc : Bool
  pub events : List Event
  pub pipeline : Option Pipeline.Impl
  pub yolo : Option Stage
  pub publisher : Option Client.Impl
  pub stopped : List Pipeline.Impl
  pub closed : List Client.Impl

-- static_cast<std::int64_t> of a value, as the 64 bits of it.
abbrev pub int64_bits : ℤ → ℕ
int64_bits (pos n) = n
int64_bits (negsuc n) = 2 ^ 64 - n - 1

abbrev pub kv_of : Text × ℤ → KeyValue
kv_of (k, v) = of_integer k (int64_bits v)

module _ (clock : ℕ → ℕ) where
  -- A call of `logger_.log`.
  unfoldable pub say : Level → Text → Text → List (Text × ℤ) → Node → Node
  say l component msg kv n = record n {
    logger = Logger.log 0 l component msg (map kv_of kv) (clock n.readings) n.logger;
    readings = n.readings + 1;
  }

  unfoldable pub start_log : Node → Status × Node
  start_log n = (
    done,
    say info (codes "log") (codes "sink thread running") []
        (record n { logger = Logger.start n.logger }),
  )

  unfoldable pub stop_log : Node → Node
  stop_log n =
      let s = Logger.stats n.logger in
      let n1 =
        say info (codes "log") (codes "sink stopping")
          ((codes "written", pos s.written) ∷ (codes "dropped", pos s.dropped) ∷ []) n in
      record n1 { logger = Logger.stop n1.logger }

  abbrev pub log_service : Component Node
  log_service = record { init = λ n. (done, n); start = start_log; stop = stop_log }
