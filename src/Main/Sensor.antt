-- ===== src/Main/Sensor.antt =====
-- main.cpp: `SensorService`, on the modelled block.
pub mod Correction
pub mod Program
use optronic.Common.{
  ℕ, ◌+◌, ◌%◌, ◌^◌, Bool, true, false, Option, none, some, List, [], ◌∷◌, ◌++◌, bit_and,
  if◌then◌else◌,
}
use optronic.Common.Int.{ℤ, pos, signed32}
use optronic.Common.Text.{Text, codes}
use optronic.Core.Error.{not_ready, to_u16}
use optronic.Core.Expected.{Expected, ok, err, Status, done, fail}
use optronic.App.{Component}
use optronic.Log.Record.{info, warn, error}
use optronic.Hal.Mmio.{MmioBackend, fake_backend}
use optronic.Hal.Register.{
  read, write, set_bits, clear_bits, any_bit, readable_ro, readable_rw, writable_rw,
}
use optronic.Hal.Isp.{
  ctrl, status, gain, frame_w, frame_h, frame_cnt, temp_mc, enable, running, gain_mask,
  power_on_bit,
}
use optronic.Hal.Isp.Model.{Device, IspModel, isp_hooks, install_state, now}
use optronic.Sensor.{NucResult, default_config, run_nuc}
use optronic.Options.{Options}
use optronic.Main.Node.{Event, Node, say}

-- `regs_`.
abbrev pub regs : (ℕ → ℕ) → IspModel → MmioBackend Device
regs clock model = fake_backend (isp_hooks clock model)

module _ (clock : ℕ → ℕ) (model : IspModel) where
  abbrev pub temperature_mc : Device → ℤ × Device
  temperature_mc dev = let (w, dev') = read (regs clock model) temp_mc dev in (signed32 w, dev')

  abbrev pub gain_now : Device → ℕ × Device
  gain_now dev = read (regs clock model) gain dev

  abbrev pub frame_count : Device → ℕ × Device
  frame_count dev = read (regs clock model) frame_cnt dev

module _ (clock : ℕ → ℕ) (model : IspModel) (opt : Options) where
  -- The registers that `start` writes, in its order.
  unfoldable pub program : Device → Device
  program dev = set_bits (regs clock model) ctrl enable (
      write (regs clock model) gain (bit_and opt.gain gain_mask) (
        write (regs clock model) frame_h opt.height (
          write (regs clock model) frame_w opt.width
            (clear_bits (regs clock model) ctrl enable dev))))

  -- After the power-on test.
  abbrev pub tested : Status → Node → Status × Node
  tested (err e) n = (
    err e,
    say clock error (codes "sensor") (codes "power-on BIT failed")
        ((codes "code", pos (to_u16 e.code)) ∷ []) n,
  )
  tested (ok _) n = (done, say clock info (codes "sensor") (codes "power-on BIT passed") [] n)

  unfoldable pub init_sensor : Node → Status × Node
  init_sensor n =
      let (s, dev) = power_on_bit (regs clock model) (install_state n.dev) in
      tested s (record n { dev = dev })

  unfoldable pub start_sensor : Node → Status × Node
  start_sensor n =
      let (is_running, dev) = any_bit (regs clock model) status running (program n.dev) in
      let n1 : Node = record n { dev = dev } in
      if is_running
      then (
        done,
        say clock info (codes "sensor") (codes "running")
            ((codes "gain", pos opt.gain)
              ∷ (codes "w", pos opt.width)
              ∷ (codes "h", pos opt.height)
              ∷ [])
            n1,
      )
      else (fail not_ready "SensorService::start", n1)

  unfoldable pub stop_sensor : Node → Node
  stop_sensor n =
      say clock info (codes "sensor") (codes "stopped") []
        (record n { dev = clear_bits (regs clock model) ctrl enable n.dev })

  abbrev pub sensor_service : Component Node
  sensor_service = record { init = init_sensor; start = start_sensor; stop = stop_sensor }

  -- `emit`, where a sink is installed.
  abbrev pub emit : Bool → Text → ℕ → Text → Node → Node
  emit listened id code text n =
      if listened
      then record n { events = n.events ++ record { id = id; code = code; text = text } ∷ [] }
      else n

  -- The end of `run_nuc`, with what the correction came to.
  unfoldable pub report_nuc : Bool → Expected NucResult → Node → Node
  report_nuc listened (err e) n =
      emit listened (codes "NUC_FAILED") (to_u16 e.code) (codes e.location) (
        say clock error (codes "sensor") (codes "NUC failed")
          ((codes "code", pos (to_u16 e.code)) ∷ []) n)
  report_nuc listened (ok r) n = emit listened (codes "NUC_DONE") 0 (codes "channel OK") (
      say clock info (codes "sensor") (codes "NUC done - channel OK")
        ((codes "ms", pos r.duration) ∷ (codes "mean_offset", pos r.mean_offset) ∷ []) n)

  abbrev pub announce : Bool → Node → Node
  announce listened n =
      emit listened (codes "NUC_STARTED") 0 (codes "shutter closing, channel degraded") (
        say clock warn (codes "sensor") (codes "NUC started - channel DEGRADED, shutter closing") []
          (record n { nuc = true }))

  abbrev pub reported : Bool → Node → Option (Expected NucResult × Device) → Option Node
  reported listened n none = none
  reported listened n (some (r, dev)) =
      some (report_nuc listened r (record n { dev = dev; nuc = false }))

  -- `none` where the fuel of the polling is used up.
  unfoldable pub run_nuc_now : ℕ → Bool → Node → Option Node
  run_nuc_now fuel listened n =
      let n1 = announce listened n in
      reported listened n1 (run_nuc (regs clock model) (now clock) fuel default_config n1.dev)
