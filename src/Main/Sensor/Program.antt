-- ===== src/Main/Sensor/Program.antt =====
-- What SensorService makes of the modelled block, from its first power-on to its stop.
use optronic.Common.{ℕ, ◌≡◌, refl, bit_and}
use optronic.Core.Expected.{done}
use optronic.Hal.Mmio.{blank, peek, poke, read32, write32, run_hooks, run_read_hooks}
use optronic.Hal.Isp.{
  ctrl, status, gain, frame_w, frame_h, enable, running, gain_mask, power_on_bit,
}
use optronic.Hal.Isp.Model.{
  Device, IspModel, fresh_captured, isp_hooks, install_state, ctrl_written,
}
use optronic.Options.{Options}
use optronic.Main.Node.{Node}
use optronic.Main.Sensor.{program, init_sensor, start_sensor, stop_sensor}

-- The registers hold what the options say.
abbrev pub Programmed : Options → Device → Type 0
Programmed opt dev =
    (peek frame_w.offset dev ≡ opt.width)
    × (peek frame_h.offset dev ≡ opt.height)
    × (peek gain.offset dev ≡ bit_and opt.gain gain_mask)

-- The block says that it runs, or that it does not.
abbrev pub Running : ℕ → Device → Type 0
Running bit dev =
    (bit_and (peek status.offset dev) running ≡ bit) × (bit_and (peek ctrl.offset dev) enable ≡ bit)

module _ (clock : ℕ → ℕ) (model : IspModel) (opt : Options) where
  -- For every clock, block timing and options, on a device as it powers on: `init` and then `start` of
  -- the SensorService succeed, and the block then runs with the width, the height and the 12 bits of
  -- the gain that the options ask for, in spite of the reset of the power-on test; after `stop` it does
  -- not run, and those registers are as they were.
  pub sensor_service-Programmed :
      (n : Node)
      → n.dev ≡ blank fresh_captured
      → let (s1, n1) = init_sensor clock model opt n in
        let (s2, n2) = start_sensor clock model opt n1 in
        let n3 = stop_sensor clock model opt n2 in
        (s1 ≡ done)
        × (s2 ≡ done)
        × Programmed opt n2.dev
        × Running 1 n2.dev
        × Programmed opt n3.dev
        × Running 0 n3.dev
  unfolding optronic.Main.Node.say init_sensor start_sensor stop_sensor program power_on_bit read32
      write32 run_hooks run_read_hooks install_state isp_hooks ctrl_written poke peek
  sensor_service-Programmed n new =
      rw new (refl, refl, (refl, refl, refl), (refl, refl), (refl, refl, refl), (refl, refl))
