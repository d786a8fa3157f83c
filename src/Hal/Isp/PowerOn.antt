-- ===== src/Hal/Isp/PowerOn.antt =====
-- The power-on test, run on the modelled block.
use optronic.Common.{ℕ, false, ◌/◌, ◌^◌, ◌≡◌, ◌≢◌, ◌==◌}
use optronic.Common.Int.{◌≤ℤ◌, signed32}
use optronic.Core.Error.{hal_id_mismatch, bit_poweron}
use optronic.Core.Expected.{Status, done, fail}
use optronic.Hal.Mmio.{poke, peek}
use optronic.Hal.Isp.{
  id, version, ctrl, status, frame_cnt, gain, temp_mc, id_magic, temp_min_milli_c, temp_max_milli_c,
}
use optronic.Hal.Isp.Model.{Device, isp_device}

-- The modelled block with these words in the registers that the test reads, and `g` as the gain.
unfoldable pub block_with : ℕ → ℕ → ℕ → ℕ → Device
unfolding poke
block_with i v t g =
    poke gain.offset g (poke temp_mc.offset t (poke version.offset v (poke id.offset i isp_device)))

-- The registers after a reset: the four that it sets, and every other word as it was.
abbrev pub Restarted : Device → Device → Type 0
Restarted dev dev' =
    (peek gain.offset dev' ≡ 0x100)
    × (peek frame_cnt.offset dev' ≡ 0)
    × (peek status.offset dev' ≡ 0)
    × (peek ctrl.offset dev' ≡ 0)
    × ((j : ℕ)
        → (j == gain.offset / 4) ≡ false
        → (j == frame_cnt.offset / 4) ≡ false
        → (j == status.offset / 4) ≡ false
        → (j == ctrl.offset / 4) ≡ false
        → dev'.words j ≡ dev.words j)
    × (dev'.faults ≡ dev.faults)

-- What the test says of a block with these words, and what it leaves of the device.
pub data Verdict (i v t : ℕ) (dev dev' : Device) : Status → Type 0 where
  healthy :
      i ≡ id_magic
      → v / 2 ^ 16 ≡ 1
      → temp_min_milli_c ≤ℤ signed32 t
      → signed32 t ≤ℤ temp_max_milli_c
      → Restarted dev dev'
      → Verdict i v t dev dev' done
  wrong_id : i ≢ id_magic → dev' ≡ dev → Verdict i v t dev dev' (fail hal_id_mismatch "bit: ID")
  wrong_major :
      i ≡ id_magic
      → v / 2 ^ 16 ≢ 1
      → dev' ≡ dev
      → Verdict i v t dev dev' (fail hal_id_mismatch "bit: VERSION.major")
  wrong_temperature :
      i ≡ id_magic
      → v / 2 ^ 16 ≡ 1
      → ¬ ((temp_min_milli_c ≤ℤ signed32 t) × (signed32 t ≤ℤ temp_max_milli_c))
      → Restarted dev dev'
      → Verdict i v t dev dev' (fail bit_poweron "bit: TEMP_MC")
