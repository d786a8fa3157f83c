-- ===== src/Hal/Tests.antt =====
-- A bare stand-in, and the modelled block with a clock that moves 10 ms at each reading.
use optronic.Common.{ℕ, ◌*◌, ◌≡◌, refl, false, List, [], ◌∷◌}
use optronic.Core.Expected.{done}
use optronic.Hal.Mmio.{FakeMmio, Hooks, blank, read32, write32, set_read_only, fake_backend}
use optronic.Hal.Register.{ro_readable, rw_readable, rw_writable, wo_writable}
use optronic.Hal.Isp.Typed.{
  Act, reads, writes, the_status, the_ctrl, the_irq_clr, the_shutter, flag_of, run, run-faultless,
}
use optronic.Hal.Isp.{power_on_bit}
use optronic.Hal.Isp.Model.{default_model, ns_per_ms, isp_device, isp_hooks, ctrl_written}

abbrev bare : FakeMmio Unit
bare = blank tt

abbrev no_hooks : Hooks Unit
no_hooks = record { hooks = []; read_hooks = [] }

abbrev kept : FakeMmio Unit
kept = set_read_only 8 bare

abbrev ticking : ℕ → ℕ
ticking n = n * 10 * ns_per_ms

read_only_kept : (write32 no_hooks 8 7 kept).faults ≡ 1
unfolding write32 set_read_only
read_only_kept = refl

passes : (power_on_bit (fake_backend (isp_hooks ticking default_model)) isp_device).0 ≡ done
unfolding power_on_bit isp_device isp_hooks read32 write32 ctrl_written
passes = refl

abbrev start_up : List Act
start_up =
    reads the_status ro_readable
    ∷ writes the_ctrl rw_writable 5
    ∷ writes the_irq_clr wo_writable 2
    ∷ writes the_shutter rw_writable 1
    ∷ reads the_shutter rw_readable
    ∷ []

run-faultless_example :
    (flag_of the_ctrl isp_device ≡ false)
    × ((run ticking default_model start_up isp_device).faults ≡ 0)
    × (flag_of the_ctrl (run ticking default_model start_up isp_device) ≡ false)
run-faultless_example = run-faultless ticking default_model the_ctrl start_up
