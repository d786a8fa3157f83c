-- ===== src/Main/Sensor/Correction.antt =====
-- The correction that SensorService runs on the modelled block: what it leaves the shutter and the
-- events at. The block's clock moves on with every reading.
use optronic.Common.{
  ℕ, zero, suc, ◌+◌, ◌%◌, ◌≤◌, ◌<◌, ◌≡◌, refl, ◌∙◌, ap, false, leb, ◌==◌, ◌&&◌, bit_and, Bool-cases,
  inl, inr, arith, if◌then◌else◌,
}
use optronic.Common.Bits.{bit_and-odd}
use optronic.Hal.Mmio.{peek, poke, read32, write32, run_hooks, run_read_hooks}
use optronic.Hal.Register.{bit_not}
use optronic.Hal.Isp.{shutter, nuc_acc_ctrl, nuc_table_data, close, busy}
use optronic.Hal.Isp.Model.{
  Device, IspModel, isp_hooks, now, shutter_polled, shutter_written, nuc_polled, table_read,
}
use optronic.Core.Error.{to_u16}
use optronic.Core.Expected.{Expected, ok, err}
use optronic.Common.Text.{codes}
use optronic.Sensor.{NucResult}
use optronic.Sensor.Shutter.{Watched}
use optronic.Options.{Options}
use optronic.Main.Node.{Event, Node}
use optronic.Main.Sensor.{regs}

-- What the shutter was told: the CLOSE bit of its register. Where the register was made read only,
-- nothing is told.
abbrev pub told : Device → ℕ
told dev = if dev.read_only 15 then 0 else bit_and (peek shutter.offset dev) close

-- A hook on a read that leaves this bit alone, and the clock no earlier.
abbrev Keeps : (ℕ → ℕ) → (Device → Device) → Type 0
Keeps clock f =
    (dev : Device) → (told (f dev) ≡ told dev) × (dev.captured.readings ≤ (f dev).captured.readings)

shutter_polled-Keeps : (clock : ℕ → ℕ) (model : IspModel) → Keeps clock (shutter_polled clock model)
unfolding shutter_polled peek poke
shutter_polled-Keeps clock model dev =
    ground (arith, bit_and-odd (dev.words 15) (bit_not busy) (omega arith))

nuc_polled-Keeps : (clock : ℕ → ℕ) → Keeps clock (nuc_polled clock)
unfolding nuc_polled peek poke
nuc_polled-Keeps clock dev = ground arith

table_read-Keeps : (clock : ℕ → ℕ) → Keeps clock table_read
unfolding table_read peek poke
table_read-Keeps clock dev = ground arith

-- Of two hooks one after another, each for its own offset.
hook-Keeps :
    (clock : ℕ → ℕ) (f : Device → Device) (at off : ℕ)
    → Keeps clock f
    → Keeps clock (λ dev. if at == off then f dev else dev)
hook-Keeps clock f at off k dev = elim (Bool-cases (at == off)) [
  | inl e ↦ rw e (k dev)
  | inr e ↦ rw e (refl, omega arith)
]

read32-Keeps :
    (clock : ℕ → ℕ) (model : IspModel) (off : ℕ)
    → Keeps clock (λ dev. (read32 (isp_hooks clock model) off dev).1)
unfolding read32 run_read_hooks isp_hooks peek
read32-Keeps clock model off dev =
    let d1 : Device = if shutter.offset == off then shutter_polled clock model dev else dev in
    let d2 : Device = if nuc_acc_ctrl.offset == off then nuc_polled clock d1 else d1 in
    let (a, a') =
      hook-Keeps clock (shutter_polled clock model) shutter.offset off
        (shutter_polled-Keeps clock model) dev in
    let (b, b') =
      hook-Keeps clock (nuc_polled clock) nuc_acc_ctrl.offset off (nuc_polled-Keeps clock) d1 in
    let (c, c') =
      hook-Keeps clock table_read nuc_table_data.offset off (table_read-Keeps clock) d2 in
    elim (Bool-cases (off % 4 == 0 && leb (off + 4) 0x1000)) [
      | inl e ↦ rw e (c ∙ b ∙ a, omega (arith, a', b', c'))
      | inr e ↦ rw e (refl, omega arith)
    ]

-- The clock goes on.
abbrev pub Onward : (ℕ → ℕ) → Type 0
Onward clock = (n : ℕ) → clock n < clock (n + 1)

suc-add : (m : ℕ) → suc m ≡ m + 1
suc-add m = omega arith

later : (clock : ℕ → ℕ) → Onward clock → (n m : ℕ) → n ≤ m → clock n ≤ clock m
later clock on n zero h = let e : n ≡ 0 = omega (arith, h) in omega (arith, ap clock e)
later clock on n (suc m) h = elim (Bool-cases (leb n m)) [
  | inl e ↦
      let e' : n ≤ m = ground arith in
      omega (arith, later clock on n m e', on m, ap clock (suc-add m))
  | inr e ↦ let t : n ≡ suc m = ground arith in omega (arith, ap clock t)
]

tell_open :
    (clock : ℕ → ℕ) (model : IspModel) (dev : Device)
    → told (write32 (isp_hooks clock model) shutter.offset 0 dev) ≡ 0
unfolding write32 run_hooks isp_hooks shutter_written peek poke
tell_open clock model dev = ground arith

tick-told : (clock : ℕ → ℕ) (dev : Device) → told (now clock dev).1 ≡ told dev
unfolding peek
tick-told clock dev = refl

abbrev block_Watched :
    (clock : ℕ → ℕ) (model : IspModel) → Onward clock → Watched (regs clock model) (now clock)
block_Watched clock model on = record {
  command = told;
  time = λ dev. clock dev.captured.readings;
  write_open = λ dev. tell_open clock model dev;
  read_keeps = λ off dev. (read32-Keeps clock model off dev).0;
  now_keeps = λ dev. tick-told clock dev;
  now_reads = λ dev. refl;
  now_moves = λ dev. on dev.captured.readings;
  read_time = λ off dev. later clock on _ _ (read32-Keeps clock model off dev).1;
}

-- The register of the shutter can be written.
abbrev pub Writable : Device → Type 0
Writable dev = dev.read_only 15 ≡ false

-- The CLOSE bit of the shutter's register.
abbrev pub closed : Device → ℕ
closed dev = bit_and (peek shutter.offset dev) close

-- What the correction says at its end, by what it came to.
abbrev pub nuc_event : Expected NucResult → Event
nuc_event (err e) = record {
  id = codes "NUC_FAILED";
  code = to_u16 e.code;
  text = codes e.location;
}
nuc_event (ok r) = record { id = codes "NUC_DONE"; code = 0; text = codes "channel OK" }

abbrev pub nuc_started : Event
nuc_started = record {
  id = codes "NUC_STARTED";
  code = 0;
  text = codes "shutter closing, channel degraded";
}
