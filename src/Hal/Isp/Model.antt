-- ===== src/Hal/Isp/Model.antt =====
-- framework/hal/src/isp_model.cpp: the block as software observes it. The clock is a parameter: its
-- n-th reading, in nanoseconds. The times and the table that the hooks share are the captured state.
use optronic.Common.{
  ℕ, ◌+◌, ◌*◌, Bool, false, List, [], ◌∷◌, bit_and, bit_or, ltb, leb, ◌==◌, if◌then◌else◌,
}
use optronic.Hal.Mmio.{FakeMmio, Hooks, update, poke, peek, set_read_only, on_write, on_read, blank}
use optronic.Hal.Register.{bit_not}
use optronic.Hal.Isp.{
  id, version, ctrl, status, gain, frame_w, frame_h, frame_cnt, irq_stat, irq_clr, temp_mc, ts_lo,
  ts_hi, shutter, nuc_acc_ctrl, nuc_table_addr, nuc_table_data, id_magic, enable, sw_reset, running,
  close, busy, nuc_start, nuc_done,
}

-- Milliseconds, and whether BUSY never clears.
pub record IspModel : Type 0 where
  pub shutter_move : ℕ
  pub nuc_accumulate : ℕ
  pub shutter_jams : Bool

abbrev pub default_model : IspModel
default_model = record { shutter_move = 40; nuc_accumulate = 120; shutter_jams = false }

abbrev pub ns_per_ms : ℕ
ns_per_ms = 1_000_000

-- `readings` counts how often the clock was read.
pub record Captured : Type 0 where
  pub shutter_ready : ℕ
  pub accum_ready : ℕ
  pub table : ℕ → ℕ
  pub readings : ℕ

abbrev pub Device : Type 0
Device = FakeMmio Captured

abbrev pub table_size : ℕ
table_size = 1024

abbrev pub fresh_captured : Captured
fresh_captured = record { shutter_ready = 0; accum_ready = 0; table = λ _. 0; readings = 0 }

unfoldable pub ctrl_written : Device → ℕ → Device
unfolding poke peek
ctrl_written dev v =
    if bit_and v sw_reset == 0
    then (let st = peek status.offset dev in
        poke status.offset
          (if bit_and v enable == 0 then bit_and st (bit_not running) else bit_or st running) dev)
    else poke gain.offset 0x0100
        (poke frame_cnt.offset 0 (poke status.offset 0 (poke ctrl.offset 0 dev)))

unfoldable pub irq_clr_written : Device → ℕ → Device
unfolding poke peek
irq_clr_written dev v =
    let dev1 = poke status.offset (bit_and (peek status.offset dev) (bit_not v)) dev in
    let dev2 = poke irq_stat.offset (bit_and (peek irq_stat.offset dev1) (bit_not v)) dev1 in
    poke irq_clr.offset 0 dev2

module _ (clock : ℕ → ℕ) where
  -- clock::now()
  abbrev pub now : Device → ℕ × Device
  now dev = (
    clock dev.captured.readings,
    record dev { captured = record (dev.captured) { readings = dev.captured.readings + 1 } },
  )

  unfoldable pub shutter_written : IspModel → Device → ℕ → Device
  unfolding poke
  shutter_written model dev v =
      let (t, dev1) = now dev in
      poke shutter.offset (bit_or (bit_and v close) busy) (record dev1 {
        captured = record (dev1.captured) { shutter_ready = t + model.shutter_move * ns_per_ms };
      })

  unfoldable pub shutter_polled : IspModel → Device → Device
  unfolding poke peek
  shutter_polled model dev =
      if model.shutter_jams
      then dev
      else (let (t, dev1) = now dev in
          if leb dev1.captured.shutter_ready t
          then poke shutter.offset (bit_and (peek shutter.offset dev1) (bit_not busy)) dev1
          else dev1)

  unfoldable pub nuc_written : IspModel → Device → ℕ → Device
  unfolding poke
  nuc_written model dev v =
      if bit_and v nuc_start == 0
      then dev
      else (let (t, dev1) = now dev in
          poke nuc_acc_ctrl.offset (bit_and v (bit_not nuc_done)) (record dev1 {
            captured = record (dev1.captured) {
              accum_ready = t + model.nuc_accumulate * ns_per_ms;
            };
          }))

  unfoldable pub nuc_polled : Device → Device
  unfolding poke peek
  nuc_polled dev =
      let v = peek nuc_acc_ctrl.offset dev in
      if bit_and v nuc_start == 0
      then dev
      else (let (t, dev1) = now dev in
          if leb dev1.captured.accum_ready t
          then poke nuc_acc_ctrl.offset (bit_or v nuc_done) dev1
          else dev1)

unfoldable pub table_written : Device → ℕ → Device
unfolding poke peek
table_written dev v =
    let idx = bit_and (peek nuc_table_addr.offset dev) 0xFFFF in
    let dev1 =
      (if ltb idx table_size
        then record dev {
          captured = record (dev.captured) {
            table = update dev.captured.table idx (bit_and v 0xFFFF);
          };
        }
        else dev) in
    poke nuc_table_addr.offset (idx + 1) dev1

unfoldable pub table_read : Device → Device
unfolding poke peek
table_read dev =
    let idx = bit_and (peek nuc_table_addr.offset dev) 0xFFFF in
    poke nuc_table_addr.offset (idx + 1)
      (poke nuc_table_data.offset (if ltb idx table_size then dev.captured.table idx else 0) dev)

set_all_read_only : List ℕ → Device → Device
set_all_read_only [] dev = dev
set_all_read_only (off ∷ offs) dev = set_all_read_only offs (set_read_only off dev)

-- The state that `install_isp_model` leaves a device in.
unfoldable pub install_state : Device → Device
unfolding poke set_all_read_only set_read_only
install_state m =
    set_all_read_only
      (id.offset ∷ version.offset ∷ status.offset ∷ frame_cnt.offset ∷ irq_stat.offset
        ∷ temp_mc.offset ∷ ts_lo.offset ∷ ts_hi.offset ∷ [])
      (poke temp_mc.offset 41_250 (
        poke frame_h.offset 1080 (
          poke frame_w.offset 1920 (
            poke gain.offset 0x0100
              (poke version.offset 0x0001_0000 (poke id.offset id_magic m))))))

-- The hooks that it registers, in order.
unfoldable pub install_hooks : (ℕ → ℕ) → IspModel → Hooks Captured → Hooks Captured
unfolding on_write on_read
install_hooks clock model h = on_read nuc_table_data.offset table_read (
    on_write nuc_table_data.offset table_written (
      on_read nuc_acc_ctrl.offset (nuc_polled clock) (
        on_write nuc_acc_ctrl.offset (nuc_written clock model) (
          on_read shutter.offset (shutter_polled clock model) (
            on_write shutter.offset (shutter_written clock model)
              (on_write irq_clr.offset irq_clr_written (on_write ctrl.offset ctrl_written h)))))))

-- A new device with the model installed.
unfoldable pub isp_device : Device
unfolding install_state
isp_device = install_state (blank fresh_captured)

unfoldable pub isp_hooks : (ℕ → ℕ) → IspModel → Hooks Captured
unfolding install_hooks
isp_hooks clock model = install_hooks clock model (record { hooks = []; read_hooks = [] })
