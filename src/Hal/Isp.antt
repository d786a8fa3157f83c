-- ===== src/Hal/Isp.antt =====
-- framework/hal/include/optronic/hal/isp_ctrl.hpp: the address map of the block ISP_CTRL, the power-on
-- test and the timestamp, over any backend.
pub mod Model
pub mod PowerOn
pub mod Rights
pub mod Typed
use optronic.Common.{
  ℕ, ◌+◌, ◌*◌, ◌/◌, ◌%◌, ◌^◌, ◌-◌, Bool, true, false, ◌||◌, bit_or, ltb, ◌==◌, if◌then◌else◌,
}
use optronic.Common.Int.{ℤ, pos, negsuc, ltb_ℤ, signed32}
use optronic.Core.Error.{hal_id_mismatch, bit_poweron}
use optronic.Core.Expected.{Expected, ok, err, Status, done, fail}
use optronic.Hal.Mmio.{MmioBackend}
use optronic.Hal.Register.{
  ro_t, wo_t, rw_t, Reg, read, write, readable_ro, readable_rw, writable_wo, writable_rw,
}

abbrev pub id : Reg ro_t
id = record { offset = 0x000 }

abbrev pub version : Reg ro_t
version = record { offset = 0x004 }

abbrev pub ctrl : Reg rw_t
ctrl = record { offset = 0x008 }

abbrev pub status : Reg ro_t
status = record { offset = 0x00C }

abbrev pub gain : Reg rw_t
gain = record { offset = 0x010 }

abbrev pub offset : Reg rw_t
offset = record { offset = 0x014 }

abbrev pub frame_w : Reg rw_t
frame_w = record { offset = 0x018 }

abbrev pub frame_h : Reg rw_t
frame_h = record { offset = 0x01C }

abbrev pub frame_cnt : Reg ro_t
frame_cnt = record { offset = 0x020 }

abbrev pub irq_en : Reg rw_t
irq_en = record { offset = 0x024 }

abbrev pub irq_stat : Reg ro_t
irq_stat = record { offset = 0x028 }

abbrev pub irq_clr : Reg wo_t
irq_clr = record { offset = 0x02C }

abbrev pub temp_mc : Reg ro_t
temp_mc = record { offset = 0x030 }

abbrev pub ts_lo : Reg ro_t
ts_lo = record { offset = 0x034 }

abbrev pub ts_hi : Reg ro_t
ts_hi = record { offset = 0x038 }

abbrev pub shutter : Reg rw_t
shutter = record { offset = 0x03C }

abbrev pub nuc_acc_ctrl : Reg rw_t
nuc_acc_ctrl = record { offset = 0x040 }

abbrev pub nuc_table_addr : Reg rw_t
nuc_table_addr = record { offset = 0x100 }

abbrev pub nuc_table_data : Reg rw_t
nuc_table_data = record { offset = 0x104 }

abbrev pub id_magic : ℕ
id_magic = 0x49535031

-- ctrl_bits
abbrev pub enable : ℕ
enable = 0x1

abbrev pub sw_reset : ℕ
sw_reset = 0x4

-- status_bits
abbrev pub running : ℕ
running = 0x1

-- shutter_bits
abbrev pub close : ℕ
close = 0x1

abbrev pub busy : ℕ
busy = 0x10

abbrev pub fault : ℕ
fault = 0x100

-- nuc_bits
abbrev pub nuc_start : ℕ
nuc_start = 0x1

abbrev pub nuc_done : ℕ
nuc_done = 0x100

abbrev pub log2n_shift : ℕ
log2n_shift = 4

abbrev pub log2n_mask : ℕ
log2n_mask = 0xF0

abbrev pub gain_mask : ℕ
gain_mask = 0x0FFF

abbrev pub temp_min_milli_c : ℤ
temp_min_milli_c = negsuc 39_999

abbrev pub temp_max_milli_c : ℤ
temp_max_milli_c = pos 105_000

module _ {S : Type 0} (b : MmioBackend S) where
  unfoldable pub power_on_bit : S → Status × S
  power_on_bit s =
      let (i, s1) = read b id s in
      if i == id_magic
      then (let (v, s2) = read b version s1 in
          if v / 2 ^ 16 == 1
          then (let (c, s3) = read b ctrl (write b ctrl sw_reset s2) in
              if c == 0
              then (let (t, s4) = read b temp_mc s3 in
                  let temp = signed32 t in
                  if ltb_ℤ temp temp_min_milli_c || ltb_ℤ temp_max_milli_c temp
                  then (fail bit_poweron "bit: TEMP_MC", s4)
                  else (done, s4))
              else (fail bit_poweron "bit: CTRL after SW_RESET", s3))
          else (fail hal_id_mismatch "bit: VERSION.major", s2))
      else (fail hal_id_mismatch "bit: ID", s1)

  -- The low word is read first: the device latches the high word then.
  unfoldable pub read_timestamp_ns : S → ℕ × S
  read_timestamp_ns s =
      let (lo, s1) = read b ts_lo s in
      let (hi, s2) = read b ts_hi s1 in (bit_or (hi * 2 ^ 32 % 2 ^ 64) lo, s2)
