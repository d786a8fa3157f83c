-- ===== src/Sensor.antt =====
-- modules/sensor: the non-uniformity correction (nuc.hpp), over any backend and any clock. The clock
-- reads nanoseconds; a state of the world holds the device and the time.
pub mod Kept
pub mod Shutter
mod Tests
use optronic.Common.{
  ℕ, zero, suc, ◌+◌, ◌-◌, ◌*◌, ◌/◌, ◌%◌, ◌^◌, Bool, true, false, not, Option, none, some, bit_and,
  bit_or, leb, ltb, if◌then◌else◌,
}
use optronic.Core.Error.{hal_shutter, timeout}
use optronic.Core.Expected.{Expected, ok, err, fail}
use optronic.Hal.Mmio.{MmioBackend}
use optronic.Hal.Register.{Reg, read, write, any_bit, readable_rw, writable_rw}
use optronic.Hal.Isp.{
  shutter, nuc_acc_ctrl, nuc_table_addr, nuc_table_data, close, busy, fault, nuc_start, nuc_done,
  log2n_shift, log2n_mask,
}

-- The times are in milliseconds.
pub record NucConfig : Type 0 where
  pub log2_frames : ℕ
  pub shutter_timeout : ℕ
  pub accumulate_timeout : ℕ
  pub table_entries : ℕ

abbrev pub default_config : NucConfig
default_config = record {
  log2_frames = 4;
  shutter_timeout = 150;
  accumulate_timeout = 400;
  table_entries = 256;
}

pub record NucResult : Type 0 where
  pub duration : ℕ
  pub entries : ℕ
  pub mean_offset : ℕ

abbrev pub ns_per_ms : ℕ
ns_per_ms = 1_000_000

-- The local `acc`.
abbrev pub acc_word : NucConfig → ℕ
acc_word cfg = bit_or nuc_start (bit_and (cfg.log2_frames * 2 ^ log2n_shift % 2 ^ 32) log2n_mask)

module _ {S : Type 0} (b : MmioBackend S) (now : S → ℕ × S) where
  -- The loop; `none` when the fuel is used up.
  unfoldable pub poll : ℕ → (S → Bool × S) → ℕ → S → Option (Bool × S)
  poll zero pred deadline s = none
  poll (suc fuel) pred deadline s =
      let (hit, s1) = pred s in
      let (t, s2) = now s1 in
      let rest = poll fuel pred deadline s2 in
      if hit then some (true, s1) else if leb deadline t then some (false, s2) else rest

  unfoldable pub poll_until : ℕ → (S → Bool × S) → ℕ → S → Option (Bool × S)
  poll_until fuel pred timeout_ms s =
      let (t, s1) = now s in poll fuel pred (t + timeout_ms * ns_per_ms) s1

  abbrev pub open_shutter : S → S
  open_shutter s = write b shutter 0 s

  -- The two conditions that are waited for.
  abbrev pub shutter_still : S → Bool × S
  shutter_still s = let (moving, s') = any_bit b shutter busy s in (not moving, s')

  abbrev pub accumulated : S → Bool × S
  accumulated s = any_bit b nuc_acc_ctrl nuc_done s

  -- The loop over DATA, with `sum` so far.
  unfoldable pub read_table : ℕ → ℕ → S → ℕ × S
  read_table zero sum s = (sum, s)
  read_table (suc left) sum s =
      let (v, s') = read b nuc_table_data s in read_table left (sum + bit_and v 0xFFFF) s'

  -- The parts of `run_nuc` from step 4, 3, 2 and 1 on.
  unfoldable pub reopen : ℕ → NucConfig → ℕ → ℕ → S → Option (Expected NucResult × S)
  reopen fuel cfg started sum s =
      elim (poll_until fuel shutter_still cfg.shutter_timeout (open_shutter s)) [
        | none ↦ none
        | some (hit, s') ↦
            if hit
            then (let (t, s'') = now s' in
                let mean = (if ltb 0 cfg.table_entries then sum / cfg.table_entries else 0) in
                some (
                  ok (record {
                    duration = (t - started) / ns_per_ms;
                    entries = cfg.table_entries;
                    mean_offset = mean;
                  }),
                  s'',
                ))
            else some (fail hal_shutter "nuc: shutter did not reopen", s')
      ]

  unfoldable pub collect : ℕ → NucConfig → ℕ → S → Option (Expected NucResult × S)
  collect fuel cfg started s =
      let (sum, s') = read_table cfg.table_entries 0 (write b nuc_table_addr 0 s) in
      reopen fuel cfg started sum s'

  unfoldable pub accumulate : ℕ → NucConfig → ℕ → S → Option (Expected NucResult × S)
  accumulate fuel cfg started s =
      elim (poll_until fuel accumulated cfg.accumulate_timeout
        (write b nuc_acc_ctrl (acc_word cfg) s)) [
          | none ↦ none
          | some (hit, s') ↦
              if hit
              then collect fuel cfg started s'
              else some (fail timeout "nuc: accumulation did not finish", open_shutter s')
        ]

  unfoldable pub close_then : ℕ → NucConfig → ℕ → S → Option (Expected NucResult × S)
  close_then fuel cfg started s =
      elim (poll_until fuel shutter_still cfg.shutter_timeout (write b shutter close s)) [
        | none ↦ none
        | some (hit, s') ↦
            if hit
            then accumulate fuel cfg started s'
            else some (fail hal_shutter "nuc: shutter did not close", open_shutter s')
      ]

  unfoldable pub run_nuc : ℕ → NucConfig → S → Option (Expected NucResult × S)
  run_nuc fuel cfg s =
      let (started, s1) = now s in
      let (faulty, s2) = any_bit b shutter fault s1 in
      if faulty
      then some (fail hal_shutter "nuc: shutter reports FAULT", s2)
      else close_then fuel cfg started s2
