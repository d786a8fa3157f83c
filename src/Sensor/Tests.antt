-- ===== src/Sensor/Tests.antt =====
-- The correction on a bench whose answers never change, and on the modelled block.
use optronic.Common.{ℕ, ◌+◌, refl, ◌==◌, if◌then◌else◌, arith}
use optronic.Core.Expected.{Expected}
use optronic.Hal.Mmio.{MmioBackend}
use optronic.Hal.Isp.{shutter}
use optronic.Sensor.Shutter.{Watched}

record Bench : Type 0 where
  command : ℕ
  ns : ℕ

-- The shutter is still, the accumulation done, and every entry of the table 7.
abbrev answer : ℕ → ℕ
answer off = if off == 0x40 then 0x100 else if off == 0x104 then 7 else 0

abbrev bench : MmioBackend Bench
bench = record {
  read32 = λ off s. (answer off, s);
  write32 = λ off v s. if off == shutter.offset then record s { command = v } else s;
}

abbrev bench_now : Bench → ℕ × Bench
bench_now s = (s.ns, record s { ns = s.ns + 1000 })

abbrev bench_Watched : Watched bench bench_now
bench_Watched = record {
  command = λ s. s.command;
  time = λ s. s.ns;
  write_open = λ s. refl;
  read_keeps = λ off s. refl;
  now_keeps = λ s. refl;
  now_reads = λ s. refl;
  now_moves = λ s. omega arith;
  read_time = λ off s. omega arith;
}

abbrev shut : Bench
shut = record { command = 1; ns = 5 }
