-- ===== src/Sensor/Shutter.antt =====
-- Where the correction leaves the shutter, and that it ends.
use optronic.Common.{ℕ, zero, suc, ◌≤◌, ◌<◌, ◌≡◌, refl, ◌∙◌, Bool, true, false, Option, some, ◌⊎◌}
use optronic.Core.Error.{hal_shutter, timeout}
use optronic.Core.Expected.{Expected, ok, fail}
use optronic.Hal.Mmio.{MmioBackend}
use optronic.Hal.Register.{readable_rw, writable_rw}
use optronic.Hal.Isp.{shutter, nuc_table_data}
use optronic.Sensor.{NucConfig, NucResult, read_table}

-- What the world must have for the correction: `command` is what the shutter was told through its
-- register, which 0 opens, and `time` the clock, which never goes back and which every reading of it
-- moves on.
pub record Watched {S : Type 0} (b : MmioBackend S) (now : S → ℕ × S) : Type 0 where
  pub command : S → ℕ
  pub time : S → ℕ
  pub write_open : (s : S) → command (b.write32 shutter.offset 0 s) ≡ 0
  pub read_keeps : (off : ℕ) (s : S) → command (b.read32 off s).1 ≡ command s
  pub now_keeps : (s : S) → command (now s).1 ≡ command s
  pub now_reads : (s : S) → (now s).0 ≡ time s
  pub now_moves : (s : S) → time s < time (now s).1
  pub read_time : (off : ℕ) (s : S) → time s ≤ time (b.read32 off s).1

-- How a correction ends, with the shutter's last command: only a shutter that reports FAULT before
-- anything was done is left as it was.
pub data Ended (cfg : NucConfig) (before after : ℕ) : Expected NucResult → Type 0 where
  faulted : after ≡ before → Ended cfg before after (fail hal_shutter "nuc: shutter reports FAULT")
  stuck : after ≡ 0 → Ended cfg before after (fail hal_shutter "nuc: shutter did not close")
  late : after ≡ 0 → Ended cfg before after (fail timeout "nuc: accumulation did not finish")
  stays : after ≡ 0 → Ended cfg before after (fail hal_shutter "nuc: shutter did not reopen")
  finished :
      (r : NucResult) → r.entries ≡ cfg.table_entries → after ≡ 0 → Ended cfg before after (ok r)

module _ {S : Type 0} (b : MmioBackend S) (now : S → ℕ × S) (w : Watched b now) where
  abbrev Quiet : (S → Bool × S) → Type 0
  Quiet pred = (s : S) → (w.command (pred s).1 ≡ w.command s) × (w.time s ≤ w.time (pred s).1)

  -- Waiting ends in time or too late.
  abbrev Waited : Option (Bool × S) → S → Type 0
  Waited o s =
      ((s' : S) × (o ≡ some (true, s')) × (w.command s' ≡ w.command s))
      ⊎ ((s' : S) × (o ≡ some (false, s')) × (w.command s' ≡ w.command s))

  table-keeps : (left sum : ℕ) (s : S) → w.command (read_table b now left sum s).1 ≡ w.command s
  unfolding read_table
  table-keeps zero sum s = refl
  table-keeps (suc left) sum s =
      table-keeps left _ (b.read32 nuc_table_data.offset s).1 ∙ w.read_keeps nuc_table_data.offset s

  -- The parts of the procedure, from the last one on.
  abbrev Ends : NucConfig → ℕ → Option (Expected NucResult × S) → Type 0
  Ends cfg before o =
      (r : Expected NucResult) × (s' : S) × (o ≡ some (r, s')) × Ended cfg before (w.command s') r
