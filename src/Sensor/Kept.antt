-- ===== src/Sensor/Kept.antt =====
-- What the correction keeps: a predicate that every access of the registers and every reading of the
-- clock keeps.
use optronic.Common.{
  ℕ, zero, suc, Bool, true, false, Option, none, some, leb, if◌then◌else◌, Bool-cases, inl, inr,
}
use optronic.Core.Expected.{Expected}
use optronic.Hal.Mmio.{MmioBackend}
use optronic.Hal.Register.{any_bit, readable_rw, writable_rw}
use optronic.Hal.Isp.{shutter, nuc_acc_ctrl, nuc_table_data, nuc_table_addr, close, fault}
use optronic.Sensor.{
  NucConfig, NucResult, poll, poll_until, shutter_still, accumulated, read_table, acc_word, reopen,
  collect, accumulate, close_then, run_nuc,
}

module _ {S : Type 0} (b : MmioBackend S) (now : S → ℕ × S) (P : S → Type 0)
    (reads : (off : ℕ) (s : S) → P s → P (b.read32 off s).1)
    (writes : (off v : ℕ) (s : S) → P s → P (b.write32 off v s))
    (ticks : (s : S) → P s → P (now s).1) where
  -- Where it ends, if it ends.
  abbrev pub Lands {ℓ} : {A : Type ℓ} → Option (A × S) → Type 0
  Lands none = Unit
  Lands (some (a, s)) = P s

  poll-Lands :
      (fuel : ℕ) (pred : S → Bool × S) (deadline : ℕ) (s : S)
      → ((s' : S) → P s' → P (pred s').1)
      → P s
      → Lands (poll b now fuel pred deadline s)
  unfolding poll
  poll-Lands zero pred deadline s k p = tt
  poll-Lands (suc fuel) pred deadline s k p =
      let p1 = k s p in
      let p2 = ticks (pred s).1 p1 in
      let rest = poll-Lands fuel pred deadline (now (pred s).1).1 k p2 in
      elim (Bool-cases (pred s).0) [
        | inl e ↦ rw e p1
        | inr e ↦ elim (Bool-cases (leb deadline (now (pred s).1).0)) [
          | inl e' ↦ rw (e, e') p2
          | inr e' ↦ rw (e, e') rest
        ]
      ]

  wait-Lands :
      (fuel : ℕ) (pred : S → Bool × S) (ms : ℕ) (s : S)
      → ((s' : S) → P s' → P (pred s').1)
      → P s
      → Lands (poll_until b now fuel pred ms s)
  unfolding poll_until
  wait-Lands fuel pred ms s k p = poll-Lands fuel pred _ _ k (ticks s p)

  table-keeps : (left sum : ℕ) (s : S) → P s → P (read_table b now left sum s).1
  unfolding read_table
  table-keeps zero sum s p = p
  table-keeps (suc left) sum s p = table-keeps left _ _ (reads nuc_table_data.offset s p)

  -- A wait, and what is done in time and too late.
  then-Lands :
      (f g : S → Option (Expected NucResult × S)) (o : Option (Bool × S))
      → ((s : S) → P s → Lands (f s))
      → ((s : S) → P s → Lands (g s))
      → Lands o
      → Lands {A = Expected NucResult} (elim o as (λ x. Option (Expected NucResult × S)) [
        | none ↦ none
        | some (hit, s') ↦ if hit then f s' else g s'
      ])
  then-Lands f g none hf hg p = tt
  then-Lands f g (some (true, s)) hf hg p = hf s p
  then-Lands f g (some (false, s)) hf hg p = hg s p

  reopen-Lands :
      (fuel : ℕ) (cfg : NucConfig) (started sum : ℕ) (s : S)
      → P s
      → Lands (reopen b now fuel cfg started sum s)
  unfolding reopen
  reopen-Lands fuel cfg started sum s p =
      then-Lands _ _ _ (λ s' q. ticks s' q) (λ s' q. q)
        (wait-Lands fuel (shutter_still b now) cfg.shutter_timeout _ (reads shutter.offset)
          (writes shutter.offset 0 s p))

  collect-Lands :
      (fuel : ℕ) (cfg : NucConfig) (started : ℕ) (s : S)
      → P s
      → Lands (collect b now fuel cfg started s)
  unfolding collect
  collect-Lands fuel cfg started s p =
      reopen-Lands fuel cfg started _ _
        (table-keeps cfg.table_entries 0 _ (writes nuc_table_addr.offset 0 s p))

  accumulate-Lands :
      (fuel : ℕ) (cfg : NucConfig) (started : ℕ) (s : S)
      → P s
      → Lands (accumulate b now fuel cfg started s)
  unfolding accumulate
  accumulate-Lands fuel cfg started s p =
      then-Lands _ _ _ (collect-Lands fuel cfg started) (writes shutter.offset 0) (
        wait-Lands fuel (accumulated b now) cfg.accumulate_timeout _ (reads nuc_acc_ctrl.offset)
          (writes nuc_acc_ctrl.offset (acc_word cfg) s p))

  close_then-Lands :
      (fuel : ℕ) (cfg : NucConfig) (started : ℕ) (s : S)
      → P s
      → Lands (close_then b now fuel cfg started s)
  unfolding close_then
  close_then-Lands fuel cfg started s p =
      then-Lands _ _ _ (accumulate-Lands fuel cfg started) (writes shutter.offset 0) (
        wait-Lands fuel (shutter_still b now) cfg.shutter_timeout _ (reads shutter.offset)
          (writes shutter.offset close s p))

  -- A correction that ends, ends where the predicate still holds.
  pub run_nuc-Lands : (fuel : ℕ) (cfg : NucConfig) (s : S) → P s → Lands (run_nuc b now fuel cfg s)
  unfolding run_nuc
  run_nuc-Lands fuel cfg s p =
      let p1 = reads shutter.offset _ (ticks s p) in
      elim (Bool-cases (any_bit b shutter fault (now s).1).0) [
        | inl e ↦ rw e p1
        | inr e ↦ rw e (close_then-Lands fuel cfg (now s).0 _ p1)
      ]
