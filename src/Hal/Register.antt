-- ===== src/Hal/Register.antt =====
-- framework/hal/include/optronic/hal/register.hpp: a register is a type that carries its offset and its
-- access rights. (The fences order accesses to device memory; the model makes them one after another.)
use optronic.Common.{ℕ, ◌-◌, ◌^◌, Bool, not, ◌==◌, bit_and, bit_or}
use optronic.Hal.Mmio.{MmioBackend}

pub data Access : Type 0 where
  ro_t wo_t rw_t : Access

-- The concepts `Readable` and `Writable`.
pub data Readable : Access → Type 0 where
  ro_readable : Readable ro_t
  rw_readable : Readable rw_t

pub data Writable : Access → Type 0 where
  wo_writable : Writable wo_t
  rw_writable : Writable rw_t

instance abbrev pub readable_ro : Readable ro_t
readable_ro = ro_readable

instance abbrev pub readable_rw : Readable rw_t
readable_rw = rw_readable

instance abbrev pub writable_wo : Writable wo_t
writable_wo = wo_writable

instance abbrev pub writable_rw : Writable rw_t
writable_rw = rw_writable

pub record Reg (a : Access) : Type 0 where
  pub offset : ℕ

-- ~mask on 32 bits
abbrev pub bit_not : ℕ → ℕ
bit_not mask = 2 ^ 32 - 1 - mask

module _ {S : Type 0} (b : MmioBackend S) {a : Access} where
  abbrev pub read : ⦃r : Readable a⦄ → Reg a → S → ℕ × S
  read r s = b.read32 r.offset s

  abbrev pub write : ⦃w : Writable a⦄ → Reg a → ℕ → S → S
  write r v s = b.write32 r.offset v s

  abbrev pub set_bits : ⦃r : Readable a⦄ → ⦃w : Writable a⦄ → Reg a → ℕ → S → S
  set_bits r mask s = let (v, s') = read r s in write r (bit_or v mask) s'

  abbrev pub clear_bits : ⦃r : Readable a⦄ → ⦃w : Writable a⦄ → Reg a → ℕ → S → S
  clear_bits r mask s = let (v, s') = read r s in write r (bit_and v (bit_not mask)) s'

  abbrev pub any_bit : ⦃r : Readable a⦄ → Reg a → ℕ → S → Bool × S
  any_bit r mask s = let (v, s') = read r s in (not (bit_and v mask == 0), s')
