-- ===== src/Hal/Isp/Rights.antt =====
-- What an access of the modelled block leaves alone: which registers are read only, and, where it is
-- allowed, the count of the faults.
use optronic.Common.{
  ℕ, ◌/◌, ◌≡◌, refl, ◌∙◌, Bool, true, false, ◌==◌, Bool-cases, inl, inr, arith, if◌then◌else◌,
}
use optronic.Hal.Mmio.{
  peek, poke, update, aligned_and_inside, read32, write32, run_hooks, run_read_hooks,
}
use optronic.Hal.Isp.{ctrl, irq_clr, shutter, nuc_acc_ctrl, nuc_table_data}
use optronic.Hal.Isp.Model.{
  Device, IspModel, isp_hooks, shutter_polled, shutter_written, nuc_polled, table_read,
  table_written, nuc_written, irq_clr_written, ctrl_written,
}

pub record Same (dev dev' : Device) : Type 0 where
  pub rights : dev'.read_only ≡ dev.read_only
  pub counted : dev'.faults ≡ dev.faults

-- One hook more, for its own offset.
when-Same :
    (f : Device → Device) (b : Bool) {first dev : Device}
    → ((d : Device) → Same d (f d))
    → Same first dev
    → Same first (if b then f dev else dev)
when-Same f true {dev = dev} k s = record {
  rights = (k dev).rights ∙ s.rights;
  counted = (k dev).counted ∙ s.counted;
}
when-Same f false k s = s

same : {dev : Device} → Same dev dev
same = record { rights = refl; counted = refl }

ctrl_written-Same : (dev : Device) (v : ℕ) → Same dev (ctrl_written dev v)
unfolding ctrl_written poke peek
ctrl_written-Same dev v = record { rights = ground arith; counted = ground arith }

irq_clr_written-Same : (dev : Device) (v : ℕ) → Same dev (irq_clr_written dev v)
unfolding irq_clr_written poke peek
irq_clr_written-Same dev v = record { rights = ground arith; counted = ground arith }

shutter_written-Same :
    (clock : ℕ → ℕ) (model : IspModel) (dev : Device) (v : ℕ)
    → Same dev (shutter_written clock model dev v)
unfolding shutter_written poke peek
shutter_written-Same clock model dev v = record { rights = ground arith; counted = ground arith }

nuc_written-Same :
    (clock : ℕ → ℕ) (model : IspModel) (dev : Device) (v : ℕ)
    → Same dev (nuc_written clock model dev v)
unfolding nuc_written poke peek
nuc_written-Same clock model dev v = record { rights = ground arith; counted = ground arith }

table_written-Same : (dev : Device) (v : ℕ) → Same dev (table_written dev v)
unfolding table_written poke peek
table_written-Same dev v = record { rights = ground arith; counted = ground arith }

shutter_polled-Same :
    (clock : ℕ → ℕ) (model : IspModel) (dev : Device) → Same dev (shutter_polled clock model dev)
unfolding shutter_polled poke peek
shutter_polled-Same clock model dev = record { rights = ground arith; counted = ground arith }

nuc_polled-Same : (clock : ℕ → ℕ) (dev : Device) → Same dev (nuc_polled clock dev)
unfolding nuc_polled poke peek
nuc_polled-Same clock dev = record { rights = ground arith; counted = ground arith }

table_read-Same : (dev : Device) → Same dev (table_read dev)
unfolding table_read poke peek
table_read-Same dev = record { rights = ground arith; counted = ground arith }

read_hooks-Same :
    (clock : ℕ → ℕ) (model : IspModel) (off : ℕ) (dev : Device)
    → Same dev (run_read_hooks (isp_hooks clock model).read_hooks off dev)
unfolding run_read_hooks isp_hooks
read_hooks-Same clock model off dev =
    when-Same table_read (nuc_table_data.offset == off) table_read-Same (
      when-Same (nuc_polled clock) (nuc_acc_ctrl.offset == off) (nuc_polled-Same clock) (
        when-Same (shutter_polled clock model) (shutter.offset == off)
          (shutter_polled-Same clock model) same))

-- The hooks on a write, in their order.
hooks-Same :
    (clock : ℕ → ℕ) (model : IspModel) (off v : ℕ) (dev : Device)
    → Same dev (run_hooks (isp_hooks clock model).hooks off v dev)
unfolding run_hooks isp_hooks
hooks-Same clock model off v dev =
    when-Same (λ d. table_written d v) (nuc_table_data.offset == off) (λ d. table_written-Same d v)
      (when-Same (λ d. nuc_written clock model d v) (nuc_acc_ctrl.offset == off)
        (λ d. nuc_written-Same clock model d v)
        (when-Same (λ d. shutter_written clock model d v) (shutter.offset == off)
          (λ d. shutter_written-Same clock model d v)
          (when-Same (λ d. irq_clr_written d v) (irq_clr.offset == off)
            (λ d. irq_clr_written-Same d v)
            (when-Same (λ d. ctrl_written d v) (ctrl.offset == off) (λ d. ctrl_written-Same d v)
              same))))

-- A read in the window, and a write in the window of a register that is not read only, are no faults.
pub read32-Same :
    (clock : ℕ → ℕ) (model : IspModel) (off : ℕ) (dev : Device)
    → aligned_and_inside off ≡ true
    → Same dev (read32 (isp_hooks clock model) off dev).1
unfolding read32
read32-Same clock model off dev e = rw e (read_hooks-Same clock model off dev)

pub write32-Same :
    (clock : ℕ → ℕ) (model : IspModel) (off v : ℕ) (dev : Device)
    → aligned_and_inside off ≡ true
    → dev.read_only (off / 4) ≡ false
    → Same dev (write32 (isp_hooks clock model) off v dev)
unfolding write32
write32-Same clock model off v dev e w =
    let h = hooks-Same clock model off v (record dev { words = update dev.words (off / 4) v }) in
    rw (e, w) (record { rights = h.rights; counted = h.counted })

-- No access at all changes which registers are read only.
pub read32-read_only :
    (clock : ℕ → ℕ) (model : IspModel) (off : ℕ) (dev : Device)
    → (read32 (isp_hooks clock model) off dev).1.read_only ≡ dev.read_only
unfolding read32
read32-read_only clock model off dev = elim (Bool-cases (aligned_and_inside off)) [
  | inl e ↦ rw e (read_hooks-Same clock model off dev).rights
  | inr e ↦ rw e refl
]

pub write32-read_only :
    (clock : ℕ → ℕ) (model : IspModel) (off v : ℕ) (dev : Device)
    → (write32 (isp_hooks clock model) off v dev).read_only ≡ dev.read_only
unfolding write32
write32-read_only clock model off v dev = elim (Bool-cases (aligned_and_inside off)) [
  | inl e ↦ elim (Bool-cases (dev.read_only (off / 4))) [
    | inl kept ↦ rw (e, kept) refl
    | inr free ↦ (write32-Same clock model off v dev e free).rights
  ]
  | inr e ↦ rw e refl
]
