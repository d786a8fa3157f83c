-- ===== src/Hal/Isp/Typed.antt =====
-- What the access rights of the address map are worth on the modelled block: an access that has a type
-- is never a fault.
use optronic.Common.{ℕ, ◌/◌, ◌≡◌, refl, ap, ◌∙◌, Bool, true, false, List, [], ◌∷◌}
use optronic.Hal.Mmio.{MmioBackend, fake_backend, aligned_and_inside, set_read_only, poke}
use optronic.Hal.Register.{
  Access, ro_t, wo_t, rw_t, Readable, Writable, wo_writable, rw_writable, Reg, read, write,
}
use optronic.Hal.Isp.{
  id, version, ctrl, status, gain, offset, frame_w, frame_h, frame_cnt, irq_en, irq_stat, irq_clr,
  temp_mc, ts_lo, ts_hi, shutter, nuc_acc_ctrl, nuc_table_addr, nuc_table_data,
}
use optronic.Hal.Isp.Model.{Device, IspModel, isp_hooks, isp_device}
use optronic.Hal.Isp.Rights.{Same, read32-Same, write32-Same}

-- The registers of the map.
pub data Name : Type 0 where
  the_id the_version the_ctrl the_status the_gain the_offset : Name
  the_frame_w the_frame_h the_frame_cnt the_irq_en the_irq_stat the_irq_clr : Name
  the_temp_mc the_ts_lo the_ts_hi the_shutter the_nuc_acc_ctrl the_nuc_table_addr : Name
  the_nuc_table_data : Name

abbrev pub access_of : Name → Access
access_of the_id = ro_t
access_of the_version = ro_t
access_of the_ctrl = rw_t
access_of the_status = ro_t
access_of the_gain = rw_t
access_of the_offset = rw_t
access_of the_frame_w = rw_t
access_of the_frame_h = rw_t
access_of the_frame_cnt = ro_t
access_of the_irq_en = rw_t
access_of the_irq_stat = ro_t
access_of the_irq_clr = wo_t
access_of the_temp_mc = ro_t
access_of the_ts_lo = ro_t
access_of the_ts_hi = ro_t
access_of the_shutter = rw_t
access_of the_nuc_acc_ctrl = rw_t
access_of the_nuc_table_addr = rw_t
access_of the_nuc_table_data = rw_t

abbrev pub reg_of : (n : Name) → Reg (access_of n)
reg_of the_id = id
reg_of the_version = version
reg_of the_ctrl = ctrl
reg_of the_status = status
reg_of the_gain = gain
reg_of the_offset = offset
reg_of the_frame_w = frame_w
reg_of the_frame_h = frame_h
reg_of the_frame_cnt = frame_cnt
reg_of the_irq_en = irq_en
reg_of the_irq_stat = irq_stat
reg_of the_irq_clr = irq_clr
reg_of the_temp_mc = temp_mc
reg_of the_ts_lo = ts_lo
reg_of the_ts_hi = ts_hi
reg_of the_shutter = shutter
reg_of the_nuc_acc_ctrl = nuc_acc_ctrl
reg_of the_nuc_table_addr = nuc_table_addr
reg_of the_nuc_table_data = nuc_table_data

-- A typed access: what the register file lets a program do with a register of the map.
pub data Act : Type 0 where
  reads : (n : Name) → Readable (access_of n) → Act
  writes : (n : Name) → Writable (access_of n) → ℕ → Act

abbrev pub is_read_only : Access → Bool
is_read_only ro_t = true
is_read_only wo_t = false
is_read_only rw_t = false

-- The stand-in's flag for a register of the map.
abbrev pub flag_of : Name → Device → Bool
flag_of n dev = dev.read_only ((reg_of n).offset / 4)

inside : (n : Name) → aligned_and_inside (reg_of n).offset ≡ true
inside the_id = refl
inside the_version = refl
inside the_ctrl = refl
inside the_status = refl
inside the_gain = refl
inside the_offset = refl
inside the_frame_w = refl
inside the_frame_h = refl
inside the_frame_cnt = refl
inside the_irq_en = refl
inside the_irq_stat = refl
inside the_irq_clr = refl
inside the_temp_mc = refl
inside the_ts_lo = refl
inside the_ts_hi = refl
inside the_shutter = refl
inside the_nuc_acc_ctrl = refl
inside the_nuc_table_addr = refl
inside the_nuc_table_data = refl

flag_of-installed : (n : Name) → flag_of n isp_device ≡ is_read_only (access_of n)
unfolding isp_device set_read_only poke
flag_of-installed the_id = refl
flag_of-installed the_version = refl
flag_of-installed the_ctrl = refl
flag_of-installed the_status = refl
flag_of-installed the_gain = refl
flag_of-installed the_offset = refl
flag_of-installed the_frame_w = refl
flag_of-installed the_frame_h = refl
flag_of-installed the_frame_cnt = refl
flag_of-installed the_irq_en = refl
flag_of-installed the_irq_stat = refl
flag_of-installed the_irq_clr = refl
flag_of-installed the_temp_mc = refl
flag_of-installed the_ts_lo = refl
flag_of-installed the_ts_hi = refl
flag_of-installed the_shutter = refl
flag_of-installed the_nuc_acc_ctrl = refl
flag_of-installed the_nuc_table_addr = refl
flag_of-installed the_nuc_table_data = refl

is_read_only-Writable : {a : Access} → Writable a → is_read_only a ≡ false
is_read_only-Writable wo_writable = refl
is_read_only-Writable rw_writable = refl

unfaulted : isp_device.faults ≡ 0
unfolding isp_device set_read_only poke
unfaulted = refl

module _ (clock : ℕ → ℕ) (model : IspModel) where
  abbrev Block : MmioBackend Device
  Block = fake_backend (isp_hooks clock model)

  abbrev pub act : Act → Device → Device
  act (reads n r) dev = (read Block ⦃r = r⦄ (reg_of n) dev).1
  act (writes n w v) dev = write Block ⦃w = w⦄ (reg_of n) v dev

  pub run : List Act → Device → Device
  run [] dev = dev
  run (a ∷ acts) dev = run acts (act a dev)

  act-Same : (a : Act) (dev : Device) → dev.read_only ≡ isp_device.read_only → Same dev (act a dev)
  act-Same (reads n r) dev h = read32-Same clock model (reg_of n).offset dev (inside n)
  act-Same (writes n w v) dev h = write32-Same clock model (reg_of n).offset v dev (inside n) (
      ap (λ (f : ℕ → Bool). f ((reg_of n).offset / 4)) h
      ∙ flag_of-installed n
      ∙ is_read_only-Writable w)

  run-Same :
      (acts : List Act) (dev : Device)
      → dev.read_only ≡ isp_device.read_only
      → ((run acts dev).read_only ≡ isp_device.read_only) × ((run acts dev).faults ≡ dev.faults)
  unfolding run
  run-Same [] dev h = (h, refl)
  run-Same (a ∷ acts) dev h =
      let s = act-Same a dev h in
      let (r, f) = run-Same acts (act a dev) (s.rights ∙ h) in (r, f ∙ s.counted)

  -- The access rights of the address map are those that `install_isp_model` gives the stand-in: a
  -- register is read only there exactly if its type says so. And they are enough: whatever a program
  -- reads and writes through typed registers on the modelled block, in whatever order, no access is
  -- a fault, and the rights stay as they are.
  pub run-faultless :
      (n : Name) (acts : List Act)
      → (flag_of n isp_device ≡ is_read_only (access_of n))
        × ((run acts isp_device).faults ≡ 0)
        × (flag_of n (run acts isp_device) ≡ is_read_only (access_of n))
  run-faultless n acts =
      let (r, f) = run-Same acts isp_device refl in
      (
        flag_of-installed n,
        f ∙ unfaulted,
        ap (λ (g : ℕ → Bool). g ((reg_of n).offset / 4)) r ∙ flag_of-installed n,
      )
