-- ===== src/Hal/Mmio.antt =====
-- framework/hal/include/optronic/hal/mmio.hpp. `MmioBackend` is the concept, on an explicit state;
-- `FakeMmio` is the host stand-in. The function objects that the source registers as hooks are the
-- record `Hooks`, beside the state that they change; what a hook captures by shared pointer is the
-- field `captured`.
use optronic.Common.{
  ℕ, ◌+◌, ◌/◌, ◌%◌, Bool, true, false, List, [], ◌∷◌, ◌++◌, leb, ltb, ◌==◌, ◌&&◌, if◌then◌else◌,
}

-- The concept: a read may change the device, so it returns the device as well.
pub record MmioBackend (S : Type 0) : Type 0 where
  pub read32 : ℕ → S → ℕ × S
  pub write32 : ℕ → ℕ → S → S

abbrev pub size : ℕ
size = 0x1000

abbrev pub word_count : ℕ
word_count = 1024

abbrev pub update {ℓ} : {A : Type ℓ} → (ℕ → A) → ℕ → A → ℕ → A
update f i v j = if j == i then v else f j

-- `words_`, `read_only_` and `faults_`; `C` is what the hooks capture.
pub record FakeMmio (C : Type 0) : Type 0 where
  pub words : ℕ → ℕ
  pub read_only : ℕ → Bool
  pub faults : ℕ
  pub captured : C

pub record Hook (C : Type 0) : Type 0 where
  pub offset : ℕ
  pub fn : FakeMmio C → ℕ → FakeMmio C

pub record ReadHook (C : Type 0) : Type 0 where
  pub offset : ℕ
  pub fn : FakeMmio C → FakeMmio C

pub record Hooks (C : Type 0) : Type 0 where
  pub hooks : List (Hook C)
  pub read_hooks : List (ReadHook C)

abbrev pub aligned_and_inside : ℕ → Bool
aligned_and_inside off = off % 4 == 0 && leb (off + 4) size

module _ {C : Type 0} where
  -- A default-constructed device.
  abbrev pub blank : C → FakeMmio C
  blank c = record { words = λ _. 0; read_only = λ _. false; faults = 0; captured = c }

  unfoldable pub poke : ℕ → ℕ → FakeMmio C → FakeMmio C
  poke off v m =
      if aligned_and_inside off then record m { words = update m.words (off / 4) v } else m

  unfoldable pub peek : ℕ → FakeMmio C → ℕ
  peek off m = if aligned_and_inside off then m.words (off / 4) else 0

  unfoldable pub set_read_only : ℕ → FakeMmio C → FakeMmio C
  set_read_only off m =
      if ltb (off / 4) word_count
      then record m { read_only = update m.read_only (off / 4) true }
      else m

  unfoldable pub on_write : ℕ → (FakeMmio C → ℕ → FakeMmio C) → Hooks C → Hooks C
  on_write off fn h = record h { hooks = h.hooks ++ record { offset = off; fn = fn } ∷ [] }

  unfoldable pub on_read : ℕ → (FakeMmio C → FakeMmio C) → Hooks C → Hooks C
  on_read off fn h = record h { read_hooks = h.read_hooks ++ record { offset = off; fn = fn } ∷ [] }

  unfoldable pub run_hooks : List (Hook C) → ℕ → ℕ → FakeMmio C → FakeMmio C
  run_hooks [] off v m = m
  run_hooks (h ∷ hs) off v m = run_hooks hs off v (if h.offset == off then h.fn m v else m)

  unfoldable pub run_read_hooks : List (ReadHook C) → ℕ → FakeMmio C → FakeMmio C
  run_read_hooks [] off m = m
  run_read_hooks (h ∷ hs) off m = run_read_hooks hs off (if h.offset == off then h.fn m else m)

  unfoldable pub read32 : Hooks C → ℕ → FakeMmio C → ℕ × FakeMmio C
  unfolding run_read_hooks
  read32 hk off m =
      if aligned_and_inside off
      then (let m' = run_read_hooks hk.read_hooks off m in (m'.words (off / 4), m'))
      else (0, record m { faults = m.faults + 1 })

  unfoldable pub write32 : Hooks C → ℕ → ℕ → FakeMmio C → FakeMmio C
  unfolding run_hooks
  write32 hk off v m =
      if aligned_and_inside off
      then (if m.read_only (off / 4)
          then record m { faults = m.faults + 1 }
          else run_hooks hk.hooks off v (record m { words = update m.words (off / 4) v }))
      else record m { faults = m.faults + 1 }

  -- static_assert(MmioBackend<FakeMmio>)
  abbrev pub fake_backend : Hooks C → MmioBackend (FakeMmio C)
  fake_backend hk = record { read32 = read32 hk; write32 = write32 hk }
