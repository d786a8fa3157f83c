-- ===== src/Hal/Uio/Tests.antt =====
-- A region that is opened, moved, assigned over another one and destroyed.
use optronic.Common.{◌+◌, ◌≡◌, refl, none, some, List, [], ◌∷◌}
use optronic.Hal.Mmio.{Hook, ReadHook, Hooks, update}
use optronic.Hal.Uio.{Kernel, Op, opens, moves, assigns, destroys, perform}
use optronic.Hal.Uio.Owners.{Owned, run, run-Owned}
use optronic.Hal.Uio.Window.{Access, reads, writes}

abbrev untouched : Kernel
untouched = record { opened = []; closed = []; mapped = []; unmapped = [] }

abbrev program : List Op
program =
    opens (some 3) (some 0x7000) 0x1000
    ∷ opens (some 4) none 0x1000
    ∷ opens (some 5) (some 0x9000) 0x1000
    ∷ moves 0
    ∷ assigns 1 2
    ∷ destroys 1
    ∷ []

all_returned : (run program [] untouched).1.closed ≡ 3 ∷ 5 ∷ 4 ∷ []
unfolding run perform
all_returned = refl

run-Owned_example : let (rs, k) = run program [] untouched in Owned rs k 3 0x9000 0x1000
run-Owned_example =
    run-Owned 3 0x9000 0x1000 program [] untouched (record { descriptors = refl; mappings = refl })

abbrev session : List Access
session = reads 0 ∷ writes 8 1 ∷ reads 12 ∷ reads 0x104 ∷ writes 6 7 ∷ reads 0x1000 ∷ []

-- A register that clears itself when it is written, and one that counts its reads.
abbrev clears : Hook Unit
clears = record { offset = 8; fn = λ m v. record m { words = update m.words 2 0 } }

abbrev counts : ReadHook Unit
counts = record { offset = 12; fn = λ m. record m { words = update m.words 3 (m.words 3 + 1) } }

abbrev hooked : Hooks Unit
hooked = record { hooks = clears ∷ []; read_hooks = counts ∷ [] }
