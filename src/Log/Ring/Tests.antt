-- ===== src/Log/Ring/Tests.antt =====
-- Rings of two slots at work.
use optronic.Common.{
  ℕ, ◌-◌, ◌^◌, ◌≤◌, ◌<◌, ◌≡◌, ◌≢◌, ◌⊎◌, refl, true, false, none, some, List, [], ◌∷◌, ◌++◌, length,
  arith, if◌then◌else◌, ◌==◌,
}
use optronic.Log.Ring.{SpscRing, capacity, mask, update, try_push, try_pop}
use optronic.Log.Ring.Refine.{Represents, try_push-Represents, try_pop-Represents}
use optronic.Log.Ring.Concurrent.{
  Pushing, Popping, System, initial, push_load, push_check, push_write, push_publish, pop_load,
  pop_check, Reach, here, next,
}
use optronic.Log.Ring.Concurrent.Fifo.{Reach-fifo, Reach-no_race}

-- Both indices are about to wrap, and the ring holds 8.
abbrev late : SpscRing ℕ
late = record { write = 0; read = 2 ^ 64 - 1; slots = λ i. if i == 1 then 8 else 9 }

late-Represents : Represents 1 late (8 ∷ [])
late-Represents = record {
  base = 2 ^ 64 - 1;
  read_is = refl;
  write_is = refl;
  fits = omega arith;
  held = (refl, tt);
}

late_fills : (try_push 1 (try_push 1 late 5).1 6).0 ≡ false
unfolding try_push
late_fills = refl

late_pops : (try_pop 1 (try_push 1 late 5).1).0 ≡ some 8
unfolding try_push try_pop
late_pops = refl

try_push-Represents_example :
    let (pushed, r') = try_push 1 late 5 in
    ((◌≡◌ {A = ℕ} 1 (capacity 1)) × (pushed ≡ false) × (r' ≡ late))
    ⊎ ((1 < capacity 1) × (pushed ≡ true) × Represents 1 r' (8 ∷ 5 ∷ []))
try_push-Represents_example = try_push-Represents 1 (omega arith) late (8 ∷ []) 5 late-Represents

try_pop-Represents_example :
    let (out, r') = try_pop 1 late in
    ((◌≡◌ {A = List ℕ} (8 ∷ []) []) × (out ≡ none) × (r' ≡ late))
    ⊎ ((x : ℕ) × (rest : List ℕ) × (◌≡◌ {A = List ℕ} (8 ∷ []) (x ∷ rest))
        × (out ≡ some x)
        × Represents 1 r' rest)
try_pop-Represents_example = try_pop-Represents 1 (omega arith) late (8 ∷ []) late-Represents

-- 7 is published; the producer is about to fill a slot with 8, the consumer about to copy 7.
abbrev crossing : System ℕ
crossing = record {
  ring = record { write = 1; read = 0; slots = update (λ _. 0) 0 7 };
  producer = Pushing.checked 8 1;
  consumer = Popping.checked 0;
  sent = 7 ∷ [];
  taken = [];
  refused = [];
}

published :
    Reach 1 (initial 0) (record crossing { producer = Pushing.idle; consumer = Popping.idle })
published =
    next
      (next (next (next here (push_load 7 refl refl)) (push_check 7 0 refl (omega arith) refl))
        (push_write 7 0 refl refl))
      (push_publish 7 0 refl refl)

Reach-crossing : Reach 1 (initial 0) crossing
Reach-crossing =
    next
      (next (next (next published (push_load 8 refl refl)) (push_check 8 1 refl (omega arith) refl))
        (pop_load refl refl))
      (pop_check 0 refl (omega arith) refl)

Reach-fifo_example : (q : List ℕ) × (◌≡◌ {A = List ℕ} (7 ∷ []) ([] ++ q)) × (length q ≤ capacity 1)
Reach-fifo_example = Reach-fifo 1 (omega arith) 0 Reach-crossing

Reach-no_race_example : mask 1 1 ≢ mask 1 0
Reach-no_race_example = Reach-no_race 1 (omega arith) 0 Reach-crossing 8 1 0 refl refl

abbrev filled : System ℕ
filled = record crossing {
  ring = record { write = 2; read = 0; slots = update (update (λ _. 0) 0 7) 1 8 };
  producer = Pushing.loaded 9 2;
  sent = 7 ∷ 8 ∷ [];
}

Reach-filled : Reach 1 (initial 0) filled
Reach-filled =
    next (next (next Reach-crossing (push_write 8 1 refl refl)) (push_publish 8 1 refl refl))
      (push_load 9 refl refl)
