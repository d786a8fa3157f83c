-- ===== src/Log/Ring/Concurrent.antt =====
-- One producer and one consumer of a ring (ring.hpp, `try_push` and `try_pop`), as interleavings of
-- their loads, copies and stores. A load reads the latest store (an older value, which the memory
-- model of C++ also allows, only lets a thread see the ring fuller or emptier than it is); the copy of
-- a record into or out of its slot is one step.
pub mod Safety
pub mod Fifo
use optronic.Common.{ℕ, ◌+◌, ◌-◌, ◌%◌, ◌<◌, ◌≤◌, ◌≡◌, ◌≢◌, List, [], ◌∷◌, ◌++◌}
use optronic.Log.Ring.{size_mod, update, SpscRing, capacity, mask, empty}

-- Where the producer stands in `try_push`, with its local variables.
pub data Pushing (A : Type 0) : Type 0 where
  idle : Pushing A
  loaded : A → ℕ → Pushing A
  checked : A → ℕ → Pushing A
  written : A → ℕ → Pushing A

-- Where the consumer stands in `try_pop`, with its local variables.
pub data Popping (A : Type 0) : Type 0 where
  idle : Popping A
  loaded : ℕ → Popping A
  checked : ℕ → Popping A
  copied : ℕ → A → Popping A

-- The ring, both threads, and what was published, taken and refused so far.
pub record System (A : Type 0) : Type 0 where
  pub ring : SpscRing A
  pub producer : Pushing A
  pub consumer : Popping A
  pub sent : List A
  pub taken : List A
  pub refused : List A

module _ {A : Type 0} where
  abbrev pub initial : A → System A
  initial a = record {
    ring = empty a;
    producer = Pushing.idle;
    consumer = Popping.idle;
    sent = [];
    taken = [];
    refused = [];
  }

  pub data Step (k : ℕ) (s t : System A) : Type 0 where
    push_load :
        (x : A)
        → s.producer ≡ Pushing.idle
        → t ≡ record s { producer = Pushing.loaded x s.ring.write }
        → Step k s t
    push_refuse :
        (x : A) (w : ℕ)
        → s.producer ≡ Pushing.loaded x w
        → capacity k < ((w + 1) % size_mod + size_mod - s.ring.read) % size_mod
        → t ≡ record s { producer = Pushing.idle; refused = s.refused ++ x ∷ [] }
        → Step k s t
    push_check :
        (x : A) (w : ℕ)
        → s.producer ≡ Pushing.loaded x w
        → ((w + 1) % size_mod + size_mod - s.ring.read) % size_mod ≤ capacity k
        → t ≡ record s { producer = Pushing.checked x w }
        → Step k s t
    push_write :
        (x : A) (w : ℕ)
        → s.producer ≡ Pushing.checked x w
        → t ≡ record s {
          ring = record (s.ring) { slots = update s.ring.slots (mask k w) x };
          producer = Pushing.written x w;
        }
        → Step k s t
    push_publish :
        (x : A) (w : ℕ)
        → s.producer ≡ Pushing.written x w
        → t ≡ record s {
          ring = record (s.ring) { write = (w + 1) % size_mod };
          producer = Pushing.idle;
          sent = s.sent ++ x ∷ [];
        }
        → Step k s t
    pop_load :
        s.consumer ≡ Popping.idle
        → t ≡ record s { consumer = Popping.loaded s.ring.read }
        → Step k s t
    pop_empty :
        (rd : ℕ)
        → s.consumer ≡ Popping.loaded rd
        → rd ≡ s.ring.write
        → t ≡ record s { consumer = Popping.idle }
        → Step k s t
    pop_check :
        (rd : ℕ)
        → s.consumer ≡ Popping.loaded rd
        → rd ≢ s.ring.write
        → t ≡ record s { consumer = Popping.checked rd }
        → Step k s t
    pop_copy :
        (rd : ℕ)
        → s.consumer ≡ Popping.checked rd
        → t ≡ record s { consumer = Popping.copied rd (s.ring.slots (mask k rd)) }
        → Step k s t
    pop_release :
        (rd : ℕ) (x : A)
        → s.consumer ≡ Popping.copied rd x
        → t ≡ record s {
          ring = record (s.ring) { read = (rd + 1) % size_mod };
          consumer = Popping.idle;
          taken = s.taken ++ x ∷ [];
        }
        → Step k s t

  pub data Reach (k : ℕ) (s : System A) : System A → Type 0 where
    here : Reach k s s
    next : {t u : System A} → Reach k s t → Step k t u → Reach k s u
