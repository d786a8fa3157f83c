-- ===== src/Log/Logger/Thread.antt =====
-- What the operations make of the sink thread.
use optronic.Common.{ℕ, ◌≡◌, refl, false, Bool-cases, inl, inr, List, arith}
use optronic.Log.Record.{Level, KeyValue, below}
use optronic.Log.Logger.{Logger, register, producer_for_this_thread, enqueue, log, stop}

producer-joinable : (t : ℕ) (g : Logger) → (producer_for_this_thread t g).1.joinable ≡ g.joinable
unfolding producer_for_this_thread register
producer-joinable t g = ground arith

pub log-joinable :
    (t : ℕ) (l : Level) (component msg : List ℕ) (kv : List KeyValue) (now : ℕ) (g : Logger)
    → (log t l component msg kv now g).joinable ≡ g.joinable
unfolding log enqueue
log-joinable t l component msg kv now g = elim (Bool-cases (below l g.level)) [
  | inl e ↦ rw e refl
  | inr e ↦ rw e (producer-joinable t g)
]

pub stop-joinable : (g : Logger) → (stop g).joinable ≡ false
unfolding stop
stop-joinable g = elim (Bool-cases g.joinable) [ inl e ↦ rw e refl | inr e ↦ rw e refl ]
