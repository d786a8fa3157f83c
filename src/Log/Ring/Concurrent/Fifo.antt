-- ===== src/Log/Ring/Concurrent/Fifo.antt =====
-- In every interleaving the ring is a queue between the two threads, and they never touch one slot
-- at once.
use optronic.Common.{
  ℕ, ◌+◌, ◌-◌, ◌%◌, ◌<◌, ◌≤◌, ◌≡◌, ◌≢◌, sym, ap, subst, ◌∙◌, List, ◌++◌, length, arith,
}
use optronic.Log.Ring.{size_mod, capacity, mask}
use optronic.Log.Ring.Refine.{mask_lem, mod_ne, push_gap, gap}
use optronic.Log.Ring.Concurrent.{Pushing, Popping, System, initial, Reach}
use optronic.Log.Ring.Concurrent.Safety.{Inv, ProducerKnows, ConsumerKnows, initial-Inv, Reach-Inv}

module _ {A : Type 0} (k : ℕ) (small : k ≤ 63) (a : A) {s : System A}
    (reached : Reach k (initial a) s) where
  inv : Inv k s
  inv = Reach-Inv k small (initial-Inv k a small) reached

  -- However the two threads interleave, what the consumer has taken is what the producer has
  -- published, in the same order, short of at most a ring's capacity of entries still in the ring.
  pub Reach-fifo : (q : List A) × (s.sent ≡ s.taken ++ q) × (length q ≤ capacity k)
  unfolding inv
  Reach-fifo = (inv.queue, inv.conserved, inv.ring.fits)

  -- Whenever the producer is about to fill a slot and the consumer is about to copy one, they are
  -- different slots: no record is torn.
  pub Reach-no_race :
      (x : A) (w rd : ℕ)
      → s.producer ≡ Pushing.checked x w
      → s.consumer ≡ Popping.checked rd
      → mask k w ≢ mask k rd
  Reach-no_race x w rd p c same =
      let knows =
        subst (λ t. ProducerKnows k t s.ring.write s.ring.slots (length inv.queue)) p
          inv.producer in
      let knows' = subst (λ t. ConsumerKnows k t s.ring.read inv.queue) c inv.consumer in
      mod_ne inv.ring.base (inv.ring.base + length inv.queue) (capacity k)
        (omega (arith, ap length knows'.3)) (omega (arith, knows.1))
        (sym (slot inv.ring.base s.ring.read inv.ring.read_is)
          ∙ sym (ap (mask k) knows'.0)
          ∙ sym same
          ∙ ap (mask k) knows.0
          ∙ slot (inv.ring.base + length inv.queue) s.ring.write inv.ring.write_is)
    where
      slot : (n i : ℕ) → i ≡ n % size_mod → mask k i ≡ n % capacity k
      slot n i e = rw e (mask_lem k n small)

  -- The producer refuses an entry only when as many as the capacity are in the ring: published, and
  -- not yet taken.
  pub Reach-refuse_full :
      (x : A) (w : ℕ)
      → s.producer ≡ Pushing.loaded x w
      → capacity k < ((w + 1) % size_mod + size_mod - s.ring.read) % size_mod
      → (q : List A) × (s.sent ≡ s.taken ++ q) × (length q ≡ capacity k)
  Reach-refuse_full x w e h =
      let knows =
        subst (λ t. ProducerKnows k t s.ring.write s.ring.slots (length inv.queue)) e
          inv.producer in
      let gapped = push_gap k small s.ring inv.queue inv.ring in
      let same = ap (λ (t : ℕ). gap ((t + 1) % size_mod) s.ring.read) knows in
      (inv.queue, inv.conserved, omega (arith, inv.ring.fits))
