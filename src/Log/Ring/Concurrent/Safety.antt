-- ===== src/Log/Ring/Concurrent/Safety.antt =====
-- What each thread knows between two steps, and that no step of either makes it false.
use optronic.Common.{
  ℕ, ◌+◌, ◌%◌, ◌<◌, ◌≤◌, ◌≡◌, ◌≢◌, refl, sym, ap, subst, ◌∙◌, List, [], ◌∷◌, ◌++◌, append_assoc,
  length, length-append, arith,
}
use optronic.Log.Ring.{size_mod, update, capacity, mask}
use optronic.Log.Ring.Refine.{
  Represents, empty-Represents, mask_lem, gap, push_gap, read-eq-write, Holds-update, Holds-snoc,
  head_slot, popped_Represents,
}
use optronic.Log.Ring.Concurrent.{
  Pushing, Popping, System, initial, Step, push_load, push_refuse, push_check, push_write,
  push_publish, pop_load, pop_empty, pop_check, pop_copy, pop_release, Reach, here, next,
}

module _ {A : Type 0} (k : ℕ) where
  -- What the producer knows, `n` entries being in the ring.
  abbrev pub ProducerKnows : Pushing A → ℕ → (ℕ → A) → ℕ → Type 0
  ProducerKnows Pushing.idle write slots n = Unit
  ProducerKnows (Pushing.loaded x w) write slots n = w ≡ write
  ProducerKnows (Pushing.checked x w) write slots n = (w ≡ write) × (n < capacity k)
  ProducerKnows (Pushing.written x w) write slots n =
      (w ≡ write) × (n < capacity k) × (slots (mask k w) ≡ x)

  -- What the consumer knows of the entries in the ring.
  abbrev pub ConsumerKnows : Popping A → ℕ → List A → Type 0
  ConsumerKnows Popping.idle read q = Unit
  ConsumerKnows (Popping.loaded rd) read q = rd ≡ read
  ConsumerKnows (Popping.checked rd) read q =
      (rd ≡ read) × (x : A) × (rest : List A) × (q ≡ x ∷ rest)
  ConsumerKnows (Popping.copied rd x) read q = (rd ≡ read) × (rest : List A) × (q ≡ x ∷ rest)

  pub record Inv (s : System A) : Type 0 where
    pub queue : List A
    pub ring : Represents k s.ring queue
    pub conserved : s.sent ≡ s.taken ++ queue
    pub producer : ProducerKnows s.producer s.ring.write s.ring.slots (length queue)
    pub consumer : ConsumerKnows s.consumer s.ring.read queue

  fewer :
      (p : Pushing A) (write m n : ℕ) (slots : ℕ → A)
      → m ≤ n
      → ProducerKnows p write slots n
      → ProducerKnows p write slots m
  fewer Pushing.idle write m n slots h v = tt
  fewer (Pushing.loaded x w) write m n slots h v = v
  fewer (Pushing.checked x w) write m n slots h v = (v.0, omega arith)
  fewer (Pushing.written x w) write m n slots h v = (v.0, omega arith, v.2)

  more :
      (c : Popping A) (read : ℕ) (q : List A) (x : A)
      → ConsumerKnows c read q
      → ConsumerKnows c read (q ++ x ∷ [])
  more Popping.idle read q x v = tt
  more (Popping.loaded rd) read q x v = v
  more (Popping.checked rd) read q x v =
      (v.0, v.1, v.2 ++ x ∷ [], ap (λ (l : List A). l ++ x ∷ []) v.3)
  more (Popping.copied rd y) read q x v = (v.0, v.1 ++ x ∷ [], ap (λ (l : List A). l ++ x ∷ []) v.2)

  module _ (small : k ≤ 63) {s : System A} (v : Inv s) where
    knows :
        {p : Pushing A}
        → s.producer ≡ p
        → ProducerKnows p s.ring.write s.ring.slots (length v.queue)
    knows e = subst (λ p. ProducerKnows p s.ring.write s.ring.slots (length v.queue)) e v.producer

    knows' : {c : Popping A} → s.consumer ≡ c → ConsumerKnows c s.ring.read v.queue
    knows' e = subst (λ c. ConsumerKnows c s.ring.read v.queue) e v.consumer

    nonempty :
        (q : List A)
        → Represents k s.ring q
        → s.ring.read ≢ s.ring.write
        → (x : A) × (rest : List A) × (q ≡ x ∷ rest)
    nonempty [] r h = absurd (h ((read-eq-write k small s.ring [] r).1 refl))
    nonempty (x ∷ q) r h = (x, q, refl)

    write_kept :
        (x : A) (w : ℕ)
        → w ≡ s.ring.write
        → length v.queue < capacity k
        → Represents k (record (s.ring) { slots = update s.ring.slots (mask k w) x }) v.queue
    write_kept x w e room = record {
      base = v.ring.base;
      read_is = v.ring.read_is;
      write_is = v.ring.write_is;
      fits = v.ring.fits;
      held =
          rw (e, v.ring.write_is, mask_lem k (v.ring.base + length v.queue) small)
            (Holds-update k small s.ring.slots v.ring.base (v.ring.base + length v.queue) x v.queue
              (omega arith) (omega arith) v.ring.held);
    }

    publish_kept :
        (x : A) (w : ℕ)
        → w ≡ s.ring.write
        → length v.queue < capacity k
        → s.ring.slots (mask k w) ≡ x
        → Represents k (record (s.ring) { write = (w + 1) % size_mod }) (v.queue ++ x ∷ [])
    publish_kept x w e room put = record {
      base = v.ring.base;
      read_is = v.ring.read_is;
      write_is = rw (length-append v.queue (x ∷ [])) (omega (arith, e, v.ring.write_is));
      fits = omega (arith, length-append v.queue (x ∷ []));
      held =
          Holds-snoc k small s.ring.slots v.ring.base (v.ring.base + length v.queue) x v.queue refl
            (rw (e, v.ring.write_is, mask_lem k (v.ring.base + length v.queue) small) at put)
            v.ring.held;
    }

    check-Inv :
        (x : A) (w : ℕ)
        → s.producer ≡ Pushing.loaded x w
        → gap ((w + 1) % size_mod) s.ring.read ≤ capacity k
        → Inv (record s { producer = Pushing.checked x w })
    check-Inv x w e h = record {
      queue = v.queue;
      ring = v.ring;
      conserved = v.conserved;
      producer = (knows e, room);
      consumer = v.consumer;
    }
      where
        room : length v.queue < capacity k
        room =
            let gapped = push_gap k small s.ring v.queue v.ring in
            let same = knows e in
            omega (arith, ap (λ (t : ℕ). gap ((t + 1) % size_mod) s.ring.read) same)

    write-Inv :
        (x : A) (w : ℕ)
        → s.producer ≡ Pushing.checked x w
        → Inv (record s {
          ring = record (s.ring) { slots = update s.ring.slots (mask k w) x };
          producer = Pushing.written x w;
        })
    write-Inv x w e = record {
      queue = v.queue;
      ring = write_kept x w (knows e).0 (knows e).1;
      conserved = v.conserved;
      producer = ((knows e).0, (knows e).1, ground arith);
      consumer = v.consumer;
    }

    publish-Inv :
        (x : A) (w : ℕ)
        → s.producer ≡ Pushing.written x w
        → Inv (record s {
          ring = record (s.ring) { write = (w + 1) % size_mod };
          producer = Pushing.idle;
          sent = s.sent ++ x ∷ [];
        })
    publish-Inv x w e = record {
      queue = v.queue ++ x ∷ [];
      ring = publish_kept x w (knows e).0 (knows e).1 (knows e).2;
      conserved = rw v.conserved (append_assoc s.taken v.queue (x ∷ []));
      producer = tt;
      consumer = more s.consumer s.ring.read v.queue x v.consumer;
    }

    pop_check-Inv :
        (rd : ℕ)
        → s.consumer ≡ Popping.loaded rd
        → rd ≢ s.ring.write
        → Inv (record s { consumer = Popping.checked rd })
    pop_check-Inv rd e h = record {
      queue = v.queue;
      ring = v.ring;
      conserved = v.conserved;
      producer = v.producer;
      consumer =
          let (x, rest, split) = nonempty v.queue v.ring (λ same. h (knows' e ∙ same)) in
          (knows' e, x, rest, split);
    }

    copy-Inv :
        (rd : ℕ)
        → s.consumer ≡ Popping.checked rd
        → Inv (record s { consumer = Popping.copied rd (s.ring.slots (mask k rd)) })
    copy-Inv rd e = record {
      queue = v.queue;
      ring = v.ring;
      conserved = v.conserved;
      producer = v.producer;
      consumer =
          let (r, x, rest, split) = knows' e in
          (
            r,
            rest,
            split
                ∙ ap (λ (y : A). y ∷ rest)
                    (sym (
                      rw r (
                        head_slot k small s.ring x rest
                          (subst (Represents k s.ring) split v.ring)))),
          );
    }

    release-Inv :
        (rd : ℕ) (x : A)
        → s.consumer ≡ Popping.copied rd x
        → Inv (record s {
          ring = record (s.ring) { read = (rd + 1) % size_mod };
          consumer = Popping.idle;
          taken = s.taken ++ x ∷ [];
        })
    release-Inv rd x e =
        let (r, rest, split) = knows' e in
        record {
          queue = rest;
          ring =
              rw r (
                popped_Represents k small s.ring x rest (subst (Represents k s.ring) split v.ring));
          conserved = rw (v.conserved, split) (sym (append_assoc s.taken (x ∷ []) rest));
          producer =
              fewer s.producer s.ring.write (length rest) (length v.queue) s.ring.slots
                (omega (arith, ap length split)) v.producer;
          consumer = tt;
        }

  pub initial-Inv : (a : A) → k ≤ 63 → Inv (initial a)
  initial-Inv a small = record {
    queue = [];
    ring = empty-Represents k small a;
    conserved = refl;
    producer = tt;
    consumer = tt;
  }

  pub Step-Inv : k ≤ 63 → {s t : System A} → Step k s t → Inv s → Inv t
  Step-Inv small (push_load x e t) v = subst Inv (sym t) (record {
    queue = v.queue;
    ring = v.ring;
    conserved = v.conserved;
    producer = refl;
    consumer = v.consumer;
  })
  Step-Inv small (push_refuse x w e h t) v = subst Inv (sym t) (record {
    queue = v.queue;
    ring = v.ring;
    conserved = v.conserved;
    producer = tt;
    consumer = v.consumer;
  })
  Step-Inv small (push_check x w e h t) v = subst Inv (sym t) (check-Inv small v x w e h)
  Step-Inv small (push_write x w e t) v = subst Inv (sym t) (write-Inv small v x w e)
  Step-Inv small (push_publish x w e t) v = subst Inv (sym t) (publish-Inv small v x w e)
  Step-Inv small (pop_load e t) v = subst Inv (sym t) (record {
    queue = v.queue;
    ring = v.ring;
    conserved = v.conserved;
    producer = v.producer;
    consumer = refl;
  })
  Step-Inv small (pop_empty rd e h t) v = subst Inv (sym t) (record {
    queue = v.queue;
    ring = v.ring;
    conserved = v.conserved;
    producer = v.producer;
    consumer = tt;
  })
  Step-Inv small (pop_check rd e h t) v = subst Inv (sym t) (pop_check-Inv small v rd e h)
  Step-Inv small (pop_copy rd e t) v = subst Inv (sym t) (copy-Inv small v rd e)
  Step-Inv small (pop_release rd x e t) v = subst Inv (sym t) (release-Inv small v rd x e)

  pub Reach-Inv : k ≤ 63 → {s t : System A} → Inv s → Reach k s t → Inv t
  Reach-Inv small v here = v
  Reach-Inv small v (next r st) = Step-Inv small st (Reach-Inv small v r)
