-- ===== src/Log/Logger/Lossless.antt =====
-- The hot path and the sink of the logger, in terms of the records that wait.
use optronic.Common.{
  ℕ, ◌+◌, ◌%◌, ◌<◌, ◌≡◌, refl, ap, subst, ◌∙◌, ◌⊎◌, inl, inr, true, false, List, ◌++◌, map, length,
  Bool-cases, arith,
}
use native.Mathlib.Nat.{zero-add}
use mathlib.Core.Option.{some}
use optronic.Log.Ring.{size_mod, capacity}
use optronic.Log.Record.{Level, KeyValue, Record, below, make_record}
use optronic.Log.Logger.{
  ring_log2, Logger, entry, producer_for_this_thread, push_at, enqueue, log, drain_now,
}
use optronic.Log.Logger.Queues.{
  Queues, Rep, pending, dropped, append_at, length_at, concat, emptied, push_at-Offered,
  pending-append_at, length-Rep, drain_all-lem, pending-emptied, emit, Emitted, emit-Emitted,
  length-push_at, length-concat, length-emptied,
}
use optronic.Log.Logger.Accounting.{Accounted, Own, Found, producer-Found}

-- What a call that is not filtered out does with its record, which takes the next sequence number.
pub record Logged (t : ℕ) (r : Record) (g : Logger) (qs : Queues) (g' : Logger) : Type 0 where
  pub place : ℕ
  pub before : Queues
  pub after : Queues
  pub waiting : concat before ≡ concat qs
  pub own : Own t g qs place before g'
  pub accounted : Accounted g' after
  pub fate :
      ((length_at before place < capacity ring_log2)
        × (after ≡ append_at before place r)
        × (pending after ≡ pending before + 1)
        × (dropped g'.producers ≡ dropped g.producers))
      ⊎ ((length_at before place ≡ capacity ring_log2)
          × (after ≡ before)
          × (dropped g'.producers % size_mod ≡ (dropped g.producers + 1) % size_mod))
  pub silent :
      (g'.out ≡ g.out)
      × (g'.written ≡ g.written)
      × (g'.seq ≡ (g.seq + 1) % size_mod)
      × (g'.reported_drops ≡ g.reported_drops)

enqueue_at :
    (t : ℕ) (r : Record) (g : Logger) (qs : Queues) (place : ℕ) (g1 : Logger)
    → Found t g qs place g1
    → Logged t r g qs
        (record g1 { seq = (g1.seq + 1) % size_mod; producers = push_at g1.producers place r })
enqueue_at t r g qs place g1 f = record {
  place = place;
  before = f.queues;
  after = new.0;
  waiting = f.waiting;
  own = record {
    old_or_new = f.own.old_or_new;
    remembers = f.own.remembers;
    others = f.own.others;
  };
  accounted = record {
    rings = new.1;
    balance = omega (arith, f.accounted.balance, new.3);
    known = λ t p e. rw (length-push_at g1.producers place r) (f.accounted.known t p e);
    apart = f.accounted.apart;
  };
  fate = new.2;
  silent = (
    ap (λ (x : Logger). x.out) f.same,
    ap (λ (x : Logger). x.written) f.same,
    ap (λ (x : Logger). (x.seq + 1) % size_mod) f.same,
    ap (λ (x : Logger). x.reported_drops) f.same,
  );
}
  where
    here : place < length f.queues
    here = omega (arith, length-Rep g1.producers f.queues f.accounted.rings, f.inside)

    new :
        (after : Queues) × Rep (push_at g1.producers place r) after
        × (((length_at f.queues place < capacity ring_log2)
              × (after ≡ append_at f.queues place r)
              × (pending after ≡ pending f.queues + 1)
              × (dropped (push_at g1.producers place r) ≡ dropped g.producers))
            ⊎ ((length_at f.queues place ≡ capacity ring_log2)
                × (after ≡ f.queues)
                × (dropped (push_at g1.producers place r) % size_mod
                    ≡ (dropped g.producers + 1) % size_mod)))
        × ((dropped (push_at g1.producers place r) + pending after) % size_mod
            ≡ (dropped g1.producers + pending f.queues + 1) % size_mod)
    new = elim (push_at-Offered g1.producers f.queues place r f.accounted.rings f.inside) [
      | inl (room, v, d) ↦ (
        append_at f.queues place r,
        v,
        inl (room, refl, pending-append_at f.queues place r here, d ∙ f.uncounted),
        omega (arith, d, pending-append_at f.queues place r here),
      )
      | inr (full, v, d) ↦ (
        f.queues,
        v,
        inr (full, refl, d ∙ ap (λ (n : ℕ). (n + 1) % size_mod) f.uncounted),
        omega (arith, d),
      )
    ]

enqueue-Logged :
    (t : ℕ) (l : Level) (component msg : List ℕ) (kv : List KeyValue) (now : ℕ) (g : Logger)
    (qs : Queues)
    → Accounted g qs
    → Logged t (make_record l component msg kv now g.seq) g qs (enqueue t l component msg kv now g)
unfolding enqueue
enqueue-Logged t l component msg kv now g qs v =
    subst
      (λ n.
        Logged t (make_record l component msg kv now n) g qs (enqueue t l component msg kv now g))
      (ap (λ (x : Logger). x.seq) f.same)
      (enqueue_at t (make_record l component msg kv now g1.seq) g qs place g1 f)
  where
    place : ℕ
    place = (producer_for_this_thread t g).0

    g1 : Logger
    g1 = (producer_for_this_thread t g).1

    f : Found t g qs place g1
    f = producer-Found t g qs v

-- A call below the level does nothing at all. Any other gives the next sequence number to a record of
-- its arguments, writes nothing, and appends the record to the queue of the calling thread, or, if
-- that ring holds as many as its capacity, counts it as dropped; the accounts stay balanced. The queue
-- is the one that this thread remembers and no other thread does, or a new one that it remembers from
-- then on, where it remembered none of this logger.
pub log-Logged :
    (t : ℕ) (l : Level) (component msg : List ℕ) (kv : List KeyValue) (now : ℕ) (g : Logger)
    (qs : Queues)
    → Accounted g qs
    → ((below l g.level ≡ true) × (log t l component msg kv now g ≡ g))
      ⊎ ((below l g.level ≡ false)
          × Logged t
              (make_record l component msg kv now g.seq)
              g
              qs
              (log t l component msg kv now g))
unfolding log
log-Logged t l component msg kv now g qs v = elim (Bool-cases (below l g.level)) [
  | inl low ↦ inl (low, rw low)
  | inr high ↦ inr (high, rw high (enqueue-Logged t l component msg kv now g qs v))
]

-- Draining writes every record that waits, each thread's in the order of its calls and the threads in
-- the order of their registration, returns their number, and leaves all rings empty and the accounts
-- balanced.
pub drain_now-empties :
    (g : Logger) (qs : Queues)
    → Accounted g qs
    → let (n, g') = drain_now g in
      (n ≡ pending qs)
      × (g'.out ≡ g.out ++ map entry (concat qs))
      × Accounted g' (emptied qs)
      × (pending (emptied qs) ≡ 0)
      × (dropped g'.producers ≡ dropped g.producers)
      × (g'.seq ≡ g.seq)
      × (g'.reported_drops ≡ g.reported_drops)
unfolding drain_now
drain_now-empties g qs v =
    let (ps', w, d, eq) = drain_all-lem g.producers qs 0 g v.rings in
    rw eq (
      zero-add (pending qs),
      written.lines,
      record {
        rings = w;
        balance = omega (
          arith,
          v.balance,
          ap (λ (x : Logger). x.seq) written.rest,
          written.count,
          length-concat qs,
          d,
          pending-emptied qs,
        );
        known = λ t place e. omega (
          arith,
          length-Rep ps' (emptied qs) w,
          length-emptied qs,
          length-Rep g.producers qs v.rings,
          v.known t place (unchanged t place e),
        );
        apart = λ t t' place e e'. v.apart t t' place (unchanged t place e) (unchanged t' place e');
      },
      pending-emptied qs,
      d,
      ap (λ (x : Logger). x.seq) written.rest,
      ap (λ (x : Logger). x.reported_drops) written.rest,
    )
  where
    written : Emitted (concat qs) g (emit (concat qs) g)
    written = emit-Emitted (concat qs) g

    unchanged :
        (t place : ℕ)
        → (emit (concat qs) g).mine t ≡ some (place, (emit (concat qs) g).id)
        → g.mine t ≡ some (place, g.id)
    unchanged t place e = subst (λ (x : Logger). x.mine t ≡ some (place, x.id)) written.rest e
