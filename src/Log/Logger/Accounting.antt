-- ===== src/Log/Logger/Accounting.antt =====
-- No record is lost silently: each that `Logger::log` accepts is written, waits in a ring or is
-- counted as dropped.
use optronic.Common.{
  ℕ, ◌+◌, ◌%◌, ◌<◌, ◌≡◌, ◌≢◌, ◌⊎◌, false, refl, ap, inl, inr, true, some, List, [], ◌∷◌, ◌++◌,
  length, length-append, ◌==◌, Bool-cases, Option-cases, arith,
}
use optronic.Log.Ring.{size_mod}
use optronic.Log.Ring.Refine.{empty-Represents}
use optronic.Log.Logger.{
  ring_log2, Producer, new_producer, blank_record, Logger, register, producer_for_this_thread,
}
use optronic.Log.Logger.Queues.{Queues, Rep, length-Rep, pending, dropped, concat}

-- The logger's rings hold the given queues, its sequence numbers are all accounted for, and what a
-- thread remembers of it is one of its producers, which no other thread remembers.
pub record Accounted (g : Logger) (qs : Queues) : Type 0 where
  pub rings : Rep g.producers qs
  pub balance : g.seq % size_mod ≡ (g.written + dropped g.producers + pending qs) % size_mod
  pub known : (t place : ℕ) → g.mine t ≡ some (place, g.id) → place < length g.producers
  pub apart :
      (t t' place : ℕ) → g.mine t ≡ some (place, g.id) → g.mine t' ≡ some (place, g.id) → t ≡ t'

Rep-snoc :
    (ps : List Producer) (qs : Queues) → Rep ps qs → Rep (ps ++ new_producer ∷ []) (qs ++ [] ∷ [])
Rep-snoc [] [] v = (empty-Represents ring_log2 (omega arith) blank_record, tt)
Rep-snoc [] (q ∷ qs) v = absurd v
Rep-snoc (p ∷ ps) [] v = absurd v
Rep-snoc (p ∷ ps) (q ∷ qs) v = (v.0, Rep-snoc ps qs v.1)

dropped-snoc : (ps : List Producer) → dropped (ps ++ new_producer ∷ []) ≡ dropped ps
dropped-snoc [] = refl
dropped-snoc (p ∷ ps) = omega (arith, dropped-snoc ps)

pending-snoc : (qs : Queues) → pending (qs ++ [] ∷ []) ≡ pending qs
pending-snoc [] = refl
pending-snoc (q ∷ qs) = omega (arith, pending-snoc qs)

register-Accounted :
    (t : ℕ) (g : Logger) (qs : Queues)
    → Accounted g qs
    → Accounted (register t g).1 (qs ++ [] ∷ [])
      × ((register t g).0 < length (register t g).1.producers)
unfolding register
register-Accounted t g qs v = (
  record {
    rings = Rep-snoc g.producers qs v.rings;
    balance = omega (arith, v.balance, dropped-snoc g.producers, pending-snoc qs);
    known = λ t' place e.
        ground (arith, length-append g.producers (new_producer ∷ []), v.known t' place);
    apart = λ t1 t2 place e1 e2.
        ground (arith, e1, e2, v.known t1 place, v.known t2 place, v.apart t1 t2 place);
  },
  omega (arith, length-append g.producers (new_producer ∷ [])),
)

-- The thread's place among the queues: what it remembers, or, where it remembers none of this logger,
-- a new last one; it remembers that from then on, and the other threads what they did.
pub record Own (t : ℕ) (g : Logger) (qs : Queues) (place : ℕ) (queues : Queues) (g' : Logger)
    : Type 0 where
  pub old_or_new :
      ((g.mine t ≡ some (place, g.id)) × (queues ≡ qs))
      ⊎ (((p : ℕ) → g.mine t ≢ some (p, g.id)) × (place ≡ length qs) × (queues ≡ qs ++ [] ∷ []))
  pub remembers : g'.mine t ≡ some (place, g.id)
  pub others : (t' : ℕ) → (t' == t) ≡ false → g'.mine t' ≡ g.mine t'

-- What looking up the thread's producer leaves: the same records wait, no counter moves, and the place
-- is that of this thread's producer: the one that it remembers, or a new one.
pub record Found (t : ℕ) (g : Logger) (qs : Queues) (place : ℕ) (g' : Logger) : Type 0 where
  pub queues : Queues
  pub accounted : Accounted g' queues
  pub inside : place < length g'.producers
  pub waiting : concat queues ≡ concat qs
  pub same : g' ≡ record g { producers = g'.producers; mine = g'.mine }
  pub uncounted : dropped g'.producers ≡ dropped g.producers
  pub own : Own t g qs place queues g'

concat-snoc : (qs : Queues) → concat (qs ++ [] ∷ []) ≡ concat qs
concat-snoc [] = refl
concat-snoc (q ∷ qs) = ap (◌++◌ q) (concat-snoc qs)

register-Found :
    (t : ℕ) (g : Logger) (qs : Queues)
    → Accounted g qs
    → ((p : ℕ) → g.mine t ≢ some (p, g.id))
    → Found t g qs (register t g).0 (register t g).1
unfolding register
register-Found t g qs v none_known =
    let (a, h) = register-Accounted t g qs v in
    record {
      queues = qs ++ [] ∷ [];
      accounted = a;
      inside = h;
      waiting = concat-snoc qs;
      same = refl;
      uncounted = dropped-snoc g.producers;
      own = record {
        old_or_new = inr (none_known, length-Rep g.producers qs v.rings, refl);
        remembers = ground arith;
        others = λ t' e. rw e refl;
      };
    }

remembered :
    (t : ℕ) (g : Logger) (qs : Queues) (place owner : ℕ)
    → Accounted g qs
    → g.mine t ≡ some (place, owner)
    → (owner == g.id) ≡ true
    → Found t g qs place g
remembered t g qs place owner v e mine = record {
  queues = qs;
  accounted = v;
  inside = v.known t place (ground arith);
  waiting = refl;
  same = refl;
  uncounted = refl;
  own = record {
    old_or_new = inl (ground arith, refl);
    remembers = ground arith;
    others = λ t' e. refl;
  };
}

pub producer-Found :
    (t : ℕ) (g : Logger) (qs : Queues)
    → Accounted g qs
    → Found t g qs (producer_for_this_thread t g).0 (producer_for_this_thread t g).1
unfolding producer_for_this_thread
producer-Found t g qs v = elim (Option-cases (g.mine t)) [
  | inl e ↦
      rw (e, producer_for_this_thread)
        (register-Found t g qs v (λ p h. absurd (ground (arith, e, h))))
  | inr (m, e) ↦ elim (Bool-cases (m.1 == g.id)) [
    | inl own ↦ rw (e, own, producer_for_this_thread) (remembered t g qs m.0 m.1 v e own)
    | inr other ↦
        rw (e, other, producer_for_this_thread)
          (register-Found t g qs v (λ p h. absurd (ground (arith, e, h, other))))
  ]
]
