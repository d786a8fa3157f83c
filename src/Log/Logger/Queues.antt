-- ===== src/Log/Logger/Queues.antt =====
-- The producers of a logger as the queues of records that wait in their rings: what a push adds, and
-- what a drain takes.
use optronic.Common.{
  ℕ, zero, suc, ◌+◌, ◌%◌, ◌<◌, ◌≡◌, refl, sym, ap, subst, ◌∙◌, ◌⊎◌, inl, inr, List, [], ◌∷◌, ◌++◌,
  map, append_assoc, append-nil, length, length-append, arith,
}
use optronic.Log.Ring.{size_mod, SpscRing, capacity, try_pop}
use optronic.Log.Ring.Refine.{Represents, try_push-Represents, try_pop-Represents}
use optronic.Log.Record.{Record}
use optronic.Log.Logger.{
  ring_log2, Producer, entry, Logger, offer, push_at, write_record, drain_ring, drain_fuel,
  drain_all, sum_dropped,
}

abbrev pub Queues : Type 0
Queues = List (List Record)

abbrev pub Rep : List Producer → Queues → Type 0
Rep [] [] = Unit
Rep [] (q ∷ qs) = ⊥
Rep (p ∷ ps) [] = ⊥
Rep (p ∷ ps) (q ∷ qs) = Represents ring_log2 p.ring q × Rep ps qs

-- How many records wait.
abbrev pub pending : Queues → ℕ
pending [] = 0
pending (q ∷ qs) = length q + pending qs

-- How many records were dropped, as the plain sum of the counters.
abbrev pub dropped : List Producer → ℕ
dropped [] = 0
dropped (p ∷ ps) = p.dropped + dropped ps

abbrev pub append_at : Queues → ℕ → Record → Queues
append_at [] place r = []
append_at (q ∷ qs) zero r = (q ++ r ∷ []) ∷ qs
append_at (q ∷ qs) (suc place) r = q ∷ append_at qs place r

abbrev pub length_at : Queues → ℕ → ℕ
length_at [] place = 0
length_at (q ∷ qs) zero = length q
length_at (q ∷ qs) (suc place) = length_at qs place

abbrev pub concat : Queues → List Record
concat [] = []
concat (q ∷ qs) = q ++ concat qs

pub sum_dropped-eq :
    (ps : List Producer) (total : ℕ)
    → sum_dropped ps total % size_mod ≡ (total + dropped ps) % size_mod
unfolding sum_dropped
sum_dropped-eq [] total = omega arith
sum_dropped-eq (p ∷ ps) total = omega (arith, sum_dropped-eq ps ((total + p.dropped) % size_mod))

-- A push on the producer at a place that exists either appends the record to its queue, which was
-- not full, or leaves all queues and counts one record more as dropped.
abbrev pub Offered : List Producer → Queues → ℕ → Record → List Producer → Type 0
Offered ps qs place r ps' =
    ((length_at qs place < capacity ring_log2)
      × Rep ps' (append_at qs place r)
      × (dropped ps' ≡ dropped ps))
    ⊎ ((length_at qs place ≡ capacity ring_log2)
        × Rep ps' qs
        × (dropped ps' % size_mod ≡ (dropped ps + 1) % size_mod))

offer-Offered :
    (p : Producer) (q : List Record) (r : Record)
    → Represents ring_log2 p.ring q
    → ((length q < capacity ring_log2)
        × Represents ring_log2 (offer p r).ring (q ++ r ∷ [])
        × ((offer p r).dropped ≡ p.dropped))
      ⊎ ((length q ≡ capacity ring_log2)
          × ((offer p r).ring ≡ p.ring)
          × ((offer p r).dropped ≡ (p.dropped + 1) % size_mod))
offer-Offered p q r v = elim (try_push-Represents ring_log2 (omega arith) p.ring q r v) [
  | inl (full, f, same) ↦ rw f (inr (full, same, refl))
  | inr (room, t, v') ↦ rw t (inl (room, v', refl))
]

pub push_at-Offered :
    (ps : List Producer) (qs : Queues) (place : ℕ) (r : Record)
    → Rep ps qs
    → place < length ps
    → Offered ps qs place r (push_at ps place r)
unfolding push_at
push_at-Offered [] qs place r v h = absurd (omega arith)
push_at-Offered (p ∷ ps) [] place r v h = absurd v
push_at-Offered (p ∷ ps) (q ∷ qs) zero r v h = elim (offer-Offered p q r v.0) [
  | inl (room, v', d) ↦ inl (room, (v', v.1), omega arith)
  | inr (full, same, d) ↦ inr (full, (rw same v.0, v.1), omega arith)
]
push_at-Offered (p ∷ ps) (q ∷ qs) (suc place) r v h =
    elim (push_at-Offered ps qs place r v.1 (omega arith)) [
      | inl (room, v', d) ↦ inl (room, (v.0, v'), omega arith)
      | inr (full, v', d) ↦ inr (full, (v.0, v'), omega arith)
    ]

pub pending-append_at :
    (qs : Queues) (place : ℕ) (r : Record)
    → place < length qs
    → pending (append_at qs place r) ≡ pending qs + 1
pending-append_at [] place r h = absurd (omega arith)
pending-append_at (q ∷ qs) zero r h = omega (arith, length-append q (r ∷ []))
pending-append_at (q ∷ qs) (suc place) r h = omega (arith, pending-append_at qs place r)

pub length-Rep : (ps : List Producer) (qs : Queues) → Rep ps qs → length ps ≡ length qs
length-Rep [] [] v = refl
length-Rep [] (q ∷ qs) v = absurd v
length-Rep (p ∷ ps) [] v = absurd v
length-Rep (p ∷ ps) (q ∷ qs) v = omega (arith, length-Rep ps qs v.1)

-- The records of a list written in order.
unfoldable pub emit : List Record → Logger → Logger
emit [] g = g
emit (r ∷ q) g = emit q (write_record r g)

pub emit-append : (xs ys : List Record) (g : Logger) → emit (xs ++ ys) g ≡ emit ys (emit xs g)
unfolding emit
emit-append [] ys g = refl
emit-append (r ∷ xs) ys g = emit-append xs ys (write_record r g)

pub drain_ring-lem :
    (fuel : ℕ) (ring : SpscRing Record) (q : List Record) (n : ℕ) (g : Logger)
    → Represents ring_log2 ring q
    → length q < fuel
    → (ring' : SpscRing Record) × Represents ring_log2 ring' []
      × (drain_ring fuel ring n g ≡ (ring', n + length q, emit q g))
unfolding drain_ring emit
drain_ring-lem zero ring q n g v h = absurd (omega arith)
drain_ring-lem (suc fuel) ring q n g v h =
    elim (try_pop-Represents ring_log2 (omega arith) ring q v) [
      | inl (e, out, same) ↦ (ring, subst (Represents ring_log2 ring) e v, rw e (ground arith))
      | inr (r, rest, e, out, v') ↦
          let (ring', w, eq) =
            drain_ring-lem fuel (try_pop ring_log2 ring).1 rest (n + 1) (write_record r g) v'
              (omega (arith, ap length e)) in
          (ring', w, rw e (ground (arith, eq)))
    ]

-- As many empty queues.
abbrev pub emptied : Queues → Queues
emptied [] = []
emptied (q ∷ qs) = [] ∷ emptied qs

pub drain_all-lem :
    (ps : List Producer) (qs : Queues) (n : ℕ) (g : Logger)
    → Rep ps qs
    → (ps' : List Producer) × Rep ps' (emptied qs)
      × (dropped ps' ≡ dropped ps)
      × (drain_all ps n g ≡ (ps', n + pending qs, emit (concat qs) g))
unfolding drain_all emit
drain_all-lem [] [] n g v =
    let none_more : n ≡ n + 0 = omega arith in ([], tt, refl, ap (λ (m : ℕ). ([], m, g)) none_more)
drain_all-lem [] (q ∷ qs) n g v = absurd v
drain_all-lem (p ∷ ps) [] n g v = absurd v
drain_all-lem (p ∷ ps) (q ∷ qs) n g v =
    let (ring', w, eq) = drain_ring-lem drain_fuel p.ring q n g v.0 (omega (arith, v.0.fits)) in
    let (ps', w', d, eq') = drain_all-lem ps qs (n + length q) (emit q g) v.1 in
    (
      record p { ring = ring' } ∷ ps',
      (w, w'),
      omega arith,
      let all : n + length q + pending qs ≡ n + (length q + pending qs) = omega arith in
          rw (eq, eq', emit-append q (concat qs) g)
            (ap (λ (m : ℕ). (record p { ring = ring' } ∷ ps', m, emit (concat qs) (emit q g))) all),
    )

pub pending-emptied : (qs : Queues) → pending (emptied qs) ≡ 0
pending-emptied [] = refl
pending-emptied (q ∷ qs) = omega (arith, pending-emptied qs)

-- What writing records leaves behind.
pub record Emitted (q : List Record) (g g' : Logger) : Type 0 where
  pub lines : g'.out ≡ g.out ++ map entry q
  pub count : g'.written % size_mod ≡ (g.written + length q) % size_mod
  pub rest : g' ≡ record g { out = g'.out; written = g'.written }

pub emit-Emitted : (q : List Record) (g : Logger) → Emitted q g (emit q g)
unfolding emit write_record
emit-Emitted [] g = record { lines = sym (append-nil g.out); count = omega arith; rest = refl }
emit-Emitted (r ∷ q) g =
    let ih = emit-Emitted q (write_record r g) in
    record {
      lines = ih.lines ∙ append_assoc g.out (entry r ∷ []) (map entry q);
      count = omega (arith, ih.count);
      rest = ih.rest;
    }

pub length-push_at :
    (ps : List Producer) (place : ℕ) (r : Record) → length (push_at ps place r) ≡ length ps
unfolding push_at
length-push_at [] place r = refl
length-push_at (p ∷ ps) zero r = refl
length-push_at (p ∷ ps) (suc place) r = ap suc (length-push_at ps place r)

pub length-concat : (qs : Queues) → length (concat qs) ≡ pending qs
length-concat [] = refl
length-concat (q ∷ qs) = omega (arith, length-append q (concat qs), length-concat qs)

pub length-emptied : (qs : Queues) → length (emptied qs) ≡ length qs
length-emptied [] = refl
length-emptied (q ∷ qs) = ap suc (length-emptied qs)
