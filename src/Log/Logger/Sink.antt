-- ===== src/Log/Logger/Sink.antt =====
-- The sink thread from its start to its end, with the calls of `log` between its turns.
use optronic.Common.{
  ℕ, ◌+◌, ◌-◌, ◌*◌, ◌%◌, ◌<◌, ◌≤◌, ◌≡◌, refl, sym, ap, subst, inl, inr, Bool, true, false, List, [],
  ◌∷◌, ◌++◌, map, if◌then◌else◌, ◌==◌, Bool-cases, arith,
}
use optronic.Log.Ring.{size_mod}
use optronic.Log.Record.{Record}
use optronic.Log.Logger.{
  Producer, Logger, Line, entry, drops, Call, Turn, log, log_all, drain_now, due, sum_dropped,
  report_drops, sink_turn, sink_end, sink_loop, stats,
}
use optronic.Log.Logger.Queues.{Queues, pending, emptied, concat, sum_dropped-eq}
use optronic.Log.Logger.Accounting.{Accounted}
use optronic.Log.Logger.Lossless.{log-Logged, drain_now-empties}

-- The lines about dropped records.
abbrev pub reports : List Line → ℕ
reports [] = 0
reports (entry r ∷ ls) = reports ls
reports (drops n ∷ ls) = reports ls + 1

reports-entries : (ls : List Line) (rs : List Record) → reports (ls ++ map entry rs) ≡ reports ls
reports-entries [] [] = refl
reports-entries [] (r ∷ rs) = reports-entries [] rs
reports-entries (entry r ∷ ls) rs = reports-entries ls rs
reports-entries (drops n ∷ ls) rs = omega (arith, reports-entries ls rs)

reports-drops : (ls : List Line) (n : ℕ) → reports (ls ++ drops n ∷ []) ≡ reports ls + 1
reports-drops [] n = refl
reports-drops (entry r ∷ ls) n = reports-drops ls n
reports-drops (drops k ∷ ls) n = omega (arith, reports-drops ls n)

-- The drops that those lines tell of, together.
abbrev pub told : List Line → ℕ
told [] = 0
told (entry r ∷ ls) = told ls
told (drops n ∷ ls) = n + told ls

told-entries : (ls : List Line) (rs : List Record) → told (ls ++ map entry rs) ≡ told ls
told-entries [] [] = refl
told-entries [] (r ∷ rs) = told-entries [] rs
told-entries (entry r ∷ ls) rs = told-entries ls rs
told-entries (drops n ∷ ls) rs = omega (arith, told-entries ls rs)

told-drops : (ls : List Line) (n : ℕ) → told (ls ++ drops n ∷ []) ≡ told ls + n
told-drops [] n = omega arith
told-drops (entry r ∷ ls) n = told-drops ls n
told-drops (drops k ∷ ls) n = omega (arith, told-drops ls n)

-- What the lines of a logger told of when its counter of reported drops stood at `reported`.
record Base : Type 0 where
  out_told : ℕ
  reported : ℕ

-- The lines have told of as many drops since then as the counter has gone on.
abbrev Told : Base → Logger → Type 0
Told b g =
    ((told g.out + b.reported) % size_mod ≡ (b.out_told + g.reported_drops) % size_mod)
    × (g.reported_drops < size_mod)

-- A state whose accounts are balanced, and the lines about drops in it.
abbrev Holds : Base → Logger → Queues → ℕ → Type 0
Holds b g qs n = Accounted g qs × (reports g.out ≤ n) × Told b g

log-Holds :
    (b : Base) (c : Call) (g : Logger) (qs : Queues) (n : ℕ)
    → Holds b g qs n
    → (qs' : Queues) × Holds b (log c.thread c.level c.component c.msg c.kv c.now g) qs' n
log-Holds b c g qs n h = elim (log-Logged c.thread c.level c.component c.msg c.kv c.now g qs h.0) [
  | inl (low, e) ↦ (qs, subst (λ (x : Logger). Holds b x qs n) (sym e) h)
  | inr (high, r) ↦ (
    r.after,
    (
      r.accounted,
      omega (arith, h.1, ap reports r.silent.0),
      (omega (arith, h.2.0, ap told r.silent.0, r.silent.3), omega (arith, h.2.1, r.silent.3)),
    ),
  )
]

log_all-Holds :
    (b : Base) (cs : List Call) (g : Logger) (qs : Queues) (n : ℕ)
    → Holds b g qs n
    → (qs' : Queues) × Holds b (log_all cs g) qs' n
unfolding log_all
log_all-Holds b [] g qs n h = (qs, h)
log_all-Holds b (c ∷ cs) g qs n h =
    let (qs1, h1) = log-Holds b c g qs n h in log_all-Holds b cs _ qs1 n h1

drain_now-Holds :
    (b : Base) (g : Logger) (qs : Queues) (n : ℕ)
    → Holds b g qs n
    → Holds b (drain_now g).1 (emptied qs) n × (pending (emptied qs) ≡ 0)
drain_now-Holds b g qs n (v, r, (t, low)) =
    let (_, lines, a, empty, _, _, same_reports) = drain_now-empties g qs v in
    (
      (
        a,
        omega (arith, r, ap reports lines, reports-entries g.out (concat qs)),
        (
          omega (arith, t, ap told lines, told-entries g.out (concat qs), same_reports),
          omega (arith, low, same_reports),
        ),
      ),
      empty,
    )

sum_dropped-low : (ps : List Producer) (n : ℕ) → n < size_mod → sum_dropped ps n < size_mod
unfolding sum_dropped
sum_dropped-low [] n h = h
sum_dropped-low (p ∷ ps) n h = sum_dropped-low ps ((n + p.dropped) % size_mod) (omega arith)

report_drops-Holds :
    (b : Base) (g : Logger) (qs : Queues) (n : ℕ)
    → Holds b g qs n
    → Holds b (report_drops g) qs (n + 1)
unfolding report_drops
report_drops-Holds b g qs n (v, r, (t, low)) =
    let total = sum_dropped g.producers 0 in
    elim (Bool-cases (total == g.reported_drops)) [
      | inl e ↦ rw e (v, omega (arith, r), (t, low))
      | inr e ↦
          let lost = (total + size_mod - g.reported_drops) % size_mod in
          rw e (
            record { rings = v.rings; balance = v.balance; known = v.known; apart = v.apart },
            omega (arith, r, reports-drops g.out lost),
            (
              omega (arith, t, low, told-drops g.out lost),
              sum_dropped-low g.producers 0 (omega arith),
            ),
          )
    ]

-- The lines about drops that a turn may add.
abbrev one_if : Bool → ℕ
one_if true = 1
one_if false = 0

sink_turn-Holds :
    (b : Base) (now_due : Bool) (g : Logger) (qs : Queues) (n : ℕ)
    → Holds b g qs n
    → Holds b (sink_turn now_due g) (emptied qs) (n + one_if now_due)
unfolding sink_turn
sink_turn-Holds b true g qs n h =
    report_drops-Holds b (drain_now g).1 (emptied qs) n (drain_now-Holds b g qs n h).0
sink_turn-Holds b false g qs n h =
    let (a, r, t) = (drain_now-Holds b g qs n h).0 in (a, omega (arith, r), t)

-- The clock of the turns does not go back.
abbrev pub Rising : ℕ → List Turn → Type 0
Rising before [] = Unit
Rising before (t ∷ ts) = (before ≤ t.at) × Rising t.at ts

abbrev pub last_turn : ℕ → List Turn → ℕ
last_turn before [] = before
last_turn before (t ∷ ts) = last_turn t.at ts

-- Where the loop is left.
abbrev Left : Base → ℕ → ℕ → ℕ → Logger → Type 0
Left b n last end g' =
    (qs' : Queues) × Accounted g' qs'
    × (pending qs' ≡ 0)
    × (g'.reported_drops ≡ sum_dropped g'.producers 0)
    × Told b g'
    × ((k : ℕ) × (reports g'.out ≤ n + k + 1) × (k * 1_000_000_000 + last ≤ end))

one_more :
    (b : Base) (n last at end : ℕ) (g' : Logger)
    → due last at ≡ true
    → Left b (n + 1) at end g'
    → Left b n last end g'
one_more b n last at end g' d (qs, a, p, r, t, (k, few, spaced)) =
    let gap : 1_000_000_000 ≤ at - last = ground arith in
    (qs, a, p, r, t, (k + 1, omega (arith, few), omega (arith, spaced, gap)))

turn-Left :
    (b : Base) (now_due : Bool) (t : Turn) (ts : List Turn) (last end : ℕ) (g : Logger)
    (qs : Queues) (n : ℕ)
    → Holds b g qs n
    → last ≤ t.at
    → due last t.at ≡ now_due
    → ((last' : ℕ) (g' : Logger) (qs' : Queues) (n' : ℕ)
        → Holds b g' qs' n'
        → last' ≤ t.at
        → Left b n' last' end (sink_loop last' ts g'))
    → Left b n last end
        (sink_loop (if now_due then t.at else last) ts (log_all t.calls (sink_turn now_due g)))
turn-Left b true t ts last end g qs n h o d rest =
    let (qs1, h1) =
      log_all-Holds b t.calls (sink_turn true g) (emptied qs) (n + 1)
        (sink_turn-Holds b true g qs n h) in
    one_more b n last t.at end _ d (rest t.at _ qs1 (n + 1) h1 (omega arith))
turn-Left b false t ts last end g qs n h o d rest =
    let (a, r, told_so) = sink_turn-Holds b false g qs n h in
    let (qs1, h1) =
      log_all-Holds b t.calls (sink_turn false g) (emptied qs) n (a, omega (arith, r), told_so) in
    rest last _ qs1 n h1 o

report_drops-all :
    (g : Logger) → (report_drops g).reported_drops ≡ sum_dropped (report_drops g).producers 0
unfolding report_drops
report_drops-all g = ground arith

sink_loop-Left :
    (b : Base) (ts : List Turn) (last before : ℕ) (g : Logger) (qs : Queues) (n : ℕ)
    → Holds b g qs n
    → last ≤ before
    → Rising before ts
    → Left b n last (last_turn before ts) (sink_loop last ts g)
unfolding sink_loop sink_end
sink_loop-Left b [] last before g qs n h o up =
    let (h', empty) = drain_now-Holds b g qs n h in
    let (a, r, t) = report_drops-Holds b (drain_now g).1 (emptied qs) n h' in
    (
      emptied qs,
      a,
      empty,
      report_drops-all (drain_now g).1,
      t,
      (0, omega (arith, r), omega (arith, o)),
    )
sink_loop-Left b (t ∷ ts) last before g qs n h o (up, ups) =
    turn-Left b (due last t.at) t ts last (last_turn t.at ts) g qs n h (omega (arith, o, up)) refl
      (λ last' g' qs' n' h' o'. sink_loop-Left b ts last' t.at g' qs' n' h' o' ups)

-- From a state whose accounts are balanced, over any turns of the sink thread whose clock does not go
-- back and any calls of `log` between them, up to the stop: nothing waits any more; every record that
-- was given a sequence number was written or counted as dropped; the lines about drops that were
-- written tell, together, of the drops since the last report before (both modulo the width of the
-- counters); and there are at most one such line for each whole second since then, and one at the end.
pub sink_loop-Lossless :
    (last : ℕ) (ts : List Turn) (g : Logger) (qs : Queues)
    → Accounted g qs
    → g.reported_drops < size_mod
    → Rising last ts
    → let g' = sink_loop last ts g in
      let s = stats g' in
      ((qs' : Queues) × Accounted g' qs' × (pending qs' ≡ 0))
      × ((s.written + s.dropped) % size_mod ≡ g'.seq % size_mod)
      × (g'.reported_drops ≡ s.dropped)
      × ((told g'.out + g.reported_drops) % size_mod ≡ (told g.out + s.dropped) % size_mod)
      × ((k : ℕ) × (reports g'.out ≤ reports g.out + k + 1)
          × (k * 1_000_000_000 + last ≤ last_turn last ts))
unfolding stats
sink_loop-Lossless last ts g qs v low up =
    let b : Base = record { out_told = told g.out; reported = g.reported_drops } in
    let (qs', a, empty, all, t, few) =
      sink_loop-Left b ts last last g qs (reports g.out) (v, omega arith, (omega arith, low))
        (omega arith) up in
    let counted = sum_dropped-eq (sink_loop last ts g).producers 0 in
    ((qs', a, empty), omega (arith, a.balance, empty, counted), all, omega (arith, t, all), few)
