-- ===== src/Log/Tests.antt =====
-- One logger, one thread, two records.
use optronic.Common.{
  ℕ, ◌+◌, ◌*◌, ◌≤◌, ◌-◌, ◌^◌, ◌%◌, ◌≡◌, ◌⊎◌, refl, true, false, none, List, [], ◌∷◌, arith,
}
use optronic.Log.Ring.{size_mod, update, try_pop, try_push}
use optronic.Log.Record.{
  of_integer, KeyValue, info, warn, Record, below, copy_truncated, make_record,
}
use optronic.Log.Record.Truncation.{c_string}
use optronic.Log.Logger.{
  Logger, Line, Turn, sink_loop, entry, drops, construct, log, drain_now, stats,
}
use optronic.Common.Text.{codes, decimal}
use optronic.Log.Logger.Printed.{printed}
use optronic.Log.Logger.Printed.Lines.{newlines, newlines-printed}
use optronic.Log.Logger.Sink.{told, reports, sink_loop-Lossless}
use optronic.Log.Logger.Queues.{Queues, pending}
use optronic.Log.Logger.Accounting.{Accounted}
use optronic.Log.Logger.Lossless.{Logged, log-Logged}

abbrev app : List ℕ
app = b'a' ∷ b'p' ∷ b'p' ∷ []

abbrev quiet : Logger
quiet = construct 7 (λ _. none)

quiet-Accounted : Accounted quiet []
quiet-Accounted = record {
  rings = tt;
  balance = refl;
  known = λ t place e. cc;
  apart = λ t t' place e e'. cc;
}

abbrev spoken : Logger
spoken = log 1 warn app app [] 5 (log 1 info app app [] 4 quiet)

drains_in_order :
    (drain_now spoken).1.out
    ≡ entry (make_record info app app [] 4 0) ∷ entry (make_record warn app app [] 5 1) ∷ []
unfolding drain_now log make_record try_pop try_push
drains_in_order = refl

cut : copy_truncated (0 ∷ 0 ∷ 0 ∷ []) 3 app ≡ b'a' ∷ b'p' ∷ 0 ∷ []
unfolding copy_truncated
cut = refl

log-Logged_example :
    ((below warn info ≡ true) × (log 1 warn app app [] 4 quiet ≡ quiet))
    ⊎ ((below warn info ≡ false)
        × Logged 1 (make_record warn app app [] 4 0) quiet [] (log 1 warn app app [] 4 quiet))
log-Logged_example = log-Logged 1 warn app app [] 4 quiet [] quiet-Accounted

-- One record waits in the ring of thread 1, and another was dropped before.
abbrev waiting : Record
waiting = make_record warn app app [] 4 0

abbrev busy : Logger
busy = record quiet {
  seq = 2;
  producers =
      record {
        ring = record { write = 1; read = 0; slots = update (λ _. waiting) 0 waiting };
        dropped = 1;
      }
      ∷ [];
}

busy-Accounted : Accounted busy ((waiting ∷ []) ∷ [])
busy-Accounted = record {
  rings = (
    record { base = 0; read_is = refl; write_is = refl; fits = omega arith; held = (refl, tt) },
    tt,
  );
  balance = refl;
  known = λ t place e. cc;
  apart = λ t t' place e e'. cc;
}

abbrev counted : KeyValue
counted = of_integer (codes "n") (2 ^ 64 - 5)

prints :
    printed
      (λ bits. codes "0.000")
      (entry (make_record warn app (codes "full") (counted ∷ []) 12_034_567_890 0) ∷ drops 7 ∷ [])
    ≡ codes "    12.034 WARN  app        full n=-5\n       WARN  log        log dropped=7\n"
unfolding printed make_record decimal c_string of_integer
prints = refl

abbrev two_lines : List Line
two_lines = entry waiting ∷ drops 3 ∷ []

newlines-printed_example : newlines (printed (λ bits. codes "0.000") two_lines) ≡ 2
unfolding make_record
newlines-printed_example =
    newlines-printed (λ bits. codes "0.000") (λ bits. refl) two_lines
      (refl, refl, (refl, (refl, (refl, (refl, tt)))), tt)

-- One turn a second after the last report, and one right after it, with a call between them.
abbrev turns : List Turn
turns =
    record {
      at = 1_000_000_000;
      calls =
          record { thread = 1; level = warn; component = app; msg = app; kv = []; now = 5 } ∷ [];
    }
    ∷ record { at = 1_000_000_500; calls = [] }
    ∷ []

sink_loop-Lossless_example :
    let g' = sink_loop 0 turns busy in
    let s = stats g' in
    ((qs : Queues) × Accounted g' qs × (pending qs ≡ 0))
    × ((s.written + s.dropped) % size_mod ≡ g'.seq % size_mod)
    × (g'.reported_drops ≡ s.dropped)
    × ((told g'.out + 0) % size_mod ≡ (0 + s.dropped) % size_mod)
    × ((k : ℕ) × (reports g'.out ≤ 0 + k + 1) × (k * 1_000_000_000 + 0 ≤ 1_000_000_500))
sink_loop-Lossless_example =
    sink_loop-Lossless 0 turns busy ((waiting ∷ []) ∷ []) busy-Accounted (omega arith)
      (omega arith, (omega arith, tt))
