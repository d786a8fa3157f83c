-- ===== src/Log/Logger.antt =====
-- framework/log/include/optronic/log/logger.hpp and framework/log/src/logger.cpp. A thread is a number;
-- the reading of the clock is an argument; a line of the output is what it was made from.
pub mod Queues
pub mod Accounting
pub mod Lossless
pub mod Sink
pub mod Printed
pub mod Thread
use optronic.Common.{
  ℕ, zero, suc, ◌+◌, ◌-◌, ◌%◌, ◌^◌, Bool, true, false, Option, none, some, List, [], ◌∷◌, ◌++◌,
  length, ◌==◌, leb, if◌then◌else◌, not,
}
use optronic.Log.Ring.{size_mod, update, SpscRing, capacity, empty, try_push, try_pop}
use optronic.Log.Record.{Level, info, to_u8, below, KeyValue, Record, make_record}

-- kRingCapacity is 2 ^ 10.
abbrev pub ring_log2 : ℕ
ring_log2 = 10

pub record Producer : Type 0 where
  pub ring : SpscRing Record
  pub dropped : ℕ

pub data Line : Type 0 where
  entry : Record → Line
  drops : ℕ → Line

pub record Stats : Type 0 where
  pub written : ℕ
  pub dropped : ℕ
  pub producers : ℕ

-- `mine` holds the two thread_local variables of each thread: the producer, by its place in
-- `producers`, and the id of the logger that it belongs to.
pub record Logger : Type 0 where
  pub id : ℕ
  pub level : Level
  pub written : ℕ
  pub seq : ℕ
  pub reported_drops : ℕ
  pub producers : List Producer
  pub mine : ℕ → Option (ℕ × ℕ)
  pub joinable : Bool
  pub out : List Line

abbrev pub blank_record : Record
blank_record = make_record info [] [] [] 0 0

abbrev pub new_producer : Producer
new_producer = record { ring = empty blank_record; dropped = 0 }

-- A logger made on a process whose threads have the variables `mine`.
abbrev pub construct : ℕ → (ℕ → Option (ℕ × ℕ)) → Logger
construct id mine = record {
  id = id;
  level = info;
  written = 0;
  seq = 0;
  reported_drops = 0;
  producers = [];
  mine = mine;
  joinable = false;
  out = [];
}

unfoldable pub set_level : Logger → Level → Logger
set_level g l = record g { level = l }

register : ℕ → Logger → ℕ × Logger
register t g = (
  length g.producers,
  record g {
    producers = g.producers ++ new_producer ∷ [];
    mine = update g.mine t (some (length g.producers, g.id));
  },
)

unfoldable pub producer_for_this_thread : ℕ → Logger → ℕ × Logger
unfolding register
producer_for_this_thread t g = elim (g.mine t) [
  | none ↦ register t g
  | some (place, owner) ↦ if owner == g.id then (place, g) else register t g
]

abbrev pub offer : Producer → Record → Producer
offer p r =
    let (pushed, ring') = try_push ring_log2 p.ring r in
    if pushed
    then record p { ring = ring' }
    else record p { ring = ring'; dropped = (p.dropped + 1) % size_mod }

-- The push on the producer at a place.
unfoldable pub push_at : List Producer → ℕ → Record → List Producer
push_at [] place r = []
push_at (p ∷ ps) zero r = offer p r ∷ ps
push_at (p ∷ ps) (suc place) r = p ∷ push_at ps place r

-- The producers after a call, where `Logger::log` does not return at once.
unfoldable pub enqueue : ℕ → Level → List ℕ → List ℕ → List KeyValue → ℕ → Logger → Logger
unfolding producer_for_this_thread push_at make_record
enqueue t l component msg kv now g =
    let (place, g') = producer_for_this_thread t g in
    let r = make_record l component msg kv now g'.seq in
    record g' { seq = (g'.seq + 1) % size_mod; producers = push_at g'.producers place r }

unfoldable pub log : ℕ → Level → List ℕ → List ℕ → List KeyValue → ℕ → Logger → Logger
unfolding enqueue
log t l component msg kv now g = if below l g.level then g else enqueue t l component msg kv now g

unfoldable pub write_record : Record → Logger → Logger
write_record r g = record g { out = g.out ++ entry r ∷ []; written = (g.written + 1) % size_mod }

-- `while (p->ring.try_pop(r)) { write_record(r); ++n; }`
unfoldable pub drain_ring : ℕ → SpscRing Record → ℕ → Logger → SpscRing Record × ℕ × Logger
unfolding write_record
drain_ring zero ring n g = (ring, n, g)
drain_ring (suc fuel) ring n g =
    let (got, ring') = try_pop ring_log2 ring in
    elim got [ none ↦ (ring', n, g) | some r ↦ drain_ring fuel ring' (n + 1) (write_record r g) ]

-- One turn more than the ring has slots.
abbrev pub drain_fuel : ℕ
drain_fuel = 2 ^ 10 + 1

-- The loop over the producers; it leaves them with their rings emptied.
unfoldable pub drain_all : List Producer → ℕ → Logger → List Producer × ℕ × Logger
drain_all [] n g = ([], n, g)
drain_all (p ∷ ps) n g =
    let (ring', n', g') = drain_ring drain_fuel p.ring n g in
    let (ps', n'', g'') = drain_all ps n' g' in (record p { ring = ring' } ∷ ps', n'', g'')

unfoldable pub drain_now : Logger → ℕ × Logger
unfolding drain_all drain_ring
drain_now g = let (ps, n, g') = drain_all g.producers 0 g in (n, record g' { producers = ps })

-- The sum of the counters of dropped records, from `total` on.
unfoldable pub sum_dropped : List Producer → ℕ → ℕ
sum_dropped [] total = total
sum_dropped (p ∷ ps) total = sum_dropped ps ((total + p.dropped) % size_mod)

unfoldable pub report_drops : Logger → Logger
unfolding sum_dropped
report_drops g =
    let total = sum_dropped g.producers 0 in
    if total == g.reported_drops then g else record g {
      out = g.out ++ drops ((total + size_mod - g.reported_drops) % size_mod) ∷ [];
      reported_drops = total;
    }

unfoldable pub stats : Logger → Stats
unfolding sum_dropped
stats g = record {
  written = g.written;
  dropped = sum_dropped g.producers 0;
  producers = length g.producers;
}

-- `start` and `stop`: the sink thread is there or not.
unfoldable pub start : Logger → Logger
start g = if g.joinable then g else record g { joinable = true }

-- One turn of `sink_loop`; the flag says whether a second has passed since the last report.
unfoldable pub sink_turn : Bool → Logger → Logger
unfolding drain_now report_drops
sink_turn due g = let (_, g') = drain_now g in if due then report_drops g' else g'

-- What the sink thread still does when it is asked to stop.
unfoldable pub sink_end : Logger → Logger
unfolding drain_now report_drops
sink_end g = report_drops (drain_now g).1

-- A call of `log`, and one turn of the loop: when it reads its clock, in nanoseconds, and the calls
-- that come before the next turn.
pub record Call : Type 0 where
  pub thread : ℕ
  pub level : Level
  pub component : List ℕ
  pub msg : List ℕ
  pub kv : List KeyValue
  pub now : ℕ

pub record Turn : Type 0 where
  pub at : ℕ
  pub calls : List Call

unfoldable pub log_all : List Call → Logger → Logger
unfolding log
log_all [] g = g
log_all (c ∷ cs) g = log_all cs (log c.thread c.level c.component c.msg c.kv c.now g)

-- `now - last_drop_report_ >= 1s`
abbrev pub due : ℕ → ℕ → Bool
due last now = leb 1_000_000_000 (now - last)

-- The turns up to the stop request; `last` is `last_drop_report_`.
unfoldable pub sink_loop : ℕ → List Turn → Logger → Logger
unfolding sink_turn sink_end log_all
sink_loop last [] g = sink_end g
sink_loop last (t ∷ ts) g =
    sink_loop (if due last t.at then t.at else last) ts
      (log_all t.calls (sink_turn (due last t.at) g))

unfoldable pub stop : Logger → Logger
unfolding sink_end
stop g = if g.joinable then record (sink_end g) { joinable = false } else g

-- The destructor.
unfoldable pub destroy : Logger → Logger
unfolding stop drain_now
destroy g = (drain_now (stop g)).1
