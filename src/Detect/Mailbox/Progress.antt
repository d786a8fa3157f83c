-- ===== src/Detect/Mailbox/Progress.antt =====
-- A pending frame is detected and its slot freed by the worker alone, in a bounded number of its steps.
use optronic.Common.{
  ℕ, suc, ◌≤◌, ◌≡◌, refl, sym, ap, ap₂, ◌∙◌, Bool, true, false, not, ◌&&◌, ◌||◌, [], ◌∷◌, ◌++◌,
  append-nil, arith,
}
use optronic.Detect.Mailbox.{
  Picture, outside, Worker, unstarted, waiting, awake, detecting, done_with, clearing, ended, Owner,
  nobody, by, streaming_thread, worker_thread, System, initial, in_mailbox, Work, wake, take_frame,
  detect_frame, lock_again, clear, Reach,
}
use optronic.Detect.Mailbox.Sound.{
  Sound, held_by_streaming, held_by_worker, inside, locking, worker_as,
}
use optronic.Detect.Mailbox.Alive.{Alive, absent, gone, Reach-Alive}
use optronic.Detect.Mailbox.Delivery.{Work-Sound, Reach-Sound}

-- That many steps of the worker, and no step of another thread.
pub data Worked : ℕ → System → System → Type 0 where
  rest : {s : System} → Worked 0 s s
  turn : {n : ℕ} {s u t : System} → Work s u → Worked n u t → Worked (suc n) s t

abbrev pub Served : ℕ → System → Type 0
Served n s = (t : System) × Worked n s t × (t.pending ≡ false) × (t.detected ≡ s.accepted)

nobody_inside : (o : Owner) → held_by_streaming o ≡ false → held_by_worker o ≡ false → o ≡ nobody
nobody_inside nobody h k = refl
nobody_inside (by streaming_thread) h k = absurd (ground (arith, h))
nobody_inside (by worker_thread) h k = absurd (ground (arith, k))

pub lock_free :
    {s : System}
    → Sound s
    → s.streaming ≡ outside
    → {p : Worker} → s.worker ≡ p
    → locking p ≡ false
    → s.owner ≡ nobody
lock_free {s} i out e h =
    nobody_inside s.owner (i.streaming_lock ∙ ap inside out) (i.worker_lock ∙ ap locking e ∙ h)

from_clearing : (s : System) → Sound s → s.worker ≡ clearing → Served 1 s
from_clearing s i e = (
  record s { owner = nobody; pending = false; worker = waiting },
  turn (clear e refl) rest,
  refl,
  sym (worker_as i e ∙ append-nil s.detected),
)

from_done : (s : System) → Sound s → s.streaming ≡ outside → s.worker ≡ done_with → Served 2 s
from_done s i out e =
    let w = lock_again e (lock_free i out e refl) refl in
    let (t, k, p, d) =
      from_clearing (record s { owner = by worker_thread; worker = clearing }) (Work-Sound s _ i w)
        refl in
    (t, turn w k, p, d)

from_detecting :
    (s : System) (p : Picture)
    → Sound s
    → s.streaming ≡ outside
    → s.worker ≡ detecting p
    → Served 3 s
from_detecting s p i out e =
    let w = detect_frame p e refl in
    let (t, k, q, d) =
      from_done (record s { worker = done_with; detected = s.detected ++ p ∷ [] })
        (Work-Sound s _ i w) out refl in
    (t, turn w k, q, d)

from_awake :
    (s : System)
    → Sound s
    → s.streaming ≡ outside
    → s.stop ≡ false
    → s.pending ≡ true
    → s.worker ≡ awake
    → Served 4 s
from_awake s i out on p e =
    let w = take_frame e on p refl in
    let (t, k, q, d) =
      from_detecting (record s { owner = nobody; worker = detecting (in_mailbox s) }) (in_mailbox s)
        (Work-Sound s _ i w) out refl in
    (t, turn w k, q, d)

from_waiting :
    (s : System)
    → Sound s
    → s.streaming ≡ outside
    → s.stop ≡ false
    → s.pending ≡ true
    → s.worker ≡ waiting
    → Served 5 s
from_waiting s i out on p e =
    let w = wake e on (lock_free i out e refl) refl in
    let (t, k, q, d) =
      from_awake (record s { owner = by worker_thread; worker = awake }) (Work-Sound s _ i w) out on
        p refl in
    (t, turn w k, q, d)

from_any :
    (s : System)
    → Sound s
    → Alive s
    → s.streaming ≡ outside
    → s.stop ≡ false
    → s.pending ≡ true
    → (p : Worker) → s.worker ≡ p
    → (n : ℕ) × (n ≤ 5) × Served n s
from_any s i a out on p unstarted e =
    let r : true ≡ false =
      ap₂ (λ (q : Worker) (b : Bool). absent q && (b || inside s.streaming)) (sym e) (sym p)
      ∙ a.running in
    absurd (ground (arith, r))
from_any s i a out on p waiting e = (5, omega arith, from_waiting s i out on p e)
from_any s i a out on p awake e = (4, omega arith, from_awake s i out on p e)
from_any s i a out on p (detecting q) e = (3, omega arith, from_detecting s q i out e)
from_any s i a out on p done_with e = (2, omega arith, from_done s i out e)
from_any s i a out on p clearing e = (1, omega arith, from_clearing s i e)
from_any s i a out on p ended e =
    let r : true ≡ false =
      ap₂ (λ (q : Worker) (b : Bool). gone q && not b) (sym e) (sym on) ∙ a.asked in
    absurd (ground (arith, r))

-- In every state that can be reached and where a frame is pending, no stop was asked for and the
-- streaming thread is not in `offer`: at most five steps of the worker alone lead to a state where no
-- frame is pending and all that was accepted was detected.
pub Reach-Served :
    {s : System}
    → Reach initial s
    → s.streaming ≡ outside
    → s.stop ≡ false
    → s.pending ≡ true
    → (n : ℕ) × (n ≤ 5) × Served n s
Reach-Served {s} r out on p = from_any s (Reach-Sound r) (Reach-Alive r) out on p s.worker refl
