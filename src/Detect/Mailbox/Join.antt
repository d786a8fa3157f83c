-- ===== src/Detect/Mailbox/Join.antt =====
-- That `stop_worker` returns: the worker that it joins ends, however the streaming thread goes on.
use optronic.Common.{
  ℕ, zero, suc, ◌+◌, ◌-◌, ◌≤◌, subst, Bool-cases, ◌≡◌, refl, ap, ◌∙◌, ◌⊎◌, inl, inr, true, false,
  arith,
}
use optronic.Video.Frame.{FrameView}
use optronic.Detect.Mailbox.{
  Streaming, outside, checking, copying, Worker, unstarted, waiting, awake, detecting, done_with,
  clearing, ended, System, initial, started, Offer, lock_failed, lock_taken, refuse, begin_copy,
  copy_one, publish, Work, loop_ends, wake, awake_stop, nothing_there, take_frame, detect_frame,
  lock_again, clear, streams, works, Reach, next,
}
use optronic.Detect.Mailbox.Alive.{absent}
use optronic.Detect.Mailbox.Sound.{inside, Copied}
use optronic.Detect.Mailbox.Delivery.{Reach-Sound}
use optronic.Detect.Mailbox.Progress.{Worked, rest, turn, lock_free}

-- The steps that the worker has to take once it is asked to stop.
abbrev pub left : Worker → ℕ
left unstarted = 0
left waiting = 1
left awake = 1
left (detecting p) = 4
left done_with = 3
left clearing = 2
left ended = 0

-- A sequence of steps of both threads, of which so many are the worker's.
pub data Runs (s : System) : ℕ → System → Type 0 where
  same : Runs s 0 s
  other : {n : ℕ} {t u : System} → Runs s n t → Offer t u → Runs s n u
  own : {n : ℕ} {t u : System} → Runs s n t → Work t u → Runs s (suc n) u

abbrev Asked : System → Type 0
Asked s = (s.stop ≡ true) × (absent s.worker ≡ false)

started-left : (p : Worker) → absent p ≡ false → started p ≡ p
started-left unstarted h = absurd (ground (arith, h))
started-left waiting h = refl
started-left awake h = refl
started-left (detecting p) h = refl
started-left done_with h = refl
started-left clearing h = refl
started-left ended h = refl

-- The streaming thread leaves the worker and the request as they are.
Offer-Asked : {s t : System} → Asked s → Offer s t → (t.worker ≡ s.worker) × (t.stop ≡ s.stop)
Offer-Asked a (lock_failed v out e) = rw e (started-left _ a.1, refl)
Offer-Asked a (lock_taken v out u free e) = rw e (started-left _ a.1, refl)
Offer-Asked a (refuse v c p e) = rw e (refl, refl)
Offer-Asked a (begin_copy v c p e) = rw e (refl, refl)
Offer-Asked a (copy_one v row c p e) = rw e (refl, refl)
Offer-Asked a (publish v row c p e) = rw e (refl, refl)

-- Each step of the worker is one less to take.
Work-Asked :
    {s t : System}
    → Asked s
    → Work s t
    → (left s.worker ≡ left t.worker + 1) × (t.stop ≡ true) × (absent t.worker ≡ false)
Work-Asked a (loop_ends w on e) = rw (e, w) (refl, on, refl)
Work-Asked a (wake w off free e) = absurd (ground (arith, a, off))
Work-Asked a (awake_stop w on e) = rw (e, w) (refl, on, refl)
Work-Asked a (nothing_there w off p e) = absurd (ground (arith, a, off))
Work-Asked a (take_frame w off p e) = absurd (ground (arith, a, off))
Work-Asked a (detect_frame p w e) = rw (e, w) (refl, a.0, refl)
Work-Asked a (lock_again w free e) = rw (e, w) (refl, a.0, refl)
Work-Asked a (clear w e) = rw (e, w) (refl, a.0, refl)

Runs-Asked :
    {s t : System} {n : ℕ} → Asked s → Runs s n t → Asked t × (left s.worker ≡ left t.worker + n)
Runs-Asked a same = (a, omega arith)
Runs-Asked a (other r o) =
    let (b, e) = Runs-Asked a r in
    let (w, st) = Offer-Asked b o in ((st ∙ b.0, ap absent w ∙ b.1), omega (arith, e, ap left w))
Runs-Asked a (own r o) =
    let (b, e) = Runs-Asked a r in
    let (less, on, here_now) = Work-Asked b o in ((on, here_now), omega (arith, e, less))

Runs-Reach : {s t : System} {n : ℕ} → Reach initial s → Runs s n t → Reach initial t
Runs-Reach r same = r
Runs-Reach r (other k o) = next (Runs-Reach r k) (streams o)
Runs-Reach r (own k w) = next (Runs-Reach r k) (works w)

left_at_most : (p : Worker) → left p ≤ 4
left_at_most unstarted = omega arith
left_at_most waiting = omega arith
left_at_most awake = omega arith
left_at_most (detecting p) = omega arith
left_at_most done_with = omega arith
left_at_most clearing = omega arith
left_at_most ended = omega arith

goes_on :
    {t : System}
    → Reach initial t
    → Asked t
    → t.streaming ≡ outside
    → (p : Worker) → t.worker ≡ p
    → (t.worker ≡ ended) ⊎ ((u : System) × Work t u)
goes_on {t} r a out unstarted e = absurd (ground (arith, ap absent e, a))
goes_on {t} r a out waiting e = inr (_, loop_ends e a.0 refl)
goes_on {t} r a out awake e = inr (_, awake_stop e a.0 refl)
goes_on {t} r a out (detecting p) e = inr (_, detect_frame p e refl)
goes_on {t} r a out done_with e = inr (_, lock_again e (lock_free (Reach-Sound r) out e refl) refl)
goes_on {t} r a out clearing e = inr (_, clear e refl)
goes_on {t} r a out ended e = inl e

unblocked :
    {t : System}
    → Reach initial t
    → Asked t
    → (p : Streaming) → t.streaming ≡ p
    → (inside t.streaming ≡ true) ⊎ ((t.worker ≡ ended) ⊎ ((u : System) × Work t u))
unblocked {t} r a outside e = inr (goes_on r a e t.worker refl)
unblocked r a (checking v) e = inl (ap inside e)
unblocked r a (copying v row) e = inl (ap inside e)

-- The streaming thread leaves `offer` without waiting for anybody.
abbrev Leaves : System → Type 0
Leaves t = (u : System) × Runs t 0 u × (u.streaming ≡ outside)

-- Row by row to the end of the frame.
copy_out :
    (rows : ℕ) {t u : System} (v : FrameView) (row : ℕ)
    → Runs t 0 u
    → u.streaming ≡ copying v row
    → row + rows ≡ v.height
    → Leaves t
copy_out zero v row r c e = (_, other r (publish v row c (omega (arith, e)) refl), refl)
copy_out (suc rows) v row r c e =
    copy_out rows v (suc row) (other r (copy_one v row c (omega (arith, e)) refl)) refl
      (omega (arith, e))

leaves : {t : System} → Reach initial t → (p : Streaming) → t.streaming ≡ p → Leaves t
leaves {t} r outside e = (t, same, e)
leaves {t} r (checking v) e = elim (Bool-cases t.pending) [
  | inl full ↦ (_, other same (refuse v e full refl), refl)
  | inr free ↦ copy_out v.height v 0 (other same (begin_copy v e free refl)) refl (omega arith)
]
leaves {t} r (copying v row) e =
    let c = subst (λ (p : Streaming). Copied p t.mailbox t.pending) e (Reach-Sound r).copied in
    copy_out (v.height - row) v row same e (omega (arith, c.2))

Work-streaming : {s t : System} → Work s t → t.streaming ≡ s.streaming
Work-streaming (loop_ends w on e) = rw e refl
Work-streaming (wake w off free e) = rw e refl
Work-streaming (awake_stop w on e) = rw e refl
Work-streaming (nothing_there w off p e) = rw e refl
Work-streaming (take_frame w off p e) = rw e refl
Work-streaming (detect_frame p w e) = rw e refl
Work-streaming (lock_again w free e) = rw e refl
Work-streaming (clear w e) = rw e refl

-- The worker alone comes to its end, in the steps that it has left.
works_off :
    (m : ℕ) {t : System}
    → Reach initial t
    → Asked t
    → t.streaming ≡ outside
    → left t.worker ≡ m
    → (u : System) × Worked m t u × (u.worker ≡ ended)
works_off zero {t} r a out e = elim (goes_on r a out t.worker refl) [
  | inl over ↦ (t, rest, over)
  | inr (u, w) ↦ absurd (omega (arith, e, (Work-Asked a w).0))
]
works_off (suc m) {t} r a out e = elim (goes_on r a out t.worker refl) [
  | inl over ↦ absurd (omega (arith, e, ap left over))
  | inr (u, w) ↦
      let (less, on, here_now) = Work-Asked a w in
      let (v, k, over) =
        works_off m (next r (works w)) (on, here_now) (Work-streaming w ∙ out)
          (omega (arith, e, less)) in
      (v, turn w k, over)
]

-- From every state that can be reached, where a stop was asked for and the worker was started: in
-- whatever order the two threads go on, the worker takes at most four more steps; whenever the
-- streaming thread is not in `offer`, it has ended or it can take one; and from wherever they stand,
-- the streaming thread leaves `offer` by steps of its own, and if the worker goes on alone from there
-- it ends, all its steps together at most four.
pub stop_worker-Ends :
    {s : System}
    → Reach initial s
    → s.stop ≡ true
    → absent s.worker ≡ false
    → (n : ℕ) (t : System) → Runs s n t
    → (n ≤ 4)
      × ((inside t.streaming ≡ true) ⊎ ((t.worker ≡ ended) ⊎ ((u : System) × Work t u)))
      × ((m : ℕ) × (t' : System) × (u : System) × Runs t 0 t'
          × (t'.streaming ≡ outside)
          × Worked m t' u
          × (u.worker ≡ ended)
          × (n + m ≤ 4))
stop_worker-Ends {s} r on here_now n t k =
    let (a, e) = Runs-Asked (on, here_now) k in
    let (t', free, out) = leaves (Runs-Reach r k) t.streaming refl in
    let (a', e') = Runs-Asked a free in
    let (u, w, over) = works_off (left t'.worker) (Runs-Reach (Runs-Reach r k) free) a' out refl in
    (
      omega (arith, e, left_at_most s.worker),
      unblocked (Runs-Reach r k) a t.streaming refl,
      (left t'.worker, t', u, free, out, w, over, omega (arith, e, e', left_at_most s.worker)),
    )
