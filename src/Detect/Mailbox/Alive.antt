-- ===== src/Detect/Mailbox/Alive.antt =====
-- The worker returns only after a stop request, and runs once a frame was offered.
use optronic.Common.{◌≡◌, refl, sym, ap, subst, ◌∙◌, Bool, true, false, not, ◌&&◌, ◌||◌, arith}
use optronic.Detect.Mailbox.{
  Streaming, Worker, unstarted, waiting, awake, detecting, done_with, clearing, ended, System,
  initial, started, Offer, lock_failed, lock_taken, refuse, begin_copy, copy_one, publish, Work,
  loop_ends, wake, awake_stop, nothing_there, take_frame, detect_frame, lock_again, clear, streams,
  works, stops, Reach, here, next,
}
use optronic.Detect.Mailbox.Sound.{inside}

abbrev pub absent : Worker → Bool
absent unstarted = true
absent waiting = false
absent awake = false
absent (detecting p) = false
absent done_with = false
absent clearing = false
absent ended = false

abbrev pub gone : Worker → Bool
gone unstarted = false
gone waiting = false
gone awake = false
gone (detecting p) = false
gone done_with = false
gone clearing = false
gone ended = true

-- The worker returns only when it is asked to, and runs once a frame is offered.
pub record Alive (s : System) : Type 0 where
  pub asked : gone s.worker && not s.stop ≡ false
  pub running : absent s.worker && (s.pending || inside s.streaming) ≡ false

started-gone : (p : Worker) → gone (started p) ≡ gone p
started-gone unstarted = refl
started-gone waiting = refl
started-gone awake = refl
started-gone (detecting p) = refl
started-gone done_with = refl
started-gone clearing = refl
started-gone ended = refl

started-absent : (p : Worker) → absent (started p) ≡ false
started-absent unstarted = refl
started-absent waiting = refl
started-absent awake = refl
started-absent (detecting p) = refl
started-absent done_with = refl
started-absent clearing = refl
started-absent ended = refl

present :
    {s : System}
    → Alive s
    → {p : Streaming} → s.streaming ≡ p
    → inside p ≡ true
    → absent s.worker ≡ false
present {s} a e h =
    let r : absent s.worker && (s.pending || true) ≡ false =
      ap (λ (b : Bool). absent s.worker && (s.pending || b)) (sym (ap inside e ∙ h)) ∙ a.running in
    ground (arith, r)

offer-Alive : (s t : System) → Alive s → Offer s t → Alive t
offer-Alive s t a o = elim o [
  | lock_failed v e r ↦ subst Alive (sym r) (record {
    asked = rw (started-gone s.worker) a.asked;
    running = rw (started-absent s.worker) refl;
  })
  | lock_taken v e u free r ↦ subst Alive (sym r) (record {
    asked = rw (started-gone s.worker) a.asked;
    running = rw (started-absent s.worker) refl;
  })
  | refuse v e p r ↦
      subst Alive (sym r) (record { asked = a.asked; running = rw (present a e refl) refl })
  | begin_copy v e p r ↦
      subst Alive (sym r) (record { asked = a.asked; running = rw (present a e refl) refl })
  | copy_one v row e l r ↦
      subst Alive (sym r) (record { asked = a.asked; running = rw (present a e refl) refl })
  | publish v row e l r ↦
      subst Alive (sym r) (record { asked = a.asked; running = rw (present a e refl) refl })
]

Work-Alive : (s t : System) → Alive s → Work s t → Alive t
Work-Alive s t a o = elim o [
  | loop_ends e st r ↦ subst Alive (sym r) (record { asked = ap not st; running = refl })
  | wake e st free r ↦ subst Alive (sym r) (record { asked = refl; running = refl })
  | awake_stop e st r ↦ subst Alive (sym r) (record { asked = ap not st; running = refl })
  | nothing_there e st p r ↦ subst Alive (sym r) (record { asked = refl; running = refl })
  | take_frame e st p r ↦ subst Alive (sym r) (record { asked = refl; running = refl })
  | detect_frame p e r ↦ subst Alive (sym r) (record { asked = refl; running = refl })
  | lock_again e free r ↦ subst Alive (sym r) (record { asked = refl; running = refl })
  | clear e r ↦ subst Alive (sym r) (record { asked = refl; running = refl })
]

pub Reach-Alive : {s : System} → Reach initial s → Alive s
Reach-Alive here = record { asked = refl; running = refl }
Reach-Alive (next {t} {u} r o) = elim o [
  | streams f ↦ offer-Alive t u (Reach-Alive r) f
  | works w ↦ Work-Alive t u (Reach-Alive r) w
  | stops e ↦
      let a = Reach-Alive r in
      subst Alive (sym e) (record { asked = ground arith; running = a.running })
]
