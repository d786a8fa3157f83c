-- ===== src/Detect/Mailbox/Sound.antt =====
-- What holds between two steps of the mailbox's threads.
use optronic.Common.{
  ℕ, ◌*◌, ◌≤◌, ◌≡◌, refl, sym, ap, ◌∙◌, subst, Bool, true, false, not, ◌&&◌, List, [], ◌∷◌, ◌++◌,
  append-nil, length, take, take-append, Bool-cases, inl, inr, ◌==◌, if◌then◌else◌, arith,
}
use optronic.Detect.Copy.{length-resize, rows_of}
use optronic.Detect.Mailbox.{
  Picture, Streaming, outside, checking, copying, Worker, unstarted, waiting, awake, detecting,
  done_with, clearing, ended, Owner, nobody, by, streaming_thread, worker_thread, System, initial,
  started, stride_of, Usable, in_mailbox, sized,
}

abbrev pub held_by_streaming : Owner → Bool
held_by_streaming nobody = false
held_by_streaming (by streaming_thread) = true
held_by_streaming (by worker_thread) = false

abbrev pub held_by_worker : Owner → Bool
held_by_worker nobody = false
held_by_worker (by streaming_thread) = false
held_by_worker (by worker_thread) = true

abbrev pub inside : Streaming → Bool
inside outside = false
inside (checking v) = true
inside (copying v row) = true

abbrev pub locking : Worker → Bool
locking awake = true
locking clearing = true
locking unstarted = false
locking waiting = false
locking (detecting p) = false
locking done_with = false
locking ended = false

-- The worker has taken a frame and not cleared `pending_` yet.
abbrev pub busy : Worker → Bool
busy unstarted = false
busy waiting = false
busy awake = false
busy (detecting p) = true
busy done_with = true
busy clearing = true
busy ended = false

-- Accepted pictures that were not detected: one or none.
abbrev pub undelivered : Worker → Bool → Picture → List Picture
undelivered unstarted b p = if b then p ∷ [] else []
undelivered waiting b p = if b then p ∷ [] else []
undelivered awake b p = if b then p ∷ [] else []
undelivered (detecting q) b p = q ∷ []
undelivered done_with b p = []
undelivered clearing b p = []
undelivered ended b p = if b then p ∷ [] else []

-- How far a copy is.
abbrev pub Copied : Streaming → List ℕ → Bool → Type 0
Copied outside box b = Unit
Copied (checking v) box b = Usable v
Copied (copying v row) box b =
    Usable v
    × (b ≡ false)
    × (row ≤ v.height)
    × (length box ≡ v.height * v.width)
    × (take (row * v.width) box ≡ rows_of v.data_bytes (stride_of v) v.width row)

pub record Sound (s : System) : Type 0 where
  pub streaming_lock : held_by_streaming s.owner ≡ inside s.streaming
  pub worker_lock : held_by_worker s.owner ≡ locking s.worker
  pub busy_pending : busy s.worker && not s.pending ≡ false
  pub copied : Copied s.streaming s.mailbox s.pending
  pub history : s.accepted ≡ s.detected ++ undelivered s.worker s.pending (in_mailbox s)

pub initial-Sound : Sound initial
initial-Sound = record {
  streaming_lock = refl;
  worker_lock = refl;
  busy_pending = refl;
  copied = tt;
  history = refl;
}

pub started-locking : (p : Worker) → locking p ≡ locking (started p)
started-locking unstarted = refl
started-locking waiting = refl
started-locking awake = refl
started-locking (detecting q) = refl
started-locking done_with = refl
started-locking clearing = refl
started-locking ended = refl

pub started-busy : (p : Worker) → busy (started p) ≡ busy p
started-busy unstarted = refl
started-busy waiting = refl
started-busy awake = refl
started-busy (detecting q) = refl
started-busy done_with = refl
started-busy clearing = refl
started-busy ended = refl

pub started-undelivered :
    (p : Worker) (b : Bool) (q : Picture) → undelivered p b q ≡ undelivered (started p) b q
started-undelivered unstarted b q = refl
started-undelivered waiting b q = refl
started-undelivered awake b q = refl
started-undelivered (detecting p) b q = refl
started-undelivered done_with b q = refl
started-undelivered clearing b q = refl
started-undelivered ended b q = refl

-- With no frame pending there is none to deliver.
pub undelivered-none :
    (p : Worker) (q : Picture) → busy p && true ≡ false → undelivered p false q ≡ []
undelivered-none unstarted q h = refl
undelivered-none waiting q h = refl
undelivered-none awake q h = refl
undelivered-none (detecting p) q h = absurd (ground (arith, h))
undelivered-none done_with q h = refl
undelivered-none clearing q h = refl
undelivered-none ended q h = refl

pub undelivered-one :
    (p : Worker) (q : Picture) → busy p && true ≡ false → undelivered p true q ≡ q ∷ []
undelivered-one unstarted q h = refl
undelivered-one waiting q h = refl
undelivered-one awake q h = refl
undelivered-one (detecting p) q h = absurd (ground (arith, h))
undelivered-one done_with q h = absurd (ground (arith, h))
undelivered-one clearing q h = absurd (ground (arith, h))
undelivered-one ended q h = refl

pub one_holder : (o : Owner) → held_by_streaming o ≡ true → false ≡ held_by_worker o
one_holder nobody h = refl
one_holder (by streaming_thread) h = refl
one_holder (by worker_thread) h = absurd (ground (arith, h))

pub one_holder' : (o : Owner) → held_by_worker o ≡ true → false ≡ held_by_streaming o
one_holder' nobody h = refl
one_holder' (by streaming_thread) h = absurd (ground (arith, h))
one_holder' (by worker_thread) h = refl

-- While the streaming thread has the mutex, the worker does not.
pub worker_out :
    {s : System}
    → Sound s
    → {p : Streaming} → s.streaming ≡ p
    → inside p ≡ true
    → false ≡ locking s.worker
worker_out {s} i e h = one_holder s.owner (i.streaming_lock ∙ ap inside e ∙ h) ∙ i.worker_lock

pub so_far :
    {s : System} → Sound s → {p : Streaming} → s.streaming ≡ p → Copied p s.mailbox s.pending
so_far {s} i e = subst (λ p. Copied p s.mailbox s.pending) e i.copied

pub nothing_left :
    (p : Worker) (b : Bool) (q : Picture)
    → b ≡ false
    → busy p && not b ≡ false
    → undelivered p b q ≡ []
nothing_left p b q none h =
    ap (λ (c : Bool). undelivered p c q) none
    ∙ undelivered-none p q (ap (λ (c : Bool). busy p && not c) (sym none) ∙ h)

-- With no frame pending, everything accepted was detected, whatever the mailbox holds.
pub history_idle : {s : System} → Sound s → s.pending ≡ false → s.accepted ≡ s.detected
history_idle {s} i none =
    i.history
    ∙ ap (λ (l : List Picture). s.detected ++ l)
        (nothing_left s.worker s.pending (in_mailbox s) none i.busy_pending)
    ∙ append-nil s.detected

pub length-sized : (need : ℕ) (box : List ℕ) → length (sized need box) ≡ need
length-sized need box = elim (Bool-cases (length box == need)) [
  | inl t ↦ rw t (ground arith)
  | inr f ↦ rw f (length-resize need box)
]

pub take_all : (n : ℕ) (xs : List ℕ) → length xs ≡ n → take n xs ≡ xs
take_all n xs e = ap (take n) (sym (append-nil xs)) ∙ take-append n xs [] (sym e)

pub worker_as :
    {s : System}
    → Sound s
    → {p : Worker} → s.worker ≡ p
    → s.accepted ≡ s.detected ++ undelivered p s.pending (in_mailbox s)
worker_as {s} i e =
    subst (λ p. s.accepted ≡ s.detected ++ undelivered p s.pending (in_mailbox s)) e i.history

pub busy_as : {s : System} → Sound s → {p : Worker} → s.worker ≡ p → busy p && not s.pending ≡ false
busy_as {s} i e = subst (λ p. busy p && not s.pending ≡ false) e i.busy_pending

-- While the worker has the mutex, the streaming thread does not.
pub streaming_out :
    {s : System}
    → Sound s
    → {p : Worker} → s.worker ≡ p
    → locking p ≡ true
    → false ≡ inside s.streaming
streaming_out {s} i e h = one_holder' s.owner (i.worker_lock ∙ ap locking e ∙ h) ∙ i.streaming_lock

pub length-undelivered : (p : Worker) (b : Bool) (q : Picture) → length (undelivered p b q) ≤ 1
length-undelivered unstarted b q = ground arith
length-undelivered waiting b q = ground arith
length-undelivered awake b q = ground arith
length-undelivered (detecting p) b q = omega arith
length-undelivered done_with b q = omega arith
length-undelivered clearing b q = omega arith
length-undelivered ended b q = ground arith
