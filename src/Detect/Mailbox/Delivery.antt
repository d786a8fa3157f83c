-- ===== src/Detect/Mailbox/Delivery.antt =====
-- What the worker gives to the network is what `offer` accepted.
use optronic.Common.{
  ℕ, suc, ◌*◌, ◌≤◌, ◌<◌, ◌≡◌, refl, sym, ap, ◌∙◌, subst, Bool, true, false, not, ◌&&◌, List, [],
  ◌∷◌, ◌++◌, append-nil, length, take, arith,
}
use optronic.Video.Frame.{FrameView}
use optronic.Detect.Copy.{copy_row, rows_of, copy_row-rows}
use optronic.Detect.Mailbox.{
  Picture, Streaming, outside, checking, copying, awake, nobody, by, streaming_thread, System,
  initial, started, stride_of, Usable, in_mailbox, sized, luma, Offer, lock_failed, lock_taken,
  refuse, begin_copy, copy_one, publish, Work, loop_ends, wake, awake_stop, nothing_there,
  take_frame, detect_frame, lock_again, clear, Step, streams, works, stops, Reach, here, next,
}
use optronic.Detect.Mailbox.Sound.{
  length-undelivered, held_by_streaming, held_by_worker, inside, locking, busy, undelivered, Copied,
  initial-Sound, started-locking, started-busy, started-undelivered, undelivered-one, worker_out,
  so_far, nothing_left, history_idle, length-sized, take_all, worker_as, busy_as, streaming_out,
  Sound,
}

begin_copy-Sound :
    (s : System) (v : FrameView)
    → Sound s
    → s.streaming ≡ checking v
    → s.pending ≡ false
    → Sound (record s { mailbox = sized (v.width * v.height) s.mailbox; streaming = copying v 0 })
begin_copy-Sound s v i e none =
    let box = sized (v.width * v.height) s.mailbox in
    let l : length box ≡ v.height * v.width =
      length-sized (v.width * v.height) s.mailbox ∙ omega arith in
    let z : 0 * v.width ≡ 0 = omega arith in
    record {
      streaming_lock = i.streaming_lock ∙ ap inside e;
      worker_lock = i.worker_lock;
      busy_pending = i.busy_pending;
      copied = (so_far i e, none, omega arith, l, ap (λ (n : ℕ). take n box) z);
      history =
          history_idle i none
          ∙ sym (
              ap (λ (l : List Picture). s.detected ++ l)
                (nothing_left s.worker s.pending
                  (record { bytes = box; w = s.mailbox_w; h = s.mailbox_h }) none i.busy_pending)
              ∙ append-nil s.detected);
    }

copy_one-Sound :
    (s : System) (v : FrameView) (row : ℕ)
    → Sound s
    → s.streaming ≡ copying v row
    → row < v.height
    → Sound (record s {
      mailbox = copy_row v.data_bytes (stride_of v) v.width row s.mailbox;
      streaming = copying v (suc row);
    })
copy_one-Sound s v row i e l =
    let box = copy_row v.data_bytes (stride_of v) v.width row s.mailbox in
    let (u, none, le, size, rows) = so_far i e in
    let (size', rows') =
      copy_row-rows v.data_bytes (stride_of v) v.width v.height row s.mailbox u.2 (omega arith) size
        rows in
    record {
      streaming_lock = i.streaming_lock ∙ ap inside e;
      worker_lock = i.worker_lock;
      busy_pending = i.busy_pending;
      copied = (u, none, omega arith, size', rows');
      history =
          history_idle i none
          ∙ sym (
              ap (λ (l : List Picture). s.detected ++ l)
                (nothing_left s.worker s.pending
                  (record { bytes = box; w = s.mailbox_w; h = s.mailbox_h }) none i.busy_pending)
              ∙ append-nil s.detected);
    }

publish-Sound :
    (s : System) (v : FrameView) (row : ℕ)
    → Sound s
    → s.streaming ≡ copying v row
    → row ≡ v.height
    → Sound (record s {
      mailbox_w = v.width;
      mailbox_h = v.height;
      pending = true;
      owner = nobody;
      streaming = outside;
      accepted = s.accepted ++ luma v ∷ [];
    })
publish-Sound s v row i e done =
    let (u, none, le, size, rows) = so_far i e in
    let whole : rows_of v.data_bytes (stride_of v) v.width v.height ≡ s.mailbox =
      subst (λ n. rows_of v.data_bytes (stride_of v) v.width n ≡ take (n * v.width) s.mailbox) done
        (sym rows)
      ∙ take_all (v.height * v.width) s.mailbox size in
    let same : luma v ≡ record { bytes = s.mailbox; w = v.width; h = v.height } =
      ap (λ (xs : List ℕ). let p : Picture = record { bytes = xs; w = v.width; h = v.height } in p)
        whole in
    let idle : busy s.worker && true ≡ false =
      ap (λ (c : Bool). busy s.worker && not c) (sym none) ∙ i.busy_pending in
    record {
      streaming_lock = refl;
      worker_lock = worker_out i e refl;
      busy_pending = ground (arith, idle);
      copied = tt;
      history =
          ap (λ (xs : List Picture). xs ++ luma v ∷ []) (history_idle i none)
          ∙ ap (λ (l : List Picture). s.detected ++ l)
              (ap (λ (p : Picture). p ∷ []) same
                ∙ sym (
                    undelivered-one s.worker
                      (record { bytes = s.mailbox; w = v.width; h = v.height }) idle));
    }

uncopied : (p : Streaming) (box : List ℕ) (b : Bool) → Copied p box b → Copied p box false
uncopied outside box b c = tt
uncopied (checking v) box b c = c
uncopied (copying v row) box b c = (c.0, refl, c.2, c.3, c.4)

lock_taken-Sound :
    (s : System) (v : FrameView)
    → Sound s
    → s.streaming ≡ outside
    → Usable v
    → s.owner ≡ nobody
    → Sound (record s {
      worker = started s.worker;
      owner = by streaming_thread;
      streaming = checking v;
    })
lock_taken-Sound s v i e u free = record {
  streaming_lock = refl;
  worker_lock = ap held_by_worker (sym free) ∙ i.worker_lock ∙ started-locking s.worker;
  busy_pending = ap (λ (b : Bool). b && not s.pending) (started-busy s.worker) ∙ i.busy_pending;
  copied = u;
  history =
      i.history
      ∙ ap (λ (l : List Picture). s.detected ++ l)
          (started-undelivered s.worker s.pending (in_mailbox s));
}

offer-Sound : (s t : System) → Sound s → Offer s t → Sound t
offer-Sound s t i o = elim o [
  | lock_failed v e r ↦ subst Sound (sym r) (record {
    streaming_lock = i.streaming_lock;
    worker_lock = i.worker_lock ∙ started-locking s.worker;
    busy_pending = ap (λ (b : Bool). b && not s.pending) (started-busy s.worker) ∙ i.busy_pending;
    copied = i.copied;
    history =
        i.history
        ∙ ap (λ (l : List Picture). s.detected ++ l)
            (started-undelivered s.worker s.pending (in_mailbox s));
  })
  | lock_taken v e u free r ↦ subst Sound (sym r) (lock_taken-Sound s v i e u free)
  | refuse v e p r ↦ subst Sound (sym r) (record {
    streaming_lock = refl;
    worker_lock = worker_out i e refl;
    busy_pending = i.busy_pending;
    copied = tt;
    history = i.history;
  })
  | begin_copy v e p r ↦ subst Sound (sym r) (begin_copy-Sound s v i e p)
  | copy_one v row e l r ↦ subst Sound (sym r) (copy_one-Sound s v row i e l)
  | publish v row e l r ↦ subst Sound (sym r) (publish-Sound s v row i e l)
]

pub Work-Sound : (s t : System) → Sound s → Work s t → Sound t
Work-Sound s t i o = elim o [
  | loop_ends e st r ↦ subst Sound (sym r) (record {
    streaming_lock = i.streaming_lock;
    worker_lock = i.worker_lock ∙ ap locking e;
    busy_pending = refl;
    copied = i.copied;
    history = worker_as i e;
  })
  | wake e st free r ↦ subst Sound (sym r) (record {
    streaming_lock = ap held_by_streaming (sym free) ∙ i.streaming_lock;
    worker_lock = refl;
    busy_pending = refl;
    copied = i.copied;
    history = worker_as i e;
  })
  | awake_stop e st r ↦ subst Sound (sym r) (record {
    streaming_lock = streaming_out i e refl;
    worker_lock = refl;
    busy_pending = refl;
    copied = i.copied;
    history = worker_as i e;
  })
  | nothing_there e st p r ↦ subst Sound (sym r) (record {
    streaming_lock = streaming_out i e refl;
    worker_lock = refl;
    busy_pending = refl;
    copied = i.copied;
    history = worker_as i e;
  })
  | take_frame e st p r ↦ subst Sound (sym r) (record {
    streaming_lock = streaming_out i e refl;
    worker_lock = refl;
    busy_pending = ap not p;
    copied = i.copied;
    history = worker_as i e ∙ ap (λ (b : Bool). s.detected ++ undelivered awake b (in_mailbox s)) p;
  })
  | detect_frame p e r ↦ subst Sound (sym r) (record {
    streaming_lock = i.streaming_lock;
    worker_lock = i.worker_lock ∙ ap locking e;
    busy_pending = busy_as i e;
    copied = i.copied;
    history = worker_as i e ∙ sym (append-nil (s.detected ++ p ∷ []));
  })
  | lock_again e free r ↦ subst Sound (sym r) (record {
    streaming_lock = ap held_by_streaming (sym free) ∙ i.streaming_lock;
    worker_lock = refl;
    busy_pending = busy_as i e;
    copied = i.copied;
    history = worker_as i e;
  })
  | clear e r ↦ subst Sound (sym r) (record {
    streaming_lock = streaming_out i e refl;
    worker_lock = refl;
    busy_pending = refl;
    copied = uncopied s.streaming s.mailbox s.pending i.copied;
    history = worker_as i e;
  })
]

Step-Sound : (s t : System) → Sound s → Step s t → Sound t
Step-Sound s t i o = elim o [
  | streams f ↦ offer-Sound s t i f
  | works w ↦ Work-Sound s t i w
  | stops r ↦ subst Sound (sym r) (record {
    streaming_lock = i.streaming_lock;
    worker_lock = i.worker_lock;
    busy_pending = i.busy_pending;
    copied = i.copied;
    history = i.history;
  })
]

pub Reach-Sound : {s : System} → Reach initial s → Sound s
Reach-Sound here = initial-Sound
Reach-Sound (next r o) = Step-Sound _ _ (Reach-Sound r) o

-- In every state that the streaming thread, the worker and a stop request can reach, in any order:
-- the pictures that `offer` accepted, each the rows of a frame without their padding, are those that
-- the network was given, in the same order, followed by at most one more.
pub Reach-delivered :
    {s : System}
    → Reach initial s
    → (rest : List Picture) × (s.accepted ≡ s.detected ++ rest) × (length rest ≤ 1)
Reach-delivered {s} r =
    let i = Reach-Sound r in
    (
      undelivered s.worker s.pending (in_mailbox s),
      i.history,
      length-undelivered s.worker s.pending (in_mailbox s),
    )
