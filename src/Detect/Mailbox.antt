-- ===== src/Detect/Mailbox.antt =====
-- The one-slot mailbox between the streaming thread (`offer`) and the worker (the lambda of
-- `start_worker`), yolo.cpp, as interleavings of their steps: each takes the mutex, what it holds is
-- done under it, the copy of a row is one step, and `detect` is the frame that it is given. `try_lock`
-- may fail, the condition variable may wake up, and a stop may be asked for, at any time. Coordinates
-- are `int` in the source, so a frame is below 2 ^ 31 in both, and it holds its rows.
pub mod Sound
pub mod Delivery
pub mod Alive
pub mod Progress
pub mod Join
mod Tests
use optronic.Common.{
  ℕ, suc, ◌+◌, ◌*◌, ◌^◌, ◌<◌, ◌≡◌, Bool, true, false, not, List, [], ◌∷◌, ◌++◌, length, ◌==◌,
  if◌then◌else◌,
}
use optronic.Video.Frame.{FrameView, no_frame}
use optronic.Detect.Copy.{resize, copy_row, rows_of, Holds}

-- What the network is given.
pub record Picture : Type 0 where
  pub bytes : List ℕ
  pub w : ℕ
  pub h : ℕ

-- Where the streaming thread stands in `offer`.
pub data Streaming : Type 0 where
  outside : Streaming
  checking : FrameView → Streaming
  copying : FrameView → ℕ → Streaming

-- Where the worker stands: not started, at the head of its loop, awake with the mutex held, with its
-- own copy, done with it, with the mutex held again, and returned.
pub data Worker : Type 0 where
  unstarted waiting awake : Worker
  detecting : Picture → Worker
  done_with clearing ended : Worker

pub data Thread : Type 0 where
  streaming_thread worker_thread : Thread

-- The mutex has an owner or none. The last two say which pictures were accepted so far, as the
-- caller passed them, and which the network was given.
pub data Owner : Type 0 where
  nobody : Owner
  by : Thread → Owner

pub record System : Type 0 where
  pub owner : Owner
  pub mailbox : List ℕ
  pub mailbox_w : ℕ
  pub mailbox_h : ℕ
  pub pending : Bool
  pub stop : Bool
  pub streaming : Streaming
  pub worker : Worker
  pub accepted : List Picture
  pub detected : List Picture

abbrev pub initial : System
initial = record {
  owner = nobody;
  mailbox = [];
  mailbox_w = 0;
  mailbox_h = 0;
  pending = false;
  stop = false;
  streaming = outside;
  worker = unstarted;
  accepted = [];
  detected = [];
}

abbrev pub started : Worker → Worker
started unstarted = waiting
started p = p

abbrev pub stride_of : FrameView → ℕ
stride_of v = if v.stride == 0 then v.width else v.stride

abbrev pub Usable : FrameView → Type 0
Usable v =
    (v.width < 2 ^ 31) × (v.height < 2 ^ 31) × Holds v.data_bytes (stride_of v) v.width v.height

-- The picture in a view: its rows without the padding.
abbrev pub luma : FrameView → Picture
luma v = record {
  bytes = rows_of v.data_bytes (stride_of v) v.width v.height;
  w = v.width;
  h = v.height;
}

abbrev pub in_mailbox : System → Picture
in_mailbox s = record { bytes = s.mailbox; w = s.mailbox_w; h = s.mailbox_h }

abbrev pub sized : ℕ → List ℕ → List ℕ
sized need box = if length box == need then box else resize need box

-- The view that `detect` gets.
abbrev pub view_of : Picture → FrameView
view_of p = record no_frame { data_bytes = p.bytes; width = p.w; height = p.h; stride = p.w }

pub data Offer (s t : System) : Type 0 where
  lock_failed :
      (v : FrameView)
      → s.streaming ≡ outside
      → t ≡ record s { worker = started s.worker }
      → Offer s t
  lock_taken :
      (v : FrameView)
      → s.streaming ≡ outside
      → Usable v
      → s.owner ≡ nobody
      → t ≡ record s {
        worker = started s.worker;
        owner = by streaming_thread;
        streaming = checking v;
      }
      → Offer s t
  refuse :
      (v : FrameView)
      → s.streaming ≡ checking v
      → s.pending ≡ true
      → t ≡ record s { owner = nobody; streaming = outside }
      → Offer s t
  begin_copy :
      (v : FrameView)
      → s.streaming ≡ checking v
      → s.pending ≡ false
      → t ≡ record s { mailbox = sized (v.width * v.height) s.mailbox; streaming = copying v 0 }
      → Offer s t
  copy_one :
      (v : FrameView) (row : ℕ)
      → s.streaming ≡ copying v row
      → row < v.height
      → t ≡ record s {
        mailbox = copy_row v.data_bytes (stride_of v) v.width row s.mailbox;
        streaming = copying v (suc row);
      }
      → Offer s t
  publish :
      (v : FrameView) (row : ℕ)
      → s.streaming ≡ copying v row
      → row ≡ v.height
      → t ≡ record s {
        mailbox_w = v.width;
        mailbox_h = v.height;
        pending = true;
        owner = nobody;
        streaming = outside;
        accepted = s.accepted ++ luma v ∷ [];
      }
      → Offer s t

pub data Work (s t : System) : Type 0 where
  loop_ends : s.worker ≡ waiting → s.stop ≡ true → t ≡ record s { worker = ended } → Work s t
  wake :
      s.worker ≡ waiting
      → s.stop ≡ false
      → s.owner ≡ nobody
      → t ≡ record s { owner = by worker_thread; worker = awake }
      → Work s t
  awake_stop :
      s.worker ≡ awake → s.stop ≡ true → t ≡ record s { owner = nobody; worker = ended } → Work s t
  nothing_there :
      s.worker ≡ awake
      → s.stop ≡ false
      → s.pending ≡ false
      → t ≡ record s { owner = nobody; worker = waiting }
      → Work s t
  take_frame :
      s.worker ≡ awake
      → s.stop ≡ false
      → s.pending ≡ true
      → t ≡ record s { owner = nobody; worker = detecting (in_mailbox s) }
      → Work s t
  detect_frame :
      (p : Picture)
      → s.worker ≡ detecting p
      → t ≡ record s { worker = done_with; detected = s.detected ++ p ∷ [] }
      → Work s t
  lock_again :
      s.worker ≡ done_with
      → s.owner ≡ nobody
      → t ≡ record s { owner = by worker_thread; worker = clearing }
      → Work s t
  clear :
      s.worker ≡ clearing
      → t ≡ record s { owner = nobody; pending = false; worker = waiting }
      → Work s t

pub data Step (s t : System) : Type 0 where
  streams : Offer s t → Step s t
  works : Work s t → Step s t
  -- `stop_worker`.
  stops : t ≡ record s { stop = true } → Step s t

pub data Reach (s : System) : System → Type 0 where
  here : Reach s s
  next : {t u : System} → Reach s t → Step t u → Reach s u
