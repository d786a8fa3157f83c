-- ===== src/Detect/Mailbox/Tests.antt =====
-- One frame of 2 by 1 pixels, whose row is padded, offered to a worker that never ran.
use optronic.Common.{◌+◌, ℕ, ◌≤◌, ◌≡◌, refl, true, List, [], ◌∷◌, ◌++◌, ◌⊎◌, length, arith}
use optronic.Video.Frame.{FrameView, no_frame}
use optronic.Detect.Mailbox.{
  outside, System, Picture, initial, luma, Usable, Reach, here, next, streams, lock_taken,
  begin_copy, copy_one, publish, stops, Work, loop_ends, ended,
}
use optronic.Detect.Mailbox.Sound.{inside}
use optronic.Detect.Mailbox.Join.{Runs, same, own, stop_worker-Ends}
use optronic.Detect.Mailbox.Delivery.{Reach-delivered}
use optronic.Detect.Mailbox.Progress.{Worked, Served, Reach-Served}

abbrev padded : FrameView
padded = record no_frame { data_bytes = 10 ∷ 20 ∷ 99 ∷ []; width = 2; height = 1; stride = 3 }

usable : Usable padded
usable = (omega arith, omega arith, (omega arith, omega arith))

abbrev offered : System
offered = record initial {
  mailbox = 10 ∷ 20 ∷ [];
  mailbox_w = 2;
  mailbox_h = 1;
  pending = true;
  worker = optronic.Detect.Mailbox.waiting;
  accepted = luma padded ∷ [];
}

offered-Reach : Reach initial offered
offered-Reach =
    next
      (next
        (next (next here (streams (lock_taken padded refl usable refl refl)))
          (streams (begin_copy padded refl refl refl)))
        (streams (copy_one padded 0 refl (omega arith) refl)))
      (streams (publish padded 1 refl refl refl))

Reach-delivered_example :
    (rest : List Picture) × (offered.accepted ≡ offered.detected ++ rest) × (length rest ≤ 1)
Reach-delivered_example = Reach-delivered offered-Reach

Reach-Served_example : (n : ℕ) × (n ≤ 5) × Served n offered
Reach-Served_example = Reach-Served offered-Reach refl refl refl

abbrev asked : System
asked = record offered { stop = true }

abbrev joined : System
joined = record asked { worker = ended }

stop_worker-Ends_example :
    (1 ≤ 4)
    × ((inside joined.streaming ≡ true)
        ⊎ ((joined.worker ≡ ended) ⊎ ((u : System) × Work joined u)))
    × ((m : ℕ) × (t' : System) × (u : System) × Runs joined 0 t'
        × (t'.streaming ≡ outside)
        × Worked m t' u
        × (u.worker ≡ ended)
        × (1 + m ≤ 4))
stop_worker-Ends_example =
    stop_worker-Ends (next offered-Reach (stops refl)) refl refl 1 joined
      (own same (loop_ends refl refl refl))
