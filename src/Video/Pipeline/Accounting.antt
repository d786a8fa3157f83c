-- ===== src/Video/Pipeline/Accounting.antt =====
-- What the counters say after any run of samples and bus messages.
use optronic.Common.{
  ℕ, ◌+◌, ◌^◌, ◌≤◌, ◌<◌, ◌≡◌, ◌≢◌, refl, ap, subst, ◌∙◌, Bool, true, ◌&&◌, Bool-cases, inl, inr,
  Option, none, some, List, [], ◌∷◌, length, if◌then◌else◌, arith,
}
use optronic.Video.Frame.{
  FrameView, FlowResult, flow_ok, flow_drop, flow_stop, ProcessResult, kept, dropped, failed,
}
use optronic.Video.Pipeline.Bus.{
  Message, error_message, warning_message, eos_message, qos_message, other_message, dispatch,
}
use optronic.Video.Pipeline.{
  Impl, Sample, Pulled, no_sample, no_buffer, with_buffer, Ledger, balanced, pull_sample,
  map_buffer, make_writable, Transform, is_installed, count_error, view_of, writable_of,
  transformed, answered, add_one, with_map, on_new_sample, PipelineStats, stats,
}

pub data Event : Type 0 where
  sampled : Pulled → Event
  on_bus : Message → Event

-- Messages that say that a frame was late.
abbrev pub late : Event → ℕ
late (sampled p) = 0
late (on_bus (error_message s t)) = 0
late (on_bus (warning_message s)) = 0
late (on_bus (eos_message s)) = 0
late (on_bus (qos_message s)) = 1
late (on_bus (other_message s)) = 0

abbrev pub late_frames : List Event → ℕ
late_frames [] = 0
late_frames (e ∷ es) = late e + late_frames es

-- No more out than in; what came in and what was late is sent or dropped; nothing more than twice.
abbrev pub Accounted : ℕ → PipelineStats → Type 0
Accounted q st =
    (st.frames_out ≤ st.frames_in)
    × (st.frames_in + q ≤ st.frames_out + st.drops)
    × (st.frames_out + st.drops ≤ st.frames_in + q + st.frames_in)

-- After `n` events, of which `q` were such messages.
record Counted (n q : ℕ) (i : Impl) : Type 0 where
  feeds : i.appsrc ≡ true
  seen : i.frames_in + q ≤ n
  sent : i.frames_out ≤ i.frames_in
  accounted : i.frames_in + q ≤ i.frames_out + i.drops
  bounded : i.frames_out + i.drops ≤ i.frames_in + q + i.frames_in

add_one_lem : (n : ℕ) → n + 1 < 2 ^ 64 → add_one n ≡ n + 1
add_one_lem n h = omega (arith, h)

-- Of two states, only `drops` differs, by at most one.
record MoreDrops (i j : Impl) : Type 0 where
  same_source : j.appsrc ≡ i.appsrc
  same_in : j.frames_in ≡ i.frames_in
  same_out : j.frames_out ≡ i.frames_out
  least : i.drops ≤ j.drops
  most : j.drops ≤ i.drops + 1

error-MoreDrops :
    (r : ProcessResult) (i : Impl) → i.drops + 1 < 2 ^ 64 → MoreDrops i (count_error r i)
error-MoreDrops kept i h = record {
  same_source = refl;
  same_in = refl;
  same_out = refl;
  least = omega arith;
  most = omega arith;
}
error-MoreDrops dropped i h = record {
  same_source = refl;
  same_in = refl;
  same_out = refl;
  least = omega arith;
  most = omega arith;
}
error-MoreDrops failed i h = record {
  same_source = refl;
  same_in = refl;
  same_out = refl;
  least = omega (arith, h);
  most = omega (arith, h);
}

transformed-MoreDrops :
    (t : Option Transform) (v : FrameView) (i : Impl)
    → i.drops + 1 < 2 ^ 64
    → MoreDrops i (transformed t v i).1
transformed-MoreDrops none v i h = record {
  same_source = refl;
  same_in = refl;
  same_out = refl;
  least = omega arith;
  most = omega arith;
}
transformed-MoreDrops (some t) v i h = error-MoreDrops (t v (writable_of v)).0 i h

-- One frame more is sent on or dropped.
record OneMore (i j : Impl) : Type 0 where
  same_source : j.appsrc ≡ i.appsrc
  same_in : j.frames_in ≡ i.frames_in
  total : j.frames_out + j.drops ≡ i.frames_out + i.drops + 1
  least : i.frames_out ≤ j.frames_out
  most : j.frames_out ≤ i.frames_out + 1

answered-OneMore :
    (res : FlowResult) (c : Bool) (s : Sample) (i : Impl) (l : Ledger)
    → res ≢ flow_stop
    → i.appsrc ≡ true
    → i.drops + 1 < 2 ^ 64
    → i.frames_out + 1 < 2 ^ 64
    → OneMore i (answered res c s i l).1
answered-OneMore flow_stop c s i l n on h k = absurd (n refl)
answered-OneMore flow_drop c s i l n on h k = record {
  same_source = refl;
  same_in = refl;
  total = omega (arith, h);
  least = omega arith;
  most = omega arith;
}
answered-OneMore flow_ok c s i l n on h k = elim (Bool-cases s.accepted) [
  | inl took ↦
      rw (on, took)
        (record {
          same_source = refl;
          same_in = refl;
          total = omega (arith, k);
          least = omega (arith, k);
          most = omega (arith, k);
        })
  | inr left ↦
      rw (on, left)
        (record {
          same_source = refl;
          same_in = refl;
          total = omega (arith, h);
          least = omega arith;
          most = omega arith;
        })
]

module _ {W : Type 0} (on_frame : FrameView → W → FlowResult × W)
    (transform : Option Transform) where
  -- The counters and the sink after one event; the bus sink only logs.
  abbrev pub happens : Event → Impl × W → Impl × W
  happens (sampled p) (i, w) =
      let (flow, i', l, w') = on_new_sample on_frame transform p i w in (i', w')
  happens (on_bus m) (i, w) = ((dispatch m i).1, w)

  unfoldable pub run : List Event → Impl × W → Impl × W
  run [] s = s
  run (e ∷ es) s = run es (happens e s)

  module _ (never : (v : FrameView) (w : W) → (on_frame v w).0 ≢ flow_stop) where
    with_map-Counted :
        (c : Bool) (s : Sample) (l : Ledger) (w : W) (n q : ℕ) (i : Impl)
        → n < 2 ^ 62
        → Counted n q i
        → Counted (n + 1) q (with_map on_frame transform c s i l w).1
    unfolding with_map
    with_map-Counted c s l w n q i small k =
        let counted : Impl = record i { frames_in = add_one i.frames_in } in
        let one : counted.frames_in ≡ i.frames_in + 1 =
          add_one_lem i.frames_in (omega (arith, small, k.seen)) in
        let few : i.drops + 1 < 2 ^ 64 = omega (arith, small, k.seen, k.bounded) in
        let r = transformed transform (view_of i s) counted in
        let a = transformed-MoreDrops transform (view_of i s) counted few in
        let b =
          answered-OneMore (on_frame r.0 w).0 c s r.1 l (never r.0 w) (a.same_source ∙ k.feeds)
            (omega (arith, a.most, small, k.seen, k.bounded))
            (omega (arith, a.same_out, small, k.seen, k.sent)) in
        record {
          feeds = b.same_source ∙ a.same_source ∙ k.feeds;
          seen = omega (arith, b.same_in, a.same_in, one, k.seen);
          sent = omega (arith, b.same_in, a.same_in, one, b.most, a.same_out, k.sent);
          accounted =
              omega (arith, b.same_in, a.same_in, one, b.total, a.same_out, a.least, k.accounted);
          bounded =
              omega (arith, b.same_in, a.same_in, one, b.total, a.same_out, a.most, k.bounded);
        }

    later : (n q : ℕ) (i : Impl) → Counted n q i → Counted (n + 1) q i
    later n q i k = record {
      feeds = k.feeds;
      seen = omega (arith, k.seen);
      sent = k.sent;
      accounted = k.accounted;
      bounded = k.bounded;
    }

    sampled-Counted :
        (p : Pulled) (w : W) (n q : ℕ) (i : Impl)
        → n < 2 ^ 62
        → Counted n q i
        → Counted (n + 1) q (on_new_sample on_frame transform p i w).1
    unfolding on_new_sample
    sampled-Counted no_sample w n q i small k = later n q i k
    sampled-Counted no_buffer w n q i small k = later n q i k
    sampled-Counted (with_buffer s) w n q i small k =
        let c = is_installed transform && s.copied in
        let own = pull_sample balanced in
        let l = if is_installed transform then make_writable c own else own in
        elim (Bool-cases s.maps) [
          | inl m ↦
              rw m (with_map-Counted c (record s { maps = true }) (map_buffer l) w n q i small k)
          | inr m ↦ rw m (later n q i k)
        ]

    none_late : (n q : ℕ) (i : Impl) → Counted n q i → Counted (n + 1) (0 + q) i
    none_late n q i k = record {
      feeds = k.feeds;
      seen = omega (arith, k.seen);
      sent = k.sent;
      accounted = omega (arith, k.accounted);
      bounded = omega (arith, k.bounded);
    }

    bus-Counted :
        (m : Message) (n q : ℕ) (i : Impl)
        → n < 2 ^ 62
        → Counted n q i
        → Counted (n + 1) (late (on_bus m) + q) (dispatch m i).1
    unfolding dispatch
    bus-Counted (error_message s t) n q i small k = none_late n q i k
    bus-Counted (warning_message s) n q i small k = none_late n q i k
    bus-Counted (eos_message s) n q i small k = none_late n q i k
    bus-Counted (qos_message s) n q i small k =
        let few : i.drops + 1 < 2 ^ 64 = omega (arith, small, k.seen, k.bounded) in
        let one = add_one_lem i.drops few in
        record {
          feeds = k.feeds;
          seen = omega (arith, k.seen);
          sent = k.sent;
          accounted = omega (arith, one, k.accounted);
          bounded = omega (arith, one, k.bounded);
        }
    bus-Counted (other_message s) n q i small k = none_late n q i k

    run-Counted :
        (es : List Event) (n q : ℕ) (i : Impl) (w : W)
        → n + length es ≤ 2 ^ 62
        → Counted n q i
        → Counted (n + length es) (q + late_frames es) (run es (i, w)).0
    unfolding run
    run-Counted [] n q i w small k =
        subst (λ m. Counted m (q + 0) i) (omega arith) (subst (λ r. Counted n r i) (omega arith) k)
    run-Counted (sampled p ∷ es) n q i w small k =
        let r = on_new_sample on_frame transform p i w in
        let next =
          run-Counted es (n + 1) q r.1 r.3 (omega (arith, small))
            (sampled-Counted p w n q i (omega (arith, small)) k) in
        subst (λ m. Counted m (q + late_frames (sampled p ∷ es)) (run es (r.1, r.3)).0)
          (omega arith)
          (subst (λ u. Counted (n + 1 + length es) u (run es (r.1, r.3)).0) (omega arith) next)
    run-Counted (on_bus m ∷ es) n q i w small k =
        let j = (dispatch m i).1 in
        let next =
          run-Counted es (n + 1) (late (on_bus m) + q) j w (omega (arith, small))
            (bus-Counted m n q i (omega (arith, small)) k) in
        subst (λ u. Counted u (q + late_frames (on_bus m ∷ es)) (run es (j, w)).0) (omega arith)
          (subst (λ u. Counted (n + 1 + length es) u (run es (j, w)).0) (omega arith) next)

    -- For every transform and every sink that never answers `stop`, and a graph with an `appsrc` whose
    -- counters are 0: after any run of at most 2 ^ 62 samples and bus messages, no more frames went out
    -- than came in, every frame that came in and every message of a late frame shows as sent or as
    -- dropped, and no frame counts more than twice.
    pub run-Accounted :
        (es : List Event) (i : Impl) (w : W)
        → length es ≤ 2 ^ 62
        → i.appsrc ≡ true
        → stats i ≡ record { frames_in = 0; frames_out = 0; drops = 0 }
        → Accounted (late_frames es) (stats (run es (i, w)).0)
    run-Accounted es i w small on zeros =
        let none_in : i.frames_in ≡ 0 = ap (λ (st : PipelineStats). st.frames_in) zeros in
        let none_out : i.frames_out ≡ 0 = ap (λ (st : PipelineStats). st.frames_out) zeros in
        let none_dropped : i.drops ≡ 0 = ap (λ (st : PipelineStats). st.drops) zeros in
        let start : Counted 0 0 i = record {
          feeds = on;
          seen = omega (arith, none_in);
          sent = omega (arith, none_in, none_out);
          accounted = omega (arith, none_in);
          bounded = omega (arith, none_out, none_dropped);
        } in
        let k = run-Counted es 0 0 i w (omega (arith, small)) start in
        (k.sent, omega (arith, k.accounted), omega (arith, k.bounded))
