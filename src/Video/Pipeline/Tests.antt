-- ===== src/Video/Pipeline/Tests.antt =====
-- A graph with an `appsrc` that refuses its second frame, and a transform on a shared buffer.
use optronic.Common.{ℕ, suc, ◌≡◌, refl, true, false, none, some, List, [], ◌∷◌, arith}
use optronic.Common.Text.{codes}
use optronic.Video.Frame.{FrameView, FlowResult, flow_ok, failed, pass_through}
use optronic.Video.Pipeline.{Impl, Sample, with_buffer, no_buffer, Transform, on_new_sample, stats}
use optronic.Video.Pipeline.Bus.{qos_message}
use optronic.Video.Handles.{no_handles}
use optronic.Video.Pipeline.Lifecycle.{Parsed, the_sink, build}
use optronic.Video.Pipeline.Lifecycle.Released.{
  released_times, taken_times, InHand, ended, build-released,
}
use optronic.Video.Pipeline.Balance.{held, on_new_sample-held}
use optronic.Video.Pipeline.Accounting.{
  Event, sampled, on_bus, run, late_frames, Accounted, run-Accounted,
}
use optronic.Video.Tests.{streamed}

abbrev idle : Impl
idle = record {
  spec = streamed;
  appsrc = true;
  callbacks = true;
  playing = true;
  bus_thread = true;
  frames_in = 0;
  frames_out = 0;
  drops = 0;
}

abbrev shared : Sample
shared = record {
  bytes = 1 ∷ 2 ∷ [];
  copied = true;
  maps = true;
  pts = none;
  caps = some (some (codes "NV12"));
  accepted = true;
}

-- Keeps every frame and counts it.
abbrev counting : FrameView → ℕ → FlowResult × ℕ
counting v n = (flow_ok, suc n)

abbrev broken : Transform
broken v out = (failed, out)

on_new_sample-held_example :
    (on_new_sample counting (some pass_through) (with_buffer shared) idle 0).2 ≡ held true
on_new_sample-held_example =
    on_new_sample-held counting (some pass_through) (with_buffer shared) idle 0

abbrev events : List Event
events =
    sampled (with_buffer shared)
    ∷ sampled (with_buffer (record shared { accepted = false }))
    ∷ sampled no_buffer
    ∷ on_bus (qos_message none)
    ∷ []

-- The transform fails twice, one frame is refused and one was late.
three_lost :
    stats (run counting (some broken) events (idle, 0)).0
    ≡ record { frames_in = 2; frames_out = 1; drops = 4 }
unfolding run optronic.Video.Pipeline.on_new_sample optronic.Video.Pipeline.with_map
    optronic.Video.Pipeline.Bus.dispatch
three_lost = refl

run-Accounted_example :
    Accounted (late_frames events) (stats (run counting (some broken) events (idle, 0)).0)
run-Accounted_example =
    run-Accounted counting (some broken) (λ v w e. ground (arith, e)) events idle 0 (omega arith)
      refl refl

-- A graph with a sink and no source.
abbrev sink_only : Parsed
sink_only = record { pipeline = true; error = false; sink = true; src = false }

build-released_example :
    let c = ended (build streamed sink_only no_handles) in
    (released_times the_sink c.unrefs ≡ taken_times the_sink c.taken)
    × (◌≡◌ {A = ℕ} c.errors 0)
    × InHand (build streamed sink_only no_handles)
build-released_example = build-released streamed sink_only the_sink
