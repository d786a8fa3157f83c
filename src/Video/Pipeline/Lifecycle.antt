-- ===== src/Video/Pipeline/Lifecycle.antt =====
-- `Pipeline::create`, `play`, `stop` and the destructor, pipeline.cpp and pipeline.hpp, with the
-- references that they hold.
pub mod Released
use optronic.Common.{ℕ, ◌+◌, ◌-◌, Bool, true, false, not, ◌||◌, none, some, if◌then◌else◌}
use optronic.Common.Text.{Text}
use optronic.Core.Error.{vid_build, vid_state}
use optronic.Core.Expected.{Expected, Status, done, fail, ok, err}
use optronic.Video.{PipelineSpec, launch_string}
use optronic.Video.Handles.{Handles, no_handles, pointer, take, release, gst_element}
use optronic.Video.Pipeline.{Impl}

-- `gst_parse_launch`, and whether the graph has elements named "out" and "in".
pub record Parsed : Type 0 where
  pub pipeline : Bool
  pub error : Bool
  pub sink : Bool
  pub src : Bool

-- The Impl that owns the graph; it borrows the sink and the source from it.
abbrev pub new_impl : PipelineSpec → Bool → Impl
new_impl spec appsrc = record {
  spec = spec;
  appsrc = appsrc;
  callbacks = true;
  playing = false;
  bus_thread = false;
  frames_in = 0;
  frames_out = 0;
  drops = 0;
}

-- The handles that `create` asks for.
abbrev pub the_pipeline : ℕ
the_pipeline = 0

abbrev pub the_sink : ℕ
the_sink = 1

abbrev pub the_src : ℕ
the_src = 2

-- `create`, by how GStreamer answers to the launch text, with the handles that it takes and gives back.
unfoldable pub build : PipelineSpec → Parsed → Handles → Expected Impl × Handles
build spec p c =
    let pipeline = pointer p.pipeline the_pipeline in
    let c1 = take pipeline (if p.error then record c { errors = c.errors + 1 } else c) in
    if not p.pipeline || p.error
    then (
      fail vid_build "Pipeline::create",
      release gst_element pipeline (if p.error then record c1 { errors = c1.errors - 1 } else c1),
    )
    else (let sink = pointer p.sink the_sink in
        let src = pointer p.src the_src in
        let c2 = take src (take sink c1) in
        let c3 = release gst_element sink (release gst_element src c2) in
        if not p.sink
        then (fail vid_build "Pipeline::create", release gst_element pipeline c3)
        else (ok (new_impl spec p.src), c3))

abbrev pub create : PipelineSpec → (Text → Parsed) → Expected Impl
create spec parse = (build spec (parse (launch_string spec)) no_handles).0

-- Whether the change of state, and then the wait for it, succeed.
unfoldable pub play : Bool → Bool → Impl → Status × Impl
play changes reaches i =
    if not changes
    then (fail vid_state "Pipeline::play", i)
    else (let asked : Impl = record i { playing = true } in
        if not reaches
        then (fail vid_state "Pipeline::play", asked)
        else (done, record asked { bus_thread = true }))

unfoldable pub shutdown : Impl → Impl
shutdown i = record i { bus_thread = false; callbacks = false; playing = false }

unfoldable pub stop : Impl → Status × Impl
unfolding shutdown
stop i = (done, shutdown i)

-- ~Impl, and then the owner of the graph.
unfoldable pub destroy : Impl → Handles → Impl × Handles
unfolding shutdown
destroy i c = (shutdown i, release gst_element (some the_pipeline) c)
