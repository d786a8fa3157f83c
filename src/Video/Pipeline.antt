-- ===== src/Video/Pipeline.antt =====
-- `Pipeline` and its Impl, pipeline.cpp and pipeline.hpp, with the owners of gst_ptr.hpp. What
-- GStreamer answers is an argument; the sink's state is `W`. A reference to a buffer changes hands as
-- the functions of GStreamer document it, and the ledger keeps what one call of `on_new_sample` holds.
pub mod Bus
pub mod Lifecycle
pub mod Accounting
pub mod Balance
mod Tests
use optronic.Common.{
  ℕ, zero, suc, ◌+◌, ◌-◌, ◌%◌, ◌^◌, Bool, true, false, not, ◌&&◌, ◌||◌, Option, none, some, List,
  [], ◌∷◌, ◌++◌, if◌then◌else◌,
}
use optronic.Common.Int.{ℤ, pos, negsuc, ◌+ℤ◌}
use optronic.Common.Text.{Text, codes, same}
use optronic.Core.Error.{vid_build, vid_encoder_lost, vid_state, to_u16}
use optronic.Core.Expected.{Expected, Status, done, fail, ok, err}
use optronic.Video.{PixelFormat, unknown, nv12, i420, gray8, rgb, PipelineSpec, launch_string}
use optronic.Video.Handles.{
  Handles, no_handles, pointer, take, release, gst_element, MapGuard, map_guard,
}
use optronic.Video.Frame.{
  FrameView, WritableFrame, FlowResult, flow_ok, flow_drop, flow_stop, ProcessResult, kept, dropped,
  failed, BusEvent, BusEventKind, bus_error, bus_warning, bus_eos, bus_qos_drop,
}

-- The format of the first structure of the caps, where there are caps and it has one.
unfoldable pub format_from_caps : Option (Option Text) → PixelFormat
format_from_caps none = unknown
format_from_caps (some none) = unknown
format_from_caps (some (some fmt)) =
    if same fmt (codes "NV12")
    then nv12
    else if same fmt (codes "I420")
    then i420
    else if same fmt (codes "GRAY8")
    then gray8
    else if same fmt (codes "RGB")
    then rgb
    else unknown

pub record PipelineStats : Type 0 where
  pub frames_in : ℕ
  pub frames_out : ℕ
  pub drops : ℕ

-- The counters are std::uint64_t.
abbrev pub add_one : ℕ → ℕ
add_one n = (n + 1) % 2 ^ 64

-- The members that change, and whether the graph has an `appsrc`.
pub record Impl : Type 0 where
  pub spec : PipelineSpec
  pub appsrc : Bool
  pub callbacks : Bool
  pub playing : Bool
  pub bus_thread : Bool
  pub frames_in : ℕ
  pub frames_out : ℕ
  pub drops : ℕ

abbrev pub stats : Impl → PipelineStats
stats i = record { frames_in = i.frames_in; frames_out = i.frames_out; drops = i.drops }

-- What `gst_app_sink_pull_sample` gives, and how GStreamer answers about it after that.
pub record Sample : Type 0 where
  pub bytes : List ℕ
  pub copied : Bool
  pub maps : Bool
  pub pts : Option ℕ
  pub caps : Option (Option Text)
  pub accepted : Bool

pub data Pulled : Type 0 where
  no_sample : Pulled
  no_buffer : Pulled
  with_buffer : Sample → Pulled

-- References that are held, to the sample, to its buffer (besides the sample's own) and to a copy of
-- that, and mappings that are open.
pub record Ledger : Type 0 where
  pub sample : ℤ
  pub original : ℤ
  pub copy : ℤ
  pub mapped : ℤ

abbrev pub balanced : Ledger
balanced = record { sample = pos 0; original = pos 0; copy = pos 0; mapped = pos 0 }

-- `gst_app_sink_pull_sample` gives the call a reference, which the destructor of its GstPtr gives back.
abbrev pub pull_sample : Ledger → Ledger
pull_sample l = record l { sample = l.sample +ℤ pos 1 }

abbrev pub unref_sample : Ledger → Ledger
unref_sample l = record l { sample = l.sample +ℤ negsuc 0 }

-- A reference to the buffer in hand, which is the copy or the original.
abbrev pub change : Bool → ℤ → Ledger → Ledger
change true d l = record l { copy = l.copy +ℤ d }
change false d l = record l { original = l.original +ℤ d }

-- `gst_buffer_make_writable` consumes the reference it is given and returns one.
abbrev pub make_writable : Bool → Ledger → Ledger
make_writable copied l = change copied (pos 1) (change false (negsuc 0) l)

-- `gst_buffer_ref`, and `gst_app_src_push_buffer`, which consumes a reference.
abbrev pub ref_buffer : Bool → Ledger → Ledger
ref_buffer copied l = change copied (pos 1) l

abbrev pub push_buffer : Bool → Ledger → Ledger
push_buffer copied l = change copied (negsuc 0) l

-- A MapGuard whose mapping succeeded, and its destructor.
abbrev pub map_buffer : Ledger → Ledger
map_buffer l = record l { mapped = l.mapped +ℤ pos 1 }

abbrev pub unmap_buffer : Ledger → Ledger
unmap_buffer l = record l { mapped = l.mapped +ℤ negsuc 0 }

abbrev pub valid_pts : Option ℕ → ℕ
valid_pts none = 0
valid_pts (some t) = t

abbrev pub view_of : Impl → Sample → FrameView
view_of i s = record {
  data_bytes = s.bytes;
  width = i.spec.source.width;
  height = i.spec.source.height;
  stride = i.spec.source.width;
  fmt = format_from_caps s.caps;
  hw_ts_ns = valid_pts s.pts;
  seq = i.frames_in;
  ch = i.spec.channel;
}

abbrev pub writable_of : FrameView → WritableFrame
writable_of v = record {
  data_bytes = v.data_bytes;
  width = v.width;
  height = v.height;
  stride = v.stride;
  fmt = v.fmt;
}

abbrev pub Transform : Type 0
Transform = FrameView → WritableFrame → ProcessResult × WritableFrame

abbrev pub is_installed : Option Transform → Bool
is_installed none = false
is_installed (some t) = true

abbrev pub count_error : ProcessResult → Impl → Impl
count_error failed i = record i { drops = add_one i.drops }
count_error kept i = i
count_error dropped i = i

-- The view and the writable frame are the same memory.
abbrev pub transformed : Option Transform → FrameView → Impl → FrameView × Impl
transformed none v i = (v, i)
transformed (some t) v i =
    let (r, out) = t v (writable_of v) in
    (record v { data_bytes = out.data_bytes }, count_error r i)

-- GstFlowReturn, as far as the callback returns it.
pub data Flow : Type 0 where
  gst_flow_ok gst_flow_eos : Flow

-- The buffer goes on to the delivery half of the graph.
abbrev pub deliver : Bool → Sample → Impl → Ledger → Impl × Ledger
deliver copied s i l =
    if i.appsrc
    then (let l' = push_buffer copied (ref_buffer copied l) in
        if s.accepted
        then (record i { frames_out = add_one i.frames_out }, l')
        else (record i { drops = add_one i.drops }, l'))
    else (i, l)

-- After the sink's answer.
abbrev pub answered : FlowResult → Bool → Sample → Impl → Ledger → Flow × Impl × Ledger
answered flow_stop copied s i l = (gst_flow_eos, i, l)
answered flow_drop copied s i l = (gst_flow_ok, record i { drops = add_one i.drops }, l)
answered flow_ok copied s i l = let (i', l') = deliver copied s i l in (gst_flow_ok, i', l')

module _ {W : Type 0} (on_frame : FrameView → W → FlowResult × W)
    (transform : Option Transform) where
  -- With the buffer mapped. At its end, as at every return, the guard goes first and then the sample.
  unfoldable pub with_map : Bool → Sample → Impl → Ledger → W → Flow × Impl × Ledger × W
  with_map copied s i l w =
      let counted : Impl = record i { frames_in = add_one i.frames_in } in
      let (v, i1) = transformed transform (view_of i s) counted in
      let (res, w') = on_frame v w in
      let (flow, i2, l') = answered res copied s i1 l in
      (flow, i2, unref_sample (unmap_buffer l'), w')

  unfoldable pub on_new_sample : Pulled → Impl → W → Flow × Impl × Ledger × W
  on_new_sample no_sample i w = (gst_flow_eos, i, balanced, w)
  on_new_sample no_buffer i w = (gst_flow_ok, i, unref_sample (pull_sample balanced), w)
  on_new_sample (with_buffer s) i w =
      let copied = is_installed transform && s.copied in
      let own = pull_sample balanced in
      let l = if is_installed transform then make_writable copied own else own in
      let guard = map_guard true s.maps s.bytes in
      if guard.mapped
      then with_map copied s i (map_buffer l) w
      else (gst_flow_ok, i, unref_sample l, w)
