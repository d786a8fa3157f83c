-- ===== src/Video/Handles.antt =====
-- The owners of GStreamer's handles, gst_ptr.hpp: which function gives a reference back, and the
-- mapping of a buffer. A handle is a number, and the calls of GStreamer are recorded.
use optronic.Common.{
  ℕ, Bool, true, false, ◌&&◌, Option, none, some, List, [], ◌∷◌, ◌++◌, if◌then◌else◌,
}

pub data Foreign : Type 0 where
  gst_element gst_bus gst_sample gst_caps gst_message : Foreign

pub data Unref : Type 0 where
  gst_object_unref gst_sample_unref gst_caps_unref gst_message_unref : Unref

-- GstUnref<T>
unfoldable pub unref_of : Foreign → Unref
unref_of gst_element = gst_object_unref
unref_of gst_bus = gst_object_unref
unref_of gst_sample = gst_sample_unref
unref_of gst_caps = gst_caps_unref
unref_of gst_message = gst_message_unref

-- The handles that were given out and given back, oldest first, and the GErrors that are not freed.
pub record Handles : Type 0 where
  pub taken : List ℕ
  pub unrefs : List (Unref × ℕ)
  pub errors : ℕ

abbrev pub no_handles : Handles
no_handles = record { taken = []; unrefs = []; errors = 0 }

-- GStreamer answers with a handle, or with null.
abbrev pub pointer : Bool → ℕ → Option ℕ
pointer true h = some h
pointer false h = none

abbrev pub take : Option ℕ → Handles → Handles
take none c = c
take (some h) c = record c { taken = c.taken ++ h ∷ [] }

-- The destructor of GstPtr<T>.
abbrev pub release : Foreign → Option ℕ → Handles → Handles
release t none c = c
release t (some h) c = record c { unrefs = c.unrefs ++ (unref_of t, h) ∷ [] }

-- MapGuard: `buffer` says that there is one, `answer` what gst_buffer_map says.
pub record MapGuard : Type 0 where
  pub info : List ℕ
  pub mapped : Bool

abbrev pub map_guard : Bool → Bool → List ℕ → MapGuard
map_guard buffer answer data_bytes = record { info = data_bytes; mapped = buffer && answer }

abbrev pub bytes : MapGuard → List ℕ
bytes g = if g.mapped then g.info else []
