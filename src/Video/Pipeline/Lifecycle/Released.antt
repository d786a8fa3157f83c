-- ===== src/Video/Pipeline/Lifecycle/Released.antt =====
-- That a pipeline gives back what its creation took.
use optronic.Common.{
  ℕ, ◌+◌, ◌≡◌, refl, List, [], ◌∷◌, ◌==◌, if◌then◌else◌, Bool-cases, inl, inr, arith,
}
use optronic.Core.Expected.{Expected, ok, err}
use optronic.Video.{PipelineSpec}
use optronic.Video.Handles.{Handles, Unref, gst_object_unref, no_handles, unref_of}
use optronic.Video.Pipeline.{Impl}
use optronic.Video.Pipeline.Lifecycle.{Parsed, the_pipeline, build, destroy}

abbrev pub taken_times : ℕ → List ℕ → ℕ
taken_times h [] = 0
taken_times h (k ∷ ks) = (if k == h then 1 else 0) + taken_times h ks

-- By the function for a GstElement.
abbrev pub released_times : ℕ → List (Unref × ℕ) → ℕ
released_times h [] = 0
released_times h ((gst_object_unref, k) ∷ us) = (if k == h then 1 else 0) + released_times h us
released_times h ((u, k) ∷ us) = released_times h us

-- The destructor runs for a pipeline that was made.
abbrev pub ended : Expected Impl × Handles → Handles
ended (ok i, c) = (destroy i c).1
ended (err e, c) = c

-- A pipeline that was made has its graph.
abbrev pub InHand : Expected Impl × Handles → Type 0
InHand (ok i, c) =
    (taken_times the_pipeline c.taken ≡ 1) × (released_times the_pipeline c.unrefs ≡ 0)
InHand (err e, c) = Unit

-- Whatever GStreamer answers when a pipeline is made: once the pipeline is destroyed, or where its
-- creation failed at once, every element that was taken was given back exactly once, with the function
-- for elements, and every GError was freed; and while it
-- lives, the graph was not given back.
pub build-released :
    (spec : PipelineSpec) (p : Parsed) (h : ℕ)
    → let c = ended (build spec p no_handles) in
      (released_times h c.unrefs ≡ taken_times h c.taken)
      × (c.errors ≡ 0)
      × InHand (build spec p no_handles)
unfolding build destroy unref_of
build-released spec p h = elim (Bool-cases p.pipeline) [
  | inl a ↦ elim (Bool-cases p.error) [
    | inl b ↦ rw (a, b) (ground arith, refl, tt)
    | inr b ↦ elim (Bool-cases p.sink) [
      | inl d ↦ elim (Bool-cases p.src) [
        | inl e ↦ rw (a, b, d, e) (ground arith, refl, (refl, refl))
        | inr e ↦ rw (a, b, d, e) (ground arith, refl, (refl, refl))
      ]
      | inr d ↦ elim (Bool-cases p.src) [
        | inl e ↦ rw (a, b, d, e) (ground arith, refl, tt)
        | inr e ↦ rw (a, b, d, e) (ground arith, refl, tt)
      ]
    ]
  ]
  | inr a ↦ elim (Bool-cases p.error) [
    | inl b ↦ rw (a, b) (refl, refl, tt)
    | inr b ↦ rw (a, b) (refl, refl, tt)
  ]
]
