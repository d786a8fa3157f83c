-- ===== src/Video/Pipeline/Balance.antt =====
-- What one call of `on_new_sample` still holds when it returns.
use optronic.Common.{
  ℕ, ◌≡◌, refl, ap, ◌∙◌, Bool, true, false, ◌&&◌, Bool-cases, inl, inr, Option, none, some,
  if◌then◌else◌,
}
use optronic.Common.Int.{pos, negsuc, ◌+ℤ◌}
use optronic.Video.Frame.{FrameView, FlowResult, flow_ok, flow_drop, flow_stop}
use optronic.Video.Pipeline.{
  Impl, Sample, Pulled, no_sample, no_buffer, with_buffer, Ledger, balanced, Transform,
  is_installed, view_of, transformed, answered, unref_sample, unmap_buffer, add_one, with_map,
  on_new_sample,
}

-- A transform is installed and GStreamer has to copy the buffer to make it writable.
abbrev pub is_copied : Option Transform → Pulled → Bool
is_copied t no_sample = false
is_copied t no_buffer = false
is_copied t (with_buffer s) = is_installed t && s.copied

abbrev pub held : Bool → Ledger
held true = record { sample = pos 0; original = negsuc 0; copy = pos 1; mapped = pos 0 }
held false = balanced

abbrev open_map : Bool → Ledger
open_map c = record (held c) { sample = pos 1; mapped = pos 1 }

answered-held :
    (res : FlowResult) (c : Bool) (s : Sample) (i : Impl)
    → unref_sample (unmap_buffer (answered res c s i (open_map c)).2) ≡ held c
unfolding optronic.Common.Int.◌+ℤ◌ optronic.Common.Int.difference
answered-held flow_stop true s i = refl
answered-held flow_stop false s i = refl
answered-held flow_drop true s i = refl
answered-held flow_drop false s i = refl
answered-held flow_ok c s i = elim (Bool-cases i.appsrc) [
  | inr off ↦ rw off (elim (Bool-cases c) [ inl t ↦ rw t refl | inr f ↦ rw f refl ])
  | inl on ↦ rw on (elim (Bool-cases s.accepted) [
    | inl took ↦ rw took (elim (Bool-cases c) [ inl t ↦ rw t refl | inr f ↦ rw f refl ])
    | inr left ↦ rw left (elim (Bool-cases c) [ inl t ↦ rw t refl | inr f ↦ rw f refl ])
  ])
]

module _ {W : Type 0} (on_frame : FrameView → W → FlowResult × W) where
  with_map-held :
      (transform : Option Transform) (c : Bool) (s : Sample) (i : Impl) (w : W)
      → (with_map on_frame transform c s i (open_map c) w).2 ≡ held c
  unfolding with_map
  with_map-held transform c s i w =
      let r = transformed transform (view_of i s) (record i { frames_in = add_one i.frames_in }) in
      answered-held (on_frame r.0 w).0 c s r.1

  -- For every sink, transform, sample and answer of GStreamer, on every branch: when `on_new_sample`
  -- returns, no mapping is open, and it holds no reference, neither to the sample that it pulled nor to
  -- a buffer, except where a transform is installed and
  -- the buffer had to be copied: then one reference to the sample's own buffer was given away that the
  -- call did not have, and one to the copy is left over.
  pub on_new_sample-held :
      (transform : Option Transform) (p : Pulled) (i : Impl) (w : W)
      → (on_new_sample on_frame transform p i w).2 ≡ held (is_copied transform p)
  unfolding on_new_sample optronic.Common.Int.◌+ℤ◌ optronic.Common.Int.difference
  on_new_sample-held t no_sample i w = refl
  on_new_sample-held t no_buffer i w = refl
  on_new_sample-held none (with_buffer s) i w = elim (Bool-cases s.maps) [
    | inl m ↦ rw m (with_map-held none false (record s { maps = true }) i w)
    | inr m ↦ rw m refl
  ]
  on_new_sample-held (some t) (with_buffer s) i w = elim (Bool-cases s.copied) [
    | inl c ↦ rw c (elim (Bool-cases s.maps) [
      | inl m ↦ rw m (with_map-held (some t) true (record s { copied = true; maps = true }) i w)
      | inr m ↦ rw m refl
    ])
    | inr c ↦ rw c (elim (Bool-cases s.maps) [
      | inl m ↦ rw m (with_map-held (some t) false (record s { copied = false; maps = true }) i w)
      | inr m ↦ rw m refl
    ])
  ]
