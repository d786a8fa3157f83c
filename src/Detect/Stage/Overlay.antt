-- ===== src/Detect/Stage/Overlay.antt =====
-- The picture that `process` leaves: the boxes of the last detections, and nothing else.
use optronic.Common.{
  ℕ, ◌+◌, ◌%◌, ◌^◌, ◌<◌, ◌≡◌, refl, sym, subst, ◌∙◌, ap, Bool, true, false, ◌&&◌, ◌||◌, Option,
  none, some, List, [], ◌∷◌, get_elem?, Bool-cases, ltb, ◌==◌, if◌then◌else◌, inl, inr, ◌⊎◌, arith,
}
use optronic.Video.Frame.{FrameView, WritableFrame, ProcessResult, kept, failed}
use optronic.Detect.Draw.{index, draw_rect}
use optronic.Detect.Draw.Pixels.{mark, mark-mark}
use optronic.Detect.Draw.Outline.{on_outline, draw_rect-outline}
use optronic.Detect.Pacing.{stride}
use optronic.Detect.Stage.{
  Detection, Stage, draw_all, all_fit, readable, offered, overlay, no_bytes, paced, finish, process,
}

-- The pixel is on the outline of one of the boxes.
abbrev pub on_any : List Detection → ℕ → ℕ → Bool
on_any [] qx qy = false
on_any (d ∷ ds) qx qy = on_outline d.x d.y d.w d.h qx qy || on_any ds qx qy

either_inside : (a b l : Bool) → (a && l || b && l) ≡ ((a || b) && l)
either_inside true true l = ground arith
either_inside true false l = ground arith
either_inside false true l = ground arith
either_inside false false l = ground arith

draw_all-outline :
    (ds : List Detection) (stride height : ℕ) (plane : List ℕ) (qx qy : ℕ)
    → qx < stride
    → get_elem? (draw_all ds stride height plane) (index stride qx qy)
      ≡ mark (on_any ds qx qy && ltb qy height) (get_elem? plane (index stride qx qy))
unfolding draw_all
draw_all-outline [] stride height plane qx qy l = refl
draw_all-outline (d ∷ ds) stride height plane qx qy l =
    let here = on_outline d.x d.y d.w d.h qx qy in
    draw_all-outline ds stride height (draw_rect stride height d.x d.y d.w d.h plane) qx qy l
    ∙ ap (mark (on_any ds qx qy && ltb qy height))
        (draw_rect-outline stride height d.x d.y d.w d.h plane qx qy l)
    ∙ mark-mark (here && ltb qy height) (on_any ds qx qy && ltb qy height) _
    ∙ ap (λ (c : Bool). mark c (get_elem? plane (index stride qx qy)))
        (either_inside here (on_any ds qx qy) (ltb qy height))

-- The row length that the boxes are drawn with.
abbrev pub row_stride : FrameView → WritableFrame → ℕ
row_stride in_view out = if out.stride == 0 then in_view.width else out.stride

-- At a pixel, the output is the input with the boxes of this stage drawn on it.
abbrev pub DrawnAt : FrameView → WritableFrame → WritableFrame → Stage → ℕ → ℕ → Type 0
DrawnAt in_view out out' st qx qy =
    get_elem? out'.data_bytes (index (row_stride in_view out) qx qy)
    ≡ mark (on_any st.last qx qy && ltb qy in_view.height)
        (get_elem? out.data_bytes (index (row_stride in_view out) qx qy))

-- The stage that a call goes on with, the frame counted.
abbrev pub counted : Stage → Stage
counted st = record st { frame = (st.frame + 1) % 2 ^ 64 }

-- What a call with the worker comes to before it draws, and one without it (`sync`).
abbrev pub Came : Bool → Bool → (Stage → Stage) → FrameView → Stage → Option Stage → Stage → Type 0
Came async taken meanwhile in_view st sync st' =
    ((async ≡ true)
      × ((taken ≡ false) ⊎ (readable in_view ≡ true))
      × (st' ≡ meanwhile (counted st)))
    ⊎ ((async ≡ false) × (sync ≡ some st'))

-- What is undefined: `offer` reads past the frame, the inference on this thread, or the sums of a box.
abbrev pub Undefined : Bool → Bool → (Stage → Stage) → FrameView → Stage → Option Stage → Type 0
Undefined async taken meanwhile in_view st sync =
    ((async ≡ true) × (taken ≡ true) × (readable in_view ≡ false))
    ⊎ (((async ≡ false) × (sync ≡ none))
        ⊎ ((st' : Stage) × Came async taken meanwhile in_view st sync st'
            × (all_fit st'.last ≡ false)))

-- What a call comes to; `refused` says that there are no bytes.
abbrev pub Drawn :
    Bool
    → Bool
    → (Stage → Stage)
    → FrameView
    → WritableFrame
    → Stage
    → Option Stage
    → ℕ
    → ℕ
    → Option (ProcessResult × WritableFrame × Stage)
    → Type 0
Drawn refused taken meanwhile in_view out st sync qx qy r =
    ((refused ≡ true) × (r ≡ some (failed, out, st)))
    ⊎ (((refused ≡ false) × Undefined st.cfg.async taken meanwhile in_view st sync × (r ≡ none))
        ⊎ ((refused ≡ false)
            × ((out' : WritableFrame) × (st' : Stage) × (r ≡ some (kept, out', st'))
                × Came st.cfg.async taken meanwhile in_view st sync st'
                × (all_fit st'.last ≡ true)
                × DrawnAt in_view out out' st' qx qy)))

module _ (taken : Bool) (meanwhile : Stage → Stage) (in_view : FrameView) (out : WritableFrame)
    (st : Stage) (sync : Option Stage) (qx qy : ℕ) (l : qx < row_stride in_view out) where
  abbrev Ends : Option (ProcessResult × WritableFrame × Stage) → Type 0
  Ends = Drawn false taken meanwhile in_view out st sync qx qy

  -- The stage is there: the boxes fit, or they do not.
  from_stage :
      (st' : Stage)
      → Came st.cfg.async taken meanwhile in_view st sync st'
      → Ends (finish in_view out (some st'))
  from_stage st' came = elim (Bool-cases (all_fit st'.last)) [
    | inr bad ↦ rw bad (inr (inl (refl, inr (inr (st', came, bad)), refl)))
    | inl good ↦ rw good (
        inr (
          inr (
            refl,
            (
              overlay in_view out st',
              st',
              refl,
              came,
              good,
              draw_all-outline st'.last (row_stride in_view out) in_view.height out.data_bytes qx qy
                  l,
            ),
          )))
  ]

  from_none :
      Undefined st.cfg.async taken meanwhile in_view st sync → Ends (finish in_view out none)
  from_none u = inr (inl (refl, u, refl))

  -- An equation for what the call has come to before it draws.
  by_stage :
      (r r' : Option Stage) → r ≡ r' → Ends (finish in_view out r') → Ends (finish in_view out r)
  by_stage r r' e d = subst (λ (o : Option Stage). Ends (finish in_view out o)) (sym e) d

  abbrev after_offer : Option Stage
  after_offer = offered taken in_view (meanwhile (counted st))

  took :
      (t w : Bool)
      → taken ≡ t
      → readable in_view ≡ w
      → st.cfg.async ≡ true
      → Ends (finish in_view out after_offer)
  took false w e f a =
      by_stage after_offer (some (meanwhile (counted st))) (rw e refl)
        (from_stage (meanwhile (counted st)) (inl (a, inl e, refl)))
  took true true e f a =
      by_stage after_offer (some (meanwhile (counted st))) (rw (e, f) refl)
        (from_stage (meanwhile (counted st)) (inl (a, inr f, refl)))
  took true false e f a = by_stage after_offer none (rw (e, f) refl) (from_none (inl (a, e, f)))

  from_sync : (r : Option Stage) → sync ≡ r → st.cfg.async ≡ false → Ends (finish in_view out sync)
  from_sync none e a = by_stage sync none e (from_none (inr (inl (a, e))))
  from_sync (some st') e a = by_stage sync (some st') e (from_stage st' (inr (a, e)))

  from_pace : Ends (finish in_view out (if st.cfg.async then after_offer else sync))
  from_pace = elim (Bool-cases st.cfg.async) [
    | inl a ↦
        by_stage (if st.cfg.async then after_offer else sync) after_offer (rw a refl)
          (took taken (readable in_view) refl refl a)
    | inr a ↦
        by_stage (if st.cfg.async then after_offer else sync) sync (rw a refl)
          (from_sync sync refl a)
  ]

  from_guard :
      (refused : Bool) (r : Option (ProcessResult × WritableFrame × Stage))
      → Ends r
      → Drawn refused taken meanwhile in_view out st sync qx qy
          (if refused then some (failed, out, st) else r)
  from_guard true r d = inl (refl, refl)
  from_guard false r d = d

-- Whatever the detector does: with no bytes to read or to write a frame is refused, and nothing
-- changes. Otherwise the output is, at every pixel of a row, the picture with the outlines of the last
-- detections drawn where they are above the frame's height, and is what it was everywhere else. The
-- last detections are those that the worker has come to, or those of the inference on this thread
-- where it is due. It is undefined only where `offer` takes a frame that does not hold its rows,
-- where the inference on this thread is undefined, or where a sum of a box's coordinates is no `int`.
pub process-Drawn :
    (infer : Stage → Option Stage) (taken : Bool) (meanwhile : Stage → Stage) (in_view : FrameView)
    (out : WritableFrame) (st : Stage) (qx qy : ℕ)
    → qx < row_stride in_view out
    → Drawn
        (no_bytes in_view.data_bytes || no_bytes out.data_bytes)
        taken
        meanwhile
        in_view
        out
        st
        (paced (stride st.cfg st.inference_us) infer (counted st))
        qx
        qy
        (process infer taken meanwhile in_view out st)
unfolding process
process-Drawn infer taken meanwhile in_view out st qx qy l =
    let sync = paced (stride st.cfg st.inference_us) infer (counted st) in
    from_guard taken meanwhile in_view out st sync qx qy l
      (no_bytes in_view.data_bytes || no_bytes out.data_bytes) _
      (from_pace taken meanwhile in_view out st sync qx qy l)
