-- ===== src/Telemetry/Detections.antt =====
-- How far the list of a frame's objects can fill its buffer.
use optronic.Common.{
  ℕ, ◌+◌, ◌-◌, ◌^◌, ◌≤◌, ◌<◌, ◌≡◌, refl, ap, ◌∙◌, Bool, false, none, some, List, [], ◌∷◌, length,
  length-append, length-replicate, ltb, leb, ◌==◌, ◌||◌, if◌then◌else◌, Bool-cases, inl, inr, arith,
}
use optronic.Common.Text.{Text, decimal}
use optronic.Telemetry.Payload.{
  View, DetectedObject, put, printed, zeroed, true_or_false, object_text, detections_size,
  close_list, add_objects, head_text, tail_text, detections_payload,
}
use optronic.Telemetry.Sizes.{length-put, digits64, length-true_or_false}

printed-le : (t : Text) → printed t ≤ length t
printed-le t = ground arith

printed-lem : (t : Text) → length t < 2 ^ 31 → printed t ≡ length t
printed-lem t h = ground arith

length-head_text :
    (seq : ℕ) (os : List DetectedObject)
    → length (head_text seq os) ≡ 34 + length (decimal seq) + length (decimal (length os))
length-head_text seq os = simp length-append (omega arith)

length-tail_text : (b : Bool) → length (tail_text b) ≡ 15 + length (true_or_false b)
length-tail_text b = simp length-append (omega arith)

close_list-size :
    (count : ℕ) (buf : Text) (n written : ℕ)
    → length buf ≡ detections_size
    → n ≤ 2031
    → (v : View) × (close_list count (buf, n, written) ≡ some v)
      × (length v.buffer ≡ detections_size)
      × (v.size ≤ detections_size + 3)
unfolding close_list
close_list-size count buf n written h k =
    let end = tail_text (ltb written count) in
    let l : length end ≡ 15 + length (true_or_false (ltb written count)) =
      length-tail_text (ltb written count) in
    let b = length-true_or_false (ltb written count) in
    let p : printed end ≡ length end = printed-lem end (omega (arith, l, b)) in
    let some_text : (printed end == 0) ≡ false = rw p (rw l (ground arith)) in
    let v : View = record {
      buffer = put buf n (detections_size - n) end;
      size = n + printed end;
    } in
    (
      v,
      rw some_text refl,
      length-put buf n (detections_size - n) end (omega (arith, h)) ∙ h,
      omega (arith, p, l, b),
    )

module _ (fixed2 : ℕ → Text) where
  -- The buffer keeps its size, and the loop stops 17 bytes before its end.
  add_objects-room :
      (os : List DetectedObject) (buf : Text) (n written : ℕ)
      → length buf ≡ detections_size
      → n ≤ 2031
      → let (buf', n', _) = add_objects fixed2 os buf n written in
        (length buf' ≡ detections_size) × (n' ≤ 2031)
  unfolding add_objects
  add_objects-room [] buf n written h k = (h, k)
  add_objects-room (o ∷ os) buf n written h k =
      let t = object_text fixed2 (written == 0) o in
      let room = detections_size - n - 16 in
      let kept : length (put buf n room t) ≡ detections_size =
        length-put buf n room t (omega (arith, h)) ∙ h in
      elim (Bool-cases (room == 0)) [
        | inl e ↦ rw e (h, k)
        | inr e ↦ rw e (elim (Bool-cases (printed t == 0 || leb room (printed t))) [
          | inl f ↦ rw f (kept, k)
          | inr f ↦ rw f (
              add_objects-room os (put buf n room t) (n + printed t) (written + 1) kept
                (ground arith))
        ])
      ]

  -- The detections of a frame are always sent, from a buffer of 2048 bytes, and the length that is
  -- sent passes the end of that buffer by at most 3 bytes.
  pub detections_payload-size :
      (seq : ℕ) (os : List DetectedObject)
      → seq < 2 ^ 64
      → length os < 2 ^ 64
      → (v : View) × (detections_payload fixed2 seq os ≡ some v)
        × (length v.buffer ≡ 2048)
        × (v.size ≤ length v.buffer + 3)
  unfolding detections_payload
  detections_payload-size seq os h k =
      let t = head_text seq os in
      let l : length t ≡ 34 + length (decimal seq) + length (decimal (length os)) =
        length-head_text seq os in
      let a = digits64 seq h in
      let b = digits64 (length os) k in
      let p : printed t ≡ length t = printed-lem t (omega (arith, l, a, b)) in
      let some_text : (printed t == 0) ≡ false = rw p (rw l (ground arith)) in
      let first = put (zeroed detections_size) 0 detections_size t in
      let filled : length first ≡ detections_size =
        length-put (zeroed detections_size) 0 detections_size t (omega arith)
        ∙ length-replicate {A = ℕ} detections_size 0 in
      let (kept, small) =
        add_objects-room os first (printed t) 0 filled (omega (arith, p, l, a, b)) in
      let r = add_objects fixed2 os first (printed t) 0 in
      let opened : detections_payload fixed2 seq os ≡ close_list (length os) r =
        ap (λ (b : Bool). if b then none else close_list (length os) r) some_text in
      let (v, e, l', s) = close_list-size (length os) r.0 r.1 r.2 kept small in
      (v, opened ∙ e, l', omega (arith, l', s))
