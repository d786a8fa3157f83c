-- ===== src/Detect/Copy.antt =====
-- The loop of `offer` that copies the luma plane into the mailbox, yolo.cpp: it leaves exactly the
-- rows of the frame there, whatever the mailbox held.
use optronic.Common.{
  suc-times, ℕ, zero, suc, ◌+◌, ◌-◌, ◌*◌, ◌≤◌, ◌≡◌, ap, ◌∙◌, List, [], ◌++◌, length, length-append,
  take, drop, replicate, take-append, length-take, length-drop, length-replicate, arith,
}
use native.Mathlib.Nat.{mul-le-mul_right}

-- `std::vector::resize`.
abbrev pub resize : ℕ → List ℕ → List ℕ
resize need box = take need box ++ replicate (need - length box) 0

-- The bytes that the memcpy of one row reads, and what it leaves.
abbrev pub row_of : List ℕ → ℕ → ℕ → ℕ → List ℕ
row_of bytes stride w row = take w (drop (row * stride) bytes)

abbrev pub copy_row : List ℕ → ℕ → ℕ → ℕ → List ℕ → List ℕ
copy_row bytes stride w row box =
    take (row * w) box ++ row_of bytes stride w row ++ drop (row * w + w) box

-- The first rows of a frame, each without its padding.
abbrev pub rows_of : List ℕ → ℕ → ℕ → ℕ → List ℕ
rows_of bytes stride w zero = []
rows_of bytes stride w (suc rows) = rows_of bytes stride w rows ++ row_of bytes stride w rows

-- The frame has `h` rows of `w` bytes, each `stride` after the one before.
abbrev pub Holds : List ℕ → ℕ → ℕ → ℕ → Type 0
Holds bytes stride w h = (w ≤ stride) × (h * stride ≤ length bytes)

pub length-resize : (need : ℕ) (box : List ℕ) → length (resize need box) ≡ need
length-resize need box = omega (
  arith,
  length-append (take need box) (replicate (need - length box) 0),
  length-take need box,
  length-replicate {A = ℕ} (need - length box) 0,
)

length-row_of :
    (bytes : List ℕ) (stride w h row : ℕ)
    → Holds bytes stride w h
    → suc row ≤ h
    → length (row_of bytes stride w row) ≡ w
length-row_of bytes stride w h row (fits, long) l =
    let more : suc row * stride ≤ h * stride = mul-le-mul_right stride l in
    let split : suc row * stride ≡ row * stride + stride = suc-times row stride in
    omega (
      arith,
      more,
      split,
      length-take w (drop (row * stride) bytes),
      length-drop (row * stride) bytes,
    )

-- One more row is there after one more round.
pub copy_row-rows :
    (bytes : List ℕ) (stride w h row : ℕ) (box : List ℕ)
    → Holds bytes stride w h
    → suc row ≤ h
    → length box ≡ h * w
    → take (row * w) box ≡ rows_of bytes stride w row
    → (length (copy_row bytes stride w row box) ≡ h * w)
      × (take (suc row * w) (copy_row bytes stride w row box) ≡ rows_of bytes stride w (suc row))
copy_row-rows bytes stride w h row box holds l size before =
    let more : suc row * w ≤ h * w = mul-le-mul_right w l in
    let split : suc row * w ≡ row * w + w = suc-times row w in
    let head = take (row * w) box in
    let line = row_of bytes stride w row in
    let tail = drop (row * w + w) box in
    let lh : length head ≡ row * w = omega (arith, length-take (row * w) box, more, split, size) in
    let ll = length-row_of bytes stride w h row holds l in
    let lt = length-drop (row * w + w) box in
    let lhl = length-append head line in
    (
      omega (arith, length-append (head ++ line) tail, lhl, lh, ll, lt, more, split, size),
      take-append (suc row * w) (head ++ line) tail (omega (arith, lhl, lh, ll, split))
          ∙ ap (λ (xs : List ℕ). xs ++ line) before,
    )
