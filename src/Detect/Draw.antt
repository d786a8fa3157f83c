-- ===== src/Detect/Draw.antt =====
-- `draw_rect`, yolo.cpp: the outline of a box in the luma plane. The plane is its bytes; the sums of
-- coordinates are exact, as they are in `int` where `sums_fit` says that none overflows.
pub mod Pixels
pub mod Outline
use optronic.Common.{
  ℕ, zero, suc, ◌+◌, ◌*◌, Bool, true, false, ◌||◌, ◌&&◌, ◌==◌, ◌^◌, List, length, set, leb, ltb,
  if◌then◌else◌,
}
use optronic.Common.Int.{ℤ, pos, negsuc, pos_part, ◌+ℤ◌, ◌-ℤ◌}

abbrev pub box_luma : ℕ
box_luma = 235

abbrev pub index : ℕ → ℕ → ℕ → ℕ
index stride px py = py * stride + px

-- The value is one of an `int`.
abbrev pub is_int : ℤ → Bool
is_int (pos n) = ltb n (2 ^ 31)
is_int (negsuc n) = ltb n (2 ^ 31)

-- Whether every sum of the two loop nests is an `int`: of the first, which runs if the width is
-- positive, and of the second, which runs if the height is.
abbrev pub sums_fit : ℤ → ℤ → ℤ → ℤ → Bool
sums_fit x y w h =
    (pos_part w == 0
      || is_int (x +ℤ w -ℤ pos 1)
        && is_int (y +ℤ pos 1)
        && is_int (y +ℤ h)
        && is_int (y +ℤ h -ℤ pos 2))
    && (pos_part h == 0
        || is_int (y +ℤ h -ℤ pos 1)
          && is_int (x +ℤ pos 1)
          && is_int (x +ℤ w)
          && is_int (x +ℤ w -ℤ pos 2))

module _ (stride height : ℕ) where
  -- The lambda `put`.
  unfoldable pub put : ℤ → ℤ → List ℕ → List ℕ
  put (negsuc _) py plane = plane
  put (pos px) (negsuc _) plane = plane
  put (pos px) (pos py) plane =
      if leb stride px || leb height py
      then plane
      else (let i = index stride px py in
          if ltb i (length plane) then set plane i box_luma else plane)

  -- One round of the first loop nest's outer loop: `k` is 0 and then 1.
  unfoldable pub put_column : ℤ → ℤ → ℤ → ℕ → List ℕ → List ℕ
  put_column x y h i plane =
      let px = x +ℤ pos i in
      put px (y +ℤ h -ℤ pos 2)
        (put px (y +ℤ pos 1) (put px (y +ℤ h -ℤ pos 1) (put px (y +ℤ pos 0) plane)))

  -- And of the second.
  unfoldable pub put_row : ℤ → ℤ → ℤ → ℕ → List ℕ → List ℕ
  put_row x y w j plane =
      let py = y +ℤ pos j in
      put (x +ℤ w -ℤ pos 2) py
        (put (x +ℤ pos 1) py (put (x +ℤ w -ℤ pos 1) py (put (x +ℤ pos 0) py plane)))

  -- The loops, with `left` rounds to go from `i` or `j` on.
  unfoldable pub columns : ℤ → ℤ → ℤ → ℕ → ℕ → List ℕ → List ℕ
  columns x y h zero i plane = plane
  columns x y h (suc left) i plane = columns x y h left (i + 1) (put_column x y h i plane)

  unfoldable pub rows : ℤ → ℤ → ℤ → ℕ → ℕ → List ℕ → List ℕ
  rows x y w zero j plane = plane
  rows x y w (suc left) j plane = rows x y w left (j + 1) (put_row x y w j plane)

  unfoldable pub draw_rect : ℤ → ℤ → ℤ → ℤ → List ℕ → List ℕ
  unfolding columns rows
  draw_rect x y w h plane = rows x y w (pos_part h) 0 (columns x y h (pos_part w) 0 plane)
