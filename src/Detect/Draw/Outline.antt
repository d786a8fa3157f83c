-- ===== src/Detect/Draw/Outline.antt =====
-- Which bytes `draw_rect` changes.
use optronic.Common.{
  ℕ, zero, suc, ◌+◌, ◌<◌, ◌≡◌, ◌≢◌, refl, sym, ap, ap₂, ◌∙◌, Bool, true, false, ◌&&◌, ◌||◌, Option,
  none, List, length, get_elem?, set, get_elem?-set_ne, leb, ltb, ◌==◌, if◌then◌else◌, Bool-cases,
  ℕ_discrete, inl, inr, arith,
}
use optronic.Common.Int.{ℤ, pos, negsuc, pos_part, neg_part, ◌+ℤ◌, ◌-ℤ◌, add-balance}
use optronic.Detect.Draw.{box_luma, index, put, put_column, put_row, columns, rows, draw_rect}
use optronic.Detect.Draw.Pixels.{
  painted, mark, index-injective, get_elem?-set-painted, get_elem?-beyond,
}

-- The coordinate is this number.
abbrev pub hits : ℤ → ℕ → Bool
hits z q = pos_part z == q + neg_part z

set-same :
    (plane : List ℕ) (i : ℕ)
    → get_elem? (if ltb i (length plane) then set plane i box_luma else plane) i
      ≡ painted (get_elem? plane i)
set-same plane i = elim (Bool-cases (ltb i (length plane))) [
  | inl here ↦ rw here (get_elem?-set-painted plane i)
  | inr beyond ↦
      let nothing : get_elem? plane i ≡ none = get_elem?-beyond plane i (ground arith) in
      rw (beyond, nothing) refl
]

set-other :
    (plane : List ℕ) (i j : ℕ)
    → i ≢ j
    → get_elem? (if ltb i (length plane) then set plane i box_luma else plane) j ≡ get_elem? plane j
set-other plane i j n = elim (Bool-cases (ltb i (length plane))) [
  | inl here ↦ rw here (get_elem?-set_ne plane box_luma n)
  | inr beyond ↦ rw beyond refl
]

-- One byte is painted where it is there.
painted-at :
    (plane : List ℕ) (i j : ℕ)
    → get_elem? (if ltb i (length plane) then set plane i box_luma else plane) j
      ≡ mark (i == j) (get_elem? plane j)
painted-at plane i j = elim (ℕ_discrete i j) [
  | yes e ↦
      let t : (i == j) ≡ true = ground arith in
      rw t (
        ap (λ (k : ℕ). get_elem? (if ltb i (length plane) then set plane i box_luma else plane) k)
          (sym e)
        ∙ set-same plane i
        ∙ ap (λ (k : ℕ). painted (get_elem? plane k)) e)
  | no n ↦ let f : (i == j) ≡ false = ground arith in rw f (set-other plane i j n)
]

same-place :
    (stride height px py qx qy : ℕ)
    → qx < stride
    → leb stride px || leb height py ≡ false
    → (index stride px py == index stride qx qy)
      ≡ hits (pos px) qx && hits (pos py) qy && ltb qy height
same-place stride height px py qx qy h inside =
    elim (ℕ_discrete (index stride px py) (index stride qx qy)) [
      | yes e ↦
          let (ex, ey) = index-injective stride px py qx qy (ground arith) h e in
          rw (ex, ey) (ground arith)
      | no n ↦
          let apart : ¬ ((px ≡ qx) × (py ≡ qy)) = λ e. n (ap₂ (index stride) e.0 e.1) in
          ground arith
    ]

-- Where the four points of one round fall.
abbrev pub on_line : ℤ → ℤ → ℕ → Bool
on_line lo size q =
    hits (lo +ℤ pos 0) q
    || hits (lo +ℤ size -ℤ pos 1) q
    || hits (lo +ℤ pos 1) q
    || hits (lo +ℤ size -ℤ pos 2) q

-- `lo + k = q` for a `k` among the `left` numbers from `i` on.
abbrev pub spans : ℤ → ℕ → ℕ → ℕ → Bool
spans lo i left q =
    leb (pos_part lo + i) (q + neg_part lo) && ltb (q + neg_part lo) (pos_part lo + i + left)

spans-suc :
    (lo : ℤ) (i left q : ℕ)
    → hits (lo +ℤ pos i) q || spans lo (i + 1) left q ≡ spans lo i (suc left) q
spans-suc lo i left q = let b = add-balance lo (pos i) in ground arith

four_columns :
    (p t a b c d : Bool) (o : Option ℕ)
    → mark (p && d && t) (mark (p && c && t) (mark (p && b && t) (mark (p && a && t) o)))
      ≡ mark (p && (a || b || c || d) && t) o
four_columns p t a b c d o = ground arith

four_rows :
    (p t a b c d : Bool) (o : Option ℕ)
    → mark (d && p && t) (mark (c && p && t) (mark (b && p && t) (mark (a && p && t) o)))
      ≡ mark ((a || b || c || d) && p && t) o
four_rows p t a b c d o = ground arith

-- The tests of one round and of the rounds after it.
either_round :
    (p q r t : Bool) (o : Option ℕ)
    → mark (q && r && t) (mark (p && r && t) o) ≡ mark ((p || q) && r && t) o
either_round p q r t o = ground arith

either_round_row :
    (p q r t : Bool) (o : Option ℕ)
    → mark (r && q && t) (mark (r && p && t) o) ≡ mark (r && (p || q) && t) o
either_round_row p q r t o = ground arith

both_nests :
    (a b c d t : Bool) (o : Option ℕ)
    → mark (c && d && t) (mark (a && b && t) o) ≡ mark ((a && b || c && d) && t) o
both_nests a b c d t o = ground arith

-- A point of the outline, two pixels thick.
abbrev pub on_outline : ℤ → ℤ → ℤ → ℤ → ℕ → ℕ → Bool
on_outline x y w h qx qy =
    spans x 0 (pos_part w) qx && on_line y h qy || on_line x w qx && spans y 0 (pos_part h) qy

module _ (stride height : ℕ) where
  put-at :
      (x y : ℤ) (plane : List ℕ) (qx qy : ℕ)
      → qx < stride
      → get_elem? (put stride height x y plane) (index stride qx qy)
        ≡ mark (hits x qx && hits y qy && ltb qy height) (get_elem? plane (index stride qx qy))
  unfolding put
  put-at (negsuc n) y plane qx qy h = ground arith
  put-at (pos px) (negsuc n) plane qx qy h = ground arith
  put-at (pos px) (pos py) plane qx qy h = elim (Bool-cases (leb stride px || leb height py)) [
    | inl out ↦ rw out (ground arith)
    | inr inside ↦ rw inside (
        painted-at plane (index stride px py) (index stride qx qy)
        ∙ ap (λ (c : Bool). mark c (get_elem? plane (index stride qx qy)))
            (same-place stride height px py qx qy h inside))
  ]

  put_column-at :
      (x y h : ℤ) (i : ℕ) (plane : List ℕ) (qx qy : ℕ)
      → qx < stride
      → get_elem? (put_column stride height x y h i plane) (index stride qx qy)
        ≡ mark
            (hits (x +ℤ pos i) qx && on_line y h qy && ltb qy height)
            (get_elem? plane (index stride qx qy))
  unfolding put_column
  put_column-at x y h i plane qx qy l =
      let px = x +ℤ pos i in
      let t = ltb qy height in
      let j = index stride qx qy in
      let o = get_elem? plane j in
      let p1 = put stride height px (y +ℤ pos 0) plane in
      let p2 = put stride height px (y +ℤ h -ℤ pos 1) p1 in
      let p3 = put stride height px (y +ℤ pos 1) p2 in
      let e1 = put-at px (y +ℤ pos 0) plane qx qy l in
      let e2 = put-at px (y +ℤ h -ℤ pos 1) p1 qx qy l in
      let e3 = put-at px (y +ℤ pos 1) p2 qx qy l in
      let e4 = put-at px (y +ℤ h -ℤ pos 2) p3 qx qy l in
      rw (e4, e3, e2, e1)
        (four_columns (hits px qx) t (hits (y +ℤ pos 0) qy) (hits (y +ℤ h -ℤ pos 1) qy)
          (hits (y +ℤ pos 1) qy) (hits (y +ℤ h -ℤ pos 2) qy) o)

  put_row-at :
      (x y w : ℤ) (j : ℕ) (plane : List ℕ) (qx qy : ℕ)
      → qx < stride
      → get_elem? (put_row stride height x y w j plane) (index stride qx qy)
        ≡ mark
            (on_line x w qx && hits (y +ℤ pos j) qy && ltb qy height)
            (get_elem? plane (index stride qx qy))
  unfolding put_row
  put_row-at x y w j plane qx qy l =
      let py = y +ℤ pos j in
      let p1 = put stride height (x +ℤ pos 0) py plane in
      let p2 = put stride height (x +ℤ w -ℤ pos 1) py p1 in
      let p3 = put stride height (x +ℤ pos 1) py p2 in
      let e1 = put-at (x +ℤ pos 0) py plane qx qy l in
      let e2 = put-at (x +ℤ w -ℤ pos 1) py p1 qx qy l in
      let e3 = put-at (x +ℤ pos 1) py p2 qx qy l in
      let e4 = put-at (x +ℤ w -ℤ pos 2) py p3 qx qy l in
      rw (e4, e3, e2, e1)
        (four_rows (hits py qy) (ltb qy height) (hits (x +ℤ pos 0) qx) (hits (x +ℤ w -ℤ pos 1) qx)
          (hits (x +ℤ pos 1) qx) (hits (x +ℤ w -ℤ pos 2) qx) (get_elem? plane (index stride qx qy)))

  columns-at :
      (x y h : ℤ) (left i : ℕ) (plane : List ℕ) (qx qy : ℕ)
      → qx < stride
      → get_elem? (columns stride height x y h left i plane) (index stride qx qy)
        ≡ mark
            (spans x i left qx && on_line y h qy && ltb qy height)
            (get_elem? plane (index stride qx qy))
  unfolding columns
  columns-at x y h zero i plane qx qy l =
      let none : spans x i 0 qx ≡ false = ground arith in rw none refl
  columns-at x y h (suc left) i plane qx qy l =
      let next = put_column stride height x y h i plane in
      columns-at x y h left (i + 1) next qx qy l
      ∙ ap (mark (spans x (i + 1) left qx && on_line y h qy && ltb qy height))
          (put_column-at x y h i plane qx qy l)
      ∙ either_round (hits (x +ℤ pos i) qx) (spans x (i + 1) left qx) (on_line y h qy)
          (ltb qy height) (get_elem? plane (index stride qx qy))
      ∙ ap
          (λ (c : Bool).
            mark (c && on_line y h qy && ltb qy height) (get_elem? plane (index stride qx qy)))
          (spans-suc x i left qx)

  rows-at :
      (x y w : ℤ) (left j : ℕ) (plane : List ℕ) (qx qy : ℕ)
      → qx < stride
      → get_elem? (rows stride height x y w left j plane) (index stride qx qy)
        ≡ mark
            (on_line x w qx && spans y j left qy && ltb qy height)
            (get_elem? plane (index stride qx qy))
  unfolding rows
  rows-at x y w zero j plane qx qy l =
      let none : spans y j 0 qy ≡ false = ground arith in rw none (ground arith)
  rows-at x y w (suc left) j plane qx qy l =
      let next = put_row stride height x y w j plane in
      rows-at x y w left (j + 1) next qx qy l
      ∙ ap (mark (on_line x w qx && spans y (j + 1) left qy && ltb qy height))
          (put_row-at x y w j plane qx qy l)
      ∙ either_round_row (hits (y +ℤ pos j) qy) (spans y (j + 1) left qy) (on_line x w qx)
          (ltb qy height) (get_elem? plane (index stride qx qy))
      ∙ ap
          (λ (c : Bool).
            mark (on_line x w qx && c && ltb qy height) (get_elem? plane (index stride qx qy)))
          (spans-suc y j left qy)

  -- For every box and plane, at every column below the stride and every row: after `draw_rect` the
  -- byte of that pixel is `box_luma` if it is there, on the two pixels thick outline of the box and
  -- above the height given, and is what it was before otherwise: nothing outside the outline
  -- changes, and no row from `height` on.
  pub draw_rect-outline :
      (x y w h : ℤ) (plane : List ℕ) (qx qy : ℕ)
      → qx < stride
      → get_elem? (draw_rect stride height x y w h plane) (index stride qx qy)
        ≡ mark (on_outline x y w h qx qy && ltb qy height) (get_elem? plane (index stride qx qy))
  unfolding draw_rect
  draw_rect-outline x y w h plane qx qy l =
      let first = columns stride height x y h (pos_part w) 0 plane in
      rows-at x y w (pos_part h) 0 first qx qy l
      ∙ ap (mark (on_line x w qx && spans y 0 (pos_part h) qy && ltb qy height))
          (columns-at x y h (pos_part w) 0 plane qx qy l)
      ∙ both_nests (spans x 0 (pos_part w) qx) (on_line y h qy) (on_line x w qx)
          (spans y 0 (pos_part h) qy) (ltb qy height) (get_elem? plane (index stride qx qy))
