-- ===== src/Detect/Draw/Pixels.antt =====
-- Single bytes of a plane: where a pixel is, and what painting one byte leaves.
use native.Mathlib.Nat.{mul-le-mul_right, add-mul}
use optronic.Common.{
  ℕ, zero, suc, ◌+◌, ◌*◌, ◌<◌, ◌≤◌, ◌≡◌, refl, ap, ◌∙◌, Bool, true, false, ◌||◌, Option, none, some,
  List, [], ◌∷◌, length, get_elem?, set, if◌then◌else◌, dec_lt, arith,
}
use optronic.Detect.Draw.{box_luma, index}

-- A byte that is there becomes white.
abbrev pub painted : Option ℕ → Option ℕ
painted none = none
painted (some v) = some box_luma

abbrev pub mark : Bool → Option ℕ → Option ℕ
mark c o = if c then painted o else o

pub mark-mark : (c d : Bool) (o : Option ℕ) → mark d (mark c o) ≡ mark (c || d) o
mark-mark true true none = refl
mark-mark true true (some v) = refl
mark-mark true false o = refl
mark-mark false d o = refl

pub index-lt :
    (stride px py qx qy : ℕ) → px < stride → py < qy → index stride px py < index stride qx qy
index-lt stride px py qx qy h k =
    let m : (py + 1) * stride ≤ qy * stride = mul-le-mul_right stride (omega arith) in
    let e : (py + 1) * stride ≡ py * stride + stride = add-mul py 1 stride ∙ omega arith in
    omega (arith, m, e, h)

pub index-injective :
    (stride px py qx qy : ℕ)
    → px < stride
    → qx < stride
    → index stride px py ≡ index stride qx qy
    → (px ≡ qx) × (py ≡ qy)
index-injective stride px py qx qy h k e = elim (dec_lt py qy) [
  | yes l ↦ absurd (omega (arith, index-lt stride px py qx qy h l, e))
  | no nl ↦ elim (dec_lt qy py) [
    | yes l ↦ absurd (omega (arith, index-lt stride qx qy px py k l, e))
    | no nl' ↦
        let same : py ≡ qy = omega arith in
        (omega (arith, e, ap (λ (n : ℕ). n * stride) same), same)
  ]
]

pub get_elem?-set-painted :
    (xs : List ℕ) (i : ℕ) → get_elem? (set xs i box_luma) i ≡ painted (get_elem? xs i)
get_elem?-set-painted [] i = refl
get_elem?-set-painted (x ∷ xs) zero = refl
get_elem?-set-painted (x ∷ xs) (suc i) = get_elem?-set-painted xs i

pub get_elem?-beyond : (xs : List ℕ) (i : ℕ) → length xs ≤ i → get_elem? xs i ≡ none
get_elem?-beyond [] i h = refl
get_elem?-beyond (x ∷ xs) zero h = absurd (omega arith)
get_elem?-beyond (x ∷ xs) (suc i) h = get_elem?-beyond xs i (omega arith)
