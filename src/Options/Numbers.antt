-- ===== src/Options/Numbers.antt =====
-- What the number parser of the command line accepts.
use optronic.Common.{
  ℕ, ◌^◌, ◌<◌, ◌≡◌, refl, ◌⊎◌, inl, inr, true, false, not, ◌||◌, [], ◌∷◌, ltb, ◌∙◌, if◌then◌else◌,
  Bool-cases, length, arith,
}
use optronic.Common.Text.{
  Text, AllDigits, is_empty, span_digits, span-AllDigits, span-all, read_digits, decimal,
  decimal-reads,
}
use optronic.Options.{parse_u32}

pub parse_u32-below : (s : Text) (out : ℕ) → out < 2 ^ 32 → (parse_u32 s out).1 < 2 ^ 32
unfolding parse_u32
parse_u32-below s out h = ground arith

on_digits :
    (s : Text) (out : ℕ)
    → AllDigits s
    → parse_u32 s out
      ≡ (true, if is_empty s || not (ltb (read_digits s 0) (2 ^ 32)) then out else read_digits s 0)
unfolding parse_u32
on_digits s out h =
    rw (span-AllDigits s h)
      (elim (Bool-cases (is_empty s || not (ltb (read_digits s 0) (2 ^ 32)))) [
        | inl e ↦ rw e refl
        | inr e ↦ rw e refl
      ])

accepted : (s : Text) (out : ℕ) → (parse_u32 s out).0 ≡ is_empty (span_digits s).1
unfolding parse_u32
accepted s out = ground arith

-- The parser accepts exactly the rows of digits, the empty one among them. The number is then the
-- value of the row, or what it was before if the row is empty or its value needs more than 32 bits.
pub parse_u32-AllDigits :
    (s : Text) (out : ℕ)
    → ((AllDigits s)
        × (parse_u32 s out ≡ (
          true,
          if is_empty s || not (ltb (read_digits s 0) (2 ^ 32)) then out else read_digits s 0,
        )))
      ⊎ ((¬ AllDigits s) × ((parse_u32 s out).0 ≡ false))
parse_u32-AllDigits s out = elim (Bool-cases (is_empty (span_digits s).1)) [
  | inl e ↦ let d = span-all s e in inl (d, on_digits s out d)
  | inr e ↦ inr (λ d. not_all d e, accepted s out ∙ e)
]
  where
    not_all : AllDigits s → is_empty (span_digits s).1 ≡ false → ⊥
    not_all d = rw (span-AllDigits s d) (λ e. ground arith)

nonempty : (s : Text) → 0 < length s → is_empty s ≡ false
nonempty [] h = absurd (omega arith)
nonempty (c ∷ cs) h = refl

-- A number of 32 bits, printed in decimal, is read back, whatever the option was before.
pub parse_u32-decimal : (n out : ℕ) → n < 2 ^ 32 → parse_u32 (decimal n) out ≡ (true, n)
parse_u32-decimal n out h =
    let (r, d, l) = decimal-reads n in
    let fits : not (ltb n (2 ^ 32)) ≡ false = ground arith in
    on_digits (decimal n) out d ∙ rw (r, nonempty (decimal n) l, fits) refl
