-- ===== src/Common/Text.antt =====
-- Text as the list of its bytes: literals, decimal numbers, and what the printf conversions pad.
use Prim.Native.String.{String}
use Prim.Native.Char.{code}
use native.Mathlib.Nat.{pow-suc}
use optronic.Common.{
  ℕ, zero, suc, ◌+◌, ◌-◌, ◌*◌, ◌/◌, ◌%◌, ◌^◌, ◌≤◌, ◌<◌, ◌≡◌, refl, subst, ◌∙◌, Bool, true, false,
  ◌&&◌, ◌==◌, leb, List, [], ◌∷◌, ◌++◌, length, length-append, ltb, if◌then◌else◌, arith, ltb→lt,
  Bool-cases, inl, inr,
}

abbrev pub Text : Type 0
Text = List ℕ

-- The bytes of an ASCII literal.
abbrev pub codes : String → Text
codes String.[] = []
codes (String.◌∷◌ c s) = code c ∷ codes s

abbrev pub digit : ℕ → ℕ
digit d = b'0' + d

decimal_fuel : ℕ → ℕ → Text
decimal_fuel zero n = []
decimal_fuel (suc fuel) n =
    let rest = decimal_fuel fuel (n / 10) in
    if ltb n 10 then digit n ∷ [] else rest ++ digit (n % 10) ∷ []

-- %u, %d, %llu and std::format's {} on a number that is not negative.
unfoldable pub decimal : ℕ → Text
unfolding decimal_fuel
decimal n = decimal_fuel (suc n) n

-- The number that a row of digits continues `acc` to.
unfoldable pub read_digits : Text → ℕ → ℕ
read_digits [] acc = acc
read_digits (c ∷ cs) acc = read_digits cs (acc * 10 + (c - b'0'))

abbrev pub IsDigit : ℕ → Type 0
IsDigit c = (b'0' ≤ c) × (c ≤ b'9')

abbrev pub AllDigits : Text → Type 0
AllDigits [] = Unit
AllDigits (c ∷ cs) = IsDigit c × AllDigits cs

pub AllDigits-append : (xs ys : Text) → AllDigits xs → AllDigits ys → AllDigits (xs ++ ys)
AllDigits-append [] ys h k = k
AllDigits-append (x ∷ xs) ys h k = (h.0, AllDigits-append xs ys h.1 k)

read_digits-append :
    (xs ys : Text) (acc : ℕ) → read_digits (xs ++ ys) acc ≡ read_digits ys (read_digits xs acc)
unfolding read_digits
read_digits-append [] ys acc = refl
read_digits-append (x ∷ xs) ys acc = read_digits-append xs ys (acc * 10 + (x - b'0'))

ltb-false : (a b : ℕ) → ltb a b ≡ false → b ≤ a
ltb-false a b h = ground arith

decimal_fuel-reads :
    (fuel n : ℕ)
    → n < fuel
    → (read_digits (decimal_fuel fuel n) 0 ≡ n)
      × AllDigits (decimal_fuel fuel n)
      × (0 < length (decimal_fuel fuel n))
unfolding decimal_fuel read_digits
decimal_fuel-reads zero n h = absurd (omega arith)
decimal_fuel-reads (suc fuel) n h = elim (Bool-cases (ltb n 10)) [
  | inl small ↦
      rw small (omega arith, ((omega arith, omega (arith, ltb→lt n 10 small)), tt), omega arith)
  | inr large ↦ rw large (
      let (r, d, l) = decimal_fuel-reads fuel (n / 10) (omega (arith, ltb-false n 10 large)) in
      (
        read_digits-append (decimal_fuel fuel (n / 10)) (digit (n % 10) ∷ []) 0 ∙ omega (arith, r),
        AllDigits-append _ _ d ((omega arith, omega arith), tt),
        omega (arith, length-append (decimal_fuel fuel (n / 10)) (digit (n % 10) ∷ [])),
      ))
]

-- A printed number is a row of digits, not empty, that reads back as the number.
pub decimal-reads :
    (n : ℕ) → (read_digits (decimal n) 0 ≡ n) × AllDigits (decimal n) × (0 < length (decimal n))
unfolding decimal
decimal-reads n = decimal_fuel-reads (suc n) n (omega arith)

-- operator== of two texts.
unfoldable pub same : Text → Text → Bool
same [] [] = true
same [] (d ∷ ds) = false
same (c ∷ cs) [] = false
same (c ∷ cs) (d ∷ ds) = c == d && same cs ds

abbrev pub is_empty : Text → Bool
is_empty [] = true
is_empty (c ∷ cs) = false

abbrev pub is_digit : ℕ → Bool
is_digit c = leb b'0' c && leb c b'9'

-- The row of digits that a text begins with, and what comes after it.
unfoldable pub span_digits : Text → Text × Text
span_digits [] = ([], [])
span_digits (c ∷ cs) =
    let (ds, rest) = span_digits cs in if is_digit c then (c ∷ ds, rest) else ([], c ∷ cs)

pub span-AllDigits : (s : Text) → AllDigits s → span_digits s ≡ (s, [])
unfolding span_digits
span-AllDigits [] h = refl
span-AllDigits (c ∷ cs) h = ground (arith, span-AllDigits cs h.1)

-- If nothing comes after it, the text is a row of digits.
pub span-all : (s : Text) → is_empty (span_digits s).1 ≡ true → AllDigits s
unfolding span_digits
span-all [] h = tt
span-all (c ∷ cs) h = elim (Bool-cases (is_digit c)) [
  | inl d ↦ ((ground arith, ground arith), span-all cs (ground arith))
  | inr d ↦ absurd (ground arith)
]

decimal_fuel-length : (fuel k n : ℕ) → n < 10 ^ suc k → length (decimal_fuel fuel n) ≤ suc k
unfolding decimal_fuel
decimal_fuel-length zero k n h = omega arith
decimal_fuel-length (suc fuel) zero n h =
    let small : ltb n 10 ≡ true = ground arith in rw small (omega arith)
decimal_fuel-length (suc fuel) (suc k) n h = elim (Bool-cases (ltb n 10)) [
  | inl small ↦ rw small (omega arith)
  | inr large ↦
      let wide : n < 10 ^ suc k * 10 = subst (λ (m : ℕ). n < m) (pow-suc 10 (suc k)) h in
      let rest = decimal_fuel-length fuel k (n / 10) (omega (arith, wide)) in
      rw (large, length-append (decimal_fuel fuel (n / 10)) (digit (n % 10) ∷ []))
        (omega (arith, rest))
]

-- A number below 10 ^ k has at most k digits.
pub length-decimal : (k n : ℕ) → n < 10 ^ suc k → length (decimal n) ≤ suc k
unfolding decimal
length-decimal k n h = decimal_fuel-length (suc n) k n h
