-- ===== src/Log/Record/Truncation.antt =====
-- Over-long texts lose their tail and nothing else, and no array changes its size.
use optronic.Common.{
  ℕ, zero, suc, ◌+◌, ◌-◌, ◌≤◌, ◌<◌, ◌≡◌, ◌≢◌, refl, ◌∙◌, min, List, [], ◌∷◌, ◌++◌, length, take,
  drop, replicate, ◌==◌, length-append, take-min, take-append, length-take, length-drop,
  length-replicate, if◌then◌else◌, arith,
}
use optronic.Log.Record.{Level, KeyValue, max_key_values, blank_kv, copy_truncated, make_record}

-- What a reader of a char array sees: the bytes before the first NUL.
unfoldable pub c_string : List ℕ → List ℕ
c_string [] = []
c_string (b ∷ bs) = if b == 0 then [] else b ∷ c_string bs

-- No byte is NUL.
abbrev pub NoNul : List ℕ → Type 0
NoNul [] = Unit
NoNul (b ∷ bs) = (b ≢ 0) × NoNul bs

c_string-take :
    (n : ℕ) (src rest : List ℕ) → NoNul src → c_string (take n src ++ 0 ∷ rest) ≡ take n src
unfolding c_string
c_string-take zero src rest h = refl
c_string-take (suc n) [] rest h = refl
c_string-take (suc n) (b ∷ src) rest h = ground (arith, c_string-take n src rest h.1)

length-copy_truncated :
    (dst src : List ℕ) (size : ℕ)
    → length dst ≡ size
    → 0 < size
    → length (copy_truncated dst size src) ≡ size
unfolding copy_truncated
length-copy_truncated dst src size e pos =
    let n : ℕ = min (length src) (size - 1) in
    omega (
      arith,
      length-append (take n src) (0 ∷ drop (n + 1) dst),
      length-take n src,
      length-drop (n + 1) dst,
    )

-- Copying into an array of `size` bytes fills exactly that array, and a reader of it sees the source,
-- cut after `size - 1` bytes.
pub c_string-copy_truncated :
    (dst src : List ℕ) (size : ℕ)
    → length dst ≡ size
    → 0 < size
    → NoNul src
    → (length (copy_truncated dst size src) ≡ size)
      × (c_string (copy_truncated dst size src) ≡ take (size - 1) src)
unfolding copy_truncated
c_string-copy_truncated dst src size e pos h = (
  length-copy_truncated dst src size e pos,
  rw (take-min (min (length src) (size - 1)) (size - 1) src refl)
      (c_string-take (size - 1) src _ h),
)

-- A record keeps the declared array sizes whatever it is given: 16 and 96 bytes, and four key-value
-- slots, of which `kv_count` are those given, from the first on.
pub make_record_sizes :
    (l : Level) (component msg : List ℕ) (kv : List KeyValue) (now seq : ℕ)
    → let r = make_record l component msg kv now seq in
      (length r.component ≡ 16)
      × (length r.msg ≡ 96)
      × (length r.kv ≡ max_key_values)
      × (r.kv_count ≤ max_key_values)
      × (take r.kv_count r.kv ≡ take max_key_values kv)
unfolding make_record
make_record_sizes l component msg kv now seq = (
  length-copy_truncated (replicate 16 0) component 16 refl (omega arith),
  length-copy_truncated (replicate 96 0) msg 96 refl (omega arith),
  omega (
    arith,
    length-append (take n kv) (replicate (4 - n) blank_kv),
    length-take n kv,
    length-replicate (4 - n) blank_kv,
  ),
  omega arith,
  take-append n (take n kv) (replicate (4 - n) blank_kv) (omega (arith, length-take n kv))
      ∙ take-min n 4 kv refl,
)
  where
    n : ℕ
    n = min (length kv) 4
