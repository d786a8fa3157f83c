-- ===== src/Log/Logger/Printed/Lines.antt =====
-- That the output has a line for each record.
use optronic.Common.{
  ℕ, zero, suc, ◌+◌, ◌-◌, ◌^◌, ◌≡◌, refl, false, List, [], ◌∷◌, ◌++◌, length, replicate, ◌==◌,
  if◌then◌else◌, arith,
}
use optronic.Common.Text.{Text, codes, decimal, AllDigits, decimal-reads}
use optronic.Log.Record.{
  Level, trace, debug, info, warn, error, ValueKind, none, integer, real, KeyValue, Record, as_real,
}
use optronic.Log.Record.Truncation.{c_string}
use optronic.Log.Logger.{Line, entry, drops}
use optronic.Log.Logger.Printed.{
  level_name, value_text, kv_texts, record_text, drops_text, printed, int64_text,
}

abbrev pub newlines : Text → ℕ
newlines [] = 0
newlines (c ∷ cs) = (if c == 10 then 1 else 0) + newlines cs

newlines-append : (xs ys : Text) → newlines (xs ++ ys) ≡ newlines xs + newlines ys
newlines-append [] ys = omega arith
newlines-append (x ∷ xs) ys = omega (arith, newlines-append xs ys)

newlines-digits : (t : Text) → AllDigits t → newlines t ≡ 0
newlines-digits [] h = refl
newlines-digits (c ∷ cs) h = ground (arith, newlines-digits cs h.1)

newlines-decimal : (n : ℕ) → newlines (decimal n) ≡ 0
newlines-decimal n = newlines-digits (decimal n) (decimal-reads n).1

newlines-replicate : (n c : ℕ) → (c == 10) ≡ false → newlines (replicate n c) ≡ 0
newlines-replicate zero c h = refl
newlines-replicate (suc n) c h = ground (arith, newlines-replicate n c h)

newlines-c_string : (t : Text) → newlines t ≡ 0 → newlines (c_string t) ≡ 0
unfolding c_string
newlines-c_string [] h = refl
newlines-c_string (c ∷ cs) h = ground (arith, newlines-c_string cs)

newlines-int64_text : (bits : ℕ) → newlines (int64_text bits) ≡ 0
newlines-int64_text bits = ground (arith, newlines-decimal bits, newlines-decimal (2 ^ 64 - bits))

newlines-level_name : (l : Level) → newlines (level_name l) ≡ 0
unfolding level_name
newlines-level_name trace = refl
newlines-level_name debug = refl
newlines-level_name info = refl
newlines-level_name warn = refl
newlines-level_name error = refl

newlines-spaces : (n : ℕ) → newlines (replicate n b' ') ≡ 0
newlines-spaces n = newlines-replicate n b' ' refl

newlines-zeros : (n : ℕ) → newlines (replicate n b'0') ≡ 0
newlines-zeros n = newlines-replicate n b'0' refl

-- The texts of a record have no newline.
abbrev pub PlainKeys : List KeyValue → Type 0
PlainKeys [] = Unit
PlainKeys (kv ∷ rest) = (newlines kv.key ≡ 0) × PlainKeys rest

abbrev pub PlainLines : List Line → Type 0
PlainLines [] = Unit
PlainLines (entry r ∷ ls) =
    (newlines r.component ≡ 0) × (newlines r.msg ≡ 0) × PlainKeys r.kv × PlainLines ls
PlainLines (drops n ∷ ls) = PlainLines ls

module _ (fixed3 : ℕ → Text) (plain : (bits : ℕ) → newlines (fixed3 bits) ≡ 0) where
  newlines-value_text :
      (kind : ValueKind) (kv : KeyValue)
      → newlines kv.key ≡ 0
      → newlines (value_text fixed3 kind kv) ≡ 0
  newlines-value_text none kv h = refl
  newlines-value_text integer kv h = omega (
    arith,
    newlines-append (codes " " ++ c_string kv.key ++ codes "=") (int64_text kv.value),
    newlines-append (codes " " ++ c_string kv.key) (codes "="),
    newlines-append (codes " ") (c_string kv.key),
    newlines-c_string kv.key h,
    newlines-int64_text kv.value,
  )
  newlines-value_text real kv h = omega (
    arith,
    newlines-append (codes " " ++ c_string kv.key ++ codes "=") (fixed3 (as_real kv)),
    newlines-append (codes " " ++ c_string kv.key) (codes "="),
    newlines-append (codes " ") (c_string kv.key),
    newlines-c_string kv.key h,
    plain kv.value,
  )

  newlines-kv_texts :
      (left : ℕ) (kvs : List KeyValue) → PlainKeys kvs → newlines (kv_texts fixed3 left kvs) ≡ 0
  unfolding kv_texts
  newlines-kv_texts zero kvs h = refl
  newlines-kv_texts (suc left) [] h = refl
  newlines-kv_texts (suc left) (kv ∷ rest) (h, hs) = omega (
    arith,
    newlines-append (value_text fixed3 kv.kind kv) (kv_texts fixed3 left rest),
    newlines-value_text kv.kind kv h,
    newlines-kv_texts left rest hs,
  )

  newlines-record_text :
      (r : Record)
      → newlines r.component ≡ 0
      → newlines r.msg ≡ 0
      → PlainKeys r.kv
      → newlines (record_text fixed3 r) ≡ 1
  unfolding record_text
  newlines-record_text r c m k =
      simp
        (
          newlines-append,
          newlines-spaces,
          newlines-zeros,
          newlines-decimal,
          newlines-level_name,
          newlines-c_string r.component c,
          newlines-c_string r.msg m,
          newlines-kv_texts r.kv_count r.kv k,
        )
        refl

  newlines-drops_text : (n : ℕ) → newlines (drops_text fixed3 n) ≡ 1
  unfolding drops_text level_name
  newlines-drops_text n = simp (newlines-append, newlines-decimal) refl

  -- As long as no text that was logged has a newline (and `%.3f` prints none), the output has one line
  -- for each record that was written and for each report of drops.
  pub newlines-printed : (ls : List Line) → PlainLines ls → newlines (printed fixed3 ls) ≡ length ls
  unfolding printed
  newlines-printed [] h = refl
  newlines-printed (entry r ∷ ls) (c, m, k, rest) = omega (
    arith,
    newlines-append (record_text fixed3 r) (printed fixed3 ls),
    newlines-record_text r c m k,
    newlines-printed ls rest,
  )
  newlines-printed (drops n ∷ ls) h = omega (
    arith,
    newlines-append (drops_text fixed3 n) (printed fixed3 ls),
    newlines-drops_text n,
    newlines-printed ls h,
  )
