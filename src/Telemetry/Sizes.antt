-- ===== src/Telemetry/Sizes.antt =====
-- What a payload holds of its text, and whether its length stays inside its buffer.
use optronic.Common.{
  ℕ, zero, suc, ◌+◌, ◌-◌, ◌^◌, ◌≤◌, ◌<◌, ◌≡◌, refl, ap, ◌∙◌, Bool, true, false, Option, none, some,
  [], ◌∷◌, ◌++◌, length, length-append, length-take, length-drop, length-replicate, take-append,
  take, drop, min, ltb, ◌==◌, Bool-cases, inl, inr, ◌⊎◌, arith,
}
use optronic.Common.Int.{ℤ, pos, negsuc}
use optronic.Common.Text.{Text, decimal, length-decimal}
use optronic.Log.Record.Truncation.{c_string}
use optronic.Telemetry.Payload.{
  View, HealthSample, SensorSample, LatencySample, signed, put, zeroed, whole, true_or_false,
  health_text, health_payload, sensor_text, sensor_payload, event_text, event_payload, latency_text,
  latency_payload,
}

-- The view lies inside its buffer and is this text.
abbrev pub Sends : Option View → Text → Type 0
Sends none t = ⊥
Sends (some v) t = (v.size ≤ length v.buffer) × (take v.size v.buffer ≡ t)

pub length-put :
    (buf : Text) (at room : ℕ) (t : Text)
    → at + room ≤ length buf
    → length (put buf at room t) ≡ length buf
unfolding put
length-put buf at room t h = elim (Bool-cases (room == 0)) [
  | inl e ↦ rw e refl
  | inr e ↦
      let positive : 0 < room = ground arith in
      let after = drop (at + length (take (room - 1) t) + 1) buf in
      let opened : put buf at room t ≡ take at buf ++ take (room - 1) t ++ 0 ∷ after = rw e refl in
      ap length opened
      ∙ omega (
        arith,
        length-append (take at buf ++ take (room - 1) t) (0 ∷ after),
        length-append (take at buf) (take (room - 1) t),
        length-take at buf,
        length-take (room - 1) t,
        length-drop (at + length (take (room - 1) t) + 1) buf,
      )
]

take-all : (n : ℕ) (t : Text) → length t ≤ n → take n t ≡ t
take-all zero [] h = refl
take-all zero (x ∷ t) h = absurd (omega arith)
take-all (suc n) [] h = refl
take-all (suc n) (x ∷ t) h = ap (λ (r : Text). x ∷ r) (take-all n t (omega arith))

put-starts :
    (buf : Text) (room : ℕ) (t : Text) → length t < room → take (length t) (put buf 0 room t) ≡ t
unfolding put
put-starts buf room t h =
    let e : (room == 0) ≡ false = ground arith in
    rw (e, take-all (room - 1) t (omega arith)) (take-append (length t) t _ refl)

-- The text fits and is sent whole, or the length that is sent reaches the end of the buffer or
-- passes it.
whole-cases :
    (n : ℕ) (t : Text)
    → 0 < length t
    → length t < 2 ^ 31
    → ((length t < n) × Sends (whole n t) t)
      ⊎ ((n ≤ length t)
          × (whole n t ≡ some (record { buffer = put (zeroed n) 0 n t; size = length t }))
          × (length (put (zeroed n) 0 n t) ≡ n))
whole-cases n t h w =
    let fits : ltb (length t) (2 ^ 31) ≡ true = ground arith in
    let some_text : (length t == 0) ≡ false = ground arith in
    let len =
      length-put (zeroed n) 0 n t (omega (arith, length-replicate {A = ℕ} n 0))
      ∙ length-replicate {A = ℕ} n 0 in
    elim (Bool-cases (ltb (length t) n)) [
      | inl small ↦
          let below : length t < n = ground arith in
          inl (below, rw (fits, some_text) (omega (arith, len), put-starts (zeroed n) n t below))
      | inr large ↦ inr (ground arith, rw (fits, some_text) refl, len)
    ]

length-c_string : (s : Text) → length (c_string s) ≤ length s
unfolding c_string
length-c_string [] = omega arith
length-c_string (b ∷ s) = let r = length-c_string s in ground arith

-- A number of 64 bits, signed or not, takes 20 characters at most.
pub digits64 : (n : ℕ) → n < 2 ^ 64 → length (decimal n) ≤ 20
digits64 n h = length-decimal 19 n (omega arith)

digits32 : (n : ℕ) → n < 2 ^ 32 → length (decimal n) ≤ 10
digits32 n h = length-decimal 9 n (omega arith)

-- The values of std::int64_t.
abbrev pub Int64 : ℤ → Type 0
Int64 (pos n) = n < 2 ^ 63
Int64 (negsuc n) = n < 2 ^ 63

signed64 : (z : ℤ) → Int64 z → length (signed z) ≤ 20
signed64 (pos n) h = digits64 n (omega arith)
signed64 (negsuc n) h = let d = length-decimal 18 (n + 1) (omega arith) in omega (arith, d)

short : (n : ℕ) (t : Text) → 0 < length t → length t < n → n < 2 ^ 31 → Sends (whole n t) t
short n t h k w = elim (whole-cases n t h (omega arith)) [
  | inl (_, sent) ↦ sent
  | inr (long, _, _) ↦ absurd (omega (arith, long))
]

pub length-true_or_false : (b : Bool) → length (true_or_false b) ≤ 5
length-true_or_false true = omega arith
length-true_or_false false = omega arith

-- A health sample with a state of at most 80 bytes is sent as its whole text.
pub health_payload-Sends :
    (s : HealthSample)
    → length s.state ≤ 80
    → s.uptime_s < 2 ^ 64
    → s.faults < 2 ^ 32
    → Sends (health_payload s) (health_text s)
health_payload-Sends s h k l =
    let a = length-c_string s.state in
    let b = digits64 s.uptime_s k in
    let c = digits32 s.faults l in
    short 160 (health_text s) (simp length-append (omega arith))
      (simp length-append (omega (arith, a, b, c))) (omega arith)

-- Every sensor sample is sent as its whole text.
pub sensor_payload-Sends :
    (s : SensorSample)
    → Int64 s.gain
    → Int64 s.temp_mc
    → s.frame_cnt < 2 ^ 64
    → Sends (sensor_payload s) (sensor_text s)
sensor_payload-Sends s h k l =
    let a = signed64 s.gain h in
    let b = signed64 s.temp_mc k in
    let c = digits64 s.frame_cnt l in
    let d = length-true_or_false s.nuc in
    short 200 (sensor_text s) (simp length-append (omega arith))
      (simp length-append (omega (arith, a, b, c, d))) (omega arith)

length-event_text :
    (id : Text) (code : ℕ) (text : Text)
    → length (event_text id code text)
      ≡ 33
        + length (c_string id)
        + length (decimal code)
        + length (c_string (take (min (length text) 120) text))
length-event_text id code text = simp length-append (omega arith)

event_parts :
    (code : ℕ) (text : Text)
    → code < 2 ^ 16
    → length (decimal code) + length (c_string (take (min (length text) 120) text)) ≤ 125
event_parts code text h =
    let d = length-decimal 4 code (omega arith) in
    let c = length-c_string (take (min (length text) 120) text) in
    let l = length-take (min (length text) 120) text in omega (arith, d, c, l)

-- An event is sent as its whole text if its identifier has at most 97 bytes, however long the
-- message is.
pub event_payload-Sends :
    (id : Text) (code : ℕ) (text : Text)
    → length id ≤ 97
    → code < 2 ^ 16
    → Sends (event_payload id code text) (event_text id code text)
event_payload-Sends id code text h k =
    let e = length-event_text id code text in
    let c = length-c_string id in
    let p = event_parts code text k in
    short 256 (event_text id code text) (omega (arith, e)) (omega (arith, e, c, p)) (omega arith)

-- An event whose identifier has more than 223 bytes (and fewer than 2 ^ 30) is sent with a length
-- past the end of its buffer.
pub event_payload-overrun :
    (id : Text) (code : ℕ) (text : Text)
    → 223 < length (c_string id)
    → length id < 2 ^ 30
    → code < 2 ^ 16
    → (v : View) × (event_payload id code text ≡ some v) × (length v.buffer < v.size)
event_payload-overrun id code text h k l =
    let e = length-event_text id code text in
    let c = length-c_string id in
    let p = event_parts code text l in
    elim (whole-cases 256 (event_text id code text) (omega (arith, e)) (omega (arith, e, c, p))) [
      | inl (small, _) ↦ absurd (omega (arith, e, small))
      | inr (_, sent, len) ↦ (_, sent, omega (arith, e, len))
    ]

module _ (fixed2 : ℕ → Text) where
  -- A latency sample is sent as its whole text if its frame rate is printed with at most 70
  -- characters.
  pub latency_payload-Sends :
      (s : LatencySample)
      → s.cap_p95_us < 2 ^ 64
      → s.proc_p95_us < 2 ^ 64
      → s.enc_p95_us < 2 ^ 64
      → s.dropped < 2 ^ 64
      → length (fixed2 s.fps) ≤ 70
      → Sends (latency_payload fixed2 s) (latency_text fixed2 s)
  latency_payload-Sends s h k l m f =
      let a = digits64 s.cap_p95_us h in
      let b = digits64 s.proc_p95_us k in
      let c = digits64 s.enc_p95_us l in
      let d = digits64 s.dropped m in
      short 220 (latency_text fixed2 s) (simp length-append (omega arith))
        (simp length-append (omega (arith, a, b, c, d, f))) (omega arith)

  -- Health, sensor and latency samples are each sent as their whole text, where the state of the
  -- health sample has at most 80 bytes, the numbers fit their types and the frame rate is printed with
  -- at most 70 characters.
  pub samples-Sends :
      (s : HealthSample) (t : SensorSample) (u : LatencySample)
      → length s.state ≤ 80
      → (s.uptime_s < 2 ^ 64) × (s.faults < 2 ^ 32)
      → Int64 t.gain × Int64 t.temp_mc × (t.frame_cnt < 2 ^ 64)
      → (u.cap_p95_us < 2 ^ 64)
        × (u.proc_p95_us < 2 ^ 64)
        × (u.enc_p95_us < 2 ^ 64)
        × (u.dropped < 2 ^ 64)
      → length (fixed2 u.fps) ≤ 70
      → Sends (health_payload s) (health_text s)
        × Sends (sensor_payload t) (sensor_text t)
        × Sends (latency_payload fixed2 u) (latency_text fixed2 u)
  samples-Sends s t u short (k, l) (a, b, c) (d, e, f, g) w = (
    health_payload-Sends s short k l,
    sensor_payload-Sends t a b c,
    latency_payload-Sends u d e f g w,
  )
