-- ===== src/Telemetry/Payload.antt =====
-- The payloads: `snprintf` into buffers of fixed size, publisher.cpp. A double is its bits, and
-- `fixed2` is what the C library prints for `%.2f` of it.
use optronic.Common.{
  ℕ, ◌+◌, ◌-◌, ◌^◌, Bool, true, false, Option, none, some, List, [], ◌∷◌, ◌++◌, length, take, drop,
  replicate, min, ltb, leb, ◌==◌, ◌||◌, if◌then◌else◌,
}
use optronic.Common.Int.{ℤ, pos, negsuc}
use optronic.Common.Text.{Text, codes, decimal}
use optronic.Log.Record.Truncation.{c_string}

pub record HealthSample : Type 0 where
  pub state : Text
  pub uptime_s : ℕ
  pub faults : ℕ

pub record SensorSample : Type 0 where
  pub gain : ℤ
  pub nuc : Bool
  pub temp_mc : ℤ
  pub frame_cnt : ℕ

pub record LatencySample : Type 0 where
  pub cap_p95_us : ℕ
  pub proc_p95_us : ℕ
  pub enc_p95_us : ℕ
  pub fps : ℕ
  pub dropped : ℕ

pub record DetectedObject : Type 0 where
  pub label : Text
  pub confidence : ℕ
  pub x : ℤ
  pub y : ℤ
  pub w : ℤ
  pub h : ℤ

-- %d and %lld
abbrev pub signed : ℤ → Text
signed (pos n) = decimal n
signed (negsuc n) = b'-' ∷ decimal (n + 1)

-- A view `{buf.data(), n}`: the whole buffer, and the length that goes with its start.
pub record View : Type 0 where
  pub buffer : Text
  pub size : ℕ

-- std::snprintf(buf + at, room, ...) of the text `t`: the buffer after it. Nothing is written with no
-- room at all.
unfoldable pub put : Text → ℕ → ℕ → Text → Text
put buf at room t =
    if room == 0
    then buf
    else (let kept = take (room - 1) t in
        take at buf ++ kept ++ 0 ∷ drop (at + length kept + 1) buf)

-- Its result. 0 stands for a negative one, which a text that no `int` counts gives: the callers tell
-- the two from the positive results only.
abbrev pub printed : Text → ℕ
printed t = if ltb (length t) (2 ^ 31) then length t else 0

abbrev pub zeroed : ℕ → Text
zeroed n = replicate n 0

-- One call into a buffer of `n` bytes, and the view if the result is positive.
abbrev pub whole : ℕ → Text → Option View
whole n t =
    if printed t == 0
    then none
    else some (record { buffer = put (zeroed n) 0 n t; size = printed t })

abbrev pub true_or_false : Bool → Text
true_or_false true = codes "true"
true_or_false false = codes "false"

abbrev pub health_text : HealthSample → Text
health_text s =
    codes "{\"v\":1,\"state\":\""
    ++ c_string s.state
    ++ codes "\",\"uptime_s\":"
    ++ decimal s.uptime_s
    ++ codes ",\"faults\":"
    ++ decimal s.faults
    ++ codes "}"

abbrev pub health_payload : HealthSample → Option View
health_payload s = whole 160 (health_text s)

abbrev pub sensor_text : SensorSample → Text
sensor_text s =
    codes "{\"v\":1,\"gain\":"
    ++ signed s.gain
    ++ codes ",\"nuc\":"
    ++ true_or_false s.nuc
    ++ codes ",\"temp_mc\":"
    ++ signed s.temp_mc
    ++ codes ",\"frame_cnt\":"
    ++ decimal s.frame_cnt
    ++ codes "}"

abbrev pub sensor_payload : SensorSample → Option View
sensor_payload s = whole 200 (sensor_text s)

abbrev pub event_text : Text → ℕ → Text → Text
event_text id code text =
    codes "{\"v\":1,\"id\":\""
    ++ c_string id
    ++ codes "\",\"code\":"
    ++ decimal code
    ++ codes ",\"text\":\""
    ++ c_string (take (min (length text) 120) text)
    ++ codes "\"}"

abbrev pub event_payload : Text → ℕ → Text → Option View
event_payload id code text = whole 256 (event_text id code text)

abbrev pub detections_size : ℕ
detections_size = 2048

abbrev pub head_text : ℕ → List DetectedObject → Text
head_text seq objects =
    codes "{\"v\":1,\"seq\":"
    ++ decimal seq
    ++ codes ",\"count\":"
    ++ decimal (length objects)
    ++ codes ",\"objects\":["

abbrev pub tail_text : Bool → Text
tail_text truncated = codes "],\"truncated\":" ++ true_or_false truncated ++ codes "}"

-- What follows the loop over `count` objects.
unfoldable pub close_list : ℕ → Text × ℕ × ℕ → Option View
close_list count (buf, n, written) =
    let end = tail_text (ltb written count) in
    if printed end == 0
    then none
    else some (record { buffer = put buf n (detections_size - n) end; size = n + printed end })

module _ (fixed2 : ℕ → Text) where
  abbrev pub latency_text : LatencySample → Text
  latency_text s =
      codes "{\"v\":1,\"cap_p95_us\":"
      ++ decimal s.cap_p95_us
      ++ codes ",\"proc_p95_us\":"
      ++ decimal s.proc_p95_us
      ++ codes ",\"enc_p95_us\":"
      ++ decimal s.enc_p95_us
      ++ codes ",\"fps\":"
      ++ fixed2 s.fps
      ++ codes ",\"dropped\":"
      ++ decimal s.dropped
      ++ codes "}"

  abbrev pub latency_payload : LatencySample → Option View
  latency_payload s = whole 220 (latency_text s)

  abbrev pub object_text : Bool → DetectedObject → Text
  object_text first o =
      (if first then [] else codes ",")
      ++ codes "{\"label\":\""
      ++ c_string o.label
      ++ codes "\",\"conf\":"
      ++ fixed2 o.confidence
      ++ codes ",\"x\":"
      ++ signed o.x
      ++ codes ",\"y\":"
      ++ signed o.y
      ++ codes ",\"w\":"
      ++ signed o.w
      ++ codes ",\"h\":"
      ++ signed o.h
      ++ codes "}"

  -- The loop over the objects, from `n` bytes and `written` objects on.
  unfoldable pub add_objects : List DetectedObject → Text → ℕ → ℕ → Text × ℕ × ℕ
  add_objects [] buf n written = (buf, n, written)
  add_objects (o ∷ os) buf n written =
      let t = object_text (written == 0) o in
      let room = detections_size - n - 16 in
      let buf' = put buf n room t in
      let rest = add_objects os buf' (n + printed t) (written + 1) in
      if room == 0
      then (buf, n, written)
      else if printed t == 0 || leb room (printed t)
      then (buf', n, written)
      else rest

  unfoldable pub detections_payload : ℕ → List DetectedObject → Option View
  detections_payload seq objects =
      let t = head_text seq objects in
      if printed t == 0
      then none
      else close_list (length objects)
          (add_objects objects (put (zeroed detections_size) 0 detections_size t) (printed t) 0)
