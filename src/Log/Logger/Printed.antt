-- ===== src/Log/Logger/Printed.antt =====
-- What the lines of the output look like: `level_name` (record.hpp), and the text that `write_record`
-- and `report_drops` print (logger.cpp). What the C library prints for `%.3f` of a double is a
-- parameter.
pub mod Lines
use optronic.Common.{
  ℕ, zero, suc, ◌+◌, ◌-◌, ◌*◌, ◌/◌, ◌%◌, ◌^◌, ◌≡◌, refl, Bool, true, false, List, [], ◌∷◌, ◌++◌,
  length, replicate, take, ltb, if◌then◌else◌, ◌==◌, arith,
}
use optronic.Common.Text.{Text, codes, decimal}
use optronic.Common.Int.{ℤ, pos, negsuc}
use optronic.Log.Record.{
  Level, trace, debug, info, warn, error, ValueKind, none, integer, real, KeyValue, Record, as_real,
}
use optronic.Log.Record.Truncation.{c_string}
use optronic.Log.Logger.{Line, entry, drops}

unfoldable pub level_name : Level → Text
level_name trace = codes "TRACE"
level_name debug = codes "DEBUG"
level_name info = codes "INFO"
level_name warn = codes "WARN"
level_name error = codes "ERROR"

-- %6…, %-5… and %03…
abbrev pub pad_left : ℕ → Text → Text
pad_left width t = replicate (width - length t) b' ' ++ t

abbrev pub pad_right : ℕ → Text → Text
pad_right width t = t ++ replicate (width - length t) b' '

abbrev pub zero_pad : ℕ → Text → Text
zero_pad width t = replicate (width - length t) b'0' ++ t

-- The 64 bits of a value, as PRId64 prints them.
abbrev pub int64_text : ℕ → Text
int64_text bits = if ltb bits (2 ^ 63) then decimal bits else b'-' ∷ decimal (2 ^ 64 - bits)

abbrev pub newline : Text
newline = 10 ∷ []

module _ (fixed3 : ℕ → Text) where
  abbrev pub value_text : ValueKind → KeyValue → Text
  value_text none kv = []
  value_text integer kv = codes " " ++ c_string kv.key ++ codes "=" ++ int64_text kv.value
  value_text real kv = codes " " ++ c_string kv.key ++ codes "=" ++ fixed3 (as_real kv)

  -- The loop over the key-values, of which `kv_count` are printed.
  unfoldable pub kv_texts : ℕ → List KeyValue → Text
  kv_texts zero kv = []
  kv_texts (suc left) [] = []
  kv_texts (suc left) (kv ∷ rest) = value_text kv.kind kv ++ kv_texts left rest

  -- The conversion of the seconds to std::time_t changes nothing that 64 bits of nanoseconds hold.
  unfoldable pub record_text : Record → Text
  unfolding level_name kv_texts
  record_text r =
      let secs = r.ts_mono_ns / 1_000_000_000 in
      let ms = r.ts_mono_ns % 1_000_000_000 / 1_000_000 in
      pad_left 6 (decimal secs)
      ++ codes "."
      ++ zero_pad 3 (decimal ms)
      ++ codes " "
      ++ pad_right 5 (level_name r.level)
      ++ codes " "
      ++ pad_right 10 (c_string r.component)
      ++ codes " "
      ++ c_string r.msg
      ++ kv_texts r.kv_count r.kv
      ++ newline

  unfoldable pub drops_text : ℕ → Text
  unfolding level_name
  drops_text n =
      pad_left 6 []
      ++ codes " "
      ++ pad_right 5 (level_name warn)
      ++ codes " "
      ++ pad_right 10 (codes "log")
      ++ codes " log dropped="
      ++ decimal n
      ++ newline

  abbrev pub line_text : Line → Text
  line_text (entry r) = record_text r
  line_text (drops n) = drops_text n

  -- The whole output.
  unfoldable pub printed : List Line → Text
  unfolding record_text drops_text
  printed [] = []
  printed (l ∷ ls) = line_text l ++ printed ls
