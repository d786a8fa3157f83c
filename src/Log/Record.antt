-- ===== src/Log/Record.antt =====
-- framework/log/include/optronic/log/record.hpp, with `copy_truncated` and `KeyValue::of` of
-- framework/log/src/logger.cpp. A char array is the list of its bytes; a value is its 64 bits.
pub mod Truncation
use optronic.Common.{
  ℕ, ◌+◌, ◌-◌, min, Bool, List, [], ◌∷◌, ◌++◌, map, length, take, drop, replicate, ltb,
}

pub data Level : Type 0 where
  trace debug info warn error : Level

abbrev pub to_u8 : Level → ℕ
to_u8 trace = 0
to_u8 debug = 1
to_u8 info = 2
to_u8 warn = 3
to_u8 error = 4

-- `a < b` on the enumeration
abbrev pub below : Level → Level → Bool
below a b = ltb (to_u8 a) (to_u8 b)

pub data ValueKind : Type 0 where
  none integer real : ValueKind

pub record KeyValue : Type 0 where
  pub key : List ℕ
  pub kind : ValueKind
  pub value : ℕ

abbrev pub max_key_values : ℕ
max_key_values = 4

pub record Record : Type 0 where
  pub ts_mono_ns : ℕ
  pub seq : ℕ
  pub component : List ℕ
  pub msg : List ℕ
  pub kv : List KeyValue
  pub level : Level
  pub kv_count : ℕ

abbrev pub blank_kv : KeyValue
blank_kv = record { key = replicate 15 0; kind = none; value = 0 }

-- What the source writes into `dst`, an array of `dst_size` bytes.
unfoldable pub copy_truncated : List ℕ → ℕ → List ℕ → List ℕ
copy_truncated dst dst_size src =
    let n = min (length src) (dst_size - 1) in take n src ++ (0 ∷ drop (n + 1) dst)

unfoldable pub of_integer : List ℕ → ℕ → KeyValue
unfolding copy_truncated
of_integer k bits = record {
  key = copy_truncated (replicate 15 0) 15 k;
  kind = integer;
  value = bits;
}

unfoldable pub of_real : List ℕ → ℕ → KeyValue
unfolding copy_truncated
of_real k bits = record { key = copy_truncated (replicate 15 0) 15 k; kind = real; value = bits }

-- The bits of the double that a real value holds.
unfoldable pub as_real : KeyValue → ℕ
as_real kv = kv.value

-- The record that `Logger::log` fills in.
unfoldable pub make_record : Level → List ℕ → List ℕ → List KeyValue → ℕ → ℕ → Record
unfolding copy_truncated
make_record l component msg kv now seq =
    let n = min (length kv) max_key_values in
    record {
      ts_mono_ns = now;
      seq = seq;
      component = copy_truncated (replicate 16 0) 16 component;
      msg = copy_truncated (replicate 96 0) 96 msg;
      kv = take n kv ++ replicate (max_key_values - n) blank_kv;
      level = l;
      kv_count = n;
    }
