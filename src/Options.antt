-- ===== src/Options.antt =====
-- main.cpp: the command line of the node. A text is its bytes; the arguments are those after argv[0].
pub mod Numbers
pub mod Accepted
mod Tests
use optronic.Common.{
  ℕ, ◌+◌, ◌%◌, ◌^◌, Bool, true, false, not, ◌||◌, Option, none, some, List, [], ◌∷◌, ltb, ◌==◌,
  if◌then◌else◌,
}
use optronic.Common.Int.{ℤ, pos, signed32}
use optronic.Common.Text.{Text, codes, same, is_empty, span_digits, read_digits}
use optronic.Log.Record.{Level, info, debug, warn}

pub record Options : Type 0 where
  pub gain : ℕ
  pub width : ℕ
  pub height : ℕ
  pub fps : ℕ
  pub host : Text
  pub port : ℕ
  pub stream : Bool
  pub video : Bool
  pub camera : Bool
  pub device : Text
  pub pattern : ℕ
  pub detect : Bool
  pub model : Text
  pub input_size : ℕ
  pub detect_sync : Bool
  pub nuc_after : ℤ
  pub broker : Text
  pub node : Text
  pub seconds : ℤ
  pub level : Level

abbrev pub default_options : Options
default_options = record {
  gain = 0x0100;
  width = 1280;
  height = 720;
  fps = 30;
  host = codes "127.0.0.1";
  port = 5600;
  stream = false;
  video = true;
  camera = false;
  device = codes "/dev/video0";
  pattern = 0;
  detect = false;
  model = [];
  input_size = 0;
  detect_sync = false;
  nuc_after = pos 0;
  broker = [];
  node = codes "node1";
  seconds = pos 0;
  level = info;
}

-- std::from_chars for std::uint32_t: what is left after the digits, and the number then. With no
-- digit, or a value out of range, the number keeps its value.
unfoldable pub from_chars : Text → ℕ → Text × ℕ
from_chars s out =
    let (ds, rest) = span_digits s in
    let value = read_digits ds 0 in
    if is_empty ds || not (ltb value (2 ^ 32)) then (rest, out) else (rest, value)

-- The test is on `.ptr` alone.
unfoldable pub parse_u32 : Text → ℕ → Bool × ℕ
unfolding from_chars
parse_u32 s out = let (rest, out') = from_chars s out in (is_empty rest, out')

-- The branches of the chain of tests on an argument, in its order.
pub data Flag : Type 0 where
  f_gain f_width f_height f_fps f_host f_port f_stream f_no_video f_camera f_detect : Flag
  f_input_size f_detect_sync f_model f_device f_pattern f_nuc f_broker f_node : Flag
  f_seconds f_debug f_quiet : Flag

abbrev pub flags : List (Text × Flag)
flags =
    (codes "--gain", f_gain)
    ∷ (codes "--width", f_width)
    ∷ (codes "--height", f_height)
    ∷ (codes "--fps", f_fps)
    ∷ (codes "--host", f_host)
    ∷ (codes "--port", f_port)
    ∷ (codes "--stream", f_stream)
    ∷ (codes "--no-video", f_no_video)
    ∷ (codes "--camera", f_camera)
    ∷ (codes "--detect", f_detect)
    ∷ (codes "--input-size", f_input_size)
    ∷ (codes "--detect-sync", f_detect_sync)
    ∷ (codes "--model", f_model)
    ∷ (codes "--device", f_device)
    ∷ (codes "--pattern", f_pattern)
    ∷ (codes "--nuc", f_nuc)
    ∷ (codes "--broker", f_broker)
    ∷ (codes "--node", f_node)
    ∷ (codes "--seconds", f_seconds)
    ∷ (codes "--debug", f_debug)
    ∷ (codes "--quiet", f_quiet)
    ∷ []

unfoldable pub find_flag : Text → List (Text × Flag) → Option Flag
find_flag a [] = none
find_flag a ((name, f) ∷ rest) = if same a name then some f else find_flag a rest

-- What one argument does: `return false`, or it goes on, with `next()` called or not.
pub data Turn : Type 0 where
  refused : Options → Turn
  alone : Options → Turn
  with_value : Options → Turn

abbrev pub unless : Bool → Options → Turn
unless bad o = if bad then refused o else with_value o

-- `s` is what `next()` gives.
unfoldable pub turn : Flag → Text → Options → Turn
turn f_gain s o = let (fine, n) = parse_u32 s o.gain in unless (not fine) (record o { gain = n })
turn f_width s o =
    let (fine, n) = parse_u32 s o.width in unless (not fine || n == 0) (record o { width = n })
turn f_height s o =
    let (fine, n) = parse_u32 s o.height in unless (not fine || n == 0) (record o { height = n })
turn f_fps s o =
    let (fine, n) = parse_u32 s o.fps in unless (not fine || n == 0) (record o { fps = n })
turn f_host s o =
    if is_empty s
    then refused (record o { host = s })
    else with_value (record o { host = s; stream = true })
turn f_port s o =
    let (fine, p) = parse_u32 s 0 in
    if not fine || p == 0 || ltb 65535 p
    then refused o
    else with_value (record o { port = p % 2 ^ 16; stream = true })
turn f_stream s o = alone (record o { stream = true })
turn f_no_video s o = alone (record o { video = false })
turn f_camera s o = alone (record o { camera = true })
turn f_detect s o = alone (record o { detect = true })
turn f_input_size s o =
    let (fine, n) = parse_u32 s o.input_size in
    if not fine || ltb n 96 || ltb 1280 n
    then refused (record o { input_size = n })
    else with_value (record o { input_size = n; detect = true })
turn f_detect_sync s o = alone (record o { detect_sync = true; detect = true })
turn f_model s o =
    if is_empty s
    then refused (record o { model = s })
    else with_value (record o { model = s; detect = true })
turn f_device s o =
    if is_empty s
    then refused (record o { device = s })
    else with_value (record o { device = s; camera = true })
turn f_pattern s o =
    let (fine, n) = parse_u32 s o.pattern in unless (not fine) (record o { pattern = n })
turn f_nuc s o =
    let (fine, n) = parse_u32 s 0 in
    if not fine || n == 0 then refused o else with_value (record o { nuc_after = signed32 n })
turn f_broker s o = unless (is_empty s) (record o { broker = s })
turn f_node s o = unless (is_empty s) (record o { node = s })
turn f_seconds s o =
    let (fine, n) = parse_u32 s 0 in
    if not fine then refused o else with_value (record o { seconds = signed32 n })
turn f_debug s o = alone (record o { level = debug })
turn f_quiet s o = alone (record o { level = warn })

unfoldable pub chosen : Option Flag → Text → Options → Turn
unfolding turn
chosen none s o = refused o
chosen (some f) s o = turn f s o

unfoldable pub argument : Text → Text → Options → Turn
unfolding find_flag chosen
argument a s o = chosen (find_flag a flags) s o

-- The loop; the result goes with the options as they are then.
unfoldable pub parse_args : List Text → Options → Bool × Options
parse_args [] o = (true, o)
parse_args (a ∷ []) o = elim (argument a [] o) [
  | refused o' ↦ (false, o')
  | alone o' ↦ (true, o')
  | with_value o' ↦ (true, o')
]
parse_args (a ∷ s ∷ rest) o = elim (argument a s o) [
  | refused o' ↦ (false, o')
  | alone o' ↦ parse_args (s ∷ rest) o'
  | with_value o' ↦ parse_args rest o'
]
