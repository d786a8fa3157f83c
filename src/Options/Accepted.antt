-- ===== src/Options/Accepted.antt =====
-- What holds of the options that the program runs with.
use optronic.Common.{
  ◌^◌, ◌<◌, ◌≤◌, ◌≡◌, ◌⊎◌, Bool, true, false, Option, none, some, List, [], ◌∷◌, ltb, Bool-cases,
  inl, inr, ℕ, arith,
}
use optronic.Common.Int.{ℤ, pos, negsuc, signed32}
use optronic.Common.Text.{Text, is_empty}
use optronic.Options.{
  Options, Flag, flags, find_flag, Turn, refused, alone, with_value, turn, chosen, argument,
  parse_u32, parse_args,
}
use optronic.Options.Numbers.{parse_u32-below}

-- The value is one of an `int`.
abbrev pub IsInt : ℤ → Type 0
IsInt (pos n) = n < 2 ^ 31
IsInt (negsuc n) = n < 2 ^ 31

signed32-IsInt : (w : ℕ) → w < 2 ^ 32 → IsInt (signed32 w)
signed32-IsInt w h = elim (Bool-cases (ltb w (2 ^ 31))) [
  | inl e ↦ rw e (ground arith)
  | inr e ↦ rw e (ground arith)
]

abbrev pub Numbers : Options → Type 0
Numbers o =
    ((0 < o.width) × (o.width < 2 ^ 32))
    × ((0 < o.height) × (o.height < 2 ^ 32))
    × ((0 < o.fps) × (o.fps < 2 ^ 32))
    × ((0 < o.port) × (o.port < 2 ^ 16))
    × (o.gain < 2 ^ 32)
    × (o.pattern < 2 ^ 32)
    × IsInt o.nuc_after
    × IsInt o.seconds

abbrev pub Names : Options → Type 0
Names o = (is_empty o.host ≡ false) × (is_empty o.device ≡ false) × (is_empty o.node ≡ false)

-- The options of the detector are set only when it is on.
abbrev pub Stage : Options → Type 0
Stage o =
    ((o.input_size ≡ 0) ⊎ ((96 ≤ o.input_size) × (o.input_size ≤ 1280) × (o.detect ≡ true)))
    × ((is_empty o.model ≡ true) ⊎ (o.detect ≡ true))
    × ((o.detect_sync ≡ false) ⊎ (o.detect ≡ true))

abbrev pub Valid : Options → Type 0
Valid o = Numbers o × Names o × Stage o

abbrev Fine : Turn → Type 0
Fine (refused o) = Unit
Fine (alone o) = Valid o
Fine (with_value o) = Valid o

turn-Fine : (f : Flag) (s : Text) (o : Options) → Valid o → Fine (turn f s o)
unfolding turn
turn-Fine Flag.f_gain s o v = ground (arith, parse_u32-below s o.gain v.0.4)
turn-Fine Flag.f_width s o v = ground (arith, parse_u32-below s o.width v.0.0.1)
turn-Fine Flag.f_height s o v = ground (arith, parse_u32-below s o.height v.0.1.1)
turn-Fine Flag.f_fps s o v = ground (arith, parse_u32-below s o.fps v.0.2.1)
turn-Fine Flag.f_host s o v = ground arith
turn-Fine Flag.f_port s o v = ground arith
turn-Fine Flag.f_stream s o v = ground arith
turn-Fine Flag.f_no_video s o v = ground arith
turn-Fine Flag.f_camera s o v = ground arith
turn-Fine Flag.f_detect s o v = ground arith
turn-Fine Flag.f_input_size s o v = ground arith
turn-Fine Flag.f_detect_sync s o v = ground arith
turn-Fine Flag.f_model s o v = ground arith
turn-Fine Flag.f_device s o v = ground arith
turn-Fine Flag.f_pattern s o v = ground (arith, parse_u32-below s o.pattern v.0.5)
turn-Fine Flag.f_nuc s o v =
    let i = signed32-IsInt (parse_u32 s 0).1 (parse_u32-below s 0 (omega arith)) in
    ground (arith, i)
turn-Fine Flag.f_broker s o v = ground arith
turn-Fine Flag.f_node s o v = ground arith
turn-Fine Flag.f_seconds s o v =
    let i = signed32-IsInt (parse_u32 s 0).1 (parse_u32-below s 0 (omega arith)) in
    ground (arith, i)
turn-Fine Flag.f_debug s o v = ground arith
turn-Fine Flag.f_quiet s o v = ground arith

chosen-Fine : (f : Option Flag) (s : Text) (o : Options) → Valid o → Fine (chosen f s o)
unfolding chosen
chosen-Fine none s o v = tt
chosen-Fine (some f) s o v = turn-Fine f s o v

argument-Fine : (a s : Text) (o : Options) → Valid o → Fine (argument a s o)
unfolding argument
argument-Fine a s o v = chosen-Fine (find_flag a flags) s o v

abbrev Keeps : List Text → Type 0
Keeps args = (o : Options) → Valid o → (parse_args args o).0 ≡ true → Valid (parse_args args o).1

last-Keeps : (a : Text) → Keeps (a ∷ [])
unfolding parse_args
last-Keeps a o v h = go (argument a [] o) (argument-Fine a [] o v) h
  where
    go :
        (t : Turn)
        → Fine t
        → (elim t as (λ _. Bool × Options) [
          | refused o' ↦ (false, o')
          | alone o' ↦ (true, o')
          | with_value o' ↦ (true, o')
        ]).0
          ≡ true
        → Valid
            (elim t as (λ _. Bool × Options) [
              | refused o' ↦ (false, o')
              | alone o' ↦ (true, o')
              | with_value o' ↦ (true, o')
            ]).1
    go (refused o') w e = absurd (cc)
    go (alone o') w e = w
    go (with_value o') w e = w

more-Keeps : (a s : Text) (rest : List Text) → Keeps (s ∷ rest) → Keeps rest → Keeps (a ∷ s ∷ rest)
unfolding parse_args
more-Keeps a s rest k k' o v h = go (argument a s o) (argument-Fine a s o v) h
  where
    go :
        (t : Turn)
        → Fine t
        → (elim t as (λ _. Bool × Options) [
          | refused o' ↦ (false, o')
          | alone o' ↦ parse_args (s ∷ rest) o'
          | with_value o' ↦ parse_args rest o'
        ]).0
          ≡ true
        → Valid
            (elim t as (λ _. Bool × Options) [
              | refused o' ↦ (false, o')
              | alone o' ↦ parse_args (s ∷ rest) o'
              | with_value o' ↦ parse_args rest o'
            ]).1
    go (refused o') w e = absurd (cc)
    go (alone o') w e = k o' w e
    go (with_value o') w e = k' o' w e

-- Options that a command line is accepted with are usable if those it started from were: the sizes,
-- the frame rate and the port are not 0, every number fits its type (those of `--nuc` and
-- `--seconds` an `int`), the host, the device and the
-- node have a name, and whatever asks for the detector has turned it on.
pub parse_args-Valid :
    (args : List Text) (o : Options)
    → Valid o
    → (parse_args args o).0 ≡ true
    → Valid (parse_args args o).1
unfolding parse_args
parse_args-Valid [] o v h = v
parse_args-Valid (a ∷ []) o v h = last-Keeps a o v h
parse_args-Valid (a ∷ s ∷ rest) o v h =
    more-Keeps a s rest (parse_args-Valid (s ∷ rest)) (parse_args-Valid rest) o v h
