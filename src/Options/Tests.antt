-- ===== src/Options/Tests.antt =====
-- Command lines of the README and of the edge cases.
use optronic.Common.{
  ◌≡◌, ◌⊎◌, refl, true, false, not, ◌||◌, List, [], ◌∷◌, ltb, if◌then◌else◌, arith, ◌^◌,
}
use optronic.Common.Text.{Text, codes, same, span_digits, AllDigits, is_empty, read_digits, decimal}
use optronic.Options.{default_options, parse_u32, parse_args, argument, chosen, find_flag, turn}
use optronic.Options.Numbers.{parse_u32-AllDigits, parse_u32-decimal}
use optronic.Options.Accepted.{Valid, parse_args-Valid}

abbrev streaming : List Text
streaming = codes "--port" ∷ codes "5700" ∷ codes "--detect-sync" ∷ codes "--fps" ∷ codes "25" ∷ []

default-Valid : Valid default_options
default-Valid = ground arith

-- `--fps` as the last argument is accepted, and changes nothing.
missing_value : parse_args (codes "--fps" ∷ []) default_options ≡ (true, default_options)
unfolding parse_args argument chosen find_flag turn parse_u32 same span_digits read_digits
missing_value = refl

-- So is a width of more than 32 bits.
too_wide :
    parse_args (codes "--width" ∷ codes "4294967297" ∷ []) default_options ≡ (true, default_options)
unfolding parse_args argument chosen find_flag turn parse_u32 same span_digits read_digits
too_wide = refl

parse_u32-AllDigits_example :
    ((AllDigits (codes "4294967296"))
      × (parse_u32 (codes "4294967296") 7 ≡ (
        true,
        if is_empty (codes "4294967296") || not (ltb (read_digits (codes "4294967296") 0) (2 ^ 32))
            then 7
            else read_digits (codes "4294967296") 0,
      )))
    ⊎ ((¬ AllDigits (codes "4294967296")) × ((parse_u32 (codes "4294967296") 7).0 ≡ false))
parse_u32-AllDigits_example = parse_u32-AllDigits (codes "4294967296") 7

parse_u32-decimal_example : parse_u32 (decimal 5600) 0 ≡ (true, 5600)
parse_u32-decimal_example = parse_u32-decimal 5600 0 (omega arith)

parse_args-Valid_example : Valid (parse_args streaming default_options).1
unfolding parse_args argument chosen find_flag turn parse_u32 same span_digits read_digits
parse_args-Valid_example = parse_args-Valid streaming default_options default-Valid refl
