-- ===== src/Core/Error.antt =====
-- framework/core/include/optronic/core/error.hpp. The enumerators keep the source's order; the text
-- `where` of an `Error` is one of the program's literals.
use Prim.Native.String.{String}
use optronic.Common.{ℕ, bit_and}

pub data Code : Type 0 where
  ok : Code
  invalid_arg timeout not_ready io no_mem : Code
  cfg_parse cfg_schema cfg_range : Code
  hal_open hal_map hal_id_mismatch hal_irq_timeout hal_shutter : Code
  vid_build vid_state vid_encoder_lost vid_stall vid_caps : Code
  bit_poweron bit_continuous : Code
  mqtt_connect : Code

-- static_cast<std::uint16_t>(c)
unfoldable pub to_u16 : Code → ℕ
to_u16 Code.ok = 0x0000
to_u16 invalid_arg = 0x0001
to_u16 timeout = 0x0002
to_u16 not_ready = 0x0003
to_u16 io = 0x0004
to_u16 no_mem = 0x0005
to_u16 cfg_parse = 0x0201
to_u16 cfg_schema = 0x0202
to_u16 cfg_range = 0x0203
to_u16 hal_open = 0x0301
to_u16 hal_map = 0x0302
to_u16 hal_id_mismatch = 0x0303
to_u16 hal_irq_timeout = 0x0304
to_u16 hal_shutter = 0x0305
to_u16 vid_build = 0x0401
to_u16 vid_state = 0x0402
to_u16 vid_encoder_lost = 0x0403
to_u16 vid_stall = 0x0404
to_u16 vid_caps = 0x0405
to_u16 bit_poweron = 0x0501
to_u16 bit_continuous = 0x0502
to_u16 mqtt_connect = 0x0601

pub record Error : Type 0 where
  pub code : Code
  pub location : String

unfoldable pub domain_of : Code → ℕ
unfolding to_u16
domain_of c = bit_and (to_u16 c) 0xFF00

-- The domains that the ranges of the enumeration stand for.
pub data Domain : Type 0 where
  generic config hal video bit telemetry : Domain

-- The high byte that a domain reserves, in place.
abbrev pub domain_base : Domain → ℕ
domain_base generic = 0x0000
domain_base config = 0x0200
domain_base hal = 0x0300
domain_base video = 0x0400
domain_base bit = 0x0500
domain_base telemetry = 0x0600

-- The group of the enumeration in which each code stands.
abbrev pub group : Code → Domain
group Code.ok = generic
group invalid_arg = generic
group timeout = generic
group not_ready = generic
group io = generic
group no_mem = generic
group cfg_parse = config
group cfg_schema = config
group cfg_range = config
group hal_open = hal
group hal_map = hal
group hal_id_mismatch = hal
group hal_irq_timeout = hal
group hal_shutter = hal
group vid_build = video
group vid_state = video
group vid_encoder_lost = video
group vid_stall = video
group vid_caps = video
group bit_poweron = bit
group bit_continuous = bit
group mqtt_connect = telemetry
