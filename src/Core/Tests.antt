-- ===== src/Core/Tests.antt =====
-- Codes as a test of the repository reads them.
use optronic.Common.{◌≡◌, refl}
use optronic.Core.Error.{hal_map, to_u16, domain_of}

domain_of_hal : domain_of hal_map ≡ 0x0300
unfolding domain_of to_u16
domain_of_hal = refl
