-- ===== src/Hal.antt =====
-- framework/hal: the register backend and its host stand-in, typed registers, and the ISP_CTRL block.
pub mod Mmio
pub mod Register
pub mod Isp
pub mod Uio
mod Tests
