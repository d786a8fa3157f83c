-- ===== src/Core.antt =====
-- framework/core: the error space (error.hpp) and recoverable failure (expected.hpp).
pub mod Error
pub mod Expected
mod Tests
