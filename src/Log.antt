-- ===== src/Log.antt =====
-- framework/log: the record, the ring of each producing thread, and the logger that drains them.
pub mod Ring
pub mod Record
pub mod Logger
mod Tests
