-- ===== src/Telemetry.antt =====
-- modules/telemetry: the publisher (publisher.hpp, publisher.cpp).
pub mod Payload
pub mod Client
pub mod Sizes
pub mod Detections
pub mod Counts
pub mod Lifetime
mod Tests
