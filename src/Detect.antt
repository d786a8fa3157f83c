-- ===== src/Detect.antt =====
-- modules/detect: the detection stage (yolo.hpp, yolo.cpp).
pub mod Draw
pub mod Copy
pub mod Pacing
pub mod Load
pub mod Mailbox
pub mod Stage
pub mod Yolo
mod Tests
