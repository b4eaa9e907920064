-- ===== src/Apps.antt =====
-- The applications of src/kernel/applications.
pub mod Calculator
pub mod Canvas
pub mod Xeyes
mod Tests
