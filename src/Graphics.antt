-- ===== src/Graphics.antt =====
-- The screen of src/kernel/wm/gfx.cpp and the windows of src/kernel/wm/wm.cpp. An `int` is an
-- integer, which the coordinates on a screen keep far from the bounds of 32 bits.
pub mod Screen
pub mod Pixels
pub mod Windows
pub mod Layers
pub mod Hits
pub mod Order
pub mod Sorted
pub mod Shapes
pub mod Desktop
pub mod Rounds
mod Tests
