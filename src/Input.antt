-- ===== src/Input.antt =====
-- The interrupt handler of src/kernel/idt/idt.cpp: the keyboard's and the mouse's parts of
-- `interrupt_handler`, and the descriptor tables.
pub mod Keyboard
pub mod Mouse
pub mod Gates
pub mod Ps2
mod Tests
