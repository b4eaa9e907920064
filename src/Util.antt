-- ===== src/Util.antt =====
-- The memory and arithmetic helpers of src/kernel/utils/utils.cpp.
pub mod Bytes
pub mod Sqrt
mod Tests
