-- ===== src/Memory.antt =====
-- The memory manager, src/kernel/memory/memory.cpp and src/include/memory.h.
pub mod Pmm
pub mod Slab
pub mod Paging
