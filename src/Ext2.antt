-- ===== src/Ext2.antt =====
-- The file system, src/kernel/filesystem/ext2.cpp and src/include/ext2.h, with the sector transfers
-- of src/kernel/utils/utils.cpp under it.
pub mod Disk
pub mod Inode
pub mod Bitmap
pub mod Dir
pub mod Path
pub mod Commands
mod Tests
