-- ===== src/Fs.antt =====
-- The inode file system of fs/fs.c over the on-disk layout of kernel/include/fs.h.
pub mod Layout
pub mod State
pub mod Bitmap
pub mod Inode
pub mod Rw
pub mod Format
pub mod Dir
pub mod Path
pub mod Samples
