-- ===== src/Fs/Blkfs.antt =====
-- kernel/fs/blkfs.c: YartFS, the on-disk file system.
pub mod Layout
pub mod Space
pub mod Blocks
