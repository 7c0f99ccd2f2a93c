-- ===== src/Fs.antt =====
-- kernel/fs: the file systems.
pub mod Blkfs
pub mod Vfs
